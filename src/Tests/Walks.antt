-- ===== src/Tests/Walks.antt =====
-- The walk through directories at a concrete input.
use cc_base.Base.{
  ℕ, refl, ◌<◌, true, some, List, [], ◌∷◌, ◌≡◌, ap, sym, ◌∙◌, inl, inr, arith, Bool-cases,
  if◌then◌else◌, ◌||◌,
}
use cc_base.Cstring.{Bytes, codes, streq}
use cc_base.Cstring.Laws.{streq→eq}
use cc_base.Sources.Keys.{mem_text}
use cc_base.Util.Walk.{Tree, path_kind, walk_entries, iterate_directory_recursive}
use cc_base.Metrics.Parser.{parser_callback, enqueue_inputs}
use cc_base.Metrics.Below.{Below, IsFile, IsQuiet, IsRanked}
use cc_base.Metrics.Jobs.{enqueue_inputs-Below}

-- The directory w holds the file w/a and the directory w/d, which is empty. The directory v cannot be
-- read.
abbrev work : Tree
work = record {
  canonical = λ p. some p;
  exists = λ p. some true;
  is_directory = λ p. some (streq p (codes "w") || (streq p (codes "w/d") || streq p (codes "v")));
  is_regular_file = λ p. some (streq p (codes "w/a"));
  entries = λ p. if streq p (codes "w") then codes "w/a" ∷ (codes "w/d" ∷ []) else [];
  listing_fails = λ p. streq p (codes "v");
}

-- The directory w is above all others.
abbrev height : Bytes → ℕ
height p = if streq p (codes "w") then 1 else 0

work-IsRanked : IsRanked work height
unfolding mem_text streq
work-IsRanked path entry d m = elim (Bool-cases (streq path (codes "w"))) [
  | inl top ↦ elim (Bool-cases (streq entry (codes "w"))) [
    | inl loop ↦
        let two = codes "w/a" ∷ (codes "w/d" ∷ []) in
        let q : mem_text (codes "w") two ≡ true =
          ap (λ e. mem_text e two) (sym (streq→eq entry (codes "w") loop))
          ∙ (sym (ap (λ b. mem_text entry (if b then two else [])) top) ∙ m) in
        absurd (cc)
    | inr below ↦ rw (top, below) (omega arith)
  ]
  | inr other ↦ absurd (ground (arith, m, other))
]

abbrev inputs : List Bytes
inputs = codes "v" ∷ (codes "w" ∷ [])

height_of_input : (p : Bytes) → mem_text p inputs ≡ true → height p < 2
height_of_input p m = ground arith

enqueue_inputs-Below_example :
    (jobs : List Bytes) × (enqueue_inputs work 2 inputs [] ≡ some jobs)
    × ((q : Bytes)
        → mem_text q jobs ≡ true
        → ((p : Bytes) × (mem_text p inputs ≡ true) × Below work p q) × IsFile work q)
    × ((p q : Bytes)
        → mem_text p inputs ≡ true
        → IsQuiet work p
        → Below work p q
        → IsFile work q
        → mem_text q jobs ≡ true)
enqueue_inputs-Below_example =
    enqueue_inputs-Below work height 2 inputs work-IsRanked height_of_input

-- The exception at v does not keep w from its walk.
walks_on : enqueue_inputs work 2 inputs [] ≡ some (codes "w/a" ∷ [])
unfolding enqueue_inputs iterate_directory_recursive walk_entries path_kind parser_callback streq
walks_on = refl
