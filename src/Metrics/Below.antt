-- ===== src/Metrics/Below.antt =====
-- What a walk through directories finds below a path.
use cc_base.Base.{
  ℕ, ◌<◌, Bool, true, false, ◌||◌, Option, none, some, List, [], ◌∷◌, ◌≡◌, ◌≢◌, refl, ap, ◌∙◌, inl,
  inr, ◌⊎◌, arith, Bool-cases, Option-cases,
}
use cc_base.Cstring.{Bytes, streq}
use cc_base.Cstring.Laws.{streq_refl, streq→eq}
use cc_base.Sources.Keys.{mem_text}
use cc_base.Graph.Scan.{mem_text-append}
use cc_base.Metrics.Parser.{parser_callback}
use cc_base.Util.Walk.{
  Tree, PathKind, gone, fails, leaf, directory, path_kind, WalkEnd, returns, throws, state_of,
}

-- The paths that are named below a path, itself with them.
pub data Below (fs : Tree) : Bytes → Bytes → Type 0 where
  itself : {path : Bytes} → Below fs path path
  inside :
      {path entry target : Bytes}
      → path_kind fs path ≡ directory
      → mem_text entry (fs.entries path) ≡ true
      → Below fs entry target
      → Below fs path target

abbrev pub is_present : PathKind → Bool
is_present gone = false
is_present fails = false
is_present leaf = true
is_present directory = true

-- A regular file that gets a callback.
pub record IsFile (fs : Tree) (path : Bytes) : Type 0 where
  pub present : is_present (path_kind fs path) ≡ true
  pub regular : fs.is_regular_file path ≡ some true

abbrev pub throws_for : Option Bool → Bool
throws_for none = true
throws_for (some answer) = false

-- Whether an exception is thrown at a path.
abbrev pub throws_at : Tree → Bytes → Bool
throws_at fs path = elim (path_kind fs path) [
  | gone ↦ false
  | fails ↦ true
  | leaf ↦ throws_for (fs.is_regular_file path)
  | directory ↦ throws_for (fs.is_regular_file path) || fs.listing_fails path
]

-- No exception is thrown at any path below.
abbrev pub IsQuiet : Tree → Bytes → Type 0
IsQuiet fs path = (q : Bytes) → Below fs path q → throws_at fs q ≡ false

-- A directory is above its entries.
abbrev pub IsRanked : Tree → (Bytes → ℕ) → Type 0
IsRanked fs rank =
    (path entry : Bytes)
    → path_kind fs path ≡ directory
    → mem_text entry (fs.entries path) ≡ true
    → rank entry < rank path

abbrev pub has_returned : {S : Type 0} → WalkEnd S → Bool
has_returned (returns goes_on s) = true
has_returned (throws s) = false

-- The jobs are those that were there, and files below some paths; all of these if nothing throws.
pub record Adds (fs : Tree) (below : Bytes → Type 0) (quiet : Type 0) (jobs : List Bytes)
    (r : WalkEnd (List Bytes)) : Type 0 where
  pub kept : (q : Bytes) → mem_text q jobs ≡ true → mem_text q (state_of r) ≡ true
  pub sound :
      (q : Bytes)
      → mem_text q (state_of r) ≡ true
      → (mem_text q jobs ≡ true) ⊎ (below q × IsFile fs q)
  pub done : quiet → has_returned r ≡ true
  pub full : quiet → (q : Bytes) → below q → IsFile fs q → mem_text q (state_of r) ≡ true

pub Below-cases :
    (fs : Tree) (path q : Bytes)
    → Below fs path q
    → (q ≡ path)
      ⊎ ((path_kind fs path ≡ directory)
          × ((e : Bytes) × (mem_text e (fs.entries path) ≡ true) × Below fs e q))
Below-cases fs path q itself = inl refl
Below-cases fs path q (inside {entry = e} d m b) = inr (d, (e, m, b))

-- What the callback enqueues.
pub parser_callback-Adds :
    (fs : Tree) (path : Bytes) (jobs : List Bytes)
    → is_present (path_kind fs path) ≡ true
    → Adds fs
        (λ q. q ≡ path)
        (throws_for (fs.is_regular_file path) ≡ false)
        jobs
        (parser_callback fs path jobs)
unfolding parser_callback mem_text
parser_callback-Adds fs path jobs here = elim (Option-cases (fs.is_regular_file path)) [
  | inl e ↦
      rw (parser_callback, e)
        (record {
          kept = λ q m. m;
          sound = λ q m. inl m;
          done = λ quiet. absurd (cc);
          full = λ quiet. absurd (cc);
        })
  | inr (false, e) ↦
      rw (parser_callback, e)
        (record {
          kept = λ q m. m;
          sound = λ q m. inl m;
          done = λ quiet. refl;
          full = λ quiet q same file.
              (let other = ap fs.is_regular_file same ∙ e in absurd (cc (file.regular, other)));
        })
  | inr (true, e) ↦
      rw (parser_callback, e)
        (record {
          kept = λ q m. ground (arith, m, mem_text-append q jobs (path ∷ []));
          sound = λ q m. elim (Bool-cases (streq q path)) [
            | inl hit ↦
                let same = streq→eq q path hit in
                inr (
                  same,
                  record {
                    present = ap (λ p. is_present (path_kind fs p)) same ∙ here;
                    regular = ap fs.is_regular_file same ∙ e;
                  },
                )
            | inr miss ↦ inl (ground (arith, m, miss, mem_text-append q jobs (path ∷ [])))
          ];
          done = λ quiet. refl;
          full = λ quiet q same file. ground (
            arith,
            mem_text-append q jobs (path ∷ []),
            ap (λ x. streq x path) same ∙ streq_refl path,
          );
        })
]

-- The callback never asks to stop.
pub parser_callback_goes_on :
    (fs : Tree) (path : Bytes) (jobs one : List Bytes)
    → parser_callback fs path jobs ≢ returns false one
unfolding parser_callback
parser_callback_goes_on fs path jobs one e = elim (Option-cases (fs.is_regular_file path)) [
  | inl asked ↦ absurd (cc (rw (parser_callback, asked) at e))
  | inr (false, asked) ↦ absurd (cc (rw (parser_callback, asked) at e))
  | inr (true, asked) ↦ absurd (cc (rw (parser_callback, asked) at e))
]

pub neither : (a b : Bool) → (a || b) ≡ false → (a ≡ false) × (b ≡ false)
neither false b h = (refl, h)
neither true b h = absurd (cc)
