-- ===== src/Metrics/Jobs.antt =====
-- Which files are handed to the thread pool.
use cc_base.Base.{
  ℕ, zero, suc, ◌<◌, true, some, List, [], ◌∷◌, ◌≡◌, refl, subst, inl, inr, arith, Bool-cases, ◌⊎◌,
}
use cc_base.Cstring.{Bytes, streq}
use cc_base.Cstring.Laws.{streq_refl, streq→eq}
use cc_base.Sources.Keys.{mem_text}
use cc_base.Metrics.Parser.{enqueue_inputs}
use cc_base.Metrics.Below.{Below, IsFile, IsQuiet, IsRanked}
use cc_base.Metrics.Entries.{BelowAny, Walks}
use cc_base.Util.Walk.{Tree, path_kind, state_of}
use cc_base.Metrics.Visits.{path_kind-Walks}

module _ (fs : Tree) where
  iterate_directory_recursive-Walks :
      (rank : Bytes → ℕ) (n : ℕ) (path : Bytes) → IsRanked fs rank → rank path < n → Walks fs n path
  iterate_directory_recursive-Walks rank zero path ranked lt = absurd (omega (arith, lt))
  iterate_directory_recursive-Walks rank (suc n) path ranked lt =
      path_kind-Walks fs n path (path_kind fs path) refl (λ p at m.
        iterate_directory_recursive-Walks rank n p ranked (omega (arith, lt, ranked path p at m)))

  -- The loop over the input paths. Each walk that nothing disturbs finds all.
  enqueue_inputs-Adds :
      (n : ℕ) (inputs jobs : List Bytes)
      → ((p : Bytes) → mem_text p inputs ≡ true → Walks fs n p)
      → (after : List Bytes) × (enqueue_inputs fs n inputs jobs ≡ some after)
        × ((q : Bytes) → mem_text q jobs ≡ true → mem_text q after ≡ true)
        × ((q : Bytes)
            → mem_text q after ≡ true
            → (mem_text q jobs ≡ true) ⊎ (BelowAny fs inputs q × IsFile fs q))
        × ((p q : Bytes)
            → mem_text p inputs ≡ true
            → IsQuiet fs p
            → Below fs p q
            → IsFile fs q
            → mem_text q after ≡ true)
  unfolding enqueue_inputs BelowAny mem_text
  enqueue_inputs-Adds n [] jobs walks =
      (jobs, refl, λ q m. m, λ q m. inl m, λ p q m quiet below file. absurd (cc))
  enqueue_inputs-Adds n (path ∷ inputs) jobs walks =
      let (r, run, a) = walks path (ground (arith, streq_refl path)) jobs in
      let (after, runs, kept, sound, full) =
        enqueue_inputs-Adds n inputs (state_of r) (λ p m. walks p (ground (arith, m))) in
      (
        after,
        rw (enqueue_inputs, run) runs,
        λ q m. kept q (a.kept q m),
        λ q m. elim (sound q m) [
          | inr ((p, in_rest, below), file) ↦ inr ((p, ground (arith, in_rest), below), file)
          | inl now ↦ elim (a.sound q now) [
            | inl before ↦ inl before
            | inr (below, file) ↦ inr ((path, ground (arith, streq_refl path), below), file)
          ]
        ],
        λ p q m quiet below file. elim (Bool-cases (streq p path)) [
          | inl hit ↦
              let same = streq→eq p path hit in
              kept q (
                a.full (subst (λ x. IsQuiet fs x) same quiet) q
                  (subst (λ x. Below fs x q) same below) file)
          | inr miss ↦ full p q (ground (arith, m, miss)) quiet below file
        ],
      )

-- If the directories have ranks above those of their entries, and the fuel is above the ranks of the
-- input paths, then the loop over the input paths ends, whatever exceptions are thrown. Each job is
-- a regular file below an input path, and each regular file below an input path is a job, if nothing
-- below this path throws an exception; another input path may throw.
pub enqueue_inputs-Below :
    (fs : Tree) (rank : Bytes → ℕ) (n : ℕ) (inputs : List Bytes)
    → IsRanked fs rank
    → ((p : Bytes) → mem_text p inputs ≡ true → rank p < n)
    → (jobs : List Bytes) × (enqueue_inputs fs n inputs [] ≡ some jobs)
      × ((q : Bytes)
          → mem_text q jobs ≡ true
          → ((p : Bytes) × (mem_text p inputs ≡ true) × Below fs p q) × IsFile fs q)
      × ((p q : Bytes)
          → mem_text p inputs ≡ true
          → IsQuiet fs p
          → Below fs p q
          → IsFile fs q
          → mem_text q jobs ≡ true)
unfolding BelowAny mem_text
enqueue_inputs-Below fs rank n inputs ranked enough =
    let (jobs, run, kept, sound, full) =
      enqueue_inputs-Adds fs n inputs []
        (λ p m. (iterate_directory_recursive-Walks fs rank n p ranked (enough p m))) in
    (jobs, run, λ q m. elim (sound q m) [ inl before ↦ absurd (cc) | inr found ↦ found ], full)
