-- ===== src/Metrics/Entries.antt =====
-- The walk over the entries of a directory, and what it enqueues.
use cc_base.Base.{
  ℕ, Bool, true, false, some, List, [], ◌∷◌, ◌≡◌, refl, subst, inl, inr, arith, Bool-cases,
}
use cc_base.Cstring.{Bytes, streq}
use cc_base.Cstring.Laws.{streq_refl, streq→eq}
use cc_base.Sources.Keys.{mem_text}
use cc_base.Metrics.Parser.{parser_callback}
use cc_base.Metrics.Below.{Below, IsQuiet, Adds}
use cc_base.Util.Walk.{Tree, WalkEnd, returns, throws, walk_entries, iterate_directory_recursive}

module _ (fs : Tree) where
  -- Below one of some paths.
  unfoldable pub BelowAny : List Bytes → Bytes → Type 0
  BelowAny paths q = (p : Bytes) × (mem_text p paths ≡ true) × Below fs p q

  abbrev pub IsQuietAny : List Bytes → Type 0
  IsQuietAny paths = (p : Bytes) → mem_text p paths ≡ true → IsQuiet fs p

  abbrev pub Walks : ℕ → Bytes → Type 0
  Walks n path =
      (jobs : List Bytes)
      → (r : WalkEnd (List Bytes)) × (iterate_directory_recursive fs (parser_callback fs) n path
            jobs
          ≡ some r)
        × Adds fs (Below fs path) (IsQuiet fs path) jobs r

  abbrev pub WalksAll : ℕ → List Bytes → Bool → Type 0
  WalksAll n paths broken =
      (jobs : List Bytes)
      → (r : WalkEnd (List Bytes)) × (walk_entries
            (λ p t. iterate_directory_recursive fs (parser_callback fs) n p t) paths broken jobs
          ≡ some r)
        × Adds fs (BelowAny paths) (IsQuietAny paths × (broken ≡ false)) jobs r

  -- One path in front of others, where its walk returns.
  Adds-before :
      (path : Bytes) (paths jobs one : List Bytes) (goes_on broken : Bool)
      (r : WalkEnd (List Bytes))
      → Adds fs (Below fs path) (IsQuiet fs path) jobs (returns goes_on one)
      → Adds fs (BelowAny paths) (IsQuietAny paths × (broken ≡ false)) one r
      → Adds fs (BelowAny (path ∷ paths)) (IsQuietAny (path ∷ paths) × (broken ≡ false)) jobs r
  unfolding BelowAny mem_text
  Adds-before path paths jobs one goes_on broken r a b = record {
    kept = λ q m. b.kept q (a.kept q m);
    sound = λ q m. elim (b.sound q m) [
      | inr ((p, in_rest, below), file) ↦ inr ((p, ground (arith, in_rest), below), file)
      | inl now ↦ elim (a.sound q now) [
        | inl before ↦ inl before
        | inr (below, file) ↦ inr ((path, ground (arith, streq_refl path), below), file)
      ]
    ];
    done = λ (quiet, ends). b.done (rest quiet, ends);
    full = λ (quiet, ends) q (p, m, below) file. elim (Bool-cases (streq p path)) [
      | inl hit ↦ b.kept q (
          a.full (quiet path (ground (arith, streq_refl path))) q
            (subst (λ x. Below fs x q) (streq→eq p path hit) below) file)
      | inr miss ↦ b.full (rest quiet, ends) q (p, ground (arith, m, miss), below) file
    ];
  }
    where
      rest : IsQuietAny (path ∷ paths) → IsQuietAny paths
      rest quiet p m = quiet p (ground (arith, m))

  pub walk_entries-Adds :
      (n : ℕ) (paths : List Bytes) (broken : Bool)
      → ((p : Bytes) → mem_text p paths ≡ true → Walks n p)
      → WalksAll n paths broken
  unfolding walk_entries BelowAny mem_text
  walk_entries-Adds n [] false walks jobs = (
    returns true jobs,
    refl,
    record {
      kept = λ q m. m;
      sound = λ q m. inl m;
      done = λ quiet. refl;
      full = λ quiet q (p, m, b) file. absurd (cc);
    },
  )
  walk_entries-Adds n [] true walks jobs = (
    throws jobs,
    refl,
    record {
      kept = λ q m. m;
      sound = λ q m. inl m;
      done = λ (quiet, ends). absurd (cc);
      full = λ (quiet, ends). absurd (cc);
    },
  )
  walk_entries-Adds n (path ∷ paths) broken walks jobs =
      behind (λ one. walk_entries-Adds n paths broken (λ p m. walks p (ground (arith, m))) one)
        (walks path (ground (arith, streq_refl path)) jobs)
    where
      behind :
          WalksAll n paths broken
          → (r : WalkEnd (List Bytes)) × (iterate_directory_recursive fs
                (parser_callback fs)
                n
                path
                jobs
              ≡ some r)
            × Adds fs (Below fs path) (IsQuiet fs path) jobs r
          → (r : WalkEnd (List Bytes)) × (walk_entries
                (λ p t. iterate_directory_recursive fs (parser_callback fs) n p t)
                (path ∷ paths)
                broken
                jobs
              ≡ some r)
            × Adds fs
                (BelowAny (path ∷ paths))
                (IsQuietAny (path ∷ paths) × (broken ≡ false))
                jobs
                r
      behind later (throws one, run, a) = (
        throws one,
        rw (walk_entries, run) refl,
        record {
          kept = a.kept;
          sound = λ q m. elim (a.sound q m) [
            | inl before ↦ inl before
            | inr (below, file) ↦ inr ((path, ground (arith, streq_refl path), below), file)
          ];
          done = λ (quiet, ends). a.done (quiet path (ground (arith, streq_refl path)));
          full =
              λ (quiet, ends). absurd (cc (a.done (quiet path (ground (arith, streq_refl path)))));
        },
      )
      behind later (returns goes_on one, run, a) =
          let (r, runs, b) = later one in
          (r, rw (walk_entries, run) runs, Adds-before path paths jobs one goes_on broken r a b)
