-- ===== src/Metrics/Visits.antt =====
-- The walk of one path, and what it enqueues.
use cc_base.Base.{
  ℕ, suc, ◌||◌, Bool, true, false, some, List, ◌≡◌, refl, sym, subst, inl, inr, ap, ◌∙◌,
}
use cc_base.Cstring.{Bytes}
use cc_base.Sources.Keys.{mem_text}
use cc_base.Metrics.Parser.{parser_callback}
use cc_base.Metrics.Below.{
  Below, itself, inside, is_present, IsFile, throws_for, throws_at, IsQuiet, has_returned, Adds,
  Below-cases, parser_callback-Adds, parser_callback_goes_on, neither,
}
use cc_base.Metrics.Entries.{BelowAny, IsQuietAny, Walks, WalksAll, walk_entries-Adds}
use cc_base.Util.Walk.{
  Tree, PathKind, gone, fails, leaf, directory, path_kind, WalkEnd, returns, throws, state_of,
  iterate_directory_recursive,
}

module _ (fs : Tree) where
  -- A walk that does nothing but throw or return.
  idle-Adds :
      (below : Bytes → Type 0) (quiet : Type 0) (jobs : List Bytes) (r : WalkEnd (List Bytes))
      → state_of r ≡ jobs
      → (quiet → has_returned r ≡ true)
      → ((q : Bytes) → below q → IsFile fs q → quiet → mem_text q jobs ≡ true)
      → Adds fs below quiet jobs r
  idle-Adds below quiet jobs r same done none_below = record {
    kept = λ q m. ap (mem_text q) same ∙ m;
    sound = λ q m. inl (sym (ap (mem_text q) same) ∙ m);
    done = done;
    full = λ ends q b file. ap (mem_text q) same ∙ none_below q b file ends;
  }

  -- Where the callback is the whole of the walk.
  leaf-Adds :
      (path : Bytes) (jobs : List Bytes) (r : WalkEnd (List Bytes))
      → ((q : Bytes) → Below fs path q → q ≡ path)
      → (IsQuiet fs path → throws_for (fs.is_regular_file path) ≡ false)
      → Adds fs (λ q. q ≡ path) (throws_for (fs.is_regular_file path) ≡ false) jobs r
      → Adds fs (Below fs path) (IsQuiet fs path) jobs r
  leaf-Adds path jobs r only quiet_here a = record {
    kept = a.kept;
    sound = λ q m. elim (a.sound q m) [
      | inl before ↦ inl before
      | inr (same, file) ↦ inr (subst (λ x. Below fs path x) (sym same) itself, file)
    ];
    done = λ quiet. a.done (quiet_here quiet);
    full = λ quiet q below file. a.full (quiet_here quiet) q (only q below) file;
  }

  -- The callback at a directory, and then its entries.
  directory-Adds :
      (path : Bytes) (jobs one : List Bytes) (goes_on : Bool) (r : WalkEnd (List Bytes))
      → path_kind fs path ≡ directory
      → Adds fs
          (λ q. q ≡ path)
          (throws_for (fs.is_regular_file path) ≡ false)
          jobs
          (returns goes_on one)
      → Adds fs
          (BelowAny fs (fs.entries path))
          (IsQuietAny fs (fs.entries path) × (fs.listing_fails path ≡ false))
          one
          r
      → Adds fs (Below fs path) (IsQuiet fs path) jobs r
  unfolding BelowAny
  directory-Adds path jobs one goes_on r at a b = record {
    kept = λ q m. b.kept q (a.kept q m);
    sound = λ q m. elim (b.sound q m) [
      | inr ((e, among, below), file) ↦ inr (inside at among below, file)
      | inl now ↦ elim (a.sound q now) [
        | inl before ↦ inl before
        | inr (same, file) ↦ inr (subst (λ x. Below fs path x) (sym same) itself, file)
      ]
    ];
    done = λ quiet. b.done (inner quiet);
    full = λ quiet q below file. elim (Below-cases fs path q below) [
      | inl same ↦ b.kept q (a.full (own quiet).0 q same file)
      | inr (_, any) ↦ b.full (inner quiet) q any file
    ];
  }
    where
      own :
          IsQuiet fs path
          → (throws_for (fs.is_regular_file path) ≡ false) × (fs.listing_fails path ≡ false)
      own quiet =
          let here = quiet path itself in
          let both : (throws_for (fs.is_regular_file path) || fs.listing_fails path) ≡ false =
            rw (throws_at, at) at here in
          neither _ _ both

      inner : IsQuiet fs path → IsQuietAny fs (fs.entries path) × (fs.listing_fails path ≡ false)
      inner quiet = (λ p among q below. quiet q (inside at among below), (own quiet).1)

  -- The callback throws at a directory.
  directory_throws-Adds :
      (path : Bytes) (jobs one : List Bytes)
      → path_kind fs path ≡ directory
      → Adds fs (λ q. q ≡ path) (throws_for (fs.is_regular_file path) ≡ false) jobs (throws one)
      → Adds fs (Below fs path) (IsQuiet fs path) jobs (throws one)
  directory_throws-Adds path jobs one at a = record {
    kept = a.kept;
    sound = λ q m. elim (a.sound q m) [
      | inl before ↦ inl before
      | inr (same, file) ↦ inr (subst (λ x. Below fs path x) (sym same) itself, file)
    ];
    done = λ quiet. a.done (answered quiet);
    full = λ quiet. absurd (cc (a.done (answered quiet)));
  }
    where
      answered : IsQuiet fs path → throws_for (fs.is_regular_file path) ≡ false
      answered quiet =
          let here = quiet path itself in
          let both : (throws_for (fs.is_regular_file path) || fs.listing_fails path) ≡ false =
            rw (throws_at, at) at here in
          (neither _ _ both).0

  -- What the walk of a path does, from what is asked of it.
  pub path_kind-Walks :
      (n : ℕ) (path : Bytes) (v : PathKind)
      → path_kind fs path ≡ v
      → ((p : Bytes)
          → path_kind fs path ≡ directory
          → mem_text p (fs.entries path) ≡ true
          → Walks fs n p)
      → Walks fs (suc n) path
  unfolding iterate_directory_recursive
  path_kind-Walks n path gone at later jobs = (
    returns true jobs,
    rw (iterate_directory_recursive, at) refl,
    idle-Adds (Below fs path) (IsQuiet fs path) jobs (returns true jobs) refl (λ quiet. refl)
        (λ q below file quiet. absurd (nothing_there q below file)),
  )
    where
      nothing_there : (q : Bytes) → Below fs path q → ¬ (IsFile fs q)
      nothing_there q below file = elim (Below-cases fs path q below) [
        | inl same ↦
            let none_there : path_kind fs q ≡ gone = ap (path_kind fs) same ∙ at in
            absurd (cc (ap is_present none_there, file.present))
        | inr (is, _) ↦ absurd (cc)
      ]
  path_kind-Walks n path fails at later jobs = (
    throws jobs,
    rw (iterate_directory_recursive, at) refl,
    idle-Adds (Below fs path) (IsQuiet fs path) jobs (throws jobs) refl
        (λ quiet. absurd (loud quiet)) (λ q below file quiet. absurd (loud quiet)),
  )
    where
      loud : ¬ (IsQuiet fs path)
      loud quiet = let here = quiet path itself in absurd (cc (rw (throws_at, at) at here))
  path_kind-Walks n path leaf at later jobs = (
    parser_callback fs path jobs,
    rw (iterate_directory_recursive, at) refl,
    leaf-Adds path jobs (parser_callback fs path jobs) alone quiet_leaf
        (parser_callback-Adds fs path jobs (ap is_present at)),
  )
    where
      alone : (q : Bytes) → Below fs path q → q ≡ path
      alone q below = elim (Below-cases fs path q below) [
        | inl same ↦ same
        | inr (is, _) ↦ absurd (cc)
      ]

      quiet_leaf : IsQuiet fs path → throws_for (fs.is_regular_file path) ≡ false
      quiet_leaf quiet = let here = quiet path itself in rw (throws_at, at) at here
  path_kind-Walks n path directory at later jobs =
      called (parser_callback fs path jobs) refl
        (parser_callback-Adds fs path jobs (ap is_present at))
        (walk_entries-Adds fs n (fs.entries path) (fs.listing_fails path) (λ p m. later p at m))
    where
      called :
          (r : WalkEnd (List Bytes))
          → parser_callback fs path jobs ≡ r
          → Adds fs (λ q. q ≡ path) (throws_for (fs.is_regular_file path) ≡ false) jobs r
          → WalksAll fs n (fs.entries path) (fs.listing_fails path)
          → (r : WalkEnd (List Bytes)) × (iterate_directory_recursive fs
                (parser_callback fs)
                (suc n)
                path
                jobs
              ≡ some r)
            × Adds fs (Below fs path) (IsQuiet fs path) jobs r
      called (throws one) e a entries = (
        throws one,
        rw (iterate_directory_recursive, at, e) refl,
        directory_throws-Adds path jobs one at a,
      )
      called (returns false one) e a entries = absurd (parser_callback_goes_on fs path jobs one e)
      called (returns true one) e a entries =
          let (r, run, b) = entries one in
          (
            r,
            rw (iterate_directory_recursive, at, e) run,
            directory-Adds path jobs one true r at a b,
          )
