-- ===== src/Paths/Absolute.antt =====
-- `make_path_abs` against a relation that says which path it gives.
use cc_base.Base.{
  ℕ, zero, suc, Bool, false, ◌<◌, Option, none, some, [], ◌∷◌, ◌++◌, ◌≡◌, ◌↔◌, refl, sym, ap, not,
  ◌&&◌, ◌==◌, if◌then◌else◌, append-nil, append_assoc, ◌∙◌, arith, length, length-append, ◌||◌, inl,
  inr, Option-cases, Bool-cases, ◌>>=◌,
}
use cc_base.Cstring.{Bytes, codes, slash, streq, strrchr}
use cc_base.Cstring.Laws.{Lacks, strrchr-append, strrchr-some}
use cc_base.Paths.{FileSystem, make_path_abs_rec, make_path_abs_from, make_path_abs}

-- The components that stop the search for an existing directory.
abbrev is_dots : Bytes → Bool
is_dots child = streq child (codes ".") || streq child (codes "..")

module _ (fs : FileSystem) where
  -- `Resolves p q`: `realpath` gives `q` for `p`, or fails for `p` and `q` is what the part before
  -- the last slash resolves to, followed by the last component, which is not `.` or `..`.
  pub data Resolves : Bytes → Bytes → Type 0 where
    here : {p q : Bytes} → fs.realpath p ≡ some q → Resolves p q
    up :
        {p q : Bytes} (parent child r : Bytes)
        → fs.realpath p ≡ none
        → p ≡ parent ++ slash ∷ child
        → Lacks slash child
        → is_dots child ≡ false
        → Resolves parent r
        → q ≡ r ++ slash ∷ child
        → Resolves p q

  parent_shorter :
      (p parent child : Bytes) → strrchr p slash ≡ some (parent, child) → length parent < length p
  parent_shorter p parent child e = omega (
    arith,
    ap length (strrchr-some p slash parent child e).0,
    length-append parent (slash ∷ child),
  )

  -- The ways through one call of `make_path_abs_rec`.
  data Round (fuel : ℕ) (p : Bytes) : Type 0 where
    found :
        (q : Bytes)
        → fs.realpath p ≡ some q
        → make_path_abs_rec fs (suc fuel) p ≡ some (some q)
        → Round fuel p
    refused : make_path_abs_rec fs (suc fuel) p ≡ some none → Round fuel p
    ascends :
        (parent child : Bytes)
        → fs.realpath p ≡ none
        → strrchr p slash ≡ some (parent, child)
        → is_dots child ≡ false
        → make_path_abs_rec fs (suc fuel) p ≡ (do
          r ← make_path_abs_rec fs fuel parent
          some (do resolved ← r; some (resolved ++ slash ∷ child)))
        → Round fuel p

  Round-split :
      (fuel : ℕ) (p parent child : Bytes)
      → fs.realpath p ≡ none
      → strrchr p slash ≡ some (parent, child)
      → Round fuel p
  unfolding make_path_abs_rec
  Round-split fuel p parent child e split = elim (Bool-cases (is_dots child)) [
    | inl dots ↦ refused (rw (make_path_abs_rec, e, split, dots))
    | inr dots ↦ ascends parent child e split dots (rw (make_path_abs_rec, e, split, dots))
  ]

  Round-total : (fuel : ℕ) (p : Bytes) → Round fuel p
  unfolding make_path_abs_rec
  Round-total fuel p = elim (Option-cases (fs.realpath p)) [
    | inr (q, e) ↦ found q e (rw (make_path_abs_rec, e))
    | inl e ↦ elim (Option-cases (strrchr p slash)) [
      | inl whole ↦ refused (rw (make_path_abs_rec, e, whole))
      | inr ((parent, child), split) ↦ Round-split fuel p parent child e split
    ]
  ]

  -- With fuel beyond the length of the path, `make_path_abs_rec` returns a path or NULL.
  pub make_path_abs_rec_total :
      (fuel : ℕ) (p : Bytes)
      → length p < fuel
      → (r : Option Bytes) × (make_path_abs_rec fs fuel p ≡ some r)
  make_path_abs_rec_total zero p h = absurd (omega arith)
  make_path_abs_rec_total (suc fuel) p h = elim (Round-total fuel p) [
    | found q e run ↦ (some q, run)
    | refused run ↦ (none, run)
    | ascends parent child e split dots run ↦
        let (r, below) =
          make_path_abs_rec_total fuel parent
            (omega (arith, parent_shorter p parent child split)) in
        ((do resolved ← r; some (resolved ++ slash ∷ child)), rw (run, below))
  ]

  ascend_sound :
      (p q parent child : Bytes) (r : Option (Option Bytes))
      → fs.realpath p ≡ none
      → strrchr p slash ≡ some (parent, child)
      → is_dots child ≡ false
      → ((s : Bytes) → r ≡ some (some s) → Resolves parent s)
      → (do t ← r; some (do resolved ← t; some (resolved ++ slash ∷ child))) ≡ some (some q)
      → Resolves p q
  ascend_sound p q parent child none e split dots below h = cc
  ascend_sound p q parent child (some none) e split dots below h = cc
  ascend_sound p q parent child (some (some s)) e split dots below h =
      let parts = strrchr-some p slash parent child split in
      up parent child s e parts.0 parts.1 dots (below s refl) (ground arith)

  make_path_abs_rec_sound :
      (fuel : ℕ) (p q : Bytes) → make_path_abs_rec fs fuel p ≡ some (some q) → Resolves p q
  make_path_abs_rec_sound zero p q h = unfold make_path_abs_rec in cc
  make_path_abs_rec_sound (suc fuel) p q h = elim (Round-total fuel p) [
    | found r e run ↦ here (e ∙ ground (arith, run))
    | refused run ↦ absurd (cc run)
    | ascends parent child e split dots run ↦
        ascend_sound p q parent child (make_path_abs_rec fs fuel parent) e split dots
          (λ s. make_path_abs_rec_sound fuel parent s) (sym run ∙ h)
  ]

  make_path_abs_rec_complete :
      (fuel : ℕ) (p q : Bytes)
      → length p < fuel
      → Resolves p q
      → make_path_abs_rec fs fuel p ≡ some (some q)
  unfolding make_path_abs_rec
  make_path_abs_rec_complete zero p q h r = absurd (omega arith)
  make_path_abs_rec_complete (suc fuel) p q h (here e) = rw (make_path_abs_rec, e)
  make_path_abs_rec_complete (suc fuel) p q h (up parent child r e parts lacks dots below last) =
      let split : strrchr p slash ≡ some (parent, child) =
        rw parts (strrchr-append parent child slash lacks) in
      rw (make_path_abs_rec, e, split, dots)
        (rw
          (make_path_abs_rec_complete fuel parent r
            (omega (arith, parent_shorter p parent child split)) below)
          (rw last))

  unwrap : (o : Option (Option Bytes)) (q : Bytes) → (o >>= λ r. r) ≡ some q → o ≡ some (some q)
  unwrap none q h = cc
  unwrap (some r) q h = ap some h

  pub make_path_abs_from-Resolves :
      (p q : Bytes) → (make_path_abs_from fs p ≡ some q) ↔ Resolves p q
  unfolding make_path_abs_from
  make_path_abs_from-Resolves p q = (
    λ h. make_path_abs_rec_sound (suc (length p)) p q (unwrap _ q h),
    λ r. rw (make_path_abs_rec_complete (suc (length p)) p q (omega arith) r),
  )

  -- The path that the search begins with: a relative one stands behind the working directory.
  pub anchored : Bytes → Option Bytes
  anchored [] = none
  anchored (c ∷ path) =
      if c == slash then some (c ∷ path) else (do cwd ← fs.getcwd; some (cwd ++ slash ∷ (c ∷ path)))

  make_path_abs-anchored :
      (p : Bytes) (must_exist : Bool)
      → make_path_abs fs p must_exist
        ≡ (if must_exist && not (fs.access p) then none else (anchored p >>= make_path_abs_from fs))
  unfolding make_path_abs anchored
  make_path_abs-anchored [] must_exist = ground arith
  make_path_abs-anchored (c ∷ path) must_exist = ground arith

  -- A path is returned exactly when the file is there, if that is asked for, the given path is not
  -- empty and, if it is relative, there is a working directory, and the path so anchored resolves
  -- to the one returned.
  pub make_path_abs-Resolves :
      (p q : Bytes) (must_exist : Bool)
      → (make_path_abs fs p must_exist ≡ some q) ↔ (
          ((must_exist && not (fs.access p)) ≡ false)
          × (a : Bytes) × (anchored p ≡ some a)
          × Resolves a q)
  make_path_abs-Resolves p q must_exist = (
    λ h. elim (Bool-cases (must_exist && not (fs.access p))) [
      | inl gone ↦ absurd (ground (arith, make_path_abs-anchored p must_exist))
      | inr there ↦ elim (Option-cases (anchored p)) [
        | inl e ↦ absurd (ground (arith, make_path_abs-anchored p must_exist))
        | inr (a, e) ↦ (
          there,
          a,
          e,
          (make_path_abs_from-Resolves a q).0 (ground (arith, make_path_abs-anchored p must_exist)),
        )
      ]
    ],
    λ r.
        rw (make_path_abs-anchored p must_exist, r.0, r.2)
          ((make_path_abs_from-Resolves r.1 q).1 r.3),
  )

  -- Whatever `realpath` makes of a part of the path, the rest of the path is kept as it is.
  pub Resolves-prefix :
      {p q : Bytes}
      → Resolves p q
      → (known rest real : Bytes) × (p ≡ known ++ rest)
        × (fs.realpath known ≡ some real)
        × (q ≡ real ++ rest)
  Resolves-prefix {p} {q} (here e) = (p, [], q, sym (append-nil p), e, sym (append-nil q))
  Resolves-prefix (up parent child r e parts lacks dots below last) =
      let (known, rest, real, pk, ek, qk) = Resolves-prefix below in
      (
        known,
        rest ++ slash ∷ child,
        real,
        parts ∙ rw (← append_assoc known rest (slash ∷ child)) (ap (λ l. l ++ slash ∷ child) pk),
        ek,
        last ∙ rw (← append_assoc real rest (slash ∷ child)) (ap (λ l. l ++ slash ∷ child) qk),
      )

  -- A path that is returned is the real path of an existing part of the anchored path, followed by
  -- the rest of that path, letter by letter.
  pub make_path_abs-prefix :
      (p q : Bytes) (must_exist : Bool)
      → make_path_abs fs p must_exist ≡ some q
      → (known rest real : Bytes) × (anchored p ≡ some (known ++ rest))
        × (fs.realpath known ≡ some real)
        × (q ≡ real ++ rest)
  make_path_abs-prefix p q must_exist h =
      let (there, a, e, res) = (make_path_abs-Resolves p q must_exist).0 h in
      let (known, rest, real, pk, ek, qk) = Resolves-prefix res in
      (known, rest, real, e ∙ ap some pk, ek, qk)
