-- ===== src/Sources/Total.antt =====
-- The recursion of `getFile` through the parents of a path comes to its end.
use cc_base.Base.{
  ℕ, zero, suc, ◌<◌, Bool, true, false, Option, none, some, [], ◌∷◌, ◌≡◌, ◌≢◌, refl, sym, subst,
  inl, inr, arith, length, Option-cases,
}
use cc_base.Cstring.{Bytes}
use cc_base.Sources.Model.{Disk}
use cc_base.Sources.Keys.{find_key}
use cc_base.Sources.Manager.{
  SourceManager, GetFile, canonical_form, get_create_parent, get_create_file_entry, get_file,
}

-- What Boost documents: a parent's path is shorter, a canonical path is its own canonical form, and
-- so is the parent of a canonical path.
pub record IsFileSystem (disk : Disk) : Type 0 where
  pub shorter : (p : Bytes) → disk.parent_path p ≢ [] → length (disk.parent_path p) < length p
  pub canonical_again : (p c : Bytes) → disk.canonical p ≡ some c → disk.canonical c ≡ some c
  pub canonical_parent :
      (c : Bytes)
      → disk.canonical c ≡ some c
      → disk.parent_path c ≢ []
      → disk.canonical (disk.parent_path c) ≡ some (disk.parent_path c)

-- A call that returns in every state.
abbrev Returns : GetFile → Bytes → Type 0
Returns g p = (m : SourceManager) → g p m ≢ none

some_of {ℓ} : {A : Type ℓ} (o : Option A) → o ≢ none → (a : A) × (o ≡ some a)
some_of none h = absurd (h refl)
some_of (some a) h = (a, refl)

parent-Returns :
    (disk : Disk) (g : GetFile) (path parent : Bytes) (m : SourceManager)
    → disk.parent_path path ≡ parent
    → (parent ≢ [] → Returns g parent)
    → get_create_parent disk g path m ≢ none
unfolding get_create_parent
parent-Returns disk g path [] m e runs = rw (get_create_parent, e) (cc)
parent-Returns disk g path (c ∷ parent) m e runs =
    let (r, done) = some_of (g (c ∷ parent) m) (runs (λ q. absurd (cc)) m) in
    rw (get_create_parent, e, done) (cc)

entry-Returns :
    (disk : Disk) (g : GetFile) (path : Bytes) (w : Bool) (m : SourceManager)
    → (disk.parent_path path ≢ [] → Returns g (disk.parent_path path))
    → get_create_file_entry disk g path w m ≢ none
unfolding get_create_file_entry
entry-Returns disk g path w m runs = elim (Option-cases (find_key m.files path)) [
  | inr (ptr, e) ↦ rw (get_create_file_entry, e) (cc)
  | inl e ↦
      let (r, done) =
        some_of (get_create_parent disk g path m)
          (parent-Returns disk g path (disk.parent_path path) m refl runs) in
      rw (get_create_file_entry, e, done) (cc)
]

step-Returns :
    (disk : Disk) (n : ℕ) (path c : Bytes) (w : Bool)
    → canonical_form disk path ≡ (c, w)
    → (disk.parent_path c ≢ [] → Returns (get_file disk n) (disk.parent_path c))
    → Returns (get_file disk (suc n)) path
unfolding get_file
step-Returns disk n path c w e runs m =
    let (r, done) = some_of _ (entry-Returns disk (λ p s. get_file disk n p s) c w m runs) in
    rw (get_file, e, done) (cc)

form_of_canonical :
    (disk : Disk) (p c : Bytes) → disk.canonical p ≡ some c → canonical_form disk p ≡ (c, true)
form_of_canonical disk p c e = rw (canonical_form, e) refl

form_of_missing :
    (disk : Disk) (p : Bytes) → disk.canonical p ≡ none → canonical_form disk p ≡ (p, false)
form_of_missing disk p e = rw (canonical_form, e) refl

canonical-Returns :
    (disk : Disk)
    → IsFileSystem disk
    → (n : ℕ) (p c : Bytes) → disk.canonical p ≡ some c
    → length c < n
    → Returns (get_file disk n) p
canonical-Returns disk fs zero p c e lt = absurd (omega (arith, lt))
canonical-Returns disk fs (suc n) p c e lt =
    step-Returns disk n p c true (form_of_canonical disk p c e) (λ ne.
      (canonical-Returns disk fs n (disk.parent_path c) (disk.parent_path c)
        (fs.canonical_parent c (fs.canonical_again p c e) ne) (omega (arith, lt, fs.shorter c ne))))

-- From some depth on, the calls return in every state.
Ends : Disk → Bytes → Type 0
Ends disk p = (depth : ℕ) × ((n : ℕ) → depth < n → Returns (get_file disk n) p)

missing-Ends :
    (disk : Disk)
    → IsFileSystem disk
    → (p parent : Bytes) → disk.canonical p ≡ none
    → disk.parent_path p ≡ parent
    → (parent ≢ [] → Ends disk parent)
    → Ends disk p
unfolding Ends
missing-Ends disk fs p [] e q ends = (0, λ n lt. missing_step n lt)
  where
    missing_step : (n : ℕ) → 0 < n → Returns (get_file disk n) p
    missing_step zero lt = absurd (omega (arith, lt))
    missing_step (suc n) lt =
        step-Returns disk n p p false (form_of_missing disk p e) (λ ne. absurd (ne q))
missing-Ends disk fs p (c ∷ parent) e q ends =
    let (depth, deep) = ends (λ r. absurd (cc)) in (suc depth, missing_step depth deep)
  where
    missing_step :
        (depth : ℕ)
        → ((n : ℕ) → depth < n → Returns (get_file disk n) (c ∷ parent))
        → (n : ℕ) → suc depth < n
        → Returns (get_file disk n) p
    missing_step depth deep zero lt = absurd (omega (arith, lt))
    missing_step depth deep (suc n) lt =
        step-Returns disk n p p false (form_of_missing disk p e)
          (λ ne. subst (Returns (get_file disk n)) (sym q) (deep n (omega (arith, lt))))

Ends-within : (disk : Disk) → IsFileSystem disk → (k : ℕ) (p : Bytes) → length p < k → Ends disk p
unfolding Ends
Ends-within disk fs zero p lt = absurd (omega (arith, lt))
Ends-within disk fs (suc k) p lt = elim (Option-cases (disk.canonical p)) [
  | inr (c, e) ↦ (length c, λ n le. canonical-Returns disk fs n p c e le)
  | inl e ↦
      missing-Ends disk fs p (disk.parent_path p) e refl
        (λ ne. Ends-within disk fs k (disk.parent_path p) (omega (arith, lt, fs.shorter p ne)))
]

-- On a file system as it is documented, the recursion of `get_file` ends for every path: from some
-- depth on, which does not depend on the state, it returns a file in every state of the manager.
pub get_file_total :
    (disk : Disk)
    → IsFileSystem disk
    → (p : Bytes)
    → (depth : ℕ) × ((n : ℕ)
        → depth < n
        → (m : SourceManager)
        → (ptr : ℕ) × (after : SourceManager) × (get_file disk n p m ≡ some (ptr, after)))
unfolding Ends
get_file_total disk fs p =
    let (depth, runs) = Ends-within disk fs (suc (length p)) p (omega arith) in
    (
      depth,
      λ n lt m. (let (r, done) = some_of (get_file disk n p m) (runs n lt m) in (r.0, r.1, done)),
    )
