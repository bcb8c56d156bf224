-- ===== src/Sources/Parents.antt =====
-- What the cache keeps, and what fetching the parent of a path does to it.
use cc_base.Base.{
  ℕ, zero, suc, Option, none, some, List, [], ◌∷◌, ◌++◌, ◌≡◌, refl, ap, subst, length, get_elem?,
  bind-some,
}
use cc_base.Cstring.{Bytes}
use cc_base.Sources.Model.{File, Disk, fnv_hash}
use cc_base.Sources.Keys.{find_key}
use cc_base.Sources.Manager.{
  SourceManager, GetFile, canonical_form, object_id_of, get_create_parent,
}

-- The identifier of the parent of a path: the hash of its canonical form.
abbrev pub parent_id : Disk → Bytes → Option ℕ
parent_id disk path = elim (disk.parent_path path) [
  | [] ↦ none
  | c ∷ parent ↦ some (fnv_hash (canonical_form disk (c ∷ parent)).0)
]

-- A pointer to the file of a path.
pub record IsObject (disk : Disk) (objects : List File) (path : Bytes) (ptr : ℕ) : Type 0 where
  pub file : File
  pub at : get_elem? objects ptr ≡ some file
  pub path_is : file.path ≡ path
  pub id_is : file.id ≡ fnv_hash path
  pub parent_is : file.parent ≡ parent_id disk path

-- Each path in the cache leads to its own file.
abbrev pub IsCached : Disk → SourceManager → Type 0
IsCached disk m =
    (path : Bytes) (ptr : ℕ) → find_key m.files path ≡ some ptr → IsObject disk m.objects path ptr

-- The cache after a call still leads to the same objects.
abbrev pub Stays : SourceManager → SourceManager → Type 0
Stays m m' =
    (path : Bytes) (ptr : ℕ) → find_key m.files path ≡ some ptr → find_key m'.files path ≡ some ptr

-- A file was fetched for a path: the cache is in order, leads from the canonical form of the path to
-- the file, and as before from all other paths.
pub record IsFetched (disk : Disk) (p : Bytes) (m : SourceManager) (ptr : ℕ) (m' : SourceManager)
    : Type 0 where
  pub cached : IsCached disk m'
  pub found : find_key m'.files (canonical_form disk p).0 ≡ some ptr
  pub stays : Stays m m'
  pub db_kept : m'.db ≡ m.db

pub get_elem?-append :
    (xs ys : List File) (i : ℕ) (f : File)
    → get_elem? xs i ≡ some f
    → get_elem? (xs ++ ys) i ≡ some f
get_elem?-append [] ys i f e = absurd (cc)
get_elem?-append (x ∷ xs) ys zero f e = e
get_elem?-append (x ∷ xs) ys (suc i) f e = get_elem?-append xs ys i f e

pub get_elem?-last : (xs : List File) (f : File) → get_elem? (xs ++ f ∷ []) (length xs) ≡ some f
get_elem?-last [] f = refl
get_elem?-last (x ∷ xs) f = get_elem?-last xs f

pub IsObject-append :
    (disk : Disk) (xs ys : List File) (path : Bytes) (ptr : ℕ)
    → IsObject disk xs path ptr
    → IsObject disk (xs ++ ys) path ptr
IsObject-append disk xs ys path ptr o = record {
  file = o.file;
  at = get_elem?-append xs ys ptr o.file o.at;
  path_is = o.path_is;
  id_is = o.id_is;
  parent_is = o.parent_is;
}

-- What a function does that fetches a file.
abbrev pub Fetches : Disk → GetFile → Type 0
Fetches disk g =
    (p : Bytes) (m : SourceManager) (ptr : ℕ) (m' : SourceManager)
    → IsCached disk m
    → g p m ≡ some (ptr, m')
    → IsFetched disk p m ptr m'

-- After the parent was fetched.
pub record IsParent (disk : Disk) (path : Bytes) (m : SourceManager) (r : Option ℕ × SourceManager)
    : Type 0 where
  pub cached : IsCached disk r.1
  pub stays : Stays m r.1
  pub db_kept : r.1.db ≡ m.db
  pub parent_is : r.0 ≡ parent_id disk path

pub object_id_of-object :
    (disk : Disk) (m : SourceManager) (path : Bytes) (ptr : ℕ)
    → IsObject disk m.objects path ptr
    → object_id_of m ptr ≡ some (fnv_hash path)
object_id_of-object disk m path ptr o = rw (o.at) (ap some o.id_is)

pub get_create_parent-IsParent :
    (disk : Disk) (g : GetFile) (path parent : Bytes) (m : SourceManager)
    (r : Option ℕ × SourceManager)
    → Fetches disk g
    → IsCached disk m
    → disk.parent_path path ≡ parent
    → get_create_parent disk g path m ≡ some r
    → IsParent disk path m r
unfolding get_create_parent
get_create_parent-IsParent disk g path [] m r fetches cached q e =
    let f : some (none, m) ≡ some r = rw (get_create_parent, q) at e in
    let same : (none, m) ≡ r = cc in
    subst (IsParent disk path m) same (record {
      cached = cached;
      stays = λ p ptr h. h;
      db_kept = refl;
      parent_is = rw (parent_id, q) refl;
    })
get_create_parent-IsParent disk g path (c ∷ parent) m r fetches cached q e =
    let f = rw (get_create_parent, q) at e in
    let ((ptr, m'), got, h) = bind-some (g (c ∷ parent) m) _ r f in
    let same : (object_id_of m' ptr, m') ≡ r = cc in
    let d = fetches (c ∷ parent) m ptr m' cached got in
    subst (IsParent disk path m) same (record {
      cached = d.cached;
      stays = d.stays;
      db_kept = d.db_kept;
      parent_is = rw (parent_id, q) (object_id_of-object disk m' _ ptr (d.cached _ ptr d.found));
    })
