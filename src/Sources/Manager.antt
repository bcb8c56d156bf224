-- ===== src/Sources/Manager.antt =====
-- The operations of `SourceManager`, called by one thread.
use cc_base.Base.{
  ℕ, zero, suc, Bool, true, false, not, ◌&&◌, Option, none, some, List, [], ◌∷◌, ◌++◌, map, length,
  get_elem?, if◌then◌else◌, ◌==◌, ◌>>=◌,
}
use cc_base.Cstring.{Bytes, codes, contains}
use cc_base.Sources.Model.{
  LazyContent, File, FileContent, Database, Disk, ps_none, directory_type, unknown_type, fnv_hash,
}
use cc_base.Sources.Keys.{find_key, assign_key}

-- The objects that were made, to which a `FilePtr` is an index, and the fields of the class.
pub record SourceManager : Type 0 where
  pub objects : List File
  pub files : List (Bytes × ℕ)
  pub persisted_files : List ℕ
  pub persisted_contents : List Bytes
  pub db : Database

-- `std::replace` of 0 by a space
abbrev pub without_zero : ℕ → ℕ
without_zero c = if c == 0 then 32 else c

-- `createFileContent`
unfoldable pub create_file_content : Disk → Bytes → Option FileContent
create_file_content disk path = do
  text ← disk.read path
  some (record { hash = disk.sha1_hash (map without_zero text); content = map without_zero text })

-- `isPlainText`
unfoldable pub is_plain_text : Disk → Bytes → Bool
is_plain_text disk path = elim (disk.magic_file path) [
  | none ↦ false
  | some magic ↦ contains magic (codes "text")
]

-- A lazy pointer to an object that was made.
abbrev pub lazy : Option FileContent → Option LazyContent
lazy none = none
lazy (some c) = some (record { object_id = c.hash; loaded = some c.content })

-- The content that a new entry gets.
unfoldable pub entry_content : Disk → Bytes → Bool → Option LazyContent
unfolding is_plain_text create_file_content
entry_content disk path with_content =
    if not (disk.is_directory path) && with_content
    then if not (disk.is_regular_file path)
      then none
      else if not (is_plain_text disk path)
      then none
      else lazy (create_file_content disk path)
    else none

abbrev pub value_or_zero : Option ℕ → ℕ
value_or_zero none = 0
value_or_zero (some t) = t

-- The entry that is made for a path, with the identifier of its parent.
unfoldable pub new_entry : Disk → Bytes → Bool → Option ℕ → File
unfolding entry_content
new_entry disk path with_content parent = record {
  id = fnv_hash path;
  file_type = if disk.is_directory path then directory_type else unknown_type;
  path = path;
  filename = disk.filename path;
  timestamp = value_or_zero (disk.last_write_time path);
  content = entry_content disk path with_content;
  parent = parent;
  parse_status = ps_none;
  in_search_index = false;
}

-- `getFile`, as `getCreateParent` and `getCreateFileEntry` call it; `none` is no end of the recursion.
abbrev pub GetFile : Type 0
GetFile = Bytes → SourceManager → Option (ℕ × SourceManager)

-- The identifier of the object that a pointer points to.
abbrev pub object_id_of : SourceManager → ℕ → Option ℕ
object_id_of m ptr = do f ← get_elem? m.objects ptr; some f.id

-- `getCreateParent`: the identifier of the parent, or none for NULL, and the state after.
unfoldable pub get_create_parent :
    Disk → GetFile → Bytes → SourceManager → Option (Option ℕ × SourceManager)
get_create_parent disk get_file path m = elim (disk.parent_path path) [
  | [] ↦ some (none, m)
  | c ∷ parent ↦ do (ptr, m') ← get_file (c ∷ parent) m; some (object_id_of m' ptr, m')
]

-- `getCreateFileEntry`
unfoldable pub get_create_file_entry :
    Disk → GetFile → Bytes → Bool → SourceManager → Option (ℕ × SourceManager)
unfolding get_create_parent
get_create_file_entry disk get_file path with_content m = elim (find_key m.files path) [
  | some ptr ↦ some (ptr, m)
  | none ↦ do
    (parent, m') ← get_create_parent disk get_file path m
    some (
      length m'.objects,
      record m' { objects = m'.objects ++ new_entry disk path with_content parent ∷ [] },
    )
]

-- The path under which a file is stored, and whether it exists.
abbrev pub canonical_form : Disk → Bytes → Bytes × Bool
canonical_form disk path = elim (disk.canonical path) [
  | none ↦ (path, false)
  | some canonical ↦ (canonical, true)
]

-- `getFile`; the number bounds the depth of the recursion.
unfoldable pub get_file : Disk → ℕ → GetFile
unfolding get_create_file_entry
get_file disk zero path m = none
get_file disk (suc n) path m =
    let (canonical, file_exists) = canonical_form disk path in
    (do
      (ptr, m') ← get_create_file_entry disk (λ p s. get_file disk n p s) canonical file_exists m
      some (ptr, record m' { files = assign_key canonical ptr m'.files }))
