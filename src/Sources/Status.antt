-- ===== src/Sources/Status.antt =====
-- The status of the files for incremental parsing, parser/src/parsercontext.cpp.
use cc_base.Base.{
  ℕ, Bool, not, ◌&&◌, Option, none, some, List, [], ◌∷◌, get_elem?, if◌then◌else◌, ◌>>=◌,
}
use cc_base.Cstring.{Bytes, streq}
use cc_base.Sources.Model.{LazyContent, File, Disk, directory_type, binary_type}
use cc_base.Sources.Keys.{find_key}
use cc_base.Sources.Manager.{SourceManager}
use cc_base.Sources.Store.{load}

pub data IncrementalStatus : Type 0 where
  modified added deleted action_changed : IncrementalStatus

-- `fileStatus`
abbrev pub Statuses : Type 0
Statuses = List (Bytes × IncrementalStatus)

-- `emplace`: a status that is there stays.
unfoldable pub emplace_status : Bytes → IncrementalStatus → Statuses → Statuses
emplace_status path status [] = (path, status) ∷ []
emplace_status path status ((p, s) ∷ statuses) =
    let rest = emplace_status path status statuses in
    if streq p path then (p, s) ∷ statuses else (p, s) ∷ rest

-- Files that are neither directories nor binary.
unfoldable pub is_source : File → Bool
is_source f = not (streq f.file_type directory_type) && not (streq f.file_type binary_type)

-- What is read from a file, nothing if it cannot be opened.
abbrev pub stream_text : Option Bytes → Bytes
stream_text none = []
stream_text (some text) = text

-- Whether the hash of the file on the disk is another.
abbrev pub is_changed : Disk → File → LazyContent → Bool
is_changed disk f c = not (streq c.object_id (disk.sha1_hash (stream_text (disk.read f.path))))

-- The status of a file that has none; `none` is an exception of `load`.
unfoldable pub compare_content : Disk → SourceManager → File → Statuses → Option Statuses
unfolding emplace_status load
compare_content disk m f statuses = elim f.content [
  | none ↦ some statuses
  | some c ↦ do
    text ← load m.db c
    some (if is_changed disk f c then emplace_status f.path modified statuses else statuses)
]

-- One round of the loop.
unfoldable pub add_status : Disk → SourceManager → File → Statuses → Option Statuses
unfolding compare_content emplace_status
add_status disk m f statuses =
    if disk.exists f.path
    then elim (find_key statuses f.path) [
      | some status ↦ some statuses
      | none ↦ compare_content disk m f statuses
    ]
    else some (emplace_status f.path deleted statuses)

-- The loop over the files, which `getFiles` filters.
unfoldable pub add_statuses : Disk → SourceManager → List (Bytes × ℕ) → Statuses → Option Statuses
unfolding add_status is_source
add_statuses disk m [] statuses = some statuses
add_statuses disk m ((path, ptr) ∷ files) statuses = do
  f ← get_elem? m.objects ptr
  statuses' ← (if is_source f then add_status disk m f statuses else some statuses)
  add_statuses disk m files statuses'

-- `ParserContext`
unfoldable pub file_status : Disk → SourceManager → Option Statuses
unfolding add_statuses
file_status disk m = add_statuses disk m m.files []
