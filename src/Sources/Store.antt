-- ===== src/Sources/Store.antt =====
-- What the source manager writes to the database and reads from it.
use cc_base.Base.{
  ℕ, suc, Bool, false, Option, none, some, List, [], ◌∷◌, ◌++◌, map, length, get_elem?, set,
  if◌then◌else◌, ◌==◌, ◌>>=◌,
}
use cc_base.Cstring.{Bytes, streq}
use cc_base.Sources.Model.{LazyContent, File, FileContent, Database}
use cc_base.Sources.Keys.{assign_key, erase_key, mem_id, mem_text, erase_id, erase_text}
use cc_base.Sources.Manager.{SourceManager}

abbrev pub row_ids : Database → List ℕ
row_ids db = map (λ f. f.id) db.files

abbrev pub hashes : Database → List Bytes
hashes db = map (λ c. c.hash) db.contents

-- `content.unload ()`
abbrev pub unloaded : Option LazyContent → Option LazyContent
unloaded none = none
unloaded (some c) = some (record c { loaded = none })

-- The text of a content in the table.
unfoldable pub find_content : List FileContent → Bytes → Option Bytes
find_content [] hash = none
find_content (c ∷ contents) hash =
    let rest = find_content contents hash in if streq c.hash hash then some c.content else rest

-- `load`: the text, or none where the exception object_not_persistent is thrown.
unfoldable pub load : Database → LazyContent → Option Bytes
unfolding find_content
load db c = elim c.loaded [ some text ↦ some text | none ↦ find_content db.contents c.object_id ]

-- `persist` of a content or a file; none is the exception object_already_persistent.
unfoldable pub persist_content : Database → FileContent → Option Database
persist_content db c =
    if mem_text c.hash (hashes db)
    then none
    else some (record db { contents = db.contents ++ c ∷ [] })

unfoldable pub persist_row : Database → File → Option Database
persist_row db f =
    if mem_id f.id (row_ids db)
    then none
    else some (record db { files = db.files ++ (record f { content = unloaded f.content }) ∷ [] })

-- A pass through the `try` block ends, or the exception leaves it at once; both go on behind it.
pub data Tried : Type 0 where
  goes_on : SourceManager → Tried
  caught : SourceManager → Tried

-- The content of a file is stored if it has one that is not stored.
unfoldable pub store_content : File → SourceManager → Option Tried
unfolding load persist_content
store_content f m = elim f.content [
  | none ↦ some (goes_on m)
  | some c ↦ if mem_text c.object_id m.persisted_contents then some (goes_on m) else (do
    text ← load m.db c
    some (elim (persist_content m.db (record { hash = c.object_id; content = text })) [
      | none ↦ caught m
      | some db ↦
          goes_on (record m { db = db; persisted_contents = c.object_id ∷ m.persisted_contents })
    ]))
]

-- The row of the file, and the release of its content.
unfoldable pub store_row : ℕ → File → SourceManager → SourceManager
unfolding persist_row
store_row ptr f m = elim (persist_row m.db f) [
  | none ↦ m
  | some db ↦ record m {
    db = db;
    objects = set m.objects ptr (record f { content = unloaded f.content });
  }
]

-- The `try` block.
unfoldable pub try_store : ℕ → File → SourceManager → Option SourceManager
unfolding store_content store_row
try_store ptr f m = do
  tried ← store_content f m
  some (elim tried [ caught m' ↦ m' | goes_on m' ↦ store_row ptr f m' ])

unfoldable pub persist_object : ℕ → File → SourceManager → Option SourceManager
unfolding try_store
persist_object ptr f m =
    if mem_id f.id m.persisted_files
    then some m
    else try_store ptr f (record m { persisted_files = f.id ∷ m.persisted_files })

-- One round of the loop of `persistFiles`; none is an invalid pointer or an exception that passes.
unfoldable pub persist_file : ℕ → SourceManager → Option SourceManager
unfolding persist_object
persist_file ptr m = do f ← get_elem? m.objects ptr; persist_object ptr f m

-- The loop of `persistFiles`.
unfoldable pub persist_each : List (Bytes × ℕ) → SourceManager → Option SourceManager
unfolding persist_file
persist_each [] m = some m
persist_each ((path, ptr) ∷ files) m = do m' ← persist_file ptr m; persist_each files m'

-- `persistFiles`; after an exception the transaction is undone.
unfoldable pub persist_files : SourceManager → Option SourceManager
unfolding persist_each
persist_files m = persist_each m.files m

-- `update` of a row, whose content is read-only.
unfoldable pub update_row : File → List File → List File
update_row f [] = []
update_row f (g ∷ rows) =
    if g.id == f.id then (record f { content = g.content }) ∷ rows else g ∷ update_row f rows

-- `updateFile`
unfoldable pub update_file : File → SourceManager → SourceManager
unfolding update_row
update_file f m =
    if mem_id f.id m.persisted_files
    then record m { db = record m.db { files = update_row f m.db.files } }
    else m

-- Whether a file has the content of a hash.
abbrev pub has_content : Bytes → File → Bool
has_content hash f = elim f.content [ none ↦ false | some c ↦ streq c.object_id hash ]

-- How many files have the content.
unfoldable pub references : Bytes → List File → ℕ
references hash [] = 0
references hash (f ∷ rows) =
    let rest = references hash rows in if has_content hash f then suc rest else rest

unfoldable pub erase_row : ℕ → List File → List File
erase_row id [] = []
erase_row id (f ∷ rows) = let rest = erase_row id rows in if id == f.id then rest else f ∷ rest

unfoldable pub erase_content : Bytes → List FileContent → List FileContent
erase_content hash [] = []
erase_content hash (c ∷ contents) =
    let rest = erase_content hash contents in if streq hash c.hash then rest else c ∷ rest

-- The content goes with its only file.
unfoldable pub removes_content : File → Database → Option Bytes
unfolding references
removes_content f db = elim f.content [
  | none ↦ none
  | some c ↦ if references c.object_id db.files == 1 then some c.object_id else none
]

-- `erase` of a content; none is the exception object_not_persistent.
unfoldable pub erase_content_of : Option Bytes → Database → Option Database
unfolding erase_content
erase_content_of none db = some db
erase_content_of (some hash) db =
    if mem_text hash (hashes db)
    then some (record db { contents = erase_content hash db.contents })
    else none

abbrev pub forget_content : Option Bytes → List Bytes → List Bytes
forget_content none persisted = persisted
forget_content (some hash) persisted = erase_text hash persisted

-- The row and the entries of the cache go.
unfoldable pub remove_row : File → Option Bytes → SourceManager → Database → Option SourceManager
unfolding erase_row
remove_row f gone m db =
    if mem_id f.id (row_ids db)
    then some (record {
      objects = m.objects;
      files = erase_key f.path m.files;
      persisted_files = erase_id f.id m.persisted_files;
      persisted_contents = forget_content gone m.persisted_contents;
      db = record db { files = erase_row f.id db.files };
    })
    else none

-- `removeFile`; none is the exception object_not_persistent.
unfoldable pub remove_file : File → SourceManager → Option SourceManager
unfolding removes_content erase_content_of remove_row
remove_file f m = do
  db ← erase_content_of (removes_content f m.db) m.db
  remove_row f (removes_content f m.db) m db

-- The loop of `reloadCache` over the rows, each of which becomes an object.
unfoldable pub reload_each : List File → SourceManager → SourceManager
reload_each [] m = m
reload_each (f ∷ rows) m = reload_each rows (record m {
  objects = m.objects ++ (record f { content = unloaded f.content }) ∷ [];
  files = assign_key f.path (length m.objects) m.files;
  persisted_files = f.id ∷ m.persisted_files;
})

-- `reloadCache`
unfoldable pub reload_cache : SourceManager → SourceManager
unfolding reload_each
reload_cache m =
    let cleared : SourceManager = record m {
      files = [];
      persisted_files = [];
      persisted_contents = hashes m.db;
    } in
    reload_each m.db.files cleared
