-- ===== src/Tests/Sources.antt =====
-- A source manager on a disk with two paths.
use cc_base.Base.{
  ℕ, zero, suc, ◌<◌, get_elem?, drop, true, none, some, [], ◌∷◌, ◌≡◌, ◌≢◌, refl, subst, inl, arith,
  length, All,
}
use cc_base.Cstring.{Bytes, codes, streq, contains}
use cc_base.Sources.Model.{LazyContent, File, Disk, fnv_hash}
use cc_base.Sources.Keys.{find_key, assign_key, bytes_lt}
use cc_base.Sources.Manager.{
  SourceManager, new_entry, entry_content, is_plain_text, create_file_content, get_create_parent,
  get_create_file_entry, get_file,
}
use cc_base.Sources.Store.{load, persist_files}
use cc_base.Sources.Total.{IsFileSystem, get_file_total}
use cc_base.Sources.Parents.{IsCached, IsFetched}
use cc_base.Sources.Cached.{get_file-IsFetched}
use cc_base.Sources.Synced.{IsSynced, IsReady}
use cc_base.Sources.Copies.{IsTextOf, IsGrown}
use cc_base.Sources.Persisted.{IsStored, persist_files-IsStored}
use cc_base.Sources.Status.{Statuses, file_status}
use cc_base.Sources.Incremental.{IsEntry, expected_at}
use cc_base.Sources.Statuses.{file_status-expected}

-- Every directory of this disk has a name of one byte.
abbrev without_last : Bytes → Bytes
without_last [] = []
without_last (c ∷ []) = []
without_last (c ∷ (d ∷ p)) = c ∷ without_last (d ∷ p)

without_last_shorter : (p : Bytes) → without_last p ≢ [] → length (without_last p) < length p
without_last_shorter [] ne = absurd (ne refl)
without_last_shorter (c ∷ []) ne = absurd (ne refl)
without_last_shorter (c ∷ (d ∷ [])) ne = omega arith
without_last_shorter (c ∷ (d ∷ (e ∷ p))) ne =
    let shorter = without_last_shorter (d ∷ (e ∷ p)) (cc) in omega (arith, shorter)

abbrev pub disk : Disk
disk = record {
  canonical = λ p. some p;
  parent_path = without_last;
  filename = λ p. p;
  last_write_time = λ p. some 7;
  exists = λ p. true;
  is_directory = λ p. streq p (codes "/");
  is_regular_file = λ p. streq p (codes "/a");
  read = λ p. some (codes "int a;");
  magic_file = λ p. some (codes "text/x-c");
  sha1_hash = λ text. 35 ∷ text;
}

disk-IsFileSystem : IsFileSystem disk
disk-IsFileSystem = record {
  shorter = without_last_shorter;
  canonical_again = λ p c e. refl;
  canonical_parent = λ c e ne. refl;
}

abbrev empty : SourceManager
empty = record {
  objects = [];
  files = [];
  persisted_files = [];
  persisted_contents = [];
  db = record { files = []; contents = [] };
}

get_file_total_example :
    (depth : ℕ) × ((n : ℕ)
      → depth < n
      → (m : SourceManager)
      → (ptr : ℕ) × (after : SourceManager) × (get_file disk n (codes "/a") m ≡ some (ptr, after)))
get_file_total_example = get_file_total disk disk-IsFileSystem (codes "/a")

abbrev pub root : File
root = new_entry disk (codes "/") true none

abbrev source : File
source = new_entry disk (codes "/a") true (some (fnv_hash (codes "/")))

abbrev two_files : SourceManager
two_files = record {
  objects = root ∷ source ∷ [];
  files = (codes "/", 0) ∷ (codes "/a", 1) ∷ [];
  persisted_files = [];
  persisted_contents = [];
  db = record { files = []; contents = [] };
}

fetched : get_file disk 3 (codes "/a") empty ≡ some (1, two_files)
unfolding get_file get_create_file_entry get_create_parent find_key assign_key bytes_lt streq
    new_entry
fetched = refl

empty-IsCached : IsCached disk empty
unfolding find_key
empty-IsCached path ptr e = absurd (cc)

get_file-IsFetched_example :
    IsFetched disk (codes "/a") empty 1 two_files
    × ((k : ℕ) (q : Bytes)
        → codes "/a" ≡ q
        → (after : SourceManager) × (get_file disk (suc k) q two_files ≡ some (1, after)))
get_file-IsFetched_example =
    get_file-IsFetched disk 3 (codes "/a") empty 1 two_files empty-IsCached fetched

two_files-IsSynced : IsSynced two_files
two_files-IsSynced = record { ids = λ x. refl; texts = λ h. refl; whole = tt }

two_files-IsReady : All (λ p. IsReady two_files p.1) two_files.files
unfolding new_entry entry_content is_plain_text create_file_content streq contains
two_files-IsReady = (
  record { file = root; at = refl; loadable = tt },
  (record { file = source; at = refl; loadable = inl (cc) }, tt),
)

-- The identifier of a content is its text behind a number sign.
two_files-IsTextOf : IsTextOf (drop 1) two_files
unfolding new_entry entry_content is_plain_text create_file_content streq contains
two_files-IsTextOf = record { stored = tt; held = held_of }
  where
    held_of :
        (ptr : ℕ) (f : File) (c : LazyContent) (text : Bytes)
        → get_elem? two_files.objects ptr ≡ some f
        → f.content ≡ some c
        → c.loaded ≡ some text
        → text ≡ drop 1 c.object_id
    held_of zero f c text at has loaded = absurd (cc)
    held_of (suc zero) f c text at has loaded =
        let same : source ≡ f = cc in
        let content : record { object_id = 35 ∷ codes "int a;"; loaded = some (codes "int a;") }
            ≡ c =
          cc in
        cc
    held_of (suc (suc ptr)) f c text at has loaded = absurd (cc)

persist_files-IsStored_example :
    (m' : SourceManager) × (persist_files two_files ≡ some m')
    × IsStored two_files.files m'
    × IsGrown two_files.files two_files m'
    × IsTextOf (drop 1) m'
    × (persist_files m' ≡ some m')
persist_files-IsStored_example =
    persist_files-IsStored (drop 1) two_files two_files-IsSynced two_files-IsReady
      two_files-IsTextOf

two_files-IsEntry : All (IsEntry two_files) two_files.files
unfolding new_entry entry_content is_plain_text create_file_content streq contains load
two_files-IsEntry = (
  record { file = root; at = refl; path_is = refl; loads = λ c e. absurd (cc) },
  (record { file = source; at = refl; path_is = refl; loads = source_loads }, tt),
)
  where
    source_loads : (c : LazyContent) → source.content ≡ some c → load two_files.db c ≢ none
    source_loads c e =
        let same : record { object_id = 35 ∷ codes "int a;"; loaded = some (codes "int a;") } ≡ c =
          cc in
        subst (λ d. load two_files.db d ≢ none) same (cc)

file_status-expected_example :
    (statuses : Statuses) × (file_status disk two_files ≡ some statuses)
    × ((path : Bytes)
        → find_key statuses path ≡ expected_at disk two_files.objects two_files.files path)
unfolding streq
file_status-expected_example =
    file_status-expected disk two_files two_files-IsEntry ((refl, tt), (tt, tt))

abbrev content : LazyContent
content = record { object_id = codes "#i"; loaded = none }

abbrev pub row : File
row = record source { id = 3; content = some content }

abbrev stored : SourceManager
stored = record {
  objects = row ∷ [];
  files = (codes "/a", 0) ∷ [];
  persisted_files = 3 ∷ [];
  persisted_contents = codes "#i" ∷ [];
  db = record {
    files = row ∷ [];
    contents = record { hash = codes "#i"; content = codes "i" } ∷ [];
  };
}
