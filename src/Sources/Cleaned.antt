-- ===== src/Sources/Cleaned.antt =====
-- What `incrementalCleanup` leaves of the database.
use cc_base.Base.{
  ℕ, suc, Bool, true, false, not, ◌&&◌, ◌||◌, some, List, [], ◌∷◌, map, ◌≡◌, ◌≢◌, refl, ap, sym,
  ◌∙◌, subst, inl, inr, arith, ◌==◌, ==_iff, All, Bool-cases, get_elem?,
}
use cc_base.Cstring.{Bytes, streq}
use cc_base.Sources.Model.{Disk, File}
use cc_base.Sources.Keys.{find_key, assign_key, mem_id, find_key-assign_key_other}
use cc_base.Sources.Manager.{SourceManager, canonical_form, get_file, get_create_file_entry}
use cc_base.Sources.Store.{row_ids}
use cc_base.Sources.Synced.{IsSynced}
use cc_base.Sources.Erased.{IsRow}
use cc_base.Sources.Removed.{remove_file-IsSynced}
use cc_base.Sources.Status.{IncrementalStatus, Statuses, modified, added, deleted, action_changed}
use cc_base.Sources.Taken.{
  find_key-erase_key_other, IsRow-erase_row, HasRemoved, remove_file-HasRemoved,
}
use cc_base.Sources.Cleanup.{is_removed, cleanup_path, incremental_cleanup}

-- A path with a status, and the file that the cache has for it.
pub record Target : Type 0 where
  pub path : Bytes
  pub status : IncrementalStatus
  pub ptr : ℕ
  pub file : File

pub record IsTarget (disk : Disk) (m : SourceManager) (t : Target) : Type 0 where
  pub canonical : (canonical_form disk t.path).0 ≡ t.path
  pub own_path : t.file.path ≡ t.path
  pub found : find_key m.files t.path ≡ some t.ptr
  pub at : get_elem? m.objects t.ptr ≡ some t.file
  pub row : IsRow t.file m.db.files

-- Different paths, and different files.
abbrev pub Apart : List Target → Type 0
Apart [] = Unit
Apart (t ∷ ts) = All (λ u. (streq t.path u.path ≡ false) × (u.file.id ≢ t.file.id)) ts × Apart ts

abbrev pub statuses_of : List Target → Statuses
statuses_of ts = map (λ t. (t.path, t.status)) ts

abbrev pub is_new : IncrementalStatus → Bool
is_new added = true
is_new modified = false
is_new deleted = false
is_new action_changed = false

is_removed-is_new : (s : IncrementalStatus) → is_removed s ≡ not (is_new s)
unfolding is_removed
is_removed-is_new modified = refl
is_removed-is_new added = refl
is_removed-is_new deleted = refl
is_removed-is_new action_changed = refl

-- Whether a path that is not new leads to the file with this number.
abbrev pub cleaned : List Target → ℕ → Bool
cleaned [] id = false
cleaned (t ∷ ts) id = not (is_new t.status) && t.file.id == id || cleaned ts id

-- Fetching a file that is in the cache.
abbrev fetched : Target → SourceManager → SourceManager
fetched t m = record m { files = assign_key t.path t.ptr m.files }

get_file-IsTarget :
    (disk : Disk) (n : ℕ) (m : SourceManager) (t : Target)
    → IsTarget disk m t
    → get_file disk (suc n) t.path m ≡ some (t.ptr, fetched t m)
unfolding get_file get_create_file_entry
get_file-IsTarget disk n m t is =
    let e : find_key m.files (canonical_form disk t.path).0 ≡ some t.ptr =
      ap (find_key m.files) is.canonical ∙ is.found in
    rw (get_file, get_create_file_entry, e)
      (ap (λ c. some (t.ptr, record m { files = assign_key c t.ptr m.files })) is.canonical)

-- After the removal of one target the others are targets.
IsTarget-removed :
    (disk : Disk) (m m' : SourceManager) (t u : Target)
    → IsTarget disk m t
    → IsTarget disk m u
    → streq t.path u.path ≡ false
    → u.file.id ≢ t.file.id
    → HasRemoved t.file (fetched t m) m.db m'
    → IsTarget disk m' u
IsTarget-removed disk m m' t u is other paths ids (objects, files, rows) = record {
  canonical = other.canonical;
  own_path = other.own_path;
  found =
      ap (λ x. find_key x u.path) files
      ∙ (find_key-erase_key_other (fetched t m).files t.file.path u.path
            (ap (λ x. streq x u.path) is.own_path ∙ paths)
          ∙ (find_key-assign_key_other m.files t.path u.path t.ptr paths ∙ other.found));
  at = ap (λ x. get_elem? x u.ptr) objects ∙ other.at;
  row = subst (IsRow u.file) (sym rows) (IsRow-erase_row u.file m.db.files t.file.id ids other.row);
}

record IsCleaned (t : Target) (m m' : SourceManager) : Type 0 where
  synced : IsSynced m'
  fields : HasRemoved t.file (fetched t m) m.db m'
  ids : (id : ℕ) → mem_id id (row_ids m'.db) ≡ (mem_id id (row_ids m.db) && not (t.file.id == id))

cleanup_path-IsCleaned :
    (disk : Disk) (n : ℕ) (m : SourceManager) (t : Target)
    → IsSynced m
    → IsTarget disk m t
    → (m' : SourceManager) × (cleanup_path disk (suc n) t.path m ≡ some m') × IsCleaned t m m'
unfolding cleanup_path
cleanup_path-IsCleaned disk n m t s is =
    let s2 : IsSynced (fetched t m) = record { ids = s.ids; texts = s.texts; whole = s.whole } in
    let (m', run, synced, absent, others, left) =
      remove_file-IsSynced t.file (fetched t m) s2 is.row in
    (
      m',
      rw (cleanup_path, get_file-IsTarget disk n m t is, is.at) run,
      record {
        synced = synced;
        fields = remove_file-HasRemoved t.file (fetched t m) m' run;
        ids = λ id. elim (Bool-cases (t.file.id == id)) [
          | inl hit ↦
              let same = (==_iff t.file.id id).0 hit in
              ground (arith, hit, sym (ap (λ x. mem_id x (row_ids m'.db)) same) ∙ absent)
          | inr miss ↦ ground (arith, miss, others id (λ e. ground (arith, miss, e)))
        ];
      },
    )

still_targets :
    (disk : Disk) (m m' : SourceManager) (t : Target) (ts : List Target)
    → IsTarget disk m t
    → IsCleaned t m m'
    → All (λ u. (streq t.path u.path ≡ false) × (u.file.id ≢ t.file.id)) ts
    → All (IsTarget disk m) ts
    → All (IsTarget disk m') ts
still_targets disk m m' t [] is clean apart all = tt
still_targets disk m m' t (u ∷ ts) is clean apart all = (
  IsTarget-removed disk m m' t u is all.0 apart.0.0 apart.0.1 clean.fields,
  still_targets disk m m' t ts is clean apart.1 all.1,
)

-- For paths that the cache has with rows of the database, different paths with different files, and
-- a cache that knows what the database has: the cleanup returns, and the rows that go are exactly
-- those of the files that are modified or deleted or have another action. The cache then again knows
-- exactly what the database has, and each file that is left has its content.
pub incremental_cleanup-IsSynced :
    (disk : Disk) (n : ℕ) (m : SourceManager) (ts : List Target)
    → IsSynced m
    → All (IsTarget disk m) ts
    → Apart ts
    → (m' : SourceManager) × (incremental_cleanup disk (suc n) (statuses_of ts) m ≡ some m')
      × IsSynced m'
      × ((id : ℕ) → mem_id id (row_ids m'.db) ≡ (mem_id id (row_ids m.db) && not (cleaned ts id)))
unfolding incremental_cleanup
incremental_cleanup-IsSynced disk n m [] s all apart = (m, refl, s, λ id. ground arith)
incremental_cleanup-IsSynced disk n m (t ∷ ts) s all apart =
    elim (Bool-cases (is_removed t.status)) [
      | inl stale ↦
          let (m1, run, clean) = cleanup_path-IsCleaned disk n m t s all.0 in
          let (m2, runs, synced, ids) =
            incremental_cleanup-IsSynced disk n m1 ts clean.synced
              (still_targets disk m m1 t ts all.0 clean apart.0 all.1) apart.1 in
          (
            m2,
            rw (incremental_cleanup, stale) (rw run runs),
            synced,
            λ id. ground (arith, stale, is_removed-is_new t.status, ids id, clean.ids id),
          )
      | inr fresh ↦
          let (m2, runs, synced, ids) = incremental_cleanup-IsSynced disk n m ts s all.1 apart.1 in
          (
            m2,
            rw (incremental_cleanup, fresh) runs,
            synced,
            λ id. ground (arith, fresh, is_removed-is_new t.status, ids id),
          )
    ]
