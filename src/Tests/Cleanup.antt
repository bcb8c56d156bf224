-- ===== src/Tests/Cleanup.antt =====
-- The cleanup of an incremental run at a concrete input.
use cc_base.Base.{ℕ, not, ◌&&◌, some, [], ◌∷◌, ◌≡◌, refl, arith}
use cc_base.Cstring.{codes, streq}
use cc_base.Sources.Model.{File}
use cc_base.Sources.Keys.{mem_id, mem_text, find_key}
use cc_base.Sources.Manager.{SourceManager, new_entry}
use cc_base.Sources.Store.{row_ids}
use cc_base.Sources.Synced.{IsSynced}
use cc_base.Sources.Status.{modified, added}
use cc_base.Sources.Cleanup.{incremental_cleanup}
use cc_base.Sources.Cleaned.{Target, IsTarget, Apart, cleaned, incremental_cleanup-IsSynced}
use cc_base.Tests.Sources.{disk, root, row}

abbrev root_row : File
root_row = record root { id = 4 }

abbrev stored_twice : SourceManager
stored_twice = record {
  objects = row ∷ (root_row ∷ []);
  files = (codes "/", 1) ∷ ((codes "/a", 0) ∷ []);
  persisted_files = 4 ∷ (3 ∷ []);
  persisted_contents = codes "#i" ∷ [];
  db = record {
    files = root_row ∷ (row ∷ []);
    contents = record { hash = codes "#i"; content = codes "i" } ∷ [];
  };
}

stored_twice-IsSynced : IsSynced stored_twice
unfolding mem_text streq new_entry
stored_twice-IsSynced = record { ids = λ x. refl; texts = λ h. refl; whole = (tt, (refl, tt)) }

abbrev changed_source : Target
changed_source = record { path = codes "/a"; status = modified; ptr = 0; file = row }

abbrev new_root : Target
new_root = record { path = codes "/"; status = added; ptr = 1; file = root_row }

changed_source-IsTarget : IsTarget disk stored_twice changed_source
unfolding find_key streq new_entry
changed_source-IsTarget = record {
  canonical = refl;
  own_path = refl;
  found = refl;
  at = refl;
  row = record {
    before = root_row ∷ [];
    row = row;
    after = [];
    split = refl;
    same_id = refl;
    same_content = refl;
  };
}

new_root-IsTarget : IsTarget disk stored_twice new_root
unfolding find_key streq new_entry
new_root-IsTarget = record {
  canonical = refl;
  own_path = refl;
  found = refl;
  at = refl;
  row = record {
    before = [];
    row = root_row;
    after = row ∷ [];
    split = refl;
    same_id = refl;
    same_content = refl;
  };
}

targets-Apart : Apart (changed_source ∷ (new_root ∷ []))
unfolding streq
targets-Apart = (((refl, λ e. omega (arith, e)), tt), (tt, tt))

incremental_cleanup-IsSynced_example :
    (m' : SourceManager) × (incremental_cleanup disk 1
        ((codes "/a", modified) ∷ ((codes "/", added) ∷ []))
        stored_twice
      ≡ some m')
    × IsSynced m'
    × ((id : ℕ)
        → mem_id id (row_ids m'.db) ≡ (
            mem_id id (row_ids stored_twice.db)
            && not (cleaned (changed_source ∷ (new_root ∷ [])) id)))
incremental_cleanup-IsSynced_example =
    incremental_cleanup-IsSynced disk 0 stored_twice (changed_source ∷ (new_root ∷ []))
      stored_twice-IsSynced (changed_source-IsTarget, (new_root-IsTarget, tt)) targets-Apart
