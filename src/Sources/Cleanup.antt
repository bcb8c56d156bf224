-- ===== src/Sources/Cleanup.antt =====
-- `incrementalCleanup` of parser/src/parser.cpp.
use cc_base.Base.{ℕ, Bool, true, false, Option, some, [], ◌∷◌, get_elem?, if◌then◌else◌, ◌>>=◌}
use cc_base.Cstring.{Bytes}
use cc_base.Sources.Model.{Disk}
use cc_base.Sources.Manager.{SourceManager, get_file}
use cc_base.Sources.Store.{remove_file}
use cc_base.Sources.Status.{IncrementalStatus, Statuses, modified, added, deleted, action_changed}

-- The cases of the switch.
unfoldable pub is_removed : IncrementalStatus → Bool
is_removed modified = true
is_removed deleted = true
is_removed action_changed = true
is_removed added = false

-- The file of a path is fetched and removed; none is an exception, or a fault.
unfoldable pub cleanup_path : Disk → ℕ → Bytes → SourceManager → Option SourceManager
unfolding get_file remove_file
cleanup_path disk n path m = do
  (ptr, m') ← get_file disk n path m
  f ← get_elem? m'.objects ptr
  remove_file f m'

-- `incrementalCleanup`, with the fuel of `get_file`.
unfoldable pub incremental_cleanup : Disk → ℕ → Statuses → SourceManager → Option SourceManager
unfolding cleanup_path is_removed
incremental_cleanup disk n [] m = some m
incremental_cleanup disk n ((path, status) ∷ statuses) m = do
  m' ← (if is_removed status then cleanup_path disk n path m else some m)
  incremental_cleanup disk n statuses m'
