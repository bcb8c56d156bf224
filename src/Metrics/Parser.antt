-- ===== src/Metrics/Parser.antt =====
-- plugins/metrics/parser/src/metricsparser.cpp: the table of metrics, and the cleanup before an
-- incremental run.
use cc_base.Base.{
  ℕ, suc, Bool, true, false, Option, none, some, List, [], ◌∷◌, ◌++◌, map, if◌then◌else◌, ◌==◌,
  ◌>>=◌,
}
use cc_base.Cstring.{Bytes}
use cc_base.Sources.Model.{File, Database}
use cc_base.Sources.Keys.{find_key, mem_id, erase_id}
use cc_base.Sources.Store.{load}
use cc_base.Sources.Status.{IncrementalStatus, Statuses, modified, added, deleted, action_changed}
use cc_base.Util.Walk.{Tree, WalkEnd, returns, throws, state_of, iterate_directory_recursive}
use cc_base.Metrics.{Loc, get_loc}

-- `Metrics::Type`
pub data MetricsType : Type 0 where
  original_loc nonblank_loc code_loc mccabe : MetricsType

-- A row of the table, without the number that the database gives it.
pub record MetricsRow : Type 0 where
  pub file : ℕ
  pub metric : ℕ
  pub kind : MetricsType

-- The parser, its table with it.
pub record MetricsParser : Type 0 where
  pub file_id_cache : List ℕ
  pub rows : List MetricsRow
  pub visited_file_count : ℕ

-- The constructor: the files that have rows.
unfoldable pub make_parser : List MetricsRow → MetricsParser
make_parser rows = record {
  file_id_cache = map (λ r. r.file) rows;
  rows = rows;
  visited_file_count = 0;
}

-- A row for a number other than 0.
unfoldable pub metric_row : ℕ → MetricsType → ℕ → List MetricsRow
metric_row file kind metric =
    if metric == 0 then [] else (record { file = file; metric = metric; kind = kind }) ∷ []

-- The rows that `persistLoc` writes.
unfoldable pub loc_rows : Loc → ℕ → List MetricsRow
unfolding metric_row
loc_rows l file =
    metric_row file code_loc l.code_lines
    ++ (metric_row file nonblank_loc l.nonblank_lines
        ++ metric_row file original_loc l.original_lines)

-- `persistLoc`
unfoldable pub persist_loc : Loc → ℕ → MetricsParser → MetricsParser
unfolding loc_rows
persist_loc l file p = record p { rows = p.rows ++ loc_rows l file }

-- `getLocFromFile`, with the rounds of either loop over comments; none is an exception of `load`, or
-- a loop that does not end.
unfoldable pub get_loc_from_file : ℕ → Database → File → Option Loc
unfolding load
get_loc_from_file n db f = do
  text ← elim f.content [ none ↦ some [] | some c ↦ load db c ]
  get_loc n f.file_type text

-- The callback of the thread pool, for the file that `getFile` gives.
unfoldable pub count_file : ℕ → Database → Option File → MetricsParser → Option MetricsParser
unfolding get_loc_from_file persist_loc
count_file n db none p = some p
count_file n db (some f) p = if mem_id f.id p.file_id_cache then some p else (do
  l ← get_loc_from_file n db f
  some (record (persist_loc l f.id p) { visited_file_count = suc p.visited_file_count }))

-- Whether a status asks for another count.
unfoldable pub is_stale : Option IncrementalStatus → Bool
is_stale none = false
is_stale (some deleted) = true
is_stale (some modified) = true
is_stale (some action_changed) = true
is_stale (some added) = false

-- `erase_query` of the rows of a file
unfoldable pub erase_rows : ℕ → List MetricsRow → List MetricsRow
erase_rows file [] = []
erase_rows file (r ∷ rows) =
    let rest = erase_rows file rows in if r.file == file then rest else r ∷ rest

-- The body of the loop of `cleanupDatabase`.
unfoldable pub cleanup_file : Statuses → File → MetricsParser → MetricsParser
unfolding is_stale erase_rows
cleanup_file statuses f p =
    if is_stale (find_key statuses f.path)
    then record p { rows = erase_rows f.id p.rows; file_id_cache = erase_id f.id p.file_id_cache }
    else p

-- The loop over the files that the query gives: those in the cache as it was.
unfoldable pub cleanup_files : Statuses → List ℕ → List File → MetricsParser → MetricsParser
unfolding cleanup_file
cleanup_files statuses cache [] p = p
cleanup_files statuses cache (f ∷ files) p =
    cleanup_files statuses cache files (if mem_id f.id cache then cleanup_file statuses f p else p)

-- `cleanupDatabase`, without the exceptions of the database.
unfoldable pub cleanup_database : Statuses → List File → MetricsParser → MetricsParser
unfolding cleanup_files
cleanup_database statuses files p = cleanup_files statuses p.file_id_cache files p

-- `getParserCallback`, with the jobs in the order in which they are enqueued.
unfoldable pub parser_callback : Tree → Bytes → List Bytes → WalkEnd (List Bytes)
parser_callback fs path jobs = elim (fs.is_regular_file path) [
  | none ↦ throws jobs
  | some true ↦ returns true (jobs ++ path ∷ [])
  | some false ↦ returns true jobs
]

-- The loop of `parse` over the input paths, with the fuel of each walk. An exception ends the walk
-- of one input, and is caught there; what was enqueued stays.
unfoldable pub enqueue_inputs : Tree → ℕ → List Bytes → List Bytes → Option (List Bytes)
unfolding iterate_directory_recursive parser_callback
enqueue_inputs fs n [] jobs = some jobs
enqueue_inputs fs n (path ∷ inputs) jobs = do
  r ← iterate_directory_recursive fs (parser_callback fs) n path jobs
  enqueue_inputs fs n inputs (state_of r)
