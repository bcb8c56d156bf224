-- ===== src/Logger/Session.antt =====
-- `aquireLock`, `freeLock`, `logProgramArgs` and `logExec` of logger/src/ldlogger-logger.c, with
-- the calls on file descriptors that they make, in order.
use cc_base.Base.{
  Bool, true, false, not, Option, none, some, List, [], ◌∷◌, ◌++◌, if◌then◌else◌, ◌>>=◌,
}
use cc_base.Cstring.{Bytes, codes}
use cc_base.Paths.{make_path_abs}
use cc_base.Host.{Host, Environ, getenv}
use cc_base.Collect.{collect_actions_by_prog_name}
use cc_base.Logger.Stream.{write_actions}

-- The two files that are opened: the lock file and the log.
pub data File : Type 0 where
  lock_file log_file : File

-- The calls that succeed, and `writes`, the call of `logProgramArgs`.
pub data Event : Type 0 where
  opens : File → Event
  locks : Event
  unlocks : Event
  closes : File → Event
  writes : Event

-- Which of the calls of `logExec` on files succeed.
pub record Outcome : Type 0 where
  pub opens_lock : Bool
  pub flocks : Bool
  pub opens_log : Bool
  pub fdopens : Bool

-- The values that `logExec` returns: 0, or the number of the step that failed.
pub data Status : Type 0 where
  ok : Status
  too_few_args : Status
  no_log_file : Status
  no_lock : Status
  no_open : Status
  no_stream : Status

-- `aquireLock`: whether a descriptor is returned, and the calls made.
unfoldable pub acquire_lock : Host → Outcome → Bytes → Bool × List Event
acquire_lock host os file = elim (make_path_abs host.fs file false) [
  | none ↦ (false, [])
  | some path ↦
      if not os.opens_lock
      then (false, [])
      else if not os.flocks
      then (false, opens lock_file ∷ closes lock_file ∷ [])
      else (true, opens lock_file ∷ locks ∷ [])
]

-- `freeLock`, for a descriptor other than -1
abbrev pub free_lock : List Event
free_lock = unlocks ∷ closes lock_file ∷ []

-- `logProgramArgs`, over the arguments behind the first: the log file and the environment it
-- leaves. `none`: the process stops in the parser.
unfoldable pub log_program_args :
    Host → Environ → Bytes → Bytes → List Bytes → Option (Bytes × Environ)
log_program_args host env log prog argv = elim (make_path_abs host.fs (codes ".") true) [
  | none ↦ some (log, env)
  | some working_dir ↦
      let (collected, env') = collect_actions_by_prog_name host env prog argv [] in
      do
        actions ← collected
        some
            ((write_actions host working_dir actions (record { bytes = log; pos = 0 })).bytes, env')
]

-- What a return of `logExec` leaves.
pub record Logged : Type 0 where
  pub status : Status
  pub events : List Event
  pub log : Bytes
  pub env : Environ

-- A return before anything is logged.
abbrev pub quit : Environ → Bytes → Status → List Event → Option Logged
quit env log status events =
    some (record { status = status; events = events; log = log; env = env })

-- `logExec` over `argv_`, whose first element is the program and whose second is its `argv[0]`.
-- `none`: the process stops in the parser.
unfoldable pub log_exec : Host → Outcome → Environ → Bytes → List Bytes → Option Logged
unfolding acquire_lock log_program_args
log_exec host os env log (prog ∷ argv0 ∷ argv) = elim (getenv env (codes "CC_LOGGER_FILE")) [
  | none ↦ quit env log no_log_file []
  | some file ↦
      let (locked, events) = acquire_lock host os file in
      if not locked
      then quit env log no_lock events
      else if not os.opens_log
      then quit env log no_open (events ++ free_lock)
      else if not os.fdopens
      then quit env log no_stream (events ++ opens log_file ∷ closes log_file ∷ free_lock)
      else (do
        (written, env') ← log_program_args host env log prog argv
        quit env' written ok (events ++ opens log_file ∷ writes ∷ closes log_file ∷ free_lock))
]
log_exec host os env log _ = quit env log too_few_args []
