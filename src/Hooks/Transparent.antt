-- ===== src/Hooks/Transparent.antt =====
-- The hook, for programs that are in neither list.
use cc_base.Base.{◌<◌, true, false, Option, some, List, ◌∷◌, ◌≡◌, refl, ◌∙◌, arith, length}
use cc_base.Cstring.{Bytes, codes}
use cc_base.Host.{Host, Environ}
use cc_base.Tool.{match_to_program_list}
use cc_base.Collect.{tool_name, collect_actions_by_prog_name}
use cc_base.Logger.Stream.{write_actions}
use cc_base.Logger.Session.{Outcome, Logged, ok, log_program_args, log_exec}
use cc_base.Logger.Locking.{Way, quits, logs, log_exec-Way}
use cc_base.Hooks.{is_ldd, calls, inherited, call_exec}

-- The program's name matches neither list.
pub record IsUnlisted (env : Environ) (prog : Bytes) : Type 0 where
  pub gcc : match_to_program_list env (codes "CC_LOGGER_GCC_LIKE") (tool_name prog) ≡ false
  pub javac : match_to_program_list env (codes "CC_LOGGER_JAVAC_LIKE") (tool_name prog) ≡ false

module _ (host : Host) (env : Environ) (log prog : Bytes) (unlisted : IsUnlisted env prog) where
  log_program_args_unlisted :
      (argv : List Bytes) → log_program_args host env log prog argv ≡ some (log, env)
  unfolding log_program_args collect_actions_by_prog_name write_actions
  log_program_args_unlisted argv = ground (arith, unlisted.gcc, unlisted.javac)

  -- Nothing is logged of it.
  Way-unlisted :
      (argv : List Bytes) (r : Option Logged)
      → Way host env log prog argv r
      → (l : Logged) × (r ≡ some l) × (l.log ≡ log) × (l.env ≡ env)
  Way-unlisted argv r (quits status events bad b e) =
      (record { status = status; events = events; log = log; env = env }, e, refl, refl)
  Way-unlisted argv r (logs events b e) = (
    record { status = ok; events = events; log = log; env = env },
    e ∙ rw (log_program_args_unlisted argv),
    refl,
    refl,
  )

-- A program that matches neither list, is not called ldd and has fewer than 2046 arguments behind
-- its name is executed with the arguments and the environment that it would have without the hook,
-- and the log stays as it is.
pub call_exec_unlisted :
    (host : Host) (os : Outcome) (env : Environ) (log prog argv0 : Bytes) (argv : List Bytes)
    → IsUnlisted env prog
    → is_ldd prog ≡ false
    → length argv < 2046
    → (call_exec host os true inherited env log prog (argv0 ∷ argv) ≡ calls prog (argv0 ∷ argv) env)
      × ((l : Logged) × (log_exec host os env log (prog ∷ argv0 ∷ argv) ≡ some l) × (l.log ≡ log))
unfolding call_exec
call_exec_unlisted host os env log prog argv0 argv unlisted not_ldd few =
    let (l, e, same_log, same_env) =
      Way-unlisted host env log prog unlisted argv _
        (log_exec-Way host os env log prog argv0 argv) in
    (ground (arith, e, same_env, not_ldd), (l, e, same_log))
