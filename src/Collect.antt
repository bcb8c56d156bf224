-- ===== src/Collect.antt =====
-- `loggerCollectActionsByProgName` of logger/src/ldlogger-tool.c.
use cc_base.Base.{true, false, Option, none, some, List, if◌then◌else◌}
use cc_base.Cstring.{Bytes, codes, slash, strrchr}
use cc_base.Host.{Host, Environ}
use cc_base.Tool.{Action, match_to_program_list, turn_logging}
use cc_base.Gcc
use cc_base.Javac

-- The program's name: what follows the last slash of its path.
unfoldable pub tool_name : Bytes → Bytes
tool_name prog = elim (strrchr prog slash) [ none ↦ prog | some (dir, name) ↦ name ]

-- The environment after the call, beside the actions; `none` as the actions: the process stops.
unfoldable pub collect_actions_by_prog_name :
    Host → Environ → Bytes → List Bytes → List Action → Option (List Action) × Environ
unfolding tool_name
collect_actions_by_prog_name host env prog argv actions =
    if match_to_program_list env (codes "CC_LOGGER_GCC_LIKE") (tool_name prog)
    then (let off = turn_logging false env in
        (Gcc.collect_actions host off prog (tool_name prog) argv actions, turn_logging true off))
    else if match_to_program_list env (codes "CC_LOGGER_JAVAC_LIKE") (tool_name prog)
    then (Javac.collect_actions host (tool_name prog) argv actions, env)
    else (some actions, env)
