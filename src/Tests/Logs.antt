-- ===== src/Tests/Logs.antt =====
-- The theorems about the log and the hooks at concrete inputs.
use cc_base.Base.{
  ◌<◌, true, none, some, sym, subst, List, [], ◌∷◌, ◌≡◌, ◌≢◌, refl, inr, arith, length, replicate,
  ◌+◌,
}
use cc_base.Cstring.{
  Bytes, codes, starts_with, contains, strstr, strrchr, strtok, tokens, strchr, streq, isspace,
  tolower,
}
use cc_base.Escape.{space}
use cc_base.Paths.{
  make_path_abs, get_file_name, get_file_dir, get_file_ext, str_n_dup, str_dup, make_path_abs_rec,
  make_path_abs_from,
}
use cc_base.Vector.Spec.{insert_at}
use cc_base.Gcc
use cc_base.Gcc.{
  default_includes, get_default_arguments, read_defaults, default_of_line, skip_blanks, first_word,
  process_arguments, process_argument, argument_step, plain_argument, normal_argument,
  is_gcc_lib_path, is_src_ext, dir_option, add_argument, inc_pos, add_defaults, drop_output,
}
use cc_base.Host.{getenv, unsetenv}
use cc_base.Tool.{
  Action, match_to_program_list, any_token, turn_logging, turn_entry, set_first, action_new,
  file_init_from_path,
}
use cc_base.Collect.{tool_name, collect_actions_by_prog_name}
use cc_base.Logger.Command.{command_size, command_text}
use cc_base.Logger.Stream.{write_actions}
use cc_base.Logger.Log.{Entry, render, new_entries}
use cc_base.Logger.Append.{write_actions-render}
use cc_base.Logger.Overflow.{command_text_overflows}
use cc_base.Logger.Session.{
  Logged, ok, too_few_args, log_exec, log_program_args, Event, lock_file, log_file, opens, locks,
  closes, unlocks, writes,
}
use cc_base.Logger.Locking.{perform_all, all_closed, log_exec-Balanced}
use cc_base.Logger.Growth.{Grown, log_exec-Grown}
use cc_base.Logger.Concurrent.{
  Process, World, Reach, here, next, opening, locking, reading, writing, Caller, writes_of,
  calls_of,
}
use cc_base.Logger.Serial.{serial, start_all-serial}
use cc_base.Hooks.{is_ldd, call_exec, calls, inherited}
use cc_base.Hooks.Transparent.{call_exec_unlisted}
use cc_base.Tests.Machine.{machine, all_well, settings, value_of}

abbrev command_line : List Bytes
command_line = codes "/bin/gcc" ∷ codes "gcc" ∷ codes "-c" ∷ codes "/w/a.c" ∷ []

abbrev nothing_logged : Logged
nothing_logged = record { status = too_few_args; events = []; log = []; env = [] }

logged : Logged
logged = value_of nothing_logged (log_exec machine all_well settings [] command_line)

logged_lem : log_exec machine all_well settings [] command_line ≡ some logged
unfolding logged log_exec getenv starts_with make_path_abs get_file_name get_file_dir str_n_dup
    strrchr str_dup tool_name match_to_program_list any_token tokens strtok streq strchr contains
    strstr turn_logging turn_entry set_first collect_actions_by_prog_name Gcc.collect_actions
    default_includes get_default_arguments read_defaults default_of_line skip_blanks first_word
    process_arguments process_argument argument_step plain_argument normal_argument is_gcc_lib_path
    is_src_ext dir_option add_argument inc_pos add_defaults insert_at drop_output action_new
    file_init_from_path get_file_ext isspace tolower make_path_abs_rec make_path_abs_from unsetenv
logged_lem = refl

abbrev compile : Action
compile = record {
  output = codes "/w/a.o";
  arguments = codes "gcc" ∷ codes "-c" ∷ codes "/w/a.c" ∷ [];
  sources = codes "/w/a.c" ∷ [];
  tool_name = codes "gcc";
}

abbrev old_entry : Entry
old_entry = record { directory = codes "/w"; command = codes "gcc b.c"; file = codes "/w/b.c" }

log_exec-Grown_example : Grown [] logged.log
log_exec-Grown_example =
    log_exec-Grown machine all_well settings [] command_line [] logged (inr (refl, refl)) logged_lem

log_exec-Balanced_example :
    (perform_all logged.events all_closed ≡ some all_closed)
    × (logged.status ≢ ok → (logged.log ≡ []) × (logged.env ≡ settings))
log_exec-Balanced_example =
    log_exec-Balanced machine all_well settings [] command_line logged logged_lem

write_actions-render_example :
    (write_actions machine
      (codes "/w")
      (compile ∷ [])
      (record { bytes = render (old_entry ∷ []); pos = 0 })).bytes
    ≡ render (old_entry ∷ new_entries machine (codes "/w") (compile ∷ []))
write_actions-render_example = write_actions-render machine (codes "/w") (old_entry ∷ []) compile []

command_text_overflows_example :
    let args = codes "gcc" ∷ replicate 7 (space ∷ []) in
    command_size args < length (command_text args) + 1
command_text_overflows_example = command_text_overflows (codes "gcc") 7 (omega arith)

call_exec_unlisted_example :
    (call_exec machine all_well true inherited settings [] (codes "/bin/cat") (codes "cat" ∷ [])
      ≡ calls (codes "/bin/cat") (codes "cat" ∷ []) settings)
    × ((l : Logged) × (log_exec machine all_well settings [] (codes "/bin/cat" ∷ codes "cat" ∷ [])
          ≡ some l)
        × (l.log ≡ []))
unfolding match_to_program_list getenv starts_with strtok tool_name strrchr contains is_ldd strstr
call_exec_unlisted_example =
    call_exec_unlisted machine all_well settings [] (codes "/bin/cat") (codes "cat") []
      (record { gcc = refl; javac = refl }) refl (omega arith)

abbrev compiler_call : Caller
compiler_call = record {
  host = machine;
  os = all_well;
  env = settings;
  prog = codes "/bin/gcc";
  argv0 = codes "gcc";
  argv = codes "-c" ∷ codes "/w/a.c" ∷ [];
}

abbrev two_calls : List Caller
two_calls = compiler_call ∷ (compiler_call ∷ [])

abbrev whole_call : List Event
whole_call =
    opens lock_file
    ∷ (locks
        ∷ (opens log_file ∷ (writes ∷ (closes log_file ∷ (unlocks ∷ (closes lock_file ∷ []))))))

abbrev waiting : List Event → Process
waiting es = record { todo = es; read = none }

events_logged : logged.events ≡ whole_call
unfolding logged log_exec getenv starts_with make_path_abs get_file_name get_file_dir str_n_dup
    strrchr str_dup tool_name match_to_program_list any_token tokens strtok streq strchr contains
    strstr turn_logging turn_entry set_first collect_actions_by_prog_name Gcc.collect_actions
    default_includes get_default_arguments read_defaults default_of_line skip_blanks first_word
    process_arguments process_argument argument_step plain_argument normal_argument is_gcc_lib_path
    is_src_ext dir_option add_argument inc_pos add_defaults insert_at drop_output action_new
    file_init_from_path get_file_ext isspace tolower make_path_abs_rec make_path_abs_from unsetenv
events_logged = refl

calls_of_compiler : calls_of [] compiler_call ≡ whole_call
unfolding calls_of
calls_of_compiler = rw (calls_of, logged_lem) events_logged

written : Bytes
written = value_of [] (writes_of two_calls 0 [])

first_written : writes_of two_calls 0 [] ≡ some written
unfolding written log_program_args getenv starts_with make_path_abs get_file_name get_file_dir
    str_n_dup strrchr str_dup tool_name match_to_program_list any_token tokens strtok streq strchr
    contains strstr turn_logging turn_entry set_first collect_actions_by_prog_name
    Gcc.collect_actions default_includes get_default_arguments read_defaults default_of_line
    skip_blanks first_word process_arguments process_argument argument_step plain_argument
    normal_argument is_gcc_lib_path is_src_ext dir_option add_argument inc_pos add_defaults
    insert_at drop_output action_new file_init_from_path get_file_ext isspace tolower
    make_path_abs_rec make_path_abs_from unsetenv
first_written = refl

-- Both open the lock file, and the second has to wait until the first has written.
both_logging : World
both_logging = record {
  log = written;
  holder = some 0;
  processes =
      waiting (closes log_file ∷ (unlocks ∷ (closes lock_file ∷ [])))
      ∷ (waiting (
            locks
            ∷ (opens log_file ∷ (writes ∷ (closes log_file ∷ (unlocks ∷ (closes lock_file ∷ []))))))
          ∷ []);
}

both_logging-Reach :
    Reach
      (writes_of two_calls)
      (record {
        log = [];
        holder = none;
        processes = waiting whole_call ∷ (waiting whole_call ∷ []);
      })
      (0 ∷ [])
      both_logging
unfolding both_logging
both_logging-Reach =
    next 0
      (next 0
        (next 0 (next 0 (next 1 (next 0 here refl opening) refl opening) refl locking) refl opening)
        refl reading)
      refl (writing first_written)

start_all-serial_example :
    (serial (writes_of two_calls) (0 ∷ []) [] ≡ some both_logging.log) × Grown [] both_logging.log
start_all-serial_example =
    start_all-serial two_calls [] [] (0 ∷ []) both_logging (inr (refl, refl)) (
      subst
        (λ es.
          Reach (writes_of two_calls)
            (record { log = []; holder = none; processes = waiting es ∷ (waiting es ∷ []) })
            (0 ∷ []) both_logging)
        (sym calls_of_compiler) both_logging-Reach)
