-- ===== src/Tests/Compilers.antt =====
-- The theorems about the parser of gcc command lines and about the program lists at concrete inputs.
use cc_base.Base.{true, false, none, some, List, [], ◌∷◌, ◌++◌, ◌≡◌, ◌≢◌, refl, arith, All}
use cc_base.Cstring.{Bytes, codes, streq, strchr, starts_with, strstr, contains, isspace}
use cc_base.Paths.{make_path_abs, make_path_abs_rec, make_path_abs_from}
use cc_base.Host.{Environ, getenv, unsetenv}
use cc_base.Tool.{Action, turn_logging}
use cc_base.Tool.Programs.{program_list}
use cc_base.Tool.Preload.{IsOff, turn_logging-turn_logging}
use cc_base.Gcc.{
  default_includes, get_default_arguments, read_defaults, default_of_line, skip_blanks, first_word,
  collect_actions,
}
use cc_base.Gcc.Position.{collect_actions_total, collect_actions_bare_include}
use cc_base.Tests.Machine.{disk, machine, settings, value_of}

abbrev argv : List Bytes
argv = codes "-I/w/inc" ∷ codes "-c" ∷ codes "/w/a.c" ∷ codes "-o" ∷ codes "/w/a.o" ∷ []

collected : List Action
collected = value_of [] (collect_actions machine settings (codes "/bin/gcc") (codes "gcc") argv [])

real_path_not_nil : (p q : Bytes) → disk.realpath p ≡ some q → q ≢ []
unfolding starts_with
real_path_not_nil [] q h = cc
real_path_not_nil (c ∷ p) q h = ground arith

some_name : codes "/w/a.c" ≢ []
some_name = cc

not_bare : codes "/w/a.c" ≢ codes "-I"
not_bare = cc

collect_actions_total_example :
    (result : List Action) × (collect_actions machine settings
        (codes "/bin/gcc")
        (codes "gcc")
        (codes "-c" ∷ [] ++ codes "/w/a.c" ∷ [])
        []
      ≡ some result)
collect_actions_total_example =
    collect_actions_total machine settings (codes "/bin/gcc") (codes "gcc") (codes "-c" ∷ [])
      (codes "/w/a.c") [] real_path_not_nil some_name not_bare

defaults_lem : default_includes machine settings (codes "/bin/gcc") ≡ codes "-I/inc" ∷ []
unfolding getenv starts_with make_path_abs streq strchr contains strstr default_includes
    get_default_arguments read_defaults default_of_line skip_blanks first_word isspace
    make_path_abs_rec make_path_abs_from unsetenv
defaults_lem = refl

collect_actions_bare_include_example :
    collect_actions machine settings
      (codes "/bin/gcc")
      (codes "gcc")
      (codes "-c" ∷ [] ++ codes "-I" ∷ [])
      []
    ≡ none
collect_actions_bare_include_example =
    collect_actions_bare_include machine settings (codes "/bin/gcc") (codes "gcc") (codes "-c" ∷ [])
      (codes "-I/inc") [] [] defaults_lem

abbrev depends : Action
depends = record {
  output = codes "/w/a.c";
  arguments = codes "gcc" ∷ [];
  sources = codes "/w/a.c" ∷ codes "/w/a.cc" ∷ [];
  tool_name = codes "gcc";
}

other_name : codes "/w/a.cc" ≢ codes "/w/a.c"
other_name = cc

abbrev compilers : Environ
compilers = (codes "CC_LOGGER_GCC_LIKE=" ++ program_list (codes "gcc" ∷ codes "g++" ∷ [])) ∷ []

compilers_lem :
    getenv compilers (codes "CC_LOGGER_GCC_LIKE")
    ≡ some (program_list (codes "gcc" ∷ codes "g++" ∷ []))
unfolding getenv starts_with program_list
compilers_lem = refl

turn_logging-turn_logging_example :
    All IsOff (turn_logging false settings)
    × (turn_logging true (turn_logging false settings) ≡ turn_logging false settings)
unfolding contains strstr starts_with
turn_logging-turn_logging_example = turn_logging-turn_logging settings (refl, (refl, (refl, tt)))
