-- ===== src/Gcc.antt =====
-- logger/src/ldlogger-tool-gcc.c: the parser of command lines of compilers like gcc.
pub mod Arguments
pub mod Named
pub mod Reading
pub mod Defaults
pub mod Collected
pub mod Position
use cc_base.Base.{
  ℕ, ◌+◌, Bool, true, false, ◌&&◌, ◌||◌, Option, none, some, List, [], ◌∷◌, ◌++◌, map, ◌==◌,
  if◌then◌else◌, length, ◌>>=◌,
}
use cc_base.Cstring.{Bytes, codes, streq, strstr, contains, isspace}
use cc_base.Paths.{FileSystem, make_path_abs, get_file_ext}
use cc_base.Host.{Host, Environ, getenv}
use cc_base.Vector.Spec.{index_of, append_unique, remove_at, insert_at}
use cc_base.Tool.{Action, action_new, file_init_from_path}

-- `GccArgsState`
pub data State : Type 0 where
  normal in_output_arg : State

-- `srcExts`
abbrev pub src_exts : List Bytes
src_exts =
    codes "c"
    ∷ codes "cc"
    ∷ codes "cpp"
    ∷ codes "cxx"
    ∷ codes "h"
    ∷ codes "hh"
    ∷ codes "hxx"
    ∷ codes "hpp"
    ∷ codes "o"
    ∷ codes "so"
    ∷ codes "a"
    ∷ []

unfoldable pub is_gcc_lib_path : Bytes → Bool
is_gcc_lib_path path = elim (strstr path (codes "/lib/gcc")) [
  | none ↦ false
  | some gcc_start ↦ contains gcc_start (codes "include")
]

-- The loop over the accepted extensions.
unfoldable pub is_src_ext : List Bytes → Bytes → Bool
is_src_ext [] ext = false
is_src_ext (e ∷ exts) ext = streq e ext || is_src_ext exts ext

-- `-I` or `-L` with a path behind it: the first two characters, and the path.
unfoldable pub dir_option : Bytes → Option (Bytes × Bytes)
dir_option (a ∷ c ∷ d ∷ path) =
    if a == b'-' && (c == b'I' || c == b'L') then some (a ∷ c ∷ [], d ∷ path) else none
dir_option _ = none

-- What one argument makes of the parser: the new state, `argToAdd`, and the output and sources.
pub record Step : Type 0 where
  pub state : State
  pub arg_to_add : Bytes
  pub action : Action

-- `if (argToAdd[0])`
unfoldable pub add_argument : Bytes → Action → Action
add_argument [] action = action
add_argument (c ∷ arg) action = record action { arguments = action.arguments ++ (c ∷ arg) ∷ [] }

module _ (fs : FileSystem) where
  -- The last branch: a file that exists and has an accepted extension is a source.
  unfoldable pub plain_argument : Bytes → Action → Step
  unfolding is_src_ext
  plain_argument arg action =
      let other : Step = record { state = normal; arg_to_add = arg; action = action } in
      elim (make_path_abs fs arg true) [
        | none ↦ other
        | some full ↦ elim (get_file_ext full true) [
          | none ↦ other
          | some ext ↦
              if is_src_ext src_exts ext
              then record {
                state = normal;
                arg_to_add = full;
                action = record action { sources = append_unique streq action.sources full };
              }
              else other
        ]
      ]

  -- The branches on a normal state.
  unfoldable pub normal_argument : Bytes → Action → Step
  unfolding dir_option plain_argument
  normal_argument arg action =
      if streq arg (codes "-o")
      then record { state = in_output_arg; arg_to_add = arg; action = action }
      else elim (dir_option arg) [
        | none ↦ plain_argument arg action
        | some (flag, path) ↦ record {
          state = normal;
          arg_to_add = elim (make_path_abs fs path false) [ none ↦ arg | some q ↦ flag ++ q ];
          action = action;
        }
      ]

  unfoldable pub output_argument : Bytes → Action → Step
  output_argument arg action =
      let path : Bytes = elim (make_path_abs fs arg false) [ none ↦ arg | some q ↦ q ] in
      record {
        state = normal;
        arg_to_add = path;
        action = record action { output = file_init_from_path fs path };
      }

  unfoldable pub argument_step : State → Bytes → Action → Step
  unfolding normal_argument output_argument
  argument_step in_output_arg arg action = output_argument arg action
  argument_step normal arg action = normal_argument arg action

  unfoldable pub process_argument : State → Bytes → Action → State × Action
  unfolding argument_step add_argument
  process_argument state arg action =
      let s = argument_step state arg action in (s.state, add_argument s.arg_to_add s.action)

-- `lastIncPos` after an argument, given the number of arguments collected.
unfoldable pub inc_pos : Bytes → ℕ → ℕ → ℕ
inc_pos (a ∷ c ∷ rest) size pos =
    if a == b'-' && c == b'I' then (elim rest [ [] ↦ size + 1 | _ ∷ _ ↦ size ]) else pos
inc_pos _ size pos = pos

pub record Progress : Type 0 where
  pub state : State
  pub action : Action
  pub last_inc_pos : ℕ

-- The loop over `argv_[1]` and what follows it.
unfoldable pub process_arguments : FileSystem → List Bytes → Progress → Progress
unfolding process_argument inc_pos
process_arguments fs [] p = p
process_arguments fs (arg ∷ argv) p =
    let (state, action) = process_argument fs p.state arg p.action in
    process_arguments fs argv (record {
      state = state;
      action = action;
      last_inc_pos = inc_pos arg (length action.arguments) p.last_inc_pos;
    })

-- The two scans over a line: the blanks in front are dropped, and the word ends at a blank.
unfoldable pub skip_blanks : Bytes → Bytes
skip_blanks [] = []
skip_blanks (c ∷ s) = let rest = skip_blanks s in if isspace c then rest else c ∷ s

unfoldable pub first_word : Bytes → Bytes
first_word [] = []
first_word (c ∷ s) = let rest = first_word s in if isspace c then [] else c ∷ rest

-- What one line between the two marks adds.
unfoldable pub default_of_line : FileSystem → Bytes → List Bytes
unfolding skip_blanks first_word is_gcc_lib_path
default_of_line fs line = elim (first_word (skip_blanks line)) [
  | [] ↦ []
  | c ∷ word ↦ elim (make_path_abs fs (c ∷ word) false) [
    | none ↦ []
    | some q ↦
        let full_path = codes "-I" ++ q in if is_gcc_lib_path full_path then [] else full_path ∷ []
  ]
]

abbrev pub search_starts : Bytes
search_starts = codes "#include <...> search starts here"

abbrev pub search_ends : Bytes
search_ends = codes "End of search list"

-- The `getline` loop; the flag is `incStarted`.
unfoldable pub read_defaults : FileSystem → Bool → List Bytes → List Bytes → List Bytes
unfolding default_of_line
read_defaults fs started [] args = args
read_defaults fs false (line ∷ rest) args = read_defaults fs (contains line search_starts) rest args
read_defaults fs true (line ∷ rest) args = elim (contains line search_ends) [
  | true ↦ args
  | false ↦ read_defaults fs true rest (args ++ default_of_line fs line)
]

unfoldable pub get_default_arguments : Host → Environ → Bytes → List Bytes
unfolding read_defaults
get_default_arguments host env prog =
    elim (host.popen env (prog ++ codes " -xc++ -E -v - < /dev/null 2>&1")) [
      | none ↦ []
      | some lines ↦ read_defaults host.fs false lines []
    ]

-- `if (defIncludes.size)`; `none` is a failed assertion in `loggerVectorAddFrom`.
unfoldable pub add_defaults : List Bytes → List Bytes → ℕ → Option (List Bytes)
add_defaults arguments [] pos = some arguments
add_defaults arguments (d ∷ defaults) pos = insert_at arguments (d ∷ defaults) pos

-- The workaround for -MT: the output is removed from the sources.
unfoldable pub drop_output : Action → Action
drop_output action = elim (index_of streq action.sources action.output) [
  | none ↦ action
  | some i ↦ record action { sources = remove_at action.sources i }
]

-- The state before the loop.
abbrev pub start : FileSystem → Bytes → Progress
start fs tool_name = record {
  state = normal;
  action = record (action_new fs tool_name) { arguments = tool_name ∷ [] };
  last_inc_pos = 1;
}

-- The default includes, unless they are turned off.
unfoldable pub default_includes : Host → Environ → Bytes → List Bytes
default_includes host env prog = elim (getenv env (codes "CC_LOGGER_NO_DEF_DIRS")) [
  | some _ ↦ []
  | none ↦ get_default_arguments host env prog
]

-- `loggerGccParserCollectActions`, over the arguments behind the first. `none`: the process stops
-- at a failed assertion.
unfoldable pub collect_actions :
    Host → Environ → Bytes → Bytes → List Bytes → List Action → Option (List Action)
collect_actions host env prog tool_name argv actions = do
  let p = process_arguments host.fs argv (start host.fs tool_name)
  arguments ← add_defaults p.action.arguments (default_includes host env prog) p.last_inc_pos
  some (actions ++ drop_output (record p.action { arguments = arguments }) ∷ [])
