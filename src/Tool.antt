-- ===== src/Tool.antt =====
-- logger/src/ldlogger-tool.h and ldlogger-tool.c but for the choice of the parser, which is in
-- `Collect`. A `LoggerVector` of an action is the list of its items (see `Vector`).
pub mod Programs
pub mod Preload
use cc_base.Base.{
  ℕ, Bool, true, false, ◌||◌, Option, none, some, List, [], ◌∷◌, ◌++◌, map, if◌then◌else◌,
}
use cc_base.Cstring.{Bytes, codes, contains, strtok}
use cc_base.Paths.{FileSystem, make_path_abs}
use cc_base.Host.{Environ, getenv}

-- `struct _LoggerAction`. An output is a `LoggerFile`, which holds a path.
pub record Action : Type 0 where
  pub output : Bytes
  pub arguments : List Bytes
  pub sources : List Bytes
  pub tool_name : Bytes

-- `loggerFileInitFromPath`: the path that is stored.
unfoldable pub file_init_from_path : FileSystem → Bytes → Bytes
file_init_from_path fs path = elim (make_path_abs fs path false) [ some q ↦ q | none ↦ path ]

-- `loggerActionNew`, when malloc succeeds
unfoldable pub action_new : FileSystem → Bytes → Action
unfolding file_init_from_path
action_new fs tool_name = record {
  output = file_init_from_path fs (codes "./_noobj");
  arguments = [];
  sources = [];
  tool_name = tool_name;
}

abbrev pub colon : ℕ
colon = b':'

-- The `while (token)` loop.
unfoldable pub any_token : List Bytes → Bytes → Bool
any_token [] prog_name = false
any_token (token ∷ rest) prog_name = contains prog_name token || any_token rest prog_name

unfoldable pub match_to_program_list : Environ → Bytes → Bytes → Bool
unfolding any_token
match_to_program_list env env_var prog_name = elim (getenv env env_var) [
  | none ↦ false
  | some prog_list ↦ any_token (strtok colon prog_list) prog_name
]

abbrev pub ld_preload : Bytes
ld_preload = codes "LD_PRELOAD="

-- `environ[i][0] = c`
unfoldable pub set_first : ℕ → Bytes → Bytes
set_first c [] = []
set_first c (x ∷ s) = c ∷ s

-- The body of the loop of `turnLogging`, for one entry of the environment.
unfoldable pub turn_entry : Bool → Bytes → Bytes
unfolding set_first
turn_entry on entry =
    if contains entry ld_preload then set_first (if on then b'L' else b'X') entry else entry

unfoldable pub turn_logging : Bool → Environ → Environ
unfolding turn_entry
turn_logging on env = map (turn_entry on) env
