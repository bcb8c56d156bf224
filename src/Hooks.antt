-- ===== src/Hooks.antt =====
-- logger/src/ldlogger-hooks.c: the functions that stand in for `execv` and its kin.
pub mod Preload
pub mod Transparent
use cc_base.Base.{
  ℕ, ◌+◌, ◌-◌, Bool, true, false, ◌&&◌, ◌||◌, Option, none, some, List, [], ◌∷◌, ◌++◌, ◌==◌, ltb,
  if◌then◌else◌, length, get_elem?, ◌>>=◌,
}
use cc_base.Cstring.{Bytes, codes, slash, strstr}
use cc_base.Host.{Host, Environ, unsetenv}
use cc_base.Logger.Session.{Outcome, Logged, log_exec}

-- `CC_LOGGER_MAX_ARGS`
abbrev pub max_args : ℕ
max_args = 2048

abbrev pub ldd : Bytes
ldd = codes "ldd"

-- The test of `unsetLDPRELOAD`, on the first place where "ldd" stands.
unfoldable pub is_ldd : Bytes → Bool
is_ldd filename = elim (strstr filename ldd) [
  | none ↦ false
  | some rest ↦
      let pos_number = length filename - length rest in
      let prefix_length = length filename - length ldd in
      prefix_length == pos_number
      && (pos_number == 0
          || (elim (get_elem? filename (pos_number - 1)) [ none ↦ false | some c ↦ c == slash ]))
]

unfoldable pub unset_ld_preload : Bytes → Environ → Environ
unfolding is_ldd
unset_ld_preload filename env = if is_ldd filename then unsetenv env (codes "LD_PRELOAD") else env

-- `tryLog`: the inner `none` is the process stopping in `log_exec`, and the outer one is a write past
-- the end of `loggerArgs`, whose last index is used for the NULL behind the file name and the
-- arguments.
unfoldable pub try_log :
    Host → Outcome → Environ → Bytes → Bytes → List Bytes → Option (Option Logged)
try_log host os env log filename argv =
    if ltb (length argv + 1) max_args
    then some (log_exec host os env log (filename ∷ argv))
    else none

-- What the process does in the end.
pub data Final : Type 0 where
  -- It stopped in the parser of the logger, or wrote out of bounds.
  stops : Final
  -- `dlsym` found nothing: -1 is returned.
  returns_error : Final
  -- The real function is called.
  calls : Bytes → List Bytes → Environ → Final

-- The environment that the real function gets: `execve` and `execvpe` pass on their argument, whose
-- strings are taken not to be those of `environ`; `execv` and `execvp` leave that of the process.
pub data Envp : Type 0 where
  inherited : Envp
  given : Environ → Envp

unfoldable pub exec_env : Envp → Environ → Environ
exec_env inherited env = env
exec_env (given envp) env = envp

unfoldable pub call_real : Bool → Envp → Bytes → List Bytes → Option Logged → Final
unfolding unset_ld_preload exec_env
call_real has_symbol envp filename argv none = stops
call_real has_symbol envp filename argv (some logged) =
    if has_symbol
    then calls filename argv (exec_env envp (unset_ld_preload filename logged.env))
    else returns_error

-- `CC_LOGGER_CALL_EXEC`, the body of the four functions.
unfoldable pub call_exec :
    Host → Outcome → Bool → Envp → Environ → Bytes → Bytes → List Bytes → Final
unfolding try_log call_real
call_exec host os has_symbol envp env log filename argv =
    elim (try_log host os env log filename argv) [
      | none ↦ stops
      | some logged ↦ call_real has_symbol envp filename argv logged
    ]
