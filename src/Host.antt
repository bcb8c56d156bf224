-- ===== src/Host.antt =====
-- What the logger asks of the system it runs on, apart from strings: files, processes, memory and
-- the environment.
use cc_base.Base.{
  ℕ, Bool, Option, none, some, List, [], ◌∷◌, ◌++◌, if◌then◌else◌, length, drop, ◌+◌,
}
use cc_base.Cstring.{Bytes, starts_with}
use cc_base.Paths.{FileSystem}

pub record Host : Type 0 where
  pub fs : FileSystem
  -- The lines that `getline` reads from `popen (command, "r")`, run under an environment, or NULL.
  pub popen : List Bytes → Bytes → Option (List Bytes)
  -- The lines that `getline` reads from `fopen (path, "r")`, or NULL.
  pub fopen : Bytes → Option (List Bytes)
  -- The words of `wordexp (text, WRDE_NOCMD | WRDE_UNDEF)`, or none on an error code.
  pub wordexp : Bytes → Option (List Bytes)
  -- Whether malloc or realloc grants so many bytes.
  pub grants : ℕ → Bool

-- `environ`, each entry a text `NAME=value`.
abbrev pub Environ : Type 0
Environ = List Bytes

-- `getenv`
unfoldable pub getenv : Environ → Bytes → Option Bytes
getenv [] name = none
getenv (entry ∷ env) name =
    let rest = getenv env name in
    if starts_with entry (name ++ b'=' ∷ []) then some (drop (length name + 1) entry) else rest

-- `unsetenv`
unfoldable pub unsetenv : Environ → Bytes → Environ
unsetenv [] name = []
unsetenv (entry ∷ env) name =
    let rest = unsetenv env name in
    if starts_with entry (name ++ b'=' ∷ []) then rest else entry ∷ rest
