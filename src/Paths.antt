-- ===== src/Paths.antt =====
-- The path functions of logger/src/ldlogger-util.c. A `char*` that may be NULL is an `Option`. The
-- buffers of PATH_MAX bytes are taken to be large enough, so a copy is the string itself.
pub mod Parts
pub mod Absolute
use cc_base.Base.{
  ℕ, zero, suc, Bool, true, false, ◌&&◌, ◌||◌, not, Option, none, some, List, [], ◌∷◌, ◌++◌, map,
  ◌==◌, if◌then◌else◌, length, take, ltb, ◌>>=◌,
}
use cc_base.Cstring.{Bytes, codes, slash, dot, streq, strrchr, tolower}

-- The calls into the C library that look at the file system.
pub record FileSystem : Type 0 where
  -- `realpath (path, buffer)`
  pub realpath : Bytes → Option Bytes
  -- `access (path, F_OK) == 0`
  pub access : Bytes → Bool
  -- `getcwd`
  pub getcwd : Option Bytes

-- `loggerStrNDup`, when malloc succeeds
unfoldable pub str_n_dup : Bytes → ℕ → Bytes
str_n_dup s n = let len = length s in take (if ltb n len then n else len) s

-- `loggerStrDup`, when malloc succeeds
unfoldable pub str_dup : Bytes → Bytes
unfolding str_n_dup
str_dup s = str_n_dup s (length s)

-- What `loggerGetFileName` does with the part after the last slash.
file_name : Bytes → Bool → Option Bytes
file_name [] without_ext = none
file_name (c ∷ name) false = some (str_dup (c ∷ name))
file_name (c ∷ name) true = elim (strrchr (c ∷ name) dot) [
  | some (base, ext) ↦ some (str_n_dup (c ∷ name) (length base))
  | none ↦ some (str_dup (c ∷ name))
]

unfoldable pub get_file_name : Bytes → Bool → Option Bytes
unfolding file_name
get_file_name abs_path without_ext = elim (strrchr abs_path slash) [
  | none ↦ none
  | some (dir, name) ↦ file_name name without_ext
]

unfoldable pub get_file_ext : Bytes → Bool → Option Bytes
get_file_ext path to_lower = do
  fname ← get_file_name path false
  (base, ext) ← strrchr fname dot
  some (if to_lower then map tolower ext else ext)

unfoldable pub get_file_dir : Bytes → Option Bytes
get_file_dir abs_path = elim (strrchr abs_path slash) [
  | none ↦ none
  | some ([], name) ↦ some (str_dup (slash ∷ []))
  | some (c ∷ dir, name) ↦ some (str_n_dup abs_path (length (c ∷ dir)))
]

unfoldable pub get_file_path_without_ext : Bytes → Bytes
get_file_path_without_ext abs_path = elim (strrchr abs_path dot) [
  | some (base, ext) ↦ str_n_dup abs_path (length base)
  | none ↦ str_dup abs_path
]

module _ (fs : FileSystem) where
  -- `makePathAbsRec`, on fuel: the outer `none` says that the fuel ran out, the inner one is NULL.
  -- The test `slashPos == path_` compares pointers into two buffers, so it never holds.
  unfoldable pub make_path_abs_rec : ℕ → Bytes → Option (Option Bytes)
  make_path_abs_rec zero path = none
  make_path_abs_rec (suc fuel) path = elim (fs.realpath path) [
    | some resolved ↦ some (some resolved)
    | none ↦ elim (strrchr path slash) [
      | none ↦ some none
      | some (parent, child) ↦
          let rest = make_path_abs_rec fuel parent in
          if streq child (codes ".") || streq child (codes "..")
          then some none
          else (do r ← rest; some (do resolved ← r; some (resolved ++ slash ∷ child)))
    ]
  ]

  -- Each call is on a shorter path, so this fuel is enough.
  unfoldable pub make_path_abs_from : Bytes → Option Bytes
  unfolding make_path_abs_rec
  make_path_abs_from path = do r ← make_path_abs_rec (suc (length path)) path; r

  -- The branch on `path_[0] != '/'`: a relative path is put behind the working directory.
  from_cwd : Bytes → Option Bytes
  from_cwd path = do cwd ← fs.getcwd; make_path_abs_from (cwd ++ slash ∷ path)

  -- `loggerMakePathAbs`
  unfoldable pub make_path_abs : Bytes → Bool → Option Bytes
  unfolding from_cwd
  make_path_abs [] must_exist = none
  make_path_abs (c ∷ path) must_exist =
      if must_exist && not (fs.access (c ∷ path))
      then none
      else if c == slash
      then make_path_abs_from (c ∷ path)
      else from_cwd (c ∷ path)
