-- ===== src/Util/Walk.antt =====
-- `iterateDirectoryRecursive` of util/src/parserutil.cpp.
use cc_base.Base.{
  ℕ, zero, suc, Bool, true, false, Option, none, some, List, [], ◌∷◌, ◌>>=◌, if◌then◌else◌,
}
use cc_base.Cstring.{Bytes}

-- What is asked of Boost's file system; none is an exception. The listing of a directory is the
-- entries that its iterator gives, and whether the iterator then throws.
pub record Tree : Type 0 where
  pub canonical : Bytes → Option Bytes
  pub exists : Bytes → Option Bool
  pub is_directory : Bytes → Option Bool
  pub is_regular_file : Bytes → Option Bool
  pub entries : Bytes → List Bytes
  pub listing_fails : Bytes → Bool

-- What the tests in front of the callback say of a path: it gets no callback, one of them throws, it
-- is no directory, or it is one.
pub data PathKind : Type 0 where
  gone fails leaf directory : PathKind

unfoldable pub path_kind : Tree → Bytes → PathKind
path_kind fs path = elim (fs.canonical path) [
  | none ↦ gone
  | some target ↦ elim (fs.exists path) [
    | none ↦ fails
    | some false ↦ gone
    | some true ↦ elim (fs.is_directory path) [
      | none ↦ fails
      | some true ↦ directory
      | some false ↦ elim (fs.is_regular_file path) [ none ↦ fails | some regular ↦ leaf ]
    ]
  ]
]

-- How a part of the walk ends: it returns, or an exception leaves it; either with the state that the
-- callbacks have made so far.
pub data WalkEnd (S : Type 0) : Type 0 where
  returns : Bool → S → WalkEnd S
  throws : S → WalkEnd S

module _ {S : Type 0} where
  -- The state behind a walk.
  abbrev pub state_of : WalkEnd S → S
  state_of (returns goes_on s) = s
  state_of (throws s) = s

  -- The loop over the entries of a directory, with the state of the callback.
  unfoldable pub walk_entries :
      (Bytes → S → Option (WalkEnd S)) → List Bytes → Bool → S → Option (WalkEnd S)
  walk_entries walk [] broken s = some (if broken then throws s else returns true s)
  walk_entries walk (path ∷ paths) broken s = do
    r ← walk path s
    elim r [ throws s' ↦ some (throws s') | returns goes_on s' ↦ walk_entries walk paths broken s' ]

  -- The recursion, with fuel; none when it does not suffice. What it returns is whether the callback
  -- went on at this path.
  unfoldable pub iterate_directory_recursive :
      Tree → (Bytes → S → WalkEnd S) → ℕ → Bytes → S → Option (WalkEnd S)
  unfolding path_kind walk_entries
  iterate_directory_recursive fs callback zero path s = none
  iterate_directory_recursive fs callback (suc n) path s = elim (path_kind fs path) [
    | gone ↦ some (returns true s)
    | fails ↦ some (throws s)
    | leaf ↦ some (callback path s)
    | directory ↦ elim (callback path s) [
      | throws s' ↦ some (throws s')
      | returns false s' ↦ some (returns false s')
      | returns true s' ↦
          walk_entries (λ p t. iterate_directory_recursive fs callback n p t) (fs.entries path)
            (fs.listing_fails path) s'
    ]
  ]
