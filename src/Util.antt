-- ===== src/Util.antt =====
-- util/src/util.cpp and util/src/filesystem.cpp: escaping for HTML, and the directory of the
-- installation.
use cc_base.Base.{
  ℕ, ◌+◌, Bool, true, false, not, ◌||◌, Option, none, some, List, [], ◌∷◌, ◌++◌, if◌then◌else◌,
  ◌==◌,
}
use cc_base.Cstring.{Bytes, codes, starts_with}
pub mod Walk
pub mod Html
pub mod Install
pub mod Text
pub mod Lines
pub mod Range

unfoldable pub escape_html_char : ℕ → Bytes
escape_html_char c =
    if c == b'<'
    then codes "&lt;"
    else if c == b'>'
    then codes "&gt;"
    else if c == b'&'
    then codes "&amp;"
    else c ∷ []

-- `escapeHtml`
unfoldable pub escape_html : Bytes → Bytes
unfolding escape_html_char
escape_html [] = []
escape_html (c ∷ str) = escape_html_char c ++ escape_html str

-- The environment and Boost's file system.
pub record Installation : Type 0 where
  pub exists : Bytes → Bool
  pub system_complete : Bytes → Bytes
  pub canonical : Bytes → Bytes
  pub parent_path : Bytes → Bytes
  pub join : Bytes → Bytes → Bytes
  pub getenv_path : Option Bytes

pub data Directory : Type 0 where
  directory : Bytes → Directory
  -- `std::runtime_error`
  not_found : Directory
  -- A string is made from NULL.
  null_access : Directory

abbrev pub delimiter : ℕ
delimiter = b':'

-- The parts of the text that the loop cuts off at a colon; the last argument is the part begun.
unfoldable pub cut_parts : Bytes → Bytes → List Bytes
cut_parts part [] = []
cut_parts part (c ∷ full_path) =
    let cut = part ∷ cut_parts [] full_path in
    let go = cut_parts (part ++ c ∷ []) full_path in if c == delimiter then cut else go

abbrev pub grand_parent : Installation → Bytes → Bytes
grand_parent os path = os.parent_path (os.parent_path (os.canonical path))

-- The loop over the parts.
unfoldable pub search_parts : Installation → Bytes → List Bytes → Directory
search_parts os path [] = not_found
search_parts os path (part ∷ parts) =
    let rest = search_parts os path parts in
    if os.exists (os.join part path) then directory (grand_parent os (os.join part path)) else rest

-- `binaryPathToInstallDir`
unfoldable pub binary_path_to_install_dir : Installation → Bytes → Directory
unfolding cut_parts search_parts
binary_path_to_install_dir os path =
    if os.exists (os.system_complete path)
    then directory (grand_parent os (os.system_complete path))
    else elim os.getenv_path [
      | none ↦ null_access
      | some full_path ↦ search_parts os path (cut_parts [] full_path)
    ]

-- `isRootedUnderAnyOf`
unfoldable pub is_rooted_under_any_of : List Bytes → Bytes → Bool
is_rooted_under_any_of [] path = false
is_rooted_under_any_of (p ∷ paths) path = starts_with path p || is_rooted_under_any_of paths path
