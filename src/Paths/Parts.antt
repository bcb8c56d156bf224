-- ===== src/Paths/Parts.antt =====
-- What the functions that take a path apart return.
use cc_base.Base.{
  ℕ, Bool, true, false, none, some, [], ◌∷◌, ◌++◌, ◌≡◌, ◌≢◌, refl, ap, arith, map, length, take,
  take-append, length-append, if◌then◌else◌, ◌∙◌, append-nil,
}
use cc_base.Cstring.{Bytes, slash, dot, tolower}
use cc_base.Cstring.Laws.{Lacks, strrchr-append, strrchr-Lacks}
use cc_base.Paths.{
  str_n_dup, str_dup, file_name, get_file_name, get_file_ext, get_file_dir,
  get_file_path_without_ext,
}

take_all : (s : Bytes) → take (length s) s ≡ s
take_all [] = refl
take_all (x ∷ s) = ap (λ l. x ∷ l) (take_all s)

pub str_dup_lem : (s : Bytes) → str_dup s ≡ s
unfolding str_dup
str_dup_lem s = ground (arith, take_all s)

pub str_n_dup-append : (a b : Bytes) → str_n_dup (a ++ b) (length a) ≡ a
unfolding str_n_dup
str_n_dup-append a [] = ground (arith, append-nil a, take_all a)
str_n_dup-append a (x ∷ b) = ground (arith, length-append a (x ∷ b), take-append a (x ∷ b))

file_name_whole : (name : Bytes) → name ≢ [] → file_name name false ≡ some name
unfolding file_name
file_name_whole [] h = absurd (h refl)
file_name_whole (c ∷ name) h = ap some (str_dup_lem (c ∷ name))

get_file_name-append :
    (dir name : Bytes)
    → Lacks slash name
    → get_file_name (dir ++ slash ∷ name) false ≡ file_name name false
unfolding get_file_name
get_file_name-append dir name h = rw (get_file_name, strrchr-append dir name slash h)

-- A directory and a name, joined by a slash, are found again: the name is what follows the last
-- slash, and the directory is what stands before it, the root if nothing does.
pub get_file_dir-get_file_name :
    (dir name : Bytes)
    → Lacks slash name
    → name ≢ []
    → (get_file_dir (dir ++ slash ∷ name)
        ≡ elim dir [ [] ↦ some (slash ∷ []) | c ∷ d ↦ some (c ∷ d) ])
      × (get_file_name (dir ++ slash ∷ name) false ≡ some name)
unfolding get_file_dir
get_file_dir-get_file_name [] name h ne = (
  rw (get_file_dir, strrchr-append [] name slash h) (ap some (str_dup_lem (slash ∷ []))),
  get_file_name-append [] name h ∙ file_name_whole name ne,
)
get_file_dir-get_file_name (c ∷ dir) name h ne = (
  rw (get_file_dir, strrchr-append (c ∷ dir) name slash h)
      (ap some (str_n_dup-append (c ∷ dir) (slash ∷ name))),
  get_file_name-append (c ∷ dir) name h ∙ file_name_whole name ne,
)

-- A path that does not hold a slash has no name, no directory and no extension.
pub relative_has_no_parts :
    (path : Bytes) (flag : Bool)
    → Lacks slash path
    → (get_file_name path flag ≡ none)
      × (get_file_dir path ≡ none)
      × (get_file_ext path flag ≡ none)
unfolding get_file_name get_file_dir get_file_ext
relative_has_no_parts path flag h =
    let e = strrchr-Lacks path slash h in
    (rw (get_file_name, e), rw (get_file_dir, e), ground (arith, e))

append_ne_nil : (a : Bytes) (c : ℕ) (b : Bytes) → a ++ c ∷ b ≢ []
append_ne_nil [] c b h = cc
append_ne_nil (x ∷ a) c b h = cc

get_file_ext_lem :
    (dir base ext : Bytes) (to_lower : Bool)
    → Lacks slash (base ++ dot ∷ ext)
    → Lacks dot ext
    → get_file_ext (dir ++ slash ∷ (base ++ dot ∷ ext)) to_lower
      ≡ some (if to_lower then map tolower ext else ext)
unfolding get_file_ext
get_file_ext_lem dir base ext to_lower hs hd = rw (
  get_file_name-append dir (base ++ dot ∷ ext) hs,
  file_name_whole (base ++ dot ∷ ext) (append_ne_nil base dot ext),
  strrchr-append base ext dot hd,
)

file_name_cut : (base ext : Bytes) → Lacks dot ext → file_name (base ++ dot ∷ ext) true ≡ some base
unfolding file_name
file_name_cut [] ext h =
    rw (file_name, strrchr-append [] ext dot h) (ap some (str_n_dup-append [] (dot ∷ ext)))
file_name_cut (c ∷ base) ext h =
    rw (file_name, strrchr-append (c ∷ base) ext dot h)
      (ap some (str_n_dup-append (c ∷ base) (dot ∷ ext)))

get_file_name_without_ext :
    (dir base ext : Bytes)
    → Lacks slash (base ++ dot ∷ ext)
    → Lacks dot ext
    → get_file_name (dir ++ slash ∷ (base ++ dot ∷ ext)) true ≡ some base
unfolding get_file_name
get_file_name_without_ext dir base ext hs hd =
    rw (get_file_name, strrchr-append dir (base ++ dot ∷ ext) slash hs) (file_name_cut base ext hd)

-- A name is found again as the part before its last dot and the part behind, which is in lower case
-- if that is asked for.
pub get_file_name-get_file_ext :
    (dir base ext : Bytes) (to_lower : Bool)
    → Lacks slash (base ++ dot ∷ ext)
    → Lacks dot ext
    → (get_file_name (dir ++ slash ∷ (base ++ dot ∷ ext)) true ≡ some base)
      × (get_file_ext (dir ++ slash ∷ (base ++ dot ∷ ext)) to_lower
          ≡ some (if to_lower then map tolower ext else ext))
get_file_name-get_file_ext dir base ext to_lower hs hd =
    (get_file_name_without_ext dir base ext hs hd, get_file_ext_lem dir base ext to_lower hs hd)

-- `get_file_path_without_ext` cuts at the last dot of the whole path: where the name has no dot and
-- a directory has one, the name itself and a part of the directory are lost.
pub get_file_path_without_ext_cuts_dir :
    (dir sub name : Bytes)
    → Lacks dot (sub ++ slash ∷ name)
    → get_file_path_without_ext (dir ++ dot ∷ (sub ++ slash ∷ name)) ≡ dir
unfolding get_file_path_without_ext
get_file_path_without_ext_cuts_dir dir sub name h =
    rw (get_file_path_without_ext, strrchr-append dir (sub ++ slash ∷ name) dot h)
      (str_n_dup-append dir (dot ∷ (sub ++ slash ∷ name)))
