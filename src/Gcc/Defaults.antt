-- ===== src/Gcc/Defaults.antt =====
-- The default includes that gcc prints.
use cc_base.Base.{
  true, false, List, [], ◌∷◌, ◌++◌, ◌≡◌, refl, sym, ◌∙◌, inl, inr, if◌then◌else◌, append-nil,
  append_assoc, Bool-cases,
}
use cc_base.Cstring.{Bytes, contains}
use cc_base.Paths.{FileSystem}
use cc_base.Gcc.{default_of_line, search_starts, search_ends, read_defaults}

-- The lines behind the first one that holds the mark.
pub lines_after : Bytes → List Bytes → List Bytes
lines_after mark [] = []
lines_after mark (line ∷ rest) =
    let later = lines_after mark rest in if contains line mark then rest else later

-- The lines before the first one that holds the mark, or all.
pub lines_before : Bytes → List Bytes → List Bytes
lines_before mark [] = []
lines_before mark (line ∷ rest) =
    let later = line ∷ lines_before mark rest in if contains line mark then [] else later

-- What each of the lines adds, in order.
pub defaults_of : FileSystem → List Bytes → List Bytes
defaults_of fs [] = []
defaults_of fs (line ∷ rest) = default_of_line fs line ++ defaults_of fs rest

read_defaults_started :
    (fs : FileSystem) (lines args : List Bytes)
    → read_defaults fs true lines args ≡ args ++ defaults_of fs (lines_before search_ends lines)
unfolding read_defaults lines_before defaults_of
read_defaults_started fs [] args = sym (append-nil args)
read_defaults_started fs (line ∷ rest) args = elim (Bool-cases (contains line search_ends)) [
  | inl e ↦ rw (read_defaults, lines_before, e) (sym (append-nil args))
  | inr e ↦
      rw (read_defaults, lines_before, e)
        (read_defaults_started fs rest (args ++ default_of_line fs line)
          ∙ append_assoc args (default_of_line fs line) _)
]

-- The loop reads exactly the lines between the first line with the first mark and the next line
-- with the second, and collects what each of them gives.
pub read_defaults-between :
    (fs : FileSystem) (lines : List Bytes)
    → read_defaults fs false lines []
      ≡ defaults_of fs (lines_before search_ends (lines_after search_starts lines))
unfolding read_defaults lines_after
read_defaults-between fs [] = unfold lines_before defaults_of in refl
read_defaults-between fs (line ∷ rest) = elim (Bool-cases (contains line search_starts)) [
  | inl e ↦ rw (lines_after, e) (read_defaults_started fs rest [])
  | inr e ↦ rw (lines_after, e) (read_defaults-between fs rest)
]
