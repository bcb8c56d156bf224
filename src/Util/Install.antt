-- ===== src/Util/Install.antt =====
-- Which directories the search for the installation looks at.
use cc_base.Base.{
  some, List, [], ◌∷◌, ◌++◌, ◌≡◌, refl, sym, ap, ◌∙◌, inl, inr, arith, if◌then◌else◌, ◌==◌,
  Bool-cases,
}
use cc_base.Cstring.{Bytes}
use cc_base.Cstring.Laws.{Lacks}
use cc_base.Util.{
  Installation, directory, delimiter, cut_parts, search_parts, binary_path_to_install_dir,
}

-- Nothing is cut off behind the last colon.
cut_parts-last :
    (part dirs last : Bytes)
    → Lacks delimiter last
    → cut_parts part (dirs ++ delimiter ∷ last) ≡ cut_parts part (dirs ++ delimiter ∷ [])
unfolding cut_parts
cut_parts-last part [] last h = ap (λ l. part ∷ l) (no_colon [] last h)
  where
    no_colon : (part s : Bytes) → Lacks delimiter s → cut_parts part s ≡ []
    no_colon part [] h = refl
    no_colon part (c ∷ s) h = ground (arith, h.0, no_colon (part ++ c ∷ []) s h.1)
cut_parts-last part (c ∷ dirs) last h = elim (Bool-cases (c == delimiter)) [
  | inl cut ↦ rw cut (ap (λ l. part ∷ l) (cut_parts-last [] dirs last h))
  | inr more ↦ rw more (cut_parts-last (part ++ c ∷ []) dirs last h)
]

-- With a search path.
abbrev pub on_path : Installation → Bytes → Installation
on_path os full_path = record os { getenv_path = some full_path }

search_parts-on_path :
    (os : Installation) (full_path path : Bytes) (parts : List Bytes)
    → search_parts (on_path os full_path) path parts ≡ search_parts os path parts
unfolding search_parts
search_parts-on_path os full_path path [] = refl
search_parts-on_path os full_path path (part ∷ parts) =
    ap
      (λ r.
        (if os.exists (os.join part path)
          then directory (os.parent_path (os.parent_path (os.canonical (os.join part path))))
          else r))
      (search_parts-on_path os full_path path parts)

search_last :
    (os : Installation) (path dirs last : Bytes)
    → Lacks delimiter last
    → search_parts
        (on_path os (dirs ++ delimiter ∷ last))
        path
        (cut_parts [] (dirs ++ delimiter ∷ last))
      ≡ search_parts os path (cut_parts [] (dirs ++ delimiter ∷ []))
search_last os path dirs last h =
    search_parts-on_path os (dirs ++ delimiter ∷ last) path
      (cut_parts [] (dirs ++ delimiter ∷ last))
    ∙ ap (search_parts os path) (cut_parts-last [] dirs last h)

-- The last directory of PATH is never searched: whatever stands behind the last colon, the result is
-- the same.
pub binary_path_to_install_dir_ignores_last :
    (os : Installation) (path dirs last other : Bytes)
    → Lacks delimiter last
    → Lacks delimiter other
    → binary_path_to_install_dir (on_path os (dirs ++ delimiter ∷ last)) path
      ≡ binary_path_to_install_dir (on_path os (dirs ++ delimiter ∷ other)) path
unfolding binary_path_to_install_dir
binary_path_to_install_dir_ignores_last os path dirs last other h k =
    ap
      (λ r.
        (if os.exists (os.system_complete path)
          then directory (os.parent_path (os.parent_path (os.canonical (os.system_complete path))))
          else r))
      (search_last os path dirs last h ∙ sym (search_last os path dirs other k))
