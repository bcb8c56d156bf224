-- ===== src/Metrics/Blank.antt =====
-- The removal of blank lines.
use cc_base.Base.{
  ℕ, Bool, true, false, ◌&&◌, List, [], ◌∷◌, ◌++◌, ◌≡◌, refl, ap, sym, ◌∙◌, inl, inr, ◌≢◌, arith,
  ◌==◌, ==-eq_false, All, Bool-cases, if◌then◌else◌, append_assoc, append-nil,
}
use cc_base.Cstring.{Bytes, isspace}
use cc_base.Cstring.Laws.{Lacks}
use cc_base.Util.Text.{newline}
use cc_base.Util.Lines.{unlines}
use cc_base.Metrics.{blank_from, unique_from, unique_newlines, erase_blank_lines}

-- A line of white space only.
unfoldable pub is_blank : Bytes → Bool
is_blank [] = true
is_blank (c ∷ l) = isspace c && is_blank l

-- The lines that are not blank.
unfoldable pub filled : List Bytes → List Bytes
unfolding is_blank
filled [] = []
filled (l ∷ ls) = let rest = filled ls in if is_blank l then rest else l ∷ rest

-- The newline of a blank first line.
unfoldable pub lead : List Bytes → Bytes → Bytes
unfolding is_blank
lead [] s = s
lead (l ∷ ls) s = if is_blank l then newline ∷ s else s

abbrev emptied : Bytes → Bytes
emptied l = if is_blank l then [] else l

abbrev all_emptied : List Bytes → List Bytes
all_emptied [] = []
all_emptied (l ∷ ls) = emptied l ∷ all_emptied ls

blank_from-newline :
    (l s line : Bytes) (blank : Bool)
    → Lacks newline l
    → blank_from line blank (l ++ newline ∷ s)
      ≡ (if blank && is_blank l then [] else line ++ l) ++ newline ∷ blank_from [] true s
unfolding blank_from isspace is_blank
blank_from-newline [] s line true h = refl
blank_from-newline [] s line false h =
    ap (λ x. x ++ newline ∷ blank_from [] true s) (sym (append-nil line))
blank_from-newline (c ∷ l) s line blank h =
    let miss : (c == newline) ≡ false = ==-eq_false c newline h.0 in
    let tail = newline ∷ blank_from [] true s in
    let joined = append_assoc line (c ∷ []) l in
    elim (Bool-cases (isspace c)) [
      | inl space ↦
          rw (blank_from, is_blank, space, miss)
            (blank_from-newline l s (line ++ c ∷ []) blank h.1
              ∙ ap (λ x. (if blank && is_blank l then [] else x) ++ tail) joined)
      | inr other ↦
          let full : (blank && (isspace c && is_blank l)) ≡ false = ground (arith, other) in
          rw (blank_from, full, other)
            (blank_from-newline l s (line ++ c ∷ []) false h.1 ∙ ap (λ x. x ++ tail) joined)
    ]

blank_from-Lacks :
    (l line : Bytes) (blank : Bool) → Lacks newline l → blank_from line blank l ≡ line ++ l
unfolding blank_from
blank_from-Lacks [] line blank h = sym (append-nil line)
blank_from-Lacks (c ∷ l) line blank h =
    let miss : (c == newline) ≡ false = ==-eq_false c newline h.0 in
    let joined = append_assoc line (c ∷ []) l in
    elim (Bool-cases (isspace c)) [
      | inl space ↦
          rw (blank_from, space, miss) (blank_from-Lacks l (line ++ c ∷ []) blank h.1 ∙ joined)
      | inr other ↦ rw (blank_from, other) (blank_from-Lacks l (line ++ c ∷ []) false h.1 ∙ joined)
    ]

blank_from-unlines :
    (ls : List Bytes) (last : Bytes)
    → All (Lacks newline) ls
    → Lacks newline last
    → blank_from [] true (unlines ls ++ last) ≡ unlines (all_emptied ls) ++ last
blank_from-unlines [] last h k = blank_from-Lacks last [] true k
blank_from-unlines (l ∷ ls) last h k =
    ap (blank_from [] true) (append_assoc l (newline ∷ unlines ls) last)
    ∙ (blank_from-newline l (unlines ls ++ last) [] true h.0
        ∙ (ap (λ s. emptied l ++ newline ∷ s) (blank_from-unlines ls last h.1 k)
            ∙ sym (append_assoc (emptied l) (newline ∷ unlines (all_emptied ls)) last)))

unique_from-Lacks : (l : Bytes) (c : ℕ) → Lacks newline l → unique_from c l ≡ l
unfolding unique_from
unique_from-Lacks [] c h = refl
unique_from-Lacks (d ∷ l) c h =
    let keep : (c == newline && d == newline) ≡ false = ground (arith, h.0) in
    rw (unique_from, keep) (ap (λ x. d ∷ x) (unique_from-Lacks l d h.1))

-- A byte that is no newline, or a line behind it, keeps the newline.
unique_from-line :
    (l s : Bytes) (c : ℕ)
    → Lacks newline l
    → c ≢ newline
    → unique_from c (l ++ newline ∷ s) ≡ l ++ newline ∷ unique_from newline s
unfolding unique_from
unique_from-line [] s c h ne =
    let keep : (c == newline && newline == newline) ≡ false = ground (arith, ne) in
    rw (unique_from, keep) refl
unique_from-line (d ∷ l) s c h ne =
    let keep : (c == newline && d == newline) ≡ false = ground (arith, h.0) in
    rw (unique_from, keep) (ap (λ x. d ∷ x) (unique_from-line l s d h.1 h.0))

unique_from-full :
    (l s : Bytes)
    → Lacks newline l
    → is_blank l ≡ false
    → unique_from newline (l ++ newline ∷ s) ≡ l ++ newline ∷ unique_from newline s
unfolding unique_from is_blank
unique_from-full [] s h full = absurd (cc)
unique_from-full (d ∷ l) s h full =
    let keep : (newline == newline && d == newline) ≡ false = ground (arith, h.0) in
    rw (unique_from, keep) (ap (λ x. d ∷ x) (unique_from-line l s d h.1 h.0))

unique_newlines-full :
    (l s : Bytes)
    → Lacks newline l
    → is_blank l ≡ false
    → unique_newlines (l ++ newline ∷ s) ≡ l ++ newline ∷ unique_from newline s
unfolding unique_newlines is_blank
unique_newlines-full [] s h full = absurd (cc)
unique_newlines-full (d ∷ l) s h full = ap (λ x. d ∷ x) (unique_from-line l s d h.1 h.0)

unique_from-unlines :
    (ls : List Bytes) (last : Bytes)
    → All (Lacks newline) ls
    → Lacks newline last
    → unique_from newline (unlines (all_emptied ls) ++ last) ≡ unlines (filled ls) ++ last
unfolding filled unique_from
unique_from-unlines [] last h k = unique_from-Lacks last newline k
unique_from-unlines (l ∷ ls) last h k =
    let rest = unique_from-unlines ls last h.1 k in
    elim (Bool-cases (is_blank l)) [
      | inl blank ↦ rw (filled, blank) rest
      | inr full ↦
          rw (filled, full)
            (ap (unique_from newline) (append_assoc l (newline ∷ unlines (all_emptied ls)) last)
              ∙ (unique_from-full l (unlines (all_emptied ls) ++ last) h.0 full
                  ∙ (ap (λ s. l ++ newline ∷ s) rest
                      ∙ sym (append_assoc l (newline ∷ unlines (filled ls)) last))))
    ]

unique_newlines-Lacks : (l : Bytes) → Lacks newline l → unique_newlines l ≡ l
unfolding unique_newlines
unique_newlines-Lacks [] h = refl
unique_newlines-Lacks (c ∷ l) h = ap (λ x. c ∷ x) (unique_from-Lacks l c h.1)

unique_newlines-unlines :
    (ls : List Bytes) (last : Bytes)
    → All (Lacks newline) ls
    → Lacks newline last
    → unique_newlines (unlines (all_emptied ls) ++ last) ≡ lead ls (unlines (filled ls) ++ last)
unfolding unique_newlines lead filled
unique_newlines-unlines [] last h k = unique_newlines-Lacks last k
unique_newlines-unlines (l ∷ ls) last h k =
    let rest = unique_from-unlines ls last h.1 k in
    elim (Bool-cases (is_blank l)) [
      | inl blank ↦ rw (lead, filled, blank) (ap (λ s. newline ∷ s) rest)
      | inr full ↦
          rw (lead, filled, full)
            (ap unique_newlines (append_assoc l (newline ∷ unlines (all_emptied ls)) last)
              ∙ (unique_newlines-full l (unlines (all_emptied ls) ++ last) h.0 full
                  ∙ (ap (λ s. l ++ newline ∷ s) rest
                      ∙ sym (append_assoc l (newline ∷ unlines (filled ls)) last))))
    ]

-- Of lines, each with its newline, and a rest without one, `eraseBlankLines` leaves the lines that
-- are not of white space only and the rest, behind a newline if the first line is blank.
pub erase_blank_lines-unlines :
    (ls : List Bytes) (last : Bytes)
    → All (Lacks newline) ls
    → Lacks newline last
    → erase_blank_lines (unlines ls ++ last) ≡ lead ls (unlines (filled ls) ++ last)
unfolding erase_blank_lines lead filled unique_newlines
erase_blank_lines-unlines ls last h k =
    ap unique_newlines (blank_from-unlines ls last h k) ∙ unique_newlines-unlines ls last h k
