-- ===== src/Metrics/Bounds.antt =====
-- The order of the three numbers of lines.
use cc_base.Base.{
  ℕ, zero, suc, ◌+◌, ◌≤◌, Bool, true, false, Option, some, [], ◌∷◌, ◌++◌, ◌≡◌, ap, inl, inr, arith,
  drop, if◌then◌else◌, subst, bind-some,
}
use cc_base.Cstring.{Bytes, streq}
use cc_base.Util.Text.{newline}
use cc_base.Metrics.{
  Loc, CommentTypes, newlines, blank_from, unique_from, unique_newlines, erase_blank_lines,
  from_newline, erase_single, multi_count, erase_multi, erase_comments, comment_types, get_loc,
}
use cc_base.Metrics.Find.{find_split-cases}

newlines-append : (a b : Bytes) → newlines (a ++ b) ≡ newlines a + newlines b
unfolding newlines
newlines-append [] b = omega arith
newlines-append (c ∷ a) b = ground (arith, newlines-append a b)

newlines-drop : (n : ℕ) (s : Bytes) → newlines (drop n s) ≤ newlines s
unfolding newlines
newlines-drop zero s = omega arith
newlines-drop (suc n) [] = omega arith
newlines-drop (suc n) (c ∷ s) = ground (arith, newlines-drop n s)

newlines-from_newline : (s : Bytes) → newlines (from_newline s) ≤ newlines s
unfolding newlines from_newline
newlines-from_newline [] = omega arith
newlines-from_newline (c ∷ s) = ground (arith, newlines-from_newline s)

newlines-unique_from : (c : ℕ) (s : Bytes) → newlines (unique_from c s) ≤ newlines s
unfolding newlines unique_from
newlines-unique_from c [] = omega arith
newlines-unique_from c (d ∷ s) = ground (arith, newlines-unique_from c s, newlines-unique_from d s)

newlines-unique_newlines : (s : Bytes) → newlines (unique_newlines s) ≤ newlines s
unfolding newlines unique_newlines
newlines-unique_newlines [] = omega arith
newlines-unique_newlines (c ∷ s) = ground (arith, newlines-unique_from c s)

newlines-blank_from :
    (line : Bytes) (blank : Bool) (s : Bytes)
    → newlines (blank_from line blank s) ≤ newlines line + newlines s
unfolding newlines blank_from
newlines-blank_from line blank [] = omega arith
newlines-blank_from line blank (c ∷ s) = ground (
  arith,
  newlines-blank_from (line ++ c ∷ []) false s,
  newlines-blank_from (line ++ c ∷ []) blank s,
  newlines-blank_from [] true s,
  newlines-append line (c ∷ []),
  newlines-append line (newline ∷ blank_from [] true s),
)

newlines-erase_blank_lines : (s : Bytes) → newlines (erase_blank_lines s) ≤ newlines s
unfolding erase_blank_lines newlines
newlines-erase_blank_lines s =
    omega (arith, newlines-unique_newlines (blank_from [] true s), newlines-blank_from [] true s)

newlines-erase_single :
    (p : Bytes) (n : ℕ) (s r : Bytes) → erase_single p n s ≡ some r → newlines r ≤ newlines s
unfolding erase_single
newlines-erase_single p zero s r h = elim (find_split-cases p s) [
  | inl (e, free) ↦
      let q : some s ≡ some r = rw (erase_single, e) at h in
      let same : s ≡ r = cc in omega (arith, ap newlines same)
  | inr (a, b, e, first) ↦ absurd (cc (rw (erase_single, e) at h))
]
newlines-erase_single p (suc n) s r h = elim (find_split-cases p s) [
  | inl (e, free) ↦
      let q : some s ≡ some r = rw (erase_single, e) at h in
      let same : s ≡ r = cc in omega (arith, ap newlines same)
  | inr (a, b, e, first) ↦ omega (
    arith,
    newlines-erase_single p n (a ++ from_newline b) r (rw (erase_single, e) at h),
    newlines-append a (from_newline b),
    newlines-from_newline b,
    newlines-append a b,
    ap newlines first.0,
  )
]

newlines-erase_multi :
    (t : CommentTypes) (n : ℕ) (s r : Bytes) → erase_multi t n s ≡ some r → newlines r ≤ newlines s
unfolding erase_multi
newlines-erase_multi t zero s r h = elim (find_split-cases t.multi_start s) [
  | inl (e, free) ↦
      let q : some s ≡ some r = rw (erase_multi, e) at h in
      let same : s ≡ r = cc in omega (arith, ap newlines same)
  | inr (a, b, e, first) ↦ absurd (cc (rw (erase_multi, e) at h))
]
newlines-erase_multi t (suc n) s r h = elim (find_split-cases t.multi_start s) [
  | inl (e, free) ↦
      let q : some s ≡ some r = rw (erase_multi, e) at h in
      let same : s ≡ r = cc in omega (arith, ap newlines same)
  | inr (a, b, e, first) ↦
      let k = multi_count t a b in
      omega (
        arith,
        newlines-erase_multi t n (a ++ drop k b) r (rw (erase_multi, e) at h),
        newlines-append a (drop k b),
        newlines-drop k b,
        newlines-append a b,
        ap newlines first.0,
      )
]

newlines-choice :
    (skip : Bool) (o : Option Bytes) (s r : Bytes)
    → ((r : Bytes) → o ≡ some r → newlines r ≤ newlines s)
    → (if skip then some s else o) ≡ some r
    → newlines r ≤ newlines s
newlines-choice true o s r h e = let same : s ≡ r = cc in omega (arith, ap newlines same)
newlines-choice false o s r h e = h r e

newlines-erase_comments :
    (n : ℕ) (t : CommentTypes) (s r : Bytes)
    → erase_comments n t s ≡ some r
    → newlines r ≤ newlines s
unfolding erase_comments
newlines-erase_comments n t s r h =
    let (s', first, second) =
      bind-some (if streq t.single [] then some s else erase_single t.single n s)
        (λ s'. if streq t.multi_start [] then some s' else erase_multi t n s') r h in
    let le =
      newlines-choice (streq t.single []) (erase_single t.single n s) s s'
        (newlines-erase_single t.single n s) first in
    let le2 =
      newlines-choice (streq t.multi_start []) (erase_multi t n s') s' r
        (newlines-erase_multi t n s') second in
    omega (arith, le, le2)

-- Whatever the type, if the count ends, then there are at most as many lines of code as lines that
-- are not blank, and at most as many of these as lines.
pub get_loc-ordered :
    (n : ℕ) (file_type content : Bytes) (l : Loc)
    → get_loc n file_type content ≡ some l
    → (l.code_lines ≤ l.nonblank_lines) × (l.nonblank_lines ≤ l.original_lines)
unfolding get_loc
get_loc-ordered n file_type [] l h =
    let none_at_all : Loc = record { original_lines = 0; nonblank_lines = 0; code_lines = 0 } in
    let q : none_at_all ≡ l = cc in
    subst (λ (x : Loc). (x.code_lines ≤ x.nonblank_lines) × (x.nonblank_lines ≤ x.original_lines)) q
      (omega arith, omega arith)
get_loc-ordered n file_type (c ∷ content) l h =
    let text = erase_blank_lines (c ∷ content) in
    let counted : Bytes → Loc = λ code. record {
      original_lines = suc (newlines (c ∷ content));
      nonblank_lines = suc (newlines text);
      code_lines = suc (newlines code);
    } in
    let (code, e, q) =
      bind-some (erase_comments n (comment_types file_type) text) (λ code. some (counted code)) l
        h in
    let le = newlines-erase_comments n (comment_types file_type) text code e in
    let same : counted code ≡ l = cc in
    subst (λ (x : Loc). (x.code_lines ≤ x.nonblank_lines) × (x.nonblank_lines ≤ x.original_lines))
      same (omega (arith, le), omega (arith, newlines-erase_blank_lines (c ∷ content)))
