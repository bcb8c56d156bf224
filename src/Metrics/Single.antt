-- ===== src/Metrics/Single.antt =====
-- The loop over single-line comments.
use cc_base.Base.{
  ℕ, zero, suc, ◌≤◌, Bool, true, false, some, [], ◌∷◌, ◌++◌, ◌≡◌, refl, ap, sym, ◌∙◌, inl, inr, ◌≢◌,
  arith, ◌==◌, ==_iff, length, Bool-cases, if◌then◌else◌, length-append,
}
use cc_base.Cstring.{Bytes, starts_with}
use cc_base.Cstring.Laws.{Lacks}
use cc_base.Util.Text.{newline}
use cc_base.Metrics.{from_newline, erase_single}
use cc_base.Metrics.Find.{Free, Clean, find_split-cases, from_newline-starts_with}

-- One pass over a text, which drops what is between a mark and the end of its line. The flag says
-- whether a mark was met on the line.
unfoldable pub strip : Bytes → Bool → Bytes → Bytes
strip p met [] = []
strip p true (c ∷ s) =
    let go = strip p true s in let end = strip p false s in if c == newline then c ∷ end else go
strip p false (c ∷ s) =
    let go = strip p true s in
    let keep = strip p false s in if starts_with (c ∷ s) p then go else c ∷ keep

-- A mark: not empty, and on one line.
abbrev pub IsMark : Bytes → Type 0
IsMark p = (p ≢ []) × Lacks newline p

strip-Free : (p s : Bytes) → Free p s → strip p false s ≡ s
unfolding strip
strip-Free p [] h = refl
strip-Free p (c ∷ s) h = rw (strip, h.0) (ap (λ x. c ∷ x) (strip-Free p s h.1))

-- No mark begins with a newline.
not_at_newline : (p s : Bytes) → IsMark p → starts_with (newline ∷ s) p ≡ false
unfolding starts_with
not_at_newline [] s h = absurd (h.0 refl)
not_at_newline (y ∷ p) s h =
    let miss : (newline == y) ≡ false = ground (arith, h.1.0) in ground (arith, miss)

strip-met : (p s : Bytes) → IsMark p → strip p true s ≡ strip p false (from_newline s)
unfolding strip from_newline
strip-met p [] h = refl
strip-met p (c ∷ s) h = elim (Bool-cases (c == newline)) [
  | inl hit ↦
      let at : starts_with (c ∷ s) p ≡ false =
        ap (λ x. starts_with (x ∷ s) p) ((==_iff c newline).0 hit) ∙ not_at_newline p s h in
      rw (strip, from_newline, hit) (rw (strip, at) refl)
  | inr miss ↦ rw (strip, from_newline, miss) (strip-met p s h)
]

mark_not_newline :
    (p b : Bytes) (c : ℕ) → IsMark p → starts_with (c ∷ b) p ≡ true → (c == newline) ≡ false
mark_not_newline p b c h hit = elim (Bool-cases (c == newline)) [
  | inl q ↦
      absurd
        (cc (ap (λ x. starts_with (x ∷ b) p) ((==_iff c newline).0 q), not_at_newline p b h, hit))
  | inr q ↦ q
]

-- At a mark the rest of the line is dropped.
strip-mark :
    (p b : Bytes)
    → IsMark p
    → starts_with b p ≡ true
    → strip p false b ≡ strip p false (from_newline b)
unfolding strip from_newline
strip-mark p [] h hit = refl
strip-mark p (c ∷ b) h hit =
    rw (strip, hit, from_newline, mark_not_newline p b c h hit) (strip-met p b h)

strip-First :
    (p a b : Bytes)
    → IsMark p
    → starts_with b p ≡ true
    → Clean p a b
    → strip p false (a ++ from_newline b) ≡ strip p false (a ++ b)
unfolding strip
strip-First p [] b h hit clean = sym (strip-mark p b h hit)
strip-First p (c ∷ a) b h hit clean =
    elim (Bool-cases (starts_with (c ∷ (a ++ from_newline b)) p)) [
      | inl later ↦ absurd (cc (from_newline-starts_with (c ∷ a) b p h.1 later, clean.0))
      | inr miss ↦ rw (strip, miss, clean.0) (ap (λ x. c ∷ x) (strip-First p a b h hit clean.1))
    ]

length-from_newline : (b : Bytes) → length (from_newline b) ≤ length b
unfolding from_newline
length-from_newline [] = omega arith
length-from_newline (c ∷ b) = ground (arith, length-from_newline b)

shorter :
    (p b : Bytes) → IsMark p → starts_with b p ≡ true → suc (length (from_newline b)) ≤ length b
unfolding from_newline starts_with
shorter [] b h hit = absurd (h.0 refl)
shorter (y ∷ p) [] h hit = absurd (cc)
shorter (y ∷ p) (c ∷ b) h hit =
    rw (from_newline, mark_not_newline (y ∷ p) b c h hit) (omega (arith, length-from_newline b))

-- If the mark is not empty and has no newline, then the loop ends within as many rounds as the text
-- has bytes, and leaves what one pass over the text leaves, which drops each mark and the rest of
-- its line.
pub erase_single-strip :
    (p : Bytes) (n : ℕ) (s : Bytes)
    → p ≢ []
    → Lacks newline p
    → length s ≤ n
    → erase_single p n s ≡ some (strip p false s)
unfolding erase_single
erase_single-strip p zero s ne lacks le = elim (find_split-cases p s) [
  | inl (e, free) ↦ rw (erase_single, e) (ap some (sym (strip-Free p s free)))
  | inr (a, b, e, (q, hit, clean)) ↦
      absurd (omega (arith, le, ap length q, length-append a b, shorter p b (ne, lacks) hit))
]
erase_single-strip p (suc n) s ne lacks le = elim (find_split-cases p s) [
  | inl (e, free) ↦ rw (erase_single, e) (ap some (sym (strip-Free p s free)))
  | inr (a, b, e, (q, hit, clean)) ↦
      let mark : IsMark p = (ne, lacks) in
      let fewer : length (a ++ from_newline b) ≤ n = omega (
        arith,
        le,
        ap length q,
        length-append a b,
        length-append a (from_newline b),
        shorter p b mark hit,
      ) in
      rw (erase_single, e)
        (erase_single-strip p n (a ++ from_newline b) ne lacks fewer
          ∙ ap some (strip-First p a b mark hit clean ∙ ap (strip p false) (sym q)))
]
