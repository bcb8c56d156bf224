-- ===== src/Metrics/Find.antt =====
-- What `find` gives.
use cc_base.Base.{
  true, false, none, some, [], ◌∷◌, ◌++◌, ◌≡◌, refl, ap, inl, inr, ◌⊎◌, arith, ◌==◌, Bool-cases,
  subst, if◌then◌else◌, ==_iff,
}
use cc_base.Cstring.{Bytes, starts_with}
use cc_base.Cstring.Laws.{Lacks, starts_with-append}
use cc_base.Util.Text.{newline}
use cc_base.Metrics.{find_split, from_newline}

-- `p` stands nowhere in `s`, and nowhere before `b` in `a ++ b`.
abbrev pub Free : Bytes → Bytes → Type 0
Free p [] = starts_with [] p ≡ false
Free p (c ∷ s) = (starts_with (c ∷ s) p ≡ false) × Free p s

abbrev pub Clean : Bytes → Bytes → Bytes → Type 0
Clean p [] b = Unit
Clean p (c ∷ a) b = (starts_with (c ∷ (a ++ b)) p ≡ false) × Clean p a b

abbrev pub First : Bytes → Bytes → Bytes → Bytes → Type 0
First p s a b = (s ≡ a ++ b) × (starts_with b p ≡ true) × Clean p a b

-- The two outcomes of `find`: no place, or a split at the first place where `p` stands.
pub find_split-cases :
    (p s : Bytes)
    → ((find_split p s ≡ none) × Free p s)
      ⊎ ((a : Bytes) × (b : Bytes) × (find_split p s ≡ some (a, b)) × First p s a b)
unfolding find_split
find_split-cases p [] = elim (Bool-cases (starts_with [] p)) [
  | inl hit ↦ inr ([], [], ap (λ t. if t then some ([], []) else none) hit, (refl, hit, tt))
  | inr miss ↦ inl (ap (λ t. if t then some ([], []) else none) miss, miss)
]
find_split-cases p (c ∷ s) = elim (Bool-cases (starts_with (c ∷ s) p)) [
  | inl hit ↦ inr ([], c ∷ s, rw (find_split, hit) refl, (refl, hit, tt))
  | inr miss ↦ elim (find_split-cases p s) [
    | inl (e, free) ↦ inl (rw (find_split, miss, e) refl, (miss, free))
    | inr (a, b, e, (q, hit, clean)) ↦ inr (
      c ∷ a,
      b,
      rw (find_split, miss, e) refl,
      (ap (λ l. c ∷ l) q, hit, (subst (λ x. starts_with (c ∷ x) p ≡ false) q miss, clean)),
    )
  ]
]

pub find_split-First :
    (p a b : Bytes) → starts_with b p ≡ true → Clean p a b → find_split p (a ++ b) ≡ some (a, b)
unfolding find_split
find_split-First p [] [] hit clean = rw (find_split, hit) refl
find_split-First p [] (c ∷ b) hit clean = rw (find_split, hit) refl
find_split-First p (c ∷ a) b hit clean =
    rw (find_split, clean.0, find_split-First p a b hit clean.1) refl

pub find_split-Free : (p s : Bytes) → Free p s → find_split p s ≡ none
unfolding find_split
find_split-Free p [] free = rw (find_split, free) refl
find_split-Free p (c ∷ s) free = rw (find_split, free.0, find_split-Free p s free.1) refl

-- The text from the first newline on is empty or begins with a newline.
pub from_newline-cases :
    (b : Bytes) → (from_newline b ≡ []) ⊎ ((s : Bytes) × (from_newline b ≡ newline ∷ s))
unfolding from_newline
from_newline-cases [] = inl refl
from_newline-cases (c ∷ b) = elim (Bool-cases (c == newline)) [
  | inl hit ↦ inr (b, rw hit (ap (λ x. x ∷ b) ((==_iff c newline).0 hit)))
  | inr miss ↦ rw miss (from_newline-cases b)
]

-- No text without a newline begins there.
pub from_newline-starts_with :
    (a b p : Bytes)
    → Lacks newline p
    → starts_with (a ++ from_newline b) p ≡ true
    → starts_with (a ++ b) p ≡ true
unfolding starts_with
from_newline-starts_with a b [] h e = starts_with-append [] (a ++ b)
from_newline-starts_with [] b (y ∷ p) h e = elim (from_newline-cases b) [
  | inl empty ↦ absurd (ground (arith, e, ap (λ s. starts_with s (y ∷ p)) empty))
  | inr (s, q) ↦ absurd (h.0 (ground (arith, e, ap (λ s. starts_with s (y ∷ p)) q)))
]
from_newline-starts_with (c ∷ a) b (y ∷ p) h e =
    ground (arith, e, from_newline-starts_with a b p h.1)
