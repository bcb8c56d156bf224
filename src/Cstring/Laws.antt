-- ===== src/Cstring/Laws.antt =====
-- What the string functions compute, stated without their loops.
use native.Mathlib.Nat.{le_refl}
use cc_base.Base.{
  sym, ◌∙◌, ◌≤◌, length, length-append, ℕ, true, false, Option, none, some, [], ◌∷◌, ◌++◌, ◌≡◌,
  refl, ap, ap₂, ◌≢◌, ◌↔◌, inl, inr, arith, ◌==◌, ==_iff, All, Bool-cases,
}
use cc_base.Cstring.{Bytes, streq, strchr, starts_with, strstr, contains, strrchr}

-- `c` does not occur.
abbrev pub Lacks : ℕ → Bytes → Type 0
Lacks c = All (λ x. x ≢ c)

pub streq_refl : (a : Bytes) → streq a a ≡ true
unfolding streq
streq_refl [] = refl
streq_refl (x ∷ a) = ground (arith, streq_refl a)

pub streq→eq : (a b : Bytes) → streq a b ≡ true → a ≡ b
unfolding streq
streq→eq [] [] h = refl
streq→eq [] (y ∷ b) h = cc
streq→eq (x ∷ a) [] h = cc
streq→eq (x ∷ a) (y ∷ b) h = ground (arith, streq→eq a b)

-- Every byte satisfies `Lacks`, or `strchr` finds the byte.
pub strchr-Lacks : (s : Bytes) (c : ℕ) → strchr s c ≡ false → Lacks c s
unfolding strchr
strchr-Lacks [] c h = tt
strchr-Lacks (x ∷ s) c h = (λ e. ground arith, strchr-Lacks s c (ground arith))

-- The two outcomes of `strrchr`: no `c`, or a split at the last one.
abbrev pub LastSplit : Bytes → ℕ → Option (Bytes × Bytes) → Type 0
LastSplit s c none = Lacks c s
LastSplit s c (some (a, b)) = (s ≡ a ++ c ∷ b) × Lacks c b

strrchr-cons :
    (x : ℕ) (s : Bytes) (c : ℕ) (r : Option (Bytes × Bytes))
    → strrchr s c ≡ r
    → LastSplit s c r
    → LastSplit (x ∷ s) c (strrchr (x ∷ s) c)
unfolding strrchr
strrchr-cons x s c none e h = elim (Bool-cases (x == c)) [
  | inl hit ↦ rw (e, hit) (ap (λ k. k ∷ s) ((==_iff x c).0 hit), h)
  | inr miss ↦ rw (e, miss) (λ q. ground arith, h)
]
strrchr-cons x s c (some (a, b)) e h = rw e (ap (λ l. x ∷ l) h.0, h.1)

pub strrchr-LastSplit : (s : Bytes) (c : ℕ) → LastSplit s c (strrchr s c)
unfolding strrchr
strrchr-LastSplit [] c = tt
strrchr-LastSplit (x ∷ s) c = strrchr-cons x s c (strrchr s c) refl (strrchr-LastSplit s c)

-- The last `c` splits the string, and no `c` follows.
pub strrchr-some :
    (s : Bytes) (c : ℕ) (a b : Bytes) → strrchr s c ≡ some (a, b) → (s ≡ a ++ c ∷ b) × Lacks c b
strrchr-some s c a b h = rw h at (strrchr-LastSplit s c)

pub strrchr-none : (s : Bytes) (c : ℕ) → strrchr s c ≡ none → Lacks c s
strrchr-none s c h = rw h at (strrchr-LastSplit s c)

pub strrchr-Lacks : (s : Bytes) (c : ℕ) → Lacks c s → strrchr s c ≡ none
unfolding strrchr
strrchr-Lacks [] c h = refl
strrchr-Lacks (x ∷ s) c h = ground (arith, strrchr-Lacks s c h.1)

pub strrchr-append : (a b : Bytes) (c : ℕ) → Lacks c b → strrchr (a ++ c ∷ b) c ≡ some (a, b)
unfolding strrchr
strrchr-append [] b c h = ground (arith, strrchr-Lacks b c h)
strrchr-append (x ∷ a) b c h = rw (strrchr-append a b c h)

-- `p` stands somewhere in `s`.
abbrev pub Within : Bytes → Bytes → Type 0
Within p s = (a b : Bytes) × (s ≡ a ++ (p ++ b))

pub starts_with_sound : (s p : Bytes) → starts_with s p ≡ true → (b : Bytes) × (s ≡ p ++ b)
unfolding starts_with
starts_with_sound s [] h = (s, refl)
starts_with_sound [] (y ∷ p) h = absurd (cc)
starts_with_sound (x ∷ s) (y ∷ p) h =
    let (b, e) = starts_with_sound s p (ground arith) in (b, ap₂ ◌∷◌ (ground arith) e)

pub starts_with-append : (p b : Bytes) → starts_with (p ++ b) p ≡ true
unfolding starts_with
starts_with-append [] [] = refl
starts_with-append [] (x ∷ b) = refl
starts_with-append (y ∷ p) b = ground (arith, starts_with-append p b)

pub contains_sound : (s p : Bytes) → contains s p ≡ true → Within p s
unfolding contains
contains_sound [] p h = let (b, e) = starts_with_sound [] p h in ([], b, e)
contains_sound (x ∷ s) p h = elim (Bool-cases (starts_with (x ∷ s) p)) [
  | inl first ↦ let (b, e) = starts_with_sound (x ∷ s) p first in ([], b, e)
  | inr other ↦ let (a, b, e) = contains_sound s p (ground arith) in (x ∷ a, b, ap (λ l. x ∷ l) e)
]

contains_first : (s p : Bytes) → starts_with s p ≡ true → contains s p ≡ true
unfolding contains
contains_first [] p h = h
contains_first (x ∷ s) p h = rw h

pub contains-append : (a p b : Bytes) → contains (a ++ (p ++ b)) p ≡ true
unfolding contains
contains-append [] p b = contains_first (p ++ b) p (starts_with-append p b)
contains-append (x ∷ a) p b = ground (arith, contains-append a p b)

-- `strstr` finds a place exactly when `p` stands somewhere.
pub contains_iff : (s p : Bytes) → (contains s p ≡ true) ↔ Within p s
contains_iff s p = (contains_sound s p, λ w. rw w.2 (contains-append w.0 p w.1))

-- What `strstr` returns: the string from a place where `p` stands.
pub strstr-some :
    (s p r : Bytes) → strstr s p ≡ some r → (a b : Bytes) × (s ≡ a ++ r) × (r ≡ p ++ b)
unfolding strstr
strstr-some [] p r h = elim (Bool-cases (starts_with [] p)) [
  | inl e ↦
      let (b, q) = starts_with_sound [] p e in
      let z : [] ≡ r = ground (arith, h, e) in ([], b, z, sym z ∙ q)
  | inr e ↦ absurd (ground (arith, h, e))
]
strstr-some (x ∷ s) p r h = elim (Bool-cases (starts_with (x ∷ s) p)) [
  | inl e ↦
      let (b, q) = starts_with_sound (x ∷ s) p e in
      let z : x ∷ s ≡ r = ground (arith, h, e) in ([], b, z, sym z ∙ q)
  | inr e ↦
      let (a, b, q, t) = strstr-some s p r (ground (arith, h, e)) in
      (x ∷ a, b, ap (λ l. x ∷ l) q, t)
]

strstr_first : (s p : Bytes) → starts_with s p ≡ true → strstr s p ≡ some s
unfolding strstr
strstr_first [] p h = rw h
strstr_first (x ∷ s) p h = rw h

-- The first place is no later than any other.
pub strstr-append :
    (a p c : Bytes)
    → (r : Bytes) × (strstr (a ++ (p ++ c)) p ≡ some r) × (length (p ++ c) ≤ length r)
unfolding strstr
strstr-append [] p c = (p ++ c, strstr_first (p ++ c) p (starts_with-append p c), le_refl _)
strstr-append (x ∷ a) p c = elim (Bool-cases (starts_with (x ∷ (a ++ (p ++ c))) p)) [
  | inl e ↦ (x ∷ (a ++ (p ++ c)), ground (arith, e), omega (arith, length-append a (p ++ c)))
  | inr e ↦ let (r, q, le) = strstr-append a p c in (r, ground (arith, e, q), le)
]
