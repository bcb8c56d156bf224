-- ===== src/Vector/Items.antt =====
-- Laws of the list operations of `Vector.Spec` on strings compared by `strcmp`.
use cc_base.Base.{
  false, none, some, List, [], ◌∷◌, ◌++◌, ◌≡◌, ◌≢◌, refl, sym, ap, arith, All, All-append,
  if◌then◌else◌, Bool-cases, Option-cases, inl, inr,
}
use cc_base.Cstring.{Bytes, streq}
use cc_base.Cstring.Laws.{streq_refl, streq→eq}
use cc_base.Vector.Spec.{index_of, append_unique, remove_at}

-- No string stands twice in the list.
abbrev pub Distinct : List Bytes → Type 0
Distinct [] = Unit
Distinct (x ∷ xs) = All (λ y. y ≢ x) xs × Distinct xs

-- The list without the strings that are equal to `x`.
pub without : Bytes → List Bytes → List Bytes
without x [] = []
without x (y ∷ ys) = let rest = without x ys in if streq x y then rest else y ∷ rest

streq-eq_false : (x y : Bytes) → x ≢ y → streq x y ≡ false
streq-eq_false x y h = elim (Bool-cases (streq x y)) [
  | inl e ↦ absurd (h (streq→eq x y e))
  | inr e ↦ e
]

index_of-none : (x : Bytes) (xs : List Bytes) → index_of streq xs x ≡ none → All (λ y. y ≢ x) xs
unfolding index_of
index_of-none x [] h = tt
index_of-none x (y ∷ ys) h = elim (Bool-cases (streq x y)) [
  | inl e ↦ absurd (ground (arith, e))
  | inr e ↦ (λ p. absurd (cc (e, streq_refl x, p)), index_of-none x ys (ground (arith, e)))
]

Distinct-snoc :
    (xs : List Bytes) (x : Bytes) → Distinct xs → All (λ y. y ≢ x) xs → Distinct (xs ++ x ∷ [])
Distinct-snoc [] x d h = (tt, tt)
Distinct-snoc (y ∷ ys) x d h =
    (All-append (λ z. z ≢ y) ys (x ∷ []) d.0 (λ p. h.0 (sym p), tt), Distinct-snoc ys x d.1 h.1)

pub append_unique-Distinct :
    (xs : List Bytes) (x : Bytes) → Distinct xs → Distinct (append_unique streq xs x)
unfolding append_unique
append_unique-Distinct xs x d = elim (Option-cases (index_of streq xs x)) [
  | inl e ↦ rw (append_unique, e) (Distinct-snoc xs x d (index_of-none x xs e))
  | inr (i, e) ↦ rw (append_unique, e) d
]

pub append_unique-All :
    (P : Bytes → Type 0) (xs : List Bytes) (x : Bytes)
    → All P xs
    → P x
    → All P (append_unique streq xs x)
unfolding append_unique
append_unique-All P xs x h p = elim (Option-cases (index_of streq xs x)) [
  | inl e ↦ rw (append_unique, e) (All-append P xs (x ∷ []) h (p, tt))
  | inr (i, e) ↦ rw (append_unique, e) h
]

without_absent : (x : Bytes) (xs : List Bytes) → All (λ y. y ≢ x) xs → without x xs ≡ xs
unfolding without
without_absent x [] h = refl
without_absent x (y ∷ ys) h =
    rw (streq-eq_false x y (λ p. h.0 (sym p))) (ap (λ l. y ∷ l) (without_absent x ys h.1))

-- What the search and the removal make of a list together.
abbrev pub removed : Bytes → List Bytes → List Bytes
removed x xs = elim (index_of streq xs x) [ none ↦ xs | some i ↦ remove_at xs i ]

-- In a list without repetitions, removing the item that is found removes every equal one.
pub removed-without : (x : Bytes) (xs : List Bytes) → Distinct xs → removed x xs ≡ without x xs
unfolding index_of remove_at without
removed-without x [] d = refl
removed-without x (y ∷ ys) d = elim (Bool-cases (streq x y)) [
  | inl e ↦ ground (arith, e, without_absent x ys (rw (streq→eq x y e) d.0))
  | inr e ↦ ground (arith, e, removed-without x ys d.1)
]

pub All-without :
    (P : Bytes → Type 0) (x : Bytes) (xs : List Bytes) → All P xs → All P (without x xs)
unfolding without
All-without P x [] h = tt
All-without P x (y ∷ ys) h = elim (Bool-cases (streq x y)) [
  | inl e ↦ rw e (All-without P x ys h.1)
  | inr e ↦ rw e (h.0, All-without P x ys h.1)
]

pub without-Distinct : (x : Bytes) (xs : List Bytes) → Distinct xs → Distinct (without x xs)
unfolding without
without-Distinct x [] d = tt
without-Distinct x (y ∷ ys) d = elim (Bool-cases (streq x y)) [
  | inl e ↦ rw e (without-Distinct x ys d.1)
  | inr e ↦ rw e (All-without (λ z. z ≢ y) x ys d.0, without-Distinct x ys d.1)
]

pub without-ne : (x : Bytes) (xs : List Bytes) → All (λ y. y ≢ x) (without x xs)
unfolding without
without-ne x [] = tt
without-ne x (y ∷ ys) = elim (Bool-cases (streq x y)) [
  | inl e ↦ rw e (without-ne x ys)
  | inr e ↦ rw e (λ p. absurd (cc (e, streq_refl x, p)), without-ne x ys)
]

-- The sources with more of them behind, each unless it is there.
unfoldable pub add_all : List Bytes → List Bytes → List Bytes
add_all sources [] = sources
add_all sources (src ∷ srcs) = add_all (append_unique streq sources src) srcs

pub add_all-append :
    (sources xs ys : List Bytes) → add_all sources (xs ++ ys) ≡ add_all (add_all sources xs) ys
unfolding add_all
add_all-append sources [] ys = refl
add_all-append sources (x ∷ xs) ys = add_all-append (append_unique streq sources x) xs ys
