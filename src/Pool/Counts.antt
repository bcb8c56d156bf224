-- ===== src/Pool/Counts.antt =====
-- How often a job stands in a list, and sums over the workers.
use cc_base.Base.{
  ℕ, zero, suc, ◌+◌, ◌≤◌, ◌<◌, some, List, [], ◌∷◌, ◌++◌, ◌≡◌, refl, arith, ◌==◌, if◌then◌else◌,
  get_elem?, set, replicate, length, ◌⊎◌, inl, inr, ◌≢◌,
}
use cc_base.Pool.{Pc, running}

unfoldable pub count : ℕ → List ℕ → ℕ
count a [] = 0
count a (x ∷ xs) = (if x == a then 1 else 0) + count a xs

pub count-append : (a : ℕ) (xs ys : List ℕ) → count a (xs ++ ys) ≡ count a xs + count a ys
unfolding count
count-append a [] ys = omega arith
count-append a (x ∷ xs) ys = omega (arith, count-append a xs ys)

unfoldable pub total : (Pc → ℕ) → List Pc → ℕ
total w [] = 0
total w (p ∷ ps) = w p + total w ps

pub total-set :
    (w : Pc → ℕ) (ps : List Pc) (i : ℕ) (p q : Pc)
    → get_elem? ps i ≡ some p
    → total w (set ps i q) + w p ≡ total w ps + w q
unfolding total
total-set w [] i p q e = absurd (cc)
total-set w (x ∷ ps) zero p q e = ground (arith, e)
total-set w (x ∷ ps) (suc i) p q e = omega (arith, total-set w ps i p q e)

pub total-replicate : (w : Pc → ℕ) (p : Pc) (n : ℕ) → w p ≡ 0 → total w (replicate n p) ≡ 0
unfolding total
total-replicate w p zero h = refl
total-replicate w p (suc n) h = omega (arith, h, total-replicate w p n h)

-- What all the workers have in common.
pub total-all :
    (w : Pc → ℕ) (p : Pc) (ps : List Pc)
    → w p ≡ 0
    → ((i : ℕ) → i < length ps → get_elem? ps i ≡ some p)
    → total w ps ≡ 0
unfolding total
total-all w p [] h all = refl
total-all w p (x ∷ ps) h all =
    ground (arith, h, all 0, total-all w p ps h (λ i lt. all (suc i) (omega arith)))

-- Whether a worker runs a job.
abbrev pub runs : ℕ → Pc → ℕ
runs a (running job) = if job == a then 1 else 0
runs a _ = 0

-- What stands in a list after a write stood there before, or is what was written.
pub get_elem?-set :
    (ps : List Pc) (i j : ℕ) (v w : Pc)
    → get_elem? (set ps i v) j ≡ some w
    → (w ≡ v) ⊎ (get_elem? ps j ≡ some w)
get_elem?-set [] i j v w e = inr e
get_elem?-set (x ∷ ps) zero zero v w e = inl (cc)
get_elem?-set (x ∷ ps) zero (suc j) v w e = inr e
get_elem?-set (x ∷ ps) (suc i) zero v w e = inr e
get_elem?-set (x ∷ ps) (suc i) (suc j) v w e = get_elem?-set ps i j v w e

pub get_elem?-set_other :
    (ps : List Pc) (i j : ℕ) (p v w : Pc)
    → get_elem? ps i ≡ some p
    → p ≢ w
    → get_elem? ps j ≡ some w
    → get_elem? (set ps i v) j ≡ some w
get_elem?-set_other [] i j p v w at n e = e
get_elem?-set_other (x ∷ ps) zero zero p v w at n e = absurd (n (cc))
get_elem?-set_other (x ∷ ps) zero (suc j) p v w at n e = e
get_elem?-set_other (x ∷ ps) (suc i) zero p v w at n e = e
get_elem?-set_other (x ∷ ps) (suc i) (suc j) p v w at n e = get_elem?-set_other ps i j p v w at n e

pub total-get_elem? :
    (f : Pc → ℕ) (ps : List Pc) (i : ℕ) (p : Pc) → get_elem? ps i ≡ some p → f p ≤ total f ps
unfolding total
total-get_elem? f [] i p e = absurd (cc)
total-get_elem? f (x ∷ ps) zero p e = ground (arith, e)
total-get_elem? f (x ∷ ps) (suc i) p e = omega (arith, total-get_elem? f ps i p e)

zero_or_more : (n : ℕ) → (n ≡ 0) ⊎ (0 < n)
zero_or_more zero = inl refl
zero_or_more (suc n) = inr (omega arith)

-- A sum that is not 0 has an item that is not 0.
pub total_found :
    (f : Pc → ℕ) (ps : List Pc)
    → 0 < total f ps
    → (i : ℕ) × (p : Pc) × (get_elem? ps i ≡ some p) × (0 < f p)
unfolding total
total_found f [] h = absurd (omega arith)
total_found f (x ∷ ps) h = elim (zero_or_more (f x)) [
  | inl e ↦ let (i, p, at, more) = total_found f ps (omega (arith, h, e)) in (suc i, p, at, more)
  | inr more ↦ (0, x, refl, more)
]
