-- ===== src/Vector/Found.antt =====
-- `vector_find` against the search in the list.
use cc_base.Base.{
  ℕ, suc, ◌+◌, Bool, Option, none, some, List, [], ◌∷◌, ◌++◌, if◌then◌else◌, length, map, ◌≡◌, refl,
  sym, ap, ◌∙◌, inl, inr, arith, append_assoc, length-append, map-append, Bool-cases, Option-cases,
}
use cc_base.Vector.Memory.{LoggerVector, item, vector_find, find_from}
use cc_base.Vector.Spec.{index_of}
use cc_base.Vector.Holds.{Holds}

-- The index from `i` on.
abbrev shifted : ℕ → Option ℕ → Option ℕ
shifted i none = none
shifted i (some j) = some (i + j)

next : Option ℕ → Option ℕ
next none = none
next (some j) = some (suc j)

shifted_suc : (i k : ℕ) (o : Option ℕ) → k ≡ i + 1 → shifted k o ≡ shifted i (next o)
unfolding next
shifted_suc i k none h = refl
shifted_suc i k (some j) h = ap some (omega arith)

shifted_zero : (o : Option ℕ) → shifted 0 o ≡ o
shifted_zero none = refl
shifted_zero (some j) = ap some (omega arith)

module _ {ℓ} {A : Type ℓ} where
  pub get_behind :
      (xs : List A) (y : A) (room : List (Option A))
      → item (map some xs ++ some y ∷ room) (length xs) ≡ some y
  unfolding item
  get_behind [] y room = refl
  get_behind (x ∷ xs) y room = get_behind xs y room

  index_of-cons :
      (eq : A → A → Bool) (y x : A) (xs : List A)
      → index_of eq (y ∷ xs) x ≡ (if eq x y then some 0 else next (index_of eq xs x))
  unfolding index_of next
  index_of-cons eq y x xs = elim (Option-cases (index_of eq xs x)) [
    | inl e ↦ rw e
    | inr (j, e) ↦ rw e
  ]

  -- The loop at the index `i`, behind the items `before`.
  find_from_lem :
      (eq : A → A → Bool) (before xs : List A) (slots room : List (Option A)) (x : A) (i : ℕ)
      → slots ≡ map some before ++ (map some xs ++ room)
      → i ≡ length before
      → find_from eq (length xs) i slots x ≡ some (shifted i (index_of eq xs x))
  unfolding find_from
  find_from_lem eq before [] slots room x i s h = unfold index_of in refl
  find_from_lem eq before (y ∷ xs) slots room x i s h =
      let here : item slots i ≡ some y = rw (s, h) (get_behind before y (map some xs ++ room)) in
      let later : find_from eq (length xs) (i + 1) slots x
          ≡ some (shifted (i + 1) (index_of eq xs x)) =
        find_from_lem eq (before ++ y ∷ []) xs slots room x (i + 1)
          (s
            ∙ rw (map-append some before (y ∷ []))
                (sym (append_assoc (map some before) (some y ∷ []) _)))
          (omega (arith, length-append before (y ∷ []))) in
      rw (find_from, here, index_of-cons eq y x xs, later)
        (elim (Bool-cases (eq x y)) [
          | inl e ↦ rw e (ap (λ k. some (some k)) (omega arith))
          | inr e ↦ rw e (ap some (shifted_suc i (i + 1) (index_of eq xs x) refl))
        ])

  -- The search gives the index of the first match in the list, reads no slot behind the items, and
  -- never fails.
  pub vector_find-Holds :
      (eq : A → A → Bool) (vec : LoggerVector A) (xs : List A) (x : A)
      → Holds vec xs
      → vector_find eq vec x ≡ some (index_of eq xs x)
  unfolding vector_find
  vector_find-Holds eq vec xs x h =
      rw (vector_find, h.sized)
        (find_from_lem eq [] xs vec.items h.room x 0 h.filled refl
          ∙ ap some (shifted_zero (index_of eq xs x)))
