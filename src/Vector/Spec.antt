-- ===== src/Vector/Spec.antt =====
-- What the vector operations do to the list of items, in the words of ldlogger-util.h.
use cc_base.Base.{
  ℕ, zero, suc, Bool, Option, none, some, List, [], ◌∷◌, ◌++◌, if◌then◌else◌, length, leb, take,
  drop,
}

module _ {ℓ} {A : Type ℓ} where
  -- `eq x y` is `cmp_ (x, y) == 0`.
  module _ (eq : A → A → Bool) where
    -- The index that `loggerVectorFind` returns; `none` is SIZE_MAX.
    unfoldable pub index_of : List A → A → Option ℕ
    index_of [] x = none
    index_of (y ∷ xs) x =
        let rest = index_of xs x in
        if eq x y then some 0 else (elim rest [ none ↦ none | some i ↦ some (suc i) ])

    -- `loggerVectorAddUnique`
    unfoldable pub append_unique : List A → A → List A
    unfolding index_of
    append_unique xs x = elim (index_of xs x) [ some i ↦ xs | none ↦ xs ++ x ∷ [] ]

  -- `loggerVectorErase`
  unfoldable pub remove_at : List A → ℕ → List A
  remove_at [] i = []
  remove_at (x ∷ xs) zero = xs
  remove_at (x ∷ xs) (suc i) = x ∷ remove_at xs i

  -- `loggerVectorAddFrom` at a position: the assertion fails past the end of the vector.
  unfoldable pub insert_at : List A → List A → ℕ → Option (List A)
  insert_at xs new pos =
      if leb pos (length xs) then some (take pos xs ++ (new ++ drop pos xs)) else none
