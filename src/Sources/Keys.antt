-- ===== src/Sources/Keys.antt =====
-- A `std::map` from texts, as the list of its pairs in the order of the keys, and sets.
use cc_base.Base.{
  ℕ, Bool, true, false, ◌||◌, Option, none, some, List, [], ◌∷◌, ◌≡◌, refl, sym, ap, ◌∙◌, inl, inr,
  subst, ◌⊎◌, if◌then◌else◌, ◌==◌, ltb, Bool-cases,
}
use cc_base.Cstring.{Bytes, streq}
use cc_base.Cstring.Laws.{streq_refl, streq→eq}

-- The order of `std::string`
unfoldable pub bytes_lt : Bytes → Bytes → Bool
bytes_lt a [] = false
bytes_lt [] (y ∷ b) = true
bytes_lt (x ∷ a) (y ∷ b) =
    let rest = bytes_lt a b in if ltb x y then true else if x == y then rest else false

module _ {V : Type 0} where
  unfoldable pub find_key : List (Bytes × V) → Bytes → Option V
  find_key [] key = none
  find_key ((k, v) ∷ m) key = let rest = find_key m key in if streq k key then some v else rest

  -- `operator[]`, assigned
  unfoldable pub assign_key : Bytes → V → List (Bytes × V) → List (Bytes × V)
  assign_key key v [] = (key, v) ∷ []
  assign_key key v ((k, w) ∷ m) =
      let rest = assign_key key v m in
      if streq k key
      then (k, v) ∷ m
      else if bytes_lt key k
      then (key, v) ∷ ((k, w) ∷ m)
      else (k, w) ∷ rest

  -- `erase`
  unfoldable pub erase_key : Bytes → List (Bytes × V) → List (Bytes × V)
  erase_key key [] = []
  erase_key key ((k, w) ∷ m) =
      let rest = erase_key key m in if streq k key then rest else (k, w) ∷ rest

  pub find_key-assign_key :
      (m : List (Bytes × V)) (key : Bytes) (v : V) → find_key (assign_key key v m) key ≡ some v
  unfolding find_key assign_key
  find_key-assign_key [] key v = rw (streq_refl key) refl
  find_key-assign_key ((k, w) ∷ m) key v = elim (Bool-cases (streq k key)) [
    | inl hit ↦ rw hit (rw hit refl)
    | inr miss ↦ elim (Bool-cases (bytes_lt key k)) [
      | inl first ↦ rw (miss, first) (rw (streq_refl key) refl)
      | inr later ↦ rw (miss, later) (rw miss (find_key-assign_key m key v))
    ]
  ]

  pub find_key-assign_key_other :
      (m : List (Bytes × V)) (key other : Bytes) (v : V)
      → streq key other ≡ false
      → find_key (assign_key key v m) other ≡ find_key m other
  unfolding find_key assign_key
  find_key-assign_key_other [] key other v ne = rw ne refl
  find_key-assign_key_other ((k, w) ∷ m) key other v ne = elim (Bool-cases (streq k key)) [
    | inl hit ↦
        let k_ne : streq k other ≡ false = ap (λ x. streq x other) (streq→eq k key hit) ∙ ne in
        rw hit (rw k_ne refl)
    | inr miss ↦ elim (Bool-cases (bytes_lt key k)) [
      | inl first ↦ rw (miss, first) (rw ne refl)
      | inr later ↦
          rw (miss, later)
            (ap (λ r. if streq k other then some w else r)
              (find_key-assign_key_other m key other v ne))
    ]
  ]

-- Sets of numbers and of texts.
unfoldable pub mem_id : ℕ → List ℕ → Bool
mem_id x [] = false
mem_id x (y ∷ ys) = x == y || mem_id x ys

unfoldable pub mem_text : Bytes → List Bytes → Bool
mem_text x [] = false
mem_text x (y ∷ ys) = streq x y || mem_text x ys

unfoldable pub erase_id : ℕ → List ℕ → List ℕ
erase_id x [] = []
erase_id x (y ∷ ys) = let rest = erase_id x ys in if x == y then rest else y ∷ rest

unfoldable pub erase_text : Bytes → List Bytes → List Bytes
erase_text x [] = []
erase_text x (y ∷ ys) = let rest = erase_text x ys in if streq x y then rest else y ∷ rest

module _ {V : Type 0} where
  -- What is found after an assignment was assigned, or was there.
  pub assign_key-found :
      (m : List (Bytes × V)) (key other : Bytes) (v w : V)
      → find_key (assign_key key v m) other ≡ some w
      → ((key ≡ other) × (v ≡ w)) ⊎ (find_key m other ≡ some w)
  assign_key-found m key other v w e = elim (Bool-cases (streq key other)) [
    | inl hit ↦
        let same = streq→eq key other hit in
        let q : some v ≡ some w =
          sym (find_key-assign_key m key v) ∙ (ap (find_key (assign_key key v m)) same ∙ e) in
        inl (same, cc)
    | inr miss ↦ inr (sym (find_key-assign_key_other m key other v miss) ∙ e)
  ]

  -- What was there stays, if no other value is assigned to its key.
  pub assign_key-stays :
      (m : List (Bytes × V)) (key other : Bytes) (v w : V)
      → find_key m other ≡ some w
      → (key ≡ other → v ≡ w)
      → find_key (assign_key key v m) other ≡ some w
  assign_key-stays m key other v w e same = elim (Bool-cases (streq key other)) [
    | inl hit ↦
        let q = streq→eq key other hit in
        subst (λ x. find_key (assign_key key v m) x ≡ some w) q
          (find_key-assign_key m key v ∙ ap some (same q))
    | inr miss ↦ find_key-assign_key_other m key other v miss ∙ e
  ]
