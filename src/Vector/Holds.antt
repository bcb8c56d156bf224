-- ===== src/Vector/Holds.antt =====
-- When a `LoggerVector` holds a list, and `vector_add` on such a vector.
use cc_base.Base.{
  ℕ, zero, suc, ◌+◌, ◌*◌, ◌-◌, ◌≤◌, ◌<◌, Bool, true, Option, none, some, List, [], ◌∷◌, ◌++◌,
  if◌then◌else◌, length, ◌==◌, take, replicate, map, ◌≡◌, refl, sym, ap, ◌∙◌, inl, inr, arith,
  append_assoc, length-append, length-replicate, map-append, Bool-cases,
}
use cc_base.Vector.Memory.{
  LoggerVector, block_bytes, write, resized, vector_reserve, vector_grow, vector_add,
}

module _ {ℓ} {A : Type ℓ} where
  -- The block begins with the items, and ends with the room that is left.
  pub record Holds (vec : LoggerVector A) (xs : List A) : Type ℓ where
    pub room : List (Option A)
    pub filled : vec.items ≡ map some xs ++ room
    pub sized : vec.size ≡ length xs
    pub capable : vec.capacity ≡ length xs + length room

  pub length-map-some : (xs : List A) → length (map {B = Option A} some xs) ≡ length xs
  length-map-some [] = refl
  length-map-some (x ∷ xs) = ap suc (length-map-some xs)

  write_behind :
      (xs : List A) (r v : Option A) (room : List (Option A))
      → write (map some xs ++ r ∷ room) (length xs) v ≡ some (map some xs ++ v ∷ room)
  unfolding write
  write_behind [] r v room = ground arith
  write_behind (x ∷ xs) r v room = ground (arith, write_behind xs r v room)

  take_more : (n : ℕ) (slots : List (Option A)) → length slots ≤ n → take n slots ≡ slots
  take_more zero [] h = refl
  take_more zero (s ∷ slots) h = absurd (omega arith)
  take_more (suc n) [] h = refl
  take_more (suc n) (s ∷ slots) h = ap (λ l. s ∷ l) (take_more n slots (omega arith))

  resized_lem :
      (n : ℕ) (slots : List (Option A))
      → length slots ≤ n
      → resized n slots ≡ slots ++ replicate (n - length slots) none
  unfolding resized
  resized_lem n slots h = rw (take_more n slots h)

  length-block :
      (vec : LoggerVector A) (xs : List A) (h : Holds vec xs) → length vec.items ≡ vec.capacity
  length-block vec xs h =
      ap length h.filled
      ∙ omega (arith, length-append (map some xs) h.room, length-map-some xs, h.capable)

  -- More room, when memory is granted.
  pub vector_reserve-Holds :
      (grants : ℕ → Bool) (n : ℕ) (vec : LoggerVector A) (xs : List A)
      → Holds vec xs
      → vec.capacity ≤ n
      → grants (block_bytes n) ≡ true
      → (w : LoggerVector A) × (vector_reserve grants n vec ≡ some w)
        × Holds w xs
        × (w.capacity ≡ n)
        × (w.size ≡ vec.size)
  unfolding vector_reserve
  vector_reserve-Holds grants n vec xs h more g = (
    record vec { capacity = n; items = resized n vec.items },
    rw g,
    record {
      room = h.room ++ replicate (n - length vec.items) none;
      filled =
          resized_lem n vec.items (omega (arith, length-block vec xs h))
          ∙ rw h.filled (append_assoc (map some xs) h.room _);
      sized = h.sized;
      capable = omega (
        arith,
        length-append h.room (replicate (n - length vec.items) none),
        length-replicate {A = Option A} (n - length vec.items) none,
        length-block vec xs h,
        h.capable,
      );
    },
    refl,
    refl,
  )

  write_room :
      (vec : LoggerVector A) (xs : List A) (x : A) (room : List (Option A))
      → vec.items ≡ map some xs ++ room
      → vec.size ≡ length xs
      → vec.capacity ≡ length xs + length room
      → vec.size < vec.capacity
      → (slots : List (Option A)) × (write vec.items vec.size (some x) ≡ some slots)
        × Holds (record vec { size = vec.size + 1; items = slots }) (xs ++ x ∷ [])
  write_room vec xs x [] filled sized capable less = absurd (omega arith)
  write_room vec xs x (r ∷ room) filled sized capable less = (
    map some xs ++ some x ∷ room,
    rw (filled, sized) (write_behind xs r (some x) room),
    record {
      room = room;
      filled =
          rw (map-append some xs (x ∷ [])) (sym (append_assoc (map some xs) (some x ∷ []) room));
      sized = omega (arith, length-append xs (x ∷ []));
      capable = omega (arith, length-append xs (x ∷ []));
    },
  )

  -- The vector after the room is made.
  vector_grow-Holds :
      (grants : ℕ → Bool) (vec : LoggerVector A) (xs : List A)
      → Holds vec xs
      → ((n : ℕ) → grants n ≡ true)
      → (w : LoggerVector A) × (vector_grow grants vec ≡ some w)
        × Holds w xs
        × (w.size < w.capacity)
  unfolding vector_grow
  vector_grow-Holds grants vec xs h g = elim (Bool-cases (vec.size == vec.capacity)) [
    | inl full ↦
        let n = if vec.capacity == 0 then 10 else vec.capacity * 2 in
        let more : vec.capacity < n = ground arith in
        let (w, e, held, cap, same) =
          vector_reserve-Holds grants n vec xs h (omega (arith, more)) (g (block_bytes n)) in
        (w, rw (vector_grow, full) e, held, ground (arith, more, cap, same, full))
    | inr space ↦ (vec, rw (vector_grow, space), h, ground (arith, space, h.sized, h.capable))
  ]

  -- When memory is granted, an item that is not NULL is put behind the others.
  pub vector_add-Holds :
      (grants : ℕ → Bool) (vec : LoggerVector A) (xs : List A) (x : A)
      → Holds vec xs
      → ((n : ℕ) → grants n ≡ true)
      → (w : LoggerVector A) × (vector_add grants vec (some x) ≡ some (true, w))
        × Holds w (xs ++ x ∷ [])
  unfolding vector_add
  vector_add-Holds grants vec xs x h g =
      let (w, e, held, less) = vector_grow-Holds grants vec xs h g in
      let (slots, f, after) =
        write_room w xs x held.room held.filled held.sized held.capable less in
      (record w { size = w.size + 1; items = slots }, rw (vector_add, e, f), after)
