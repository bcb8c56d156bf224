-- ===== src/Vector/Front.antt =====
-- `vector_add_from` at the position 0.
use cc_base.Base.{
  ℕ, zero, suc, ◌+◌, ◌-◌, ◌<◌, Bool, true, Option, none, some, List, ◌≡◌, refl, arith, leb,
  get_elem?, if◌then◌else◌, ◌>>=◌,
}
use cc_base.Vector.Memory.{
  LoggerVector, resized, write, block_bytes, move_back, open_gap, put_from, vector_reserve,
  vector_add_from,
}

module _ {ℓ} {A : Type ℓ} where
  bind_none :
      (o : Option (Option A)) (f : Option A → Option (List (Option A)))
      → ((x : Option A) → f x ≡ none)
      → (o >>= f) ≡ none
  bind_none none f h = refl
  bind_none (some x) f h = h x

  bind_slots :
      (o : Option (List (Option A))) (f : List (Option A) → Option (List (Option A)))
      → ((x : List (Option A)) → f x ≡ none)
      → (o >>= f) ≡ none
  bind_slots none f h = refl
  bind_slots (some x) f h = h x

  after_move :
      (i n : ℕ) (slots : List (Option A))
      → move_back i 0 n slots ≡ none
      → (if leb 0 i then move_back i 0 n slots else some slots) ≡ none
  after_move i n slots h = ground (arith, h)

  -- The loop never ends well: the counter passes 0.
  move_back_front : (i n : ℕ) (slots : List (Option A)) → move_back i 0 n slots ≡ none
  unfolding move_back
  move_back_front zero n slots = bind_none (get_elem? slots 0) _ (λ x.
      bind_slots (write slots n x) _ (λ moved. bind_slots (write moved 0 none) _ (λ cleared. refl)))
  move_back_front (suc i) n slots = bind_none (get_elem? slots (suc i)) _ (λ x.
      bind_slots (write slots (suc i + n) x) _ (λ moved.
        bind_slots (write moved (suc i) none) _
          (λ cleared. after_move i n cleared (move_back_front i n cleared))))

  put_from_front :
      (dup : A → Option A) (vec source : LoggerVector A)
      → 0 < vec.size
      → put_from dup vec source 0 ≡ none
  unfolding put_from open_gap
  put_from_front dup vec source h =
      ground (arith, h, move_back_front (vec.size - 1) source.size vec.items)

  -- Whatever is put in front of the items of a vector that is not empty, an access is out of bounds
  -- when memory is granted: the counter of the loop that moves the items wraps below 0.
  pub vector_add_from_front :
      (grants : ℕ → Bool) (dup : A → Option A) (vec source : LoggerVector A)
      → 0 < vec.size
      → ((n : ℕ) → grants n ≡ true)
      → vector_add_from grants dup vec source (some 0) ≡ none
  unfolding vector_add_from vector_reserve
  vector_add_from_front grants dup vec source h g =
      let cap = vec.size + source.size in
      let grown = record vec { capacity = cap; items = resized cap vec.items } in
      ground (
        arith,
        g (block_bytes cap),
        put_from_front dup vec source h,
        put_from_front dup grown source h,
      )
