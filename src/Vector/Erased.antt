-- ===== src/Vector/Erased.antt =====
-- `vector_add_unique` and `vector_erase` against the operations on lists.
use cc_base.Base.{
  ℕ, zero, suc, ◌+◌, ◌-◌, ◌≤◌, ◌<◌, Bool, true, false, Option, none, some, List, [], ◌∷◌, ◌++◌,
  length, map, ◌≡◌, refl, sym, ap, subst, ◌∙◌, inl, inr, arith, append_assoc, length-append,
  map-append, Bool-cases, Option-cases, get_elem?, leb,
}
use cc_base.Vector.Memory.{LoggerVector, write, close_gap, vector_add_unique, vector_erase}
use cc_base.Vector.Spec.{index_of, append_unique, remove_at}
use cc_base.Vector.Holds.{Holds, length-map-some, vector_add-Holds}
use cc_base.Vector.Found.{vector_find-Holds}

module _ {ℓ} {A : Type ℓ} where
  -- When memory is granted, an item is put behind the others exactly if none of them matches it.
  pub vector_add_unique-Holds :
      (grants : ℕ → Bool) (eq : A → A → Bool) (vec : LoggerVector A) (xs : List A) (x : A)
      → Holds vec xs
      → ((n : ℕ) → grants n ≡ true)
      → (status : Option Bool) × (w : LoggerVector A) × (vector_add_unique grants eq vec x
          ≡ some (status, w))
        × Holds w (append_unique eq xs x)
  unfolding vector_add_unique append_unique
  vector_add_unique-Holds grants eq vec xs x h g =
      let search = vector_find-Holds eq vec xs x h in
      let (w, e, held) = vector_add-Holds grants vec xs x h g in
      elim (Option-cases (index_of eq xs x)) [
        | inl f ↦ (some true, w, rw (vector_add_unique, search, f, e), rw (append_unique, f) held)
        | inr (i, f) ↦ (none, vec, rw (vector_add_unique, search, f), rw (append_unique, f) h)
      ]

  get_at :
      (front : List A) (s : A) (rest : List A)
      → get_elem? (front ++ s ∷ rest) (length front) ≡ some s
  get_at [] s rest = refl
  get_at (x ∷ front) s rest = get_at front s rest

module _ {ℓ} {A : Type ℓ} where
  pub write_at :
      (front : List (Option A)) (s v : Option A) (rest : List (Option A))
      → write (front ++ s ∷ rest) (length front) v ≡ some (front ++ v ∷ rest)
  unfolding write
  write_at [] s v rest = ground arith
  write_at (x ∷ front) s v rest = ground (arith, write_at front s v rest)

  -- The slot behind `front` is filled with the first of the items behind it, and so on.
  close_gap_lem :
      (xs : List A) (front : List (Option A)) (s : Option A) (room slots : List (Option A)) (i : ℕ)
      → slots ≡ front ++ s ∷ (map some xs ++ room)
      → i ≡ length front + 1
      → (t : Option A) × (r : List (Option A)) × (close_gap (length xs) i slots ≡ some r)
        × (r ≡ front ++ (map some xs ++ t ∷ room))
  unfolding close_gap
  close_gap_lem [] front s room slots i e h = (s, slots, refl, e)
  close_gap_lem (x ∷ xs) front s room slots i e h =
      let shorter = length-append front (s ∷ []) in
      let here : get_elem? slots i ≡ some (some x) =
        rw (e ∙ sym (append_assoc front (s ∷ []) _), h ∙ sym shorter)
          (get_at (front ++ s ∷ []) (some x) (map some xs ++ room)) in
      let moved : write slots (i - 1) (some x)
          ≡ some (front ++ some x ∷ (some x ∷ (map some xs ++ room))) =
        let k : i - 1 ≡ length front = omega (arith, h) in
        rw (e, k) (write_at front s (some x) (some x ∷ (map some xs ++ room))) in
      let (t, r, later, q) =
        close_gap_lem xs (front ++ some x ∷ []) (some x) room
          (front ++ some x ∷ (some x ∷ (map some xs ++ room))) (i + 1)
          (sym (append_assoc front (some x ∷ []) _))
          (omega (arith, h, length-append front (some x ∷ []))) in
      (t, r, rw (close_gap, here, moved, later), q ∙ append_assoc front (some x ∷ []) _)

  remove_at-append :
      (before xs : List A) (y : A) → remove_at (before ++ y ∷ xs) (length before) ≡ before ++ xs
  unfolding remove_at
  remove_at-append [] xs y = refl
  remove_at-append (x ∷ before) xs y = ap (λ l. x ∷ l) (remove_at-append before xs y)

  remove_at_past : (xs : List A) (i : ℕ) → length xs ≤ i → remove_at xs i ≡ xs
  unfolding remove_at
  remove_at_past [] i h = refl
  remove_at_past (x ∷ xs) zero h = absurd (omega arith)
  remove_at_past (x ∷ xs) (suc i) h = ap (λ l. x ∷ l) (remove_at_past xs i (omega arith))

  -- An index in range has items before and behind it.
  split_at :
      (xs : List A) (i : ℕ)
      → i < length xs
      → (before : List A) × (y : A) × (after : List A) × (xs ≡ before ++ y ∷ after)
        × (i ≡ length before)
  split_at [] i h = absurd (omega arith)
  split_at (x ∷ xs) zero h = ([], x, xs, refl, refl)
  split_at (x ∷ xs) (suc i) h =
      let (before, y, after, e, k) = split_at xs i (omega arith) in
      (x ∷ before, y, after, ap (λ l. x ∷ l) e, ap suc k)

  erase_run :
      (vec : LoggerVector A) (i left : ℕ) (r : List (Option A))
      → leb vec.size i ≡ false
      → vec.size - (i + 1) ≡ left
      → close_gap left (i + 1) vec.items ≡ some r
      → vector_erase vec i ≡ some (record vec { size = vec.size - 1; items = r })
  unfolding vector_erase
  erase_run vec i left r inside count e = rw (vector_erase, inside, count, e)

  erase_inside :
      (vec : LoggerVector A) (before after : List A) (y : A) (i : ℕ)
      → Holds vec (before ++ y ∷ after)
      → i ≡ length before
      → (w : LoggerVector A) × (vector_erase vec i ≡ some w) × Holds w (before ++ after)
  erase_inside vec before after y i h k =
      let count = h.sized ∙ length-append before (y ∷ after) in
      let (t, r, e, q) =
        close_gap_lem after (map some before) (some y) h.room vec.items (i + 1)
          (h.filled
            ∙ rw (map-append some before (y ∷ after))
                (append_assoc (map some before) (some y ∷ map some after) h.room))
          (omega (arith, k, length-map-some before)) in
      (
        record vec { size = vec.size - 1; items = r },
        erase_run vec i (length after) r (ground (arith, count, k)) (omega (arith, count, k)) e,
        record {
          room = t ∷ h.room;
          filled =
              q
              ∙ rw (map-append some before after)
                  (sym (append_assoc (map some before) (map some after) (t ∷ h.room)));
          sized = omega (arith, count, length-append before after);
          capable =
              omega
                (arith, h.capable, length-append before after, length-append before (y ∷ after));
        },
      )

  erase_split :
      (vec : LoggerVector A) (xs before after : List A) (y : A) (i : ℕ)
      → Holds vec xs
      → xs ≡ before ++ y ∷ after
      → i ≡ length before
      → (w : LoggerVector A) × (vector_erase vec i ≡ some w) × Holds w (remove_at xs i)
  erase_split vec xs before after y i h e k =
      let (w, run, held) = erase_inside vec before after y i (subst (Holds vec) e h) k in
      (w, run, subst (Holds w) (sym (rw (e, k) (remove_at-append before after y))) held)

  -- Of a vector that holds a list, the item at the index is removed, and an index past the end
  -- changes nothing. No access is out of bounds.
  pub vector_erase-Holds :
      (vec : LoggerVector A) (xs : List A) (i : ℕ)
      → Holds vec xs
      → (w : LoggerVector A) × (vector_erase vec i ≡ some w) × Holds w (remove_at xs i)
  vector_erase-Holds vec xs i h = elim (Bool-cases (leb vec.size i)) [
    | inl past ↦ (
      vec,
      (unfold vector_erase in rw past),
      subst (Holds vec) (sym (remove_at_past xs i (ground (arith, past, h.sized)))) h,
    )
    | inr inside ↦
        let (before, y, after, e, k) = split_at xs i (ground (arith, inside, h.sized)) in
        erase_split vec xs before after y i h e k
  ]
