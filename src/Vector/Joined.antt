-- ===== src/Vector/Joined.antt =====
-- `vector_add_from` at the end of a vector, as the parsers of javac use it.
use cc_base.Base.{
  ℕ, zero, suc, ◌+◌, ◌≤◌, Bool, true, false, Option, none, some, List, [], ◌∷◌, ◌++◌, map, ◌≡◌,
  refl, sym, ap, ◌∙◌, inl, inr, arith, length, leb, take, drop, length-append, length-take,
  length-drop, map-append, append_assoc, Bool-cases,
}
use cc_base.Vector.Memory.{
  LoggerVector, write, item, block_bytes, copy_in, open_gap, put_from, vector_reserve,
  vector_add_from,
}
use cc_base.Vector.Holds.{Holds, length-map-some, vector_reserve-Holds}
use cc_base.Vector.Found.{get_behind}
use cc_base.Vector.Erased.{write_at}

module _ {ℓ} {A : Type ℓ} where
  take-drop : (n : ℕ) (s : List A) → take n s ++ drop n s ≡ s
  take-drop zero s = refl
  take-drop (suc n) [] = refl
  take-drop (suc n) (x ∷ s) = ap (λ l. x ∷ l) (take-drop n s)

module _ {ℓ} {A : Type ℓ} (dup : A → Option A) (dups : (x : A) → dup x ≡ some x) where
  -- The items of the source fill the gap behind `front`.
  copy_in_lem :
      (before ys : List A) (rest front gap tail source slots : List (Option A)) (i pos : ℕ)
      → source ≡ map some before ++ (map some ys ++ rest)
      → i ≡ length before
      → slots ≡ front ++ (gap ++ tail)
      → length gap ≡ length ys
      → i + pos ≡ length front
      → (r : List (Option A)) × (copy_in dup (length ys) i pos source slots ≡ some r)
        × (r ≡ front ++ (map some ys ++ tail))
  unfolding copy_in
  copy_in_lem before [] rest front [] tail source slots i pos s h e g p = (slots, refl, e)
  copy_in_lem before [] rest front (x ∷ gap) tail source slots i pos s h e g p =
      absurd (omega (arith, g))
  copy_in_lem before (y ∷ ys) rest front [] tail source slots i pos s h e g p =
      absurd (omega (arith, g))
  copy_in_lem before (y ∷ ys) rest front (x ∷ gap) tail source slots i pos s h e g p =
      let here : item source i ≡ some y = rw (s, h) (get_behind before y (map some ys ++ rest)) in
      let written : write slots (i + pos) (dup y) ≡ some (front ++ some y ∷ (gap ++ tail)) =
        rw (e, p, dups y) (write_at front x (some y) (gap ++ tail)) in
      let (r, later, q) =
        copy_in_lem (before ++ y ∷ []) ys rest (front ++ some y ∷ []) gap tail source
          (front ++ some y ∷ (gap ++ tail)) (i + 1) pos
          (s
            ∙ rw (map-append some before (y ∷ []))
                (sym (append_assoc (map some before) (some y ∷ []) _)))
          (omega (arith, h, length-append before (y ∷ [])))
          (sym (append_assoc front (some y ∷ []) _)) (omega (arith, g))
          (omega (arith, p, length-append front (some y ∷ []))) in
      (r, rw (copy_in, here, written, later), q ∙ append_assoc front (some y ∷ []) _)

  put_run :
      (vec source : LoggerVector A) (pos : ℕ) (r : List (Option A))
      → pos ≡ vec.size
      → copy_in dup source.size 0 pos source.items vec.items ≡ some r
      → put_from dup vec source pos
        ≡ some (true, record vec { size = vec.size + source.size; items = r })
  unfolding put_from open_gap
  put_run vec source pos r h e = ground (arith, h, e)

  put_from_end :
      (vec source : LoggerVector A) (xs ys : List A)
      → Holds vec xs
      → Holds source ys
      → vec.size + source.size ≤ vec.capacity
      → (w : LoggerVector A) × (put_from dup vec source vec.size ≡ some (true, w))
        × Holds w (xs ++ ys)
  put_from_end vec source xs ys h k fits =
      let n = length ys in
      let (r, e, q) =
        copy_in_lem [] ys k.room (map some xs) (take n h.room) (drop n h.room) source.items
          vec.items 0 vec.size k.filled refl
          (h.filled ∙ ap (λ l. map some xs ++ l) (sym (take-drop n h.room)))
          (omega (arith, length-take n h.room, fits, h.capable, h.sized, k.sized))
          (omega (arith, length-map-some xs, h.sized)) in
      (
        record vec { size = vec.size + source.size; items = r },
        put_run vec source vec.size r refl
            (ap (λ m. copy_in dup m 0 vec.size source.items vec.items) k.sized ∙ e),
        record {
          room = drop n h.room;
          filled =
              q
              ∙ rw (map-append some xs ys)
                  (sym (append_assoc (map some xs) (map some ys) (drop n h.room)));
          sized = omega (arith, length-append xs ys, h.sized, k.sized);
          capable =
              omega (
                arith,
                length-append xs ys,
                h.capable,
                h.sized,
                k.sized,
                fits,
                length-drop n h.room,
              );
        },
      )

  reserve_run :
      (grants : ℕ → Bool) (vec source w : LoggerVector A)
      → leb (vec.size + source.size) vec.capacity ≡ false
      → vector_reserve grants (vec.size + source.size) vec ≡ some w
      → vector_add_from grants dup vec source none ≡ put_from dup w source vec.size
  unfolding vector_add_from
  reserve_run grants vec source w full e = ground (arith, full, e)

  -- Without a position, with memory and a copying function that does not fail, the items of the
  -- source are put behind those of the vector.
  pub vector_add_from-Holds :
      (grants : ℕ → Bool) (vec source : LoggerVector A) (xs ys : List A)
      → Holds vec xs
      → Holds source ys
      → ((n : ℕ) → grants n ≡ true)
      → (w : LoggerVector A) × (vector_add_from grants dup vec source none ≡ some (true, w))
        × Holds w (xs ++ ys)
  vector_add_from-Holds grants vec source xs ys h k g =
      let cap = vec.size + source.size in
      elim (Bool-cases (leb cap vec.capacity)) [
        | inl fits ↦
            let (w, e, held) = put_from_end vec source xs ys h k (ground (arith, fits)) in
            (w, (unfold vector_add_from in ground (arith, fits, e)), held)
        | inr full ↦
            let (v, run, grown, c, s) =
              vector_reserve-Holds grants cap vec xs h (ground (arith, full))
                (g (block_bytes cap)) in
            let (w, e, held) = put_from_end v source xs ys grown k (omega (arith, c, s)) in
            (w, reserve_run grants vec source v full run ∙ rw (← s) e, held)
      ]
