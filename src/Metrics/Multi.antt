-- ===== src/Metrics/Multi.antt =====
-- The loop over multi-line comments.
use cc_base.Base.{
  ℕ, zero, suc, ◌^◌, ◌≤◌, ◌<◌, none, some, ◌++◌, ◌≡◌, refl, sym, ap, ◌∙◌, inl, inr, ◌⊎◌, arith,
  length, drop, length-append,
}
use cc_base.Cstring.{Bytes}
use cc_base.Metrics.{CommentTypes, find_split, multi_count, erase_multi}
use cc_base.Metrics.Cut.{Cuts, no_round, round, multi_count-Cut, Cut-shorter, starts_with-length}
use cc_base.Metrics.Find.{First, find_split-cases, find_split-First}

-- A round that erases nothing: the first start mark is not closed, and as many bytes stand before
-- it as it is long, less one.
abbrev pub IsStuck : CommentTypes → Bytes → Bytes → Type 0
IsStuck t a b =
    First t.multi_start (a ++ b) a b
    × (find_split t.multi_end (drop (length t.multi_start) b) ≡ none)
    × (suc (length a) ≡ length t.multi_start)

count-IsStuck :
    (t : CommentTypes) (a b : Bytes)
    → length t.multi_start < 2 ^ 62
    → IsStuck t a b
    → multi_count t a b ≡ 0
unfolding multi_count
count-IsStuck t a b small h = rw (multi_count, h.1) (omega (arith, small, h.2))

-- If the first start mark is not closed, and one byte fewer stands before it than the mark has, then
-- no number of rounds is enough: the loop never ends.
pub erase_multi-IsStuck :
    (t : CommentTypes) (a b : Bytes) (n : ℕ)
    → length t.multi_start < 2 ^ 62
    → IsStuck t a b
    → erase_multi t n (a ++ b) ≡ none
unfolding erase_multi
erase_multi-IsStuck t a b zero small h =
    rw (erase_multi, find_split-First t.multi_start a b h.0.1 h.0.2) refl
erase_multi-IsStuck t a b (suc n) small h =
    rw (erase_multi, find_split-First t.multi_start a b h.0.1 h.0.2, count-IsStuck t a b small h)
      (erase_multi-IsStuck t a b n small h)

erase_multi-never :
    (t : CommentTypes) (s a b : Bytes)
    → find_split t.multi_start s ≡ some (a, b)
    → ((m : ℕ) → erase_multi t m (a ++ drop (multi_count t a b) b) ≡ none)
    → (m : ℕ) → erase_multi t m s ≡ none
unfolding erase_multi
erase_multi-never t s a b e never zero = rw (erase_multi, e) refl
erase_multi-never t s a b e never (suc m) = rw (erase_multi, e) (never m)

-- For marks and texts shorter than 2 ^ 62 bytes, a start mark that is not empty: within as many
-- rounds as the text has bytes, the loop cuts one comment after another, each as far as `Cut` says,
-- until no start mark is left, and ends; or the cuts lead to a text whose first start mark is not
-- closed and has one byte fewer before it than the mark has, and no number of rounds is enough.
pub erase_multi_decides :
    (t : CommentTypes) (n : ℕ) (s : Bytes)
    → length s < 2 ^ 62
    → length t.multi_start < 2 ^ 62
    → 0 < length t.multi_start
    → length s ≤ n
    → ((r : Bytes) × (erase_multi t n s ≡ some r)
        × Cuts t s r
        × (find_split t.multi_start r ≡ none))
      ⊎ ((a : Bytes) × (b : Bytes) × Cuts t s (a ++ b)
          × IsStuck t a b
          × ((m : ℕ) → erase_multi t m s ≡ none))
unfolding erase_multi
erase_multi_decides t zero s small small2 pos le = elim (find_split-cases t.multi_start s) [
  | inl (e, free) ↦ inl (s, rw (erase_multi, e) refl, no_round refl, e)
  | inr (a, b, e, first) ↦ absurd (
      omega (
        arith,
        le,
        pos,
        ap length first.0,
        length-append a b,
        starts_with-length b t.multi_start first.1,
      ))
]
erase_multi_decides t (suc n) s small small2 pos le = elim (find_split-cases t.multi_start s) [
  | inl (e, free) ↦ inl (s, rw (erase_multi, e) refl, no_round refl, e)
  | inr (a, b, e, first) ↦ elim (multi_count-Cut t s a b first small small2) [
    | inl (open_end, one_short) ↦
        let stuck : IsStuck t a b = ((refl, first.1, first.2), open_end, one_short) in
        inr (
          a,
          b,
          no_round (sym first.0),
          stuck,
          λ m. ap (erase_multi t m) first.0 ∙ erase_multi-IsStuck t a b m small2 stuck,
        )
    | inr cut ↦
        let next = a ++ drop (multi_count t a b) b in
        let fewer = Cut-shorter pos cut in
        elim (erase_multi_decides t n next (omega (arith, fewer, small)) small2 pos
          (omega (arith, fewer, le))) [
            | inl (r, ends, cuts, free) ↦
                inl (r, rw (erase_multi, e) ends, round next cut cuts, free)
            | inr (c, d, cuts, stuck, never) ↦
                inr (c, d, round next cut cuts, stuck, erase_multi-never t s a b e never)
          ]
  ]
]
