-- ===== src/Metrics/Cut.antt =====
-- What a round of the loop over multi-line comments does to the text.
use cc_base.Base.{
  ℕ, zero, suc, ◌+◌, ◌-◌, ◌%◌, ◌^◌, ◌≤◌, ◌<◌, true, none, [], ◌∷◌, ◌++◌, ◌≡◌, refl, sym, ap, ◌∙◌,
  inl, inr, ◌⊎◌, leb, arith, length, drop, Bool-cases, length-append, length-drop, append-nil,
  drop-append,
}
use cc_base.Cstring.{Bytes, starts_with}
use cc_base.Cstring.Laws.{starts_with_sound}
use cc_base.Util.Text.{size_max, sub64}
use cc_base.Metrics.{CommentTypes, find_split, multi_count}
use cc_base.Metrics.Find.{First, Free, find_split-cases}

-- A round: with its end mark, a comment goes as far as that begins, and as many bytes of it as the
-- start mark is long. Without one, all behind the start of the comment goes, if at least as many
-- bytes stand before it as the start mark is long; otherwise only as many as are missing there, less
-- one.
pub data Cut (t : CommentTypes) : Bytes → Bytes → Type 0 where
  closed :
      {s r : Bytes} (a b c d : Bytes)
      → First t.multi_start s a b
      → First t.multi_end (drop (length t.multi_start) b) c d
      → r ≡ a ++ drop (length t.multi_start) d
      → Cut t s r
  far :
      {s r : Bytes} (a b : Bytes)
      → First t.multi_start s a b
      → Free t.multi_end (drop (length t.multi_start) b)
      → length t.multi_start ≤ length a
      → r ≡ a
      → Cut t s r
  near :
      {s r : Bytes} (a b : Bytes) (k : ℕ)
      → First t.multi_start s a b
      → Free t.multi_end (drop (length t.multi_start) b)
      → suc (length a + k) ≡ length t.multi_start
      → 0 < k
      → r ≡ a ++ drop k b
      → Cut t s r

-- Some rounds.
pub data Cuts (t : CommentTypes) : Bytes → Bytes → Type 0 where
  no_round : {s r : Bytes} → r ≡ s → Cuts t s r
  round : {s r : Bytes} (mid : Bytes) → Cut t s mid → Cuts t mid r → Cuts t s r

abbrev nothing : Bytes
nothing = []

drop_nil : (n : ℕ) → drop n nothing ≡ nothing
drop_nil zero = refl
drop_nil (suc n) = refl

drop-add : (x y : ℕ) (s : Bytes) → drop (x + y) s ≡ drop y (drop x s)
drop-add zero y s = ap (λ n. drop n s) (omega arith)
drop-add (suc x) y [] = drop_nil (suc x + y) ∙ sym (drop_nil y)
drop-add (suc x) y (c ∷ s) =
    let e : suc x + y ≡ suc (x + y) = omega arith in ap (λ n. drop n (c ∷ s)) e ∙ drop-add x y s

drop_all : (n : ℕ) (s : Bytes) → length s ≤ n → drop n s ≡ []
drop_all zero [] h = refl
drop_all (suc n) [] h = refl
drop_all zero (c ∷ s) h = absurd (omega arith)
drop_all (suc n) (c ∷ s) h = drop_all n s (omega arith)

count_of_closed :
    (a s c : ℕ)
    → a < 2 ^ 62
    → s < 2 ^ 62
    → c < 2 ^ 62
    → (sub64 (a + (s + c)) a + s) % 2 ^ 64 ≡ (s + c) + s
count_of_closed a s c ha hs hc = omega (arith, ha, hs, hc)

count_of_far :
    (a s : ℕ) → a < 2 ^ 62 → s < 2 ^ 62 → s ≤ a → 2 ^ 62 ≤ (sub64 size_max a + s) % 2 ^ 64
count_of_far a s ha hs le = omega (arith, ha, hs, le)

count_of_near : (a s k : ℕ) → s < 2 ^ 62 → suc (a + k) ≡ s → (sub64 size_max a + s) % 2 ^ 64 ≡ k
count_of_near a s k hs e = omega (arith, hs, e)

pub multi_count-Cut :
    (t : CommentTypes) (s a b : Bytes)
    → First t.multi_start s a b
    → length s < 2 ^ 62
    → length t.multi_start < 2 ^ 62
    → ((find_split t.multi_end (drop (length t.multi_start) b) ≡ none)
        × (suc (length a) ≡ length t.multi_start))
      ⊎ Cut t s (a ++ drop (multi_count t a b) b)
unfolding multi_count
multi_count-Cut t s a b first small small2 =
    let m = length t.multi_start in
    let all : length s ≡ length a + length b = ap length first.0 ∙ length-append a b in
    elim (find_split-cases t.multi_end (drop m b)) [
      | inr (c, d, e, found) ↦
          let c_small : length c < 2 ^ 62 =
            omega (arith, small, all, length-append c d, ap length found.0, length-drop m b) in
          let a_small : length a < 2 ^ 62 = omega (arith, small, all) in
          let count : multi_count t a b ≡ (m + length c) + m =
            rw (multi_count, e) (count_of_closed (length a) m (length c) a_small small2 c_small) in
          let left : drop (multi_count t a b) b ≡ drop m d =
            ap (λ n. drop n b) count
            ∙ drop-add (m + length c) m b
            ∙ ap (drop m) (drop-add m (length c) b)
            ∙ ap (λ l. drop m (drop (length c) l)) found.0
            ∙ ap (drop m) (drop-append c d) in
          inr (closed a b c d first found (ap (λ l. a ++ l) left))
      | inl (e, free) ↦
          let a_small : length a < 2 ^ 62 = omega (arith, small, all) in
          let b_small : length b < 2 ^ 62 = omega (arith, small, all) in
          elim (Bool-cases (leb m (length a))) [
            | inl le ↦
                let many : 2 ^ 62 ≤ multi_count t a b =
                  rw (multi_count, e)
                    (count_of_far (length a) m a_small small2 (ground (arith, le))) in
                inr (
                  far a b first free (ground (arith, le)) (
                    ap (λ l. a ++ l) (drop_all (multi_count t a b) b (omega (arith, many, b_small)))
                    ∙ append-nil a))
            | inr lt ↦ missing free e (m - suc (length a)) (ground (arith, lt))
          ]
    ]
  where
    missing :
        Free t.multi_end (drop (length t.multi_start) b)
        → find_split t.multi_end (drop (length t.multi_start) b) ≡ none
        → (k : ℕ) → suc (length a + k) ≡ length t.multi_start
        → ((find_split t.multi_end (drop (length t.multi_start) b) ≡ none)
            × (suc (length a) ≡ length t.multi_start))
          ⊎ Cut t s (a ++ drop (multi_count t a b) b)
    missing free e zero q = inl (e, omega (arith, q))
    missing free e (suc k) q =
        let count : multi_count t a b ≡ suc k =
          rw (multi_count, e) (count_of_near (length a) (length t.multi_start) (suc k) small2 q) in
        inr (near a b (suc k) first free q (omega arith) (ap (λ n. a ++ drop n b) count))

pub starts_with-length : (b p : Bytes) → starts_with b p ≡ true → length p ≤ length b
starts_with-length b p h =
    let (c, e) = starts_with_sound b p h in omega (arith, ap length e, length-append p c)

-- A round takes at least one byte.
pub Cut-shorter :
    {t : CommentTypes} {s r : Bytes}
    → 0 < length t.multi_start
    → Cut t s r
    → suc (length r) ≤ length s
Cut-shorter {t = t} pos (closed a b c d first found e) = omega (
  arith,
  pos,
  ap length e,
  length-append a (drop (length t.multi_start) d),
  length-drop (length t.multi_start) d,
  ap length found.0,
  length-append c d,
  length-drop (length t.multi_start) b,
  ap length first.0,
  length-append a b,
  starts_with-length b t.multi_start first.1,
)
Cut-shorter {t = t} pos (far a b first free le e) = omega (
  arith,
  pos,
  ap length e,
  ap length first.0,
  length-append a b,
  starts_with-length b t.multi_start first.1,
)
Cut-shorter {t = t} pos (near a b k first free q more e) = omega (
  arith,
  more,
  q,
  ap length e,
  length-append a (drop k b),
  length-drop k b,
  ap length first.0,
  length-append a b,
  starts_with-length b t.multi_start first.1,
)
