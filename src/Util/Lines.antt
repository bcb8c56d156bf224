-- ===== src/Util/Lines.antt =====
-- What each line adds to a range of a text.
use cc_base.Base.{
  ℕ, zero, suc, ◌+◌, ◌-◌, ◌^◌, ◌≤◌, ◌<◌, true, false, some, List, [], ◌∷◌, ◌++◌, ◌≡◌, refl, ap, ◌∙◌,
  inl, inr, arith, ◌==◌, ltb, length, take, Bool-cases, length-append, take-append, drop-append,
}
use cc_base.Cstring.{Bytes}
use cc_base.Cstring.Laws.{Lacks}
use cc_base.Util.Text.{newline, size_max, Range, cut_line, sub64, substr, range_step}

-- Lines, each with its newline.
abbrev pub unlines : List Bytes → Bytes
unlines [] = []
unlines (l ∷ ls) = l ++ newline ∷ unlines ls

pub cut_line-newline : (l s : Bytes) → Lacks newline l → cut_line (l ++ newline ∷ s) ≡ (l, some s)
unfolding cut_line
cut_line-newline [] s h = refl
cut_line-newline (c ∷ l) s h =
    let miss : (c == newline) ≡ false = ground (arith, h.0) in
    rw (cut_line, miss, cut_line-newline l s h.1) refl

pub cut_line-append : (l s : Bytes) → Lacks newline l → (cut_line (l ++ s)).0 ≡ l ++ (cut_line s).0
unfolding cut_line
cut_line-append [] s h = refl
cut_line-append (c ∷ l) s h =
    let miss : (c == newline) ≡ false = ground (arith, h.0) in
    rw (cut_line, miss) (ap (λ x. c ∷ x) (cut_line-append l s h.1))

pub sub64-one : (n : ℕ) → n < 2 ^ 64 - 1 → sub64 (suc n) 1 ≡ n
sub64-one n h = omega (arith, h)

pub sub64-sum : (n k : ℕ) → n + k < 2 ^ 64 - 1 → sub64 (suc (n + k)) (suc n) ≡ k
sub64-sum n k h = omega (arith, h)

pub take_all : (n : ℕ) (s : Bytes) → length s ≤ n → take n s ≡ s
take_all zero [] h = refl
take_all zero (c ∷ s) h = absurd (omega (arith, h))
take_all (suc n) [] h = refl
take_all (suc n) (c ∷ s) h = ap (λ x. c ∷ x) (take_all n s (omega (arith, h)))

pub substr-append : (x y : Bytes) (n : ℕ) → substr (x ++ y) (length x) n ≡ some (take n y)
unfolding substr
substr-append x y n =
    let inside : ltb (length (x ++ y)) (length x) ≡ false = ground (arith, length-append x y) in
    rw (substr, inside) (ap (λ s. some (take n s)) (drop-append x y))

-- What a line adds before the range, inside it and at its two ends.
pub range_step-before :
    (r : Range) (i : ℕ) (line res : Bytes)
    → i < r.start_line
    → r.start_line ≤ r.end_line
    → range_step r i line res ≡ some res
unfolding range_step
range_step-before r i line res lt le =
    let a : (r.start_line == i) ≡ false = ground (arith, lt) in
    let b : (r.end_line == i) ≡ false = ground (arith, lt, le) in
    let c : ltb r.start_line i ≡ false = ground (arith, lt) in
    elim (Bool-cases (ltb r.start_line r.end_line)) [
      | inl several ↦ rw (range_step, several, a, b, c) refl
      | inr one ↦ rw (range_step, one, a) refl
    ]

pub range_step-inside :
    (r : Range) (i : ℕ) (line res : Bytes)
    → r.start_line < i
    → i < r.end_line
    → range_step r i line res ≡ some (res ++ (line ++ newline ∷ []))
unfolding range_step
range_step-inside r i line res lt lt2 =
    let a : (r.start_line == i) ≡ false = ground (arith, lt) in
    let b : (r.end_line == i) ≡ false = ground (arith, lt2) in
    let c : ltb r.start_line i ≡ true = ground (arith, lt) in
    let d : ltb i r.end_line ≡ true = ground (arith, lt2) in
    let e : ltb r.start_line r.end_line ≡ true = ground (arith, lt, lt2) in
    rw (range_step, e, a, b, c, d) refl

pub range_step-first :
    (r : Range) (x y res : Bytes)
    → r.start_line < r.end_line
    → r.start_col ≡ suc (length x)
    → length x + length y < size_max
    → range_step r r.start_line (x ++ y) res ≡ some (res ++ (y ++ newline ∷ []))
unfolding range_step
range_step-first r x y res lt col small =
    let e : ltb r.start_line r.end_line ≡ true = ground (arith, lt) in
    let a : (r.start_line == r.start_line) ≡ true = ground arith in
    let q : substr (x ++ y) (sub64 r.start_col 1) size_max ≡ some y =
      ap (λ n. substr (x ++ y) n size_max)
        (ap (λ n. sub64 n 1) col ∙ sub64-one (length x) (omega (arith, small)))
      ∙ (substr-append x y size_max ∙ ap some (take_all size_max y (omega (arith, small)))) in
    rw (range_step, e, a, q) refl

pub range_step-last :
    (r : Range) (z w res : Bytes)
    → r.start_line < r.end_line
    → r.end_col ≡ suc (length z)
    → length z < size_max
    → range_step r r.end_line (z ++ w) res ≡ some (res ++ z)
unfolding range_step
range_step-last r z w res lt col small =
    let e : ltb r.start_line r.end_line ≡ true = ground (arith, lt) in
    let a : (r.start_line == r.end_line) ≡ false = ground (arith, lt) in
    let b : (r.end_line == r.end_line) ≡ true = ground arith in
    let q : substr (z ++ w) 0 (sub64 r.end_col 1) ≡ some z =
      ap (substr (z ++ w) 0) (ap (λ n. sub64 n 1) col ∙ sub64-one (length z) small)
      ∙ (substr-append [] (z ++ w) (length z) ∙ ap some (take-append z w)) in
    rw (range_step, e, a, b, q) refl

pub range_step-single :
    (r : Range) (x y w res : Bytes)
    → r.start_line ≡ r.end_line
    → r.start_col ≡ suc (length x)
    → r.end_col ≡ suc (length x + length y)
    → length x + length y < size_max
    → range_step r r.start_line (x ++ (y ++ w)) res ≡ some y
unfolding range_step
range_step-single r x y w res one col col2 small =
    let e : ltb r.start_line r.end_line ≡ false = ground (arith, one) in
    let a : (r.start_line == r.start_line) ≡ true = ground arith in
    let q : substr (x ++ (y ++ w)) (sub64 r.start_col 1) (sub64 r.end_col r.start_col) ≡ some y =
      ap (λ n. substr (x ++ (y ++ w)) n (sub64 r.end_col r.start_col))
        (ap (λ n. sub64 n 1) col ∙ sub64-one (length x) (omega (arith, small)))
      ∙ (ap (substr (x ++ (y ++ w)) (length x)) (
            ap (λ n. sub64 n r.start_col) col2
            ∙ (ap (sub64 (suc (length x + length y))) col ∙ sub64-sum (length x) (length y) small))
          ∙ (substr-append x (y ++ w) (length y) ∙ ap some (take-append y w))) in
    rw (range_step, e, a, q) refl
