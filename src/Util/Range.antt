-- ===== src/Util/Range.antt =====
-- The text between two positions.
use cc_base.Base.{
  ℕ, suc, ◌+◌, ◌≤◌, ◌<◌, false, some, List, [], ◌∷◌, ◌++◌, ◌≡◌, refl, sym, ap, ◌∙◌, subst, arith,
  ◌==◌, length, All, append_assoc, append-nil,
}
use cc_base.Cstring.{Bytes}
use cc_base.Cstring.Laws.{Lacks}
use cc_base.Util.Text.{
  newline, size_max, Range, cut_line, get_line, range_step, range_from, text_range,
}
use cc_base.Util.Lines.{
  unlines, cut_line-newline, cut_line-append, range_step-before, range_step-inside,
  range_step-first, range_step-last, range_step-single,
}

range_round :
    (r : Range) (n i : ℕ) (l s line res next : Bytes)
    → Lacks newline l
    → range_step r i l res ≡ some next
    → range_from r (suc n) i (some (l ++ newline ∷ s)) line res
      ≡ range_from r n (suc i) (some s) l next
unfolding range_from get_line
range_round r n i l s line res next h e = rw (range_from, get_line, cut_line-newline l s h, e) refl

-- The last round, on a line that begins with a text.
range_end :
    (r : Range) (i : ℕ) (z c line res next : Bytes)
    → Lacks newline z
    → ((w : Bytes) → range_step r i (z ++ w) res ≡ some next)
    → range_from r 1 i (some (z ++ c)) line res ≡ some next
unfolding range_from get_line
range_end r i z c line res next h e =
    rw (range_from, get_line, cut_line-append z c h, e (cut_line c).0) refl

-- The rounds that are left, and the number of the line, before some lines.
abbrev rounds : List Bytes → ℕ → ℕ
rounds [] k = k
rounds (l ∷ ls) k = suc (rounds ls k)

abbrev line_after : List Bytes → ℕ → ℕ
line_after [] i = i
line_after (l ∷ ls) i = line_after ls (suc i)

rounds_sum : (ls : List Bytes) (k : ℕ) → rounds ls k ≡ length ls + k
rounds_sum [] k = omega arith
rounds_sum (l ∷ ls) k = omega (arith, rounds_sum ls k)

line_after_sum : (ls : List Bytes) (i : ℕ) → line_after ls i ≡ length ls + i
line_after_sum [] i = omega arith
line_after_sum (l ∷ ls) i = omega (arith, line_after_sum ls (suc i))

-- The lines before the range.
skip_lines :
    (r : Range) (ls : List Bytes) (k i : ℕ) (s line res : Bytes)
    → All (Lacks newline) ls
    → line_after ls i ≤ r.start_line
    → r.start_line ≤ r.end_line
    → range_from r (rounds ls (suc k)) i (some (unlines ls ++ s)) line res
      ≡ range_from r (suc k) (line_after ls i) (some s) [] res
unfolding range_from get_line
skip_lines r [] k i s line res h le le2 = refl
skip_lines r (l ∷ ls) k i s line res h le le2 =
    ap (λ t. range_from r (rounds (l ∷ ls) (suc k)) i (some t) line res)
      (append_assoc l (newline ∷ unlines ls) s)
    ∙ (range_round r (rounds ls (suc k)) i l (unlines ls ++ s) line res res h.0
          (range_step-before r i l res (omega (arith, le, line_after_sum ls (suc i))) le2)
        ∙ skip_lines r ls k (suc i) s l res h.1 le le2)

-- The lines inside the range.
take_lines :
    (r : Range) (ls : List Bytes) (k i : ℕ) (s line res : Bytes)
    → All (Lacks newline) ls
    → r.start_line < i
    → line_after ls i ≤ r.end_line
    → range_from r (rounds ls (suc k)) i (some (unlines ls ++ s)) line res
      ≡ range_from r (suc k) (line_after ls i) (some s) [] (res ++ unlines ls)
unfolding range_from get_line
take_lines r [] k i s line res h lt le =
    ap (range_from r (suc k) i (some s) []) (sym (append-nil res))
take_lines r (l ∷ ls) k i s line res h lt le =
    ap (λ t. range_from r (rounds (l ∷ ls) (suc k)) i (some t) line res)
      (append_assoc l (newline ∷ unlines ls) s)
    ∙ (range_round r (rounds ls (suc k)) i l (unlines ls ++ s) line res (res ++ (l ++ newline ∷ []))
          h.0 (range_step-inside r i l res lt (omega (arith, le, line_after_sum ls (suc i))))
        ∙ (take_lines r ls k (suc i) s l (res ++ (l ++ newline ∷ [])) h.1 (omega (arith, lt)) le
            ∙ ap (range_from r (suc k) (line_after ls (suc i)) (some s) []) (
                append_assoc res (l ++ newline ∷ []) (unlines ls)
                ∙ ap (λ t. res ++ t) (append_assoc l (newline ∷ []) (unlines ls)))))

-- A position may not be the largest number.
text_range-valid :
    (text : Bytes) (r : Range)
    → r.start_line < size_max
    → r.start_col < size_max
    → r.end_line < size_max
    → r.end_col < size_max
    → text_range text r ≡ range_from r r.end_line 1 (some text) [] []
unfolding text_range
text_range-valid text r a b c d =
    let a' : (r.start_line == size_max) ≡ false = ground (arith, a) in
    let b' : (r.start_col == size_max) ≡ false = ground (arith, b) in
    let c' : (r.end_line == size_max) ≡ false = ground (arith, c) in
    let d' : (r.end_col == size_max) ≡ false = ground (arith, d) in
    rw (text_range, a', b', c', d') refl

several_lines :
    (r : Range) (ls ms : List Bytes) (x y z c : Bytes)
    → All (Lacks newline) ls
    → All (Lacks newline) ms
    → Lacks newline (x ++ y)
    → Lacks newline z
    → r.start_line ≡ line_after ls 1
    → r.end_line ≡ line_after ms (suc (line_after ls 1))
    → r.start_col ≡ suc (length x)
    → r.end_col ≡ suc (length z)
    → length x + length y < size_max
    → length z < size_max
    → range_from r
        (rounds ls (suc (rounds ms 1)))
        1
        (some (unlines ls ++ ((x ++ y) ++ newline ∷ (unlines ms ++ (z ++ c)))))
        []
        []
      ≡ some ((y ++ newline ∷ []) ++ (unlines ms ++ z))
several_lines r ls ms x y z c h k hx hz sl el sc ec small small2 =
    let lt : r.start_line < r.end_line =
      omega (arith, sl, el, line_after_sum ms (suc (line_after ls 1))) in
    skip_lines r ls (rounds ms 1) 1 _ [] [] h (omega (arith, sl)) (omega (arith, lt))
    ∙ (range_round r (rounds ms 1) (line_after ls 1) (x ++ y) _ [] [] (y ++ newline ∷ []) hx (
          subst (λ i. range_step r i (x ++ y) [] ≡ some (y ++ newline ∷ [])) sl
            (range_step-first r x y [] lt sc small))
        ∙ (take_lines r ms 0 (suc (line_after ls 1)) (z ++ c) (x ++ y) (y ++ newline ∷ []) k
              (omega (arith, sl)) (omega (arith, el))
            ∙ (range_end r (line_after ms (suc (line_after ls 1))) z c []
                  ((y ++ newline ∷ []) ++ unlines ms) _ hz
                  (λ w.
                    (subst
                      (λ i.
                        range_step r i (z ++ w) ((y ++ newline ∷ []) ++ unlines ms)
                        ≡ some (((y ++ newline ∷ []) ++ unlines ms) ++ z))
                      el (range_step-last r z w ((y ++ newline ∷ []) ++ unlines ms) lt ec small2)))
                ∙ ap some (append_assoc (y ++ newline ∷ []) (unlines ms) z))))

one_line :
    (r : Range) (ls : List Bytes) (x y c : Bytes)
    → All (Lacks newline) ls
    → Lacks newline (x ++ y)
    → r.start_line ≡ line_after ls 1
    → r.end_line ≡ line_after ls 1
    → r.start_col ≡ suc (length x)
    → r.end_col ≡ suc (length x + length y)
    → length x + length y < size_max
    → range_from r (rounds ls 1) 1 (some (unlines ls ++ ((x ++ y) ++ c))) [] [] ≡ some y
one_line r ls x y c h hx sl el sc ec small =
    skip_lines r ls 0 1 _ [] [] h (omega (arith, sl)) (omega (arith, sl, el))
    ∙ range_end r (line_after ls 1) (x ++ y) c [] [] y hx (λ w.
      (subst (λ i. range_step r i ((x ++ y) ++ w) [] ≡ some y) sl
        (ap (λ t. range_step r r.start_line t []) (append_assoc x y w)
          ∙ range_step-single r x y w [] (sl ∙ sym el) sc ec small)))

-- In a text of lines `ls`, a start `x` of a line, a text, and more, the range from behind `x` to the
-- end of that text is that text: within a line `y`, and over lines `y`, `ms` and a part `z` of a
-- line. The numbers of lines and columns are below the largest of 64 bits.
pub text_range-between :
    (ls ms : List Bytes) (x y z c : Bytes)
    → All (Lacks newline) ls
    → All (Lacks newline) ms
    → Lacks newline (x ++ y)
    → Lacks newline z
    → length ls + length ms + 2 < size_max
    → suc (length x + length y) < size_max
    → suc (length z) < size_max
    → (text_range (unlines ls ++ ((x ++ y) ++ c)) (record {
      start_line = suc (length ls);
      start_col = suc (length x);
      end_line = suc (length ls);
      end_col = suc (length x + length y);
    })
        ≡ some y)
      × (text_range (unlines ls ++ ((x ++ y) ++ newline ∷ (unlines ms ++ (z ++ c)))) (record {
        start_line = suc (length ls);
        start_col = suc (length x);
        end_line = suc (length ls) + suc (length ms);
        end_col = suc (length z);
      })
          ≡ some ((y ++ newline ∷ []) ++ (unlines ms ++ z)))
text_range-between ls ms x y z c h k hx hz lines cols cols2 = (
  (let r : Range = record {
    start_line = suc (length ls);
    start_col = suc (length x);
    end_line = suc (length ls);
    end_col = suc (length x + length y);
  } in
      text_range-valid _ r (omega (arith, lines)) (omega (arith, cols)) (omega (arith, lines)) cols
      ∙ (ap (λ n. range_from r n 1 (some (unlines ls ++ ((x ++ y) ++ c))) [] [])
            (omega (arith, rounds_sum ls 1))
          ∙ one_line r ls x y c h hx (omega (arith, line_after_sum ls 1))
              (omega (arith, line_after_sum ls 1)) refl refl (omega (arith, cols)))),
  (let r : Range = record {
    start_line = suc (length ls);
    start_col = suc (length x);
    end_line = suc (length ls) + suc (length ms);
    end_col = suc (length z);
  } in
      text_range-valid _ r (omega (arith, lines)) (omega (arith, cols)) (omega (arith, lines)) cols2
      ∙ (ap
            (λ n.
              (range_from r n 1
                (some (unlines ls ++ ((x ++ y) ++ newline ∷ (unlines ms ++ (z ++ c))))) [] []))
            (omega (arith, rounds_sum ls (suc (rounds ms 1)), rounds_sum ms 1))
          ∙ several_lines r ls ms x y z c h k hx hz (omega (arith, line_after_sum ls 1))
              (omega (arith, line_after_sum ls 1, line_after_sum ms (suc (line_after ls 1)))) refl
              refl (omega (arith, cols)) (omega (arith, cols2)))),
)
