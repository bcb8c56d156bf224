-- ===== src/Util/Text.antt =====
-- `textRange` of util/src/util.cpp.
use cc_base.Base.{
  ℕ, zero, suc, ◌+◌, ◌-◌, ◌%◌, ◌^◌, ◌&&◌, ◌||◌, Option, none, some, [], ◌∷◌, ◌++◌, if◌then◌else◌,
  ◌==◌, ltb, length, take, drop, ◌>>=◌,
}
use cc_base.Cstring.{Bytes}

abbrev pub newline : ℕ
newline = 10

-- The largest number of 64 bits, `npos`.
abbrev pub size_max : ℕ
size_max = 2 ^ 64 - 1

-- Lines and columns count from 1, and the end stands behind the range.
pub record Range : Type 0 where
  pub start_line : ℕ
  pub start_col : ℕ
  pub end_line : ℕ
  pub end_col : ℕ

-- A text up to its first newline, and what follows it, or none at the end of the text.
unfoldable pub cut_line : Bytes → Bytes × Option Bytes
cut_line [] = ([], none)
cut_line (c ∷ s) =
    let (line, rest) = cut_line s in if c == newline then ([], some s) else (c ∷ line, rest)

-- `std::getline`: a stream that is at its end leaves the line as it is.
unfoldable pub get_line : Option Bytes → Bytes → Bytes × Option Bytes
unfolding cut_line
get_line none line = (line, none)
get_line (some s) line = cut_line s

-- Subtraction in 64 bits.
abbrev pub sub64 : ℕ → ℕ → ℕ
sub64 a b = (a + (2 ^ 64 - b)) % 2 ^ 64

-- `substr`, or none where std::out_of_range is thrown.
unfoldable pub substr : Bytes → ℕ → ℕ → Option Bytes
substr s pos n = if ltb (length s) pos then none else some (take n (drop pos s))

-- What a line adds to the result.
unfoldable pub range_step : Range → ℕ → Bytes → Bytes → Option Bytes
unfolding substr
range_step r i line res =
    if ltb r.start_line r.end_line
    then if r.start_line == i
      then (do
        part ← substr line (sub64 r.start_col 1) size_max
        some (res ++ (part ++ newline ∷ [])))
      else if r.end_line == i
      then (do part ← substr line 0 (sub64 r.end_col 1); some (res ++ part))
      else if ltb r.start_line i && ltb i r.end_line
      then some (res ++ (line ++ newline ∷ []))
      else some res
    else if r.start_line == i
    then substr line (sub64 r.start_col 1) (sub64 r.end_col r.start_col)
    else some res

-- The loop over the lines, with the number of rounds that are left.
unfoldable pub range_from : Range → ℕ → ℕ → Option Bytes → Bytes → Bytes → Option Bytes
unfolding get_line range_step
range_from r zero i stream line res = some res
range_from r (suc n) i stream line res =
    let (line', stream') = get_line stream line in
    (do res' ← range_step r i line' res; range_from r n (suc i) stream' line' res')

-- `textRange`
unfoldable pub text_range : Bytes → Range → Option Bytes
unfolding range_from
text_range text r =
    if r.start_line == size_max
      || (r.start_col == size_max || (r.end_line == size_max || r.end_col == size_max))
    then some []
    else range_from r r.end_line 1 (some text) [] []
