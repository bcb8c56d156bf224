-- ===== src/Metrics.antt =====
-- plugins/metrics/parser/src/metricsparser.cpp: the counting of lines.
pub mod Find
pub mod Single
pub mod Blank
pub mod Cut
pub mod Multi
pub mod Bounds
pub mod Parser
pub mod Below
pub mod Entries
pub mod Visits
pub mod Jobs
pub mod Incremental
use cc_base.Base.{
  ℕ, zero, suc, ◌+◌, ◌-◌, ◌%◌, ◌^◌, Bool, true, false, not, ◌&&◌, ◌||◌, Option, none, some, List,
  [], ◌∷◌, ◌++◌, if◌then◌else◌, ◌==◌, length, drop, ◌>>=◌,
}
use cc_base.Cstring.{Bytes, codes, streq, starts_with, isspace}
use cc_base.Util.Text.{newline, size_max, sub64}

-- `Loc`
pub record Loc : Type 0 where
  pub original_lines : ℕ
  pub nonblank_lines : ℕ
  pub code_lines : ℕ

-- The marks of comments.
pub record CommentTypes : Type 0 where
  pub single : Bytes
  pub multi_start : Bytes
  pub multi_end : Bytes

-- `std::count` of newlines
unfoldable pub newlines : Bytes → ℕ
newlines [] = 0
newlines (c ∷ s) = let n = newlines s in if c == newline then suc n else n

-- The loop of `eraseBlankLines`, with the bytes between `first` and `it`, `isBlankLine`, and the
-- bytes from `it` on. The bytes of a blank line are erased, but for its newline.
unfoldable pub blank_from : Bytes → Bool → Bytes → Bytes
blank_from line blank [] = line
blank_from line blank (c ∷ s) =
    let next = blank_from [] true s in
    let kept = blank_from (line ++ c ∷ []) blank s in
    let filled = blank_from (line ++ c ∷ []) false s in
    if not (isspace c)
    then filled
    else if c == newline
    then (if blank then newline ∷ next else line ++ newline ∷ next)
    else kept

-- `std::unique` with the two bytes both newlines, behind a byte.
unfoldable pub unique_from : ℕ → Bytes → Bytes
unique_from c [] = []
unique_from c (d ∷ s) =
    let dropped = unique_from c s in
    let kept = unique_from d s in if c == newline && d == newline then dropped else d ∷ kept

unfoldable pub unique_newlines : Bytes → Bytes
unfolding unique_from
unique_newlines [] = []
unique_newlines (c ∷ s) = c ∷ unique_from c s

-- `eraseBlankLines`
unfoldable pub erase_blank_lines : Bytes → Bytes
unfolding blank_from unique_newlines
erase_blank_lines s = unique_newlines (blank_from [] true s)

-- `find`: the text before the first place where `p` stands, and the text from there.
unfoldable pub find_split : Bytes → Bytes → Option (Bytes × Bytes)
find_split p [] = if starts_with [] p then some ([], []) else none
find_split p (c ∷ s) =
    let rest = find_split p s in
    if starts_with (c ∷ s) p then some ([], c ∷ s) else (do (a, b) ← rest; some (c ∷ a, b))

-- The text from the first newline on.
unfoldable pub from_newline : Bytes → Bytes
from_newline [] = []
from_newline (c ∷ s) = if c == newline then c ∷ s else from_newline s

-- The loop over single-line comments, with the number of rounds that may follow; none when they do
-- not suffice.
unfoldable pub erase_single : Bytes → ℕ → Bytes → Option Bytes
unfolding find_split from_newline
erase_single p zero s = elim (find_split p s) [ none ↦ some s | some (a, b) ↦ none ]
erase_single p (suc n) s = elim (find_split p s) [
  | none ↦ some s
  | some (a, b) ↦ erase_single p n (a ++ from_newline b)
]

-- `end - start + s` in 64 bits, for the text from the start mark on. The position of the end mark
-- is `npos` if there is none.
unfoldable pub multi_count : CommentTypes → Bytes → Bytes → ℕ
unfolding find_split
multi_count t a b =
    let s = length t.multi_start in
    let end : ℕ = elim (find_split t.multi_end (drop s b)) [
      | none ↦ size_max
      | some (c, d) ↦ length a + (s + length c)
    ] in
    (sub64 end (length a) + s) % 2 ^ 64

-- The loop over multi-line comments, in the same way.
unfoldable pub erase_multi : CommentTypes → ℕ → Bytes → Option Bytes
unfolding find_split multi_count
erase_multi t zero s = elim (find_split t.multi_start s) [ none ↦ some s | some (a, b) ↦ none ]
erase_multi t (suc n) s = elim (find_split t.multi_start s) [
  | none ↦ some s
  | some (a, b) ↦ erase_multi t n (a ++ drop (multi_count t a b) b)
]

-- `eraseComments`, with the rounds of either loop.
unfoldable pub erase_comments : ℕ → CommentTypes → Bytes → Option Bytes
unfolding erase_single erase_multi
erase_comments n t s = do
  s' ← (if streq t.single [] then some s else erase_single t.single n s)
  (if streq t.multi_start [] then some s' else erase_multi t n s')

-- `setCommentTypes`
unfoldable pub comment_types : Bytes → CommentTypes
comment_types file_type =
    if streq file_type (codes "CPP") || streq file_type (codes "Java")
    then record { single = codes "//"; multi_start = codes "/*"; multi_end = codes "*/" }
    else if streq file_type (codes "Erlang")
        || (streq file_type (codes "Bash") || streq file_type (codes "Perl"))
    then record { single = codes "#"; multi_start = []; multi_end = [] }
    else if streq file_type (codes "Python")
    then record {
      single = codes "#";
      multi_start = b'"' ∷ (b'"' ∷ (b'"' ∷ []));
      multi_end = b'"' ∷ (b'"' ∷ (b'"' ∷ []));
    }
    else if streq file_type (codes "Sql")
    then record { single = codes "--"; multi_start = codes "/*"; multi_end = codes "*/" }
    else if streq file_type (codes "Ruby")
    then record {
      single = codes "#";
      multi_start = codes "=begin";
      multi_end = newline ∷ codes "=end";
    }
    else record { single = []; multi_start = []; multi_end = [] }

-- `getLocFromFile`, for a type and a text, with the rounds of either loop.
unfoldable pub get_loc : ℕ → Bytes → Bytes → Option Loc
unfolding newlines erase_blank_lines erase_comments comment_types
get_loc n file_type [] = some (record { original_lines = 0; nonblank_lines = 0; code_lines = 0 })
get_loc n file_type (c ∷ content) = do
  let text = erase_blank_lines (c ∷ content)
  code ← erase_comments n (comment_types file_type) text
  some (record {
    original_lines = suc (newlines (c ∷ content));
    nonblank_lines = suc (newlines text);
    code_lines = suc (newlines code);
  })
