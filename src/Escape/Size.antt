-- ===== src/Escape/Size.antt =====
-- How long the escaped text can get.
use cc_base.Base.{ℕ, ◌+◌, ◌*◌, ◌≤◌, [], ◌∷◌, arith, ◌==◌, if◌then◌else◌, length, length-append}
use cc_base.Cstring.{Bytes, strchr}
use cc_base.Escape.{backslash, quote, space, escape_char, escape_chars, shell_escape_str}

length-escape_char : (c : ℕ) → length (escape_char c) + (if c == space then 1 else 0) ≤ 2
unfolding escape_char
length-escape_char c = ground arith

-- A space is written as it is, so it saves one byte of the two that the loop may write for each.
length-escape_chars :
    (s : Bytes) → length (escape_chars s) + (if strchr s space then 1 else 0) ≤ 2 * length s
unfolding escape_chars strchr
length-escape_chars [] = omega arith
length-escape_chars (c ∷ s) = ground (
  arith,
  length-append (escape_char c) (escape_chars s),
  length-escape_char c,
  length-escape_chars s,
)

-- The escaped text has at most two bytes for each byte of the string, and three more if the string
-- has a space.
pub length-shell_escape_str :
    (s : Bytes) → length (shell_escape_str s) ≤ 2 * length s + (if strchr s space then 3 else 0)
unfolding shell_escape_str
length-shell_escape_str s =
    ground (arith, length-escape_chars s, length-append (escape_chars s) (backslash ∷ quote ∷ []))
