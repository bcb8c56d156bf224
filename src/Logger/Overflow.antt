-- ===== src/Logger/Overflow.antt =====
-- Whether the command fits the buffer that `createJsonCommandString` allocates.
use cc_base.Base.{
  ℕ, zero, suc, ◌+◌, ◌*◌, ◌≤◌, ◌<◌, false, List, [], ◌∷◌, ◌≡◌, refl, length, All, arith,
  length-append, replicate, length-replicate,
}
use cc_base.Cstring.{Bytes, strchr}
use cc_base.Escape.{space, escape_char, escape_chars, shell_escape_str}
use cc_base.Escape.Size.{length-shell_escape_str}
use cc_base.Logger.Command.{args_length, command_size, command_tail, command_text}

-- The argument has no space.
abbrev pub IsUnspaced : Bytes → Type 0
IsUnspaced arg = strchr arg space ≡ false

length-unspaced : (arg : Bytes) → IsUnspaced arg → length (shell_escape_str arg) ≤ 2 * length arg
length-unspaced arg h = ground (arith, length-shell_escape_str arg)

command_tail_fits :
    (args : List Bytes)
    → All IsUnspaced args
    → length (command_tail args) ≤ args_length args * 2 + length args
unfolding command_tail args_length
command_tail_fits [] h = omega arith
command_tail_fits (arg ∷ args) h = omega (
  arith,
  length-append (shell_escape_str arg) (command_tail args),
  length-unspaced arg h.0,
  command_tail_fits args h.1,
)

-- If no argument has a space, the command and its final zero fit the buffer.
pub command_text_fits :
    (args : List Bytes) → All IsUnspaced args → length (command_text args) + 1 ≤ command_size args
unfolding command_text command_size args_length
command_text_fits [] h = omega arith
command_text_fits (arg ∷ args) h = omega (
  arith,
  length-append (shell_escape_str arg) (command_tail args),
  length-unspaced arg h.0,
  command_tail_fits args h.1,
)

length-le-escape_chars : (s : Bytes) → length s ≤ length (escape_chars s)
unfolding escape_chars escape_char
length-le-escape_chars [] = omega arith
length-le-escape_chars (c ∷ s) = ground (arith, length-le-escape_chars s)

length-le-shell_escape_str : (s : Bytes) → length s ≤ length (shell_escape_str s)
unfolding shell_escape_str
length-le-shell_escape_str s =
    ground (arith, length-le-escape_chars s, length-append (escape_chars s) (92 ∷ 34 ∷ []))

length-blank : length (shell_escape_str (space ∷ [])) ≡ 5
unfolding shell_escape_str strchr escape_chars escape_char
length-blank = refl

blank_tail : (k : ℕ) → length (command_tail (replicate k (space ∷ []))) ≡ 6 * k
unfolding command_tail
blank_tail zero = omega arith
blank_tail (suc k) = omega (
  arith,
  length-append (shell_escape_str (space ∷ [])) (command_tail (replicate k (space ∷ []))),
  length-blank,
  blank_tail k,
)

blank_length : (k : ℕ) → args_length (replicate k (space ∷ [])) ≡ k
unfolding args_length
blank_length zero = refl
blank_length (suc k) = omega (arith, blank_length k)

-- The buffer is too small for a tool and more than three arguments beyond the length of its name
-- that are a single space: the command and its final zero run past the end of the buffer.
pub command_text_overflows :
    (tool : Bytes) (k : ℕ)
    → length tool + 3 < k
    → let args = tool ∷ replicate k (space ∷ []) in
      command_size args < length (command_text args) + 1
unfolding command_text command_size args_length
command_text_overflows tool k h = omega (
  arith,
  length-append (shell_escape_str tool) (command_tail (replicate k (space ∷ []))),
  length-le-shell_escape_str tool,
  blank_tail k,
  blank_length k,
  length-replicate k (space ∷ []),
)
