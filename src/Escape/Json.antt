-- ===== src/Escape/Json.antt =====
-- The escaped text read back as the body of a JSON string.
use cc_base.Base.{
  ℕ, append_assoc, append-nil, inl, inr, Bool, true, false, Option, none, some, [], ◌∷◌, ◌++◌, ◌≡◌,
  refl, arith, ◌||◌, ltb, ◌==◌, if◌then◌else◌, ◌>>=◌, Bool-cases,
}
use cc_base.Cstring.{Bytes, strchr}
use cc_base.Escape.{backslash, quote, space, escape_char, escape_chars, shell_escape_str}

-- The byte that a backslash and `c` stand for in JSON. The form with four hexadecimal digits, which
-- the logger never writes, is not read.
json_escape : ℕ → Option ℕ
json_escape c =
    if c == quote || (c == backslash || c == b'/')
    then some c
    else if c == b'b'
    then some 8
    else if c == b'f'
    then some 12
    else if c == b'n'
    then some 10
    else if c == b'r'
    then some 13
    else if c == b't'
    then some 9
    else none

-- A reader of the body of a JSON string (RFC 8259): a bare quote and a control character are
-- refused. The flag says that a backslash has just been read.
pub json_read : Bytes → Bool → Option Bytes
unfolding json_escape
json_read [] true = none
json_read [] false = some []
json_read (c ∷ s) true = do d ← json_escape c; r ← json_read s false; some (d ∷ r)
json_read (c ∷ s) false =
    let esc = json_read s true in
    let plain = json_read s false >>= (λ r. some (c ∷ r)) in
    if c == backslash then esc else if c == quote || ltb c space then none else plain

-- Whether a control character occurs.
pub has_control : Bytes → Bool
has_control [] = false
has_control (c ∷ s) = ltb c space || has_control s

-- The word that the escaped text stands for: a word with a space is put in quotes.
pub quoted : Bytes → Bytes
quoted s = if strchr s space then quote ∷ (s ++ (quote ∷ [])) else s

json_read-escape_char :
    (c : ℕ) (rest : Bytes)
    → json_read (escape_char c ++ rest) false
      ≡ (if ltb c space then none else (json_read rest false >>= (λ r. some (c ∷ r))))
unfolding json_read escape_char
json_read-escape_char c rest = ground arith

-- The reader over the loop, followed by `rest` that reads as `tail`.
json_read-escape_chars :
    (s rest tail : Bytes)
    → json_read rest false ≡ some tail
    → json_read (escape_chars s ++ rest) false ≡ (if has_control s then none else some (s ++ tail))
unfolding has_control escape_chars
json_read-escape_chars [] rest tail h = h
json_read-escape_chars (c ∷ s) rest tail h =
    rw (append_assoc (escape_char c) (escape_chars s) rest, json_read-escape_char c)
      (rw (json_read-escape_chars s rest tail h) (ground arith))

json_read-closing : json_read (backslash ∷ quote ∷ []) false ≡ some (quote ∷ [])
unfolding json_read
json_read-closing = refl

json_read-nil : json_read [] false ≡ some []
unfolding json_read
json_read-nil = refl

-- The escaped text, written between two quotes, is a JSON string exactly when no control character
-- occurs, and it then stands for the word, put in quotes if it has a space.
pub json_read-shell_escape_str :
    (s : Bytes)
    → json_read (shell_escape_str s) false ≡ (if has_control s then none else some (quoted s))
json_read-shell_escape_str s = elim (Bool-cases (strchr s space)) [
  | inl sp ↦
      unfold shell_escape_str quoted in
      rw sp (unfold json_read in rw (json_read-escape_chars s _ _ json_read-closing) (ground arith))
  | inr sp ↦
      unfold shell_escape_str quoted in
      rw sp (
        rw (← append-nil (escape_chars s))
          (rw (json_read-escape_chars s [] [] json_read-nil) (ground (arith, append-nil s))))
]
