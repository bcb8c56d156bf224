-- ===== src/Escape.antt =====
-- `shellEscapeStr` of logger/src/ldlogger-util.c.
pub mod Json
pub mod Size
use cc_base.Base.{ℕ, ◌||◌, [], ◌∷◌, ◌++◌, ◌==◌, if◌then◌else◌}
use cc_base.Cstring.{Bytes, strchr}

abbrev pub backslash : ℕ
backslash = b'\\'

abbrev pub quote : ℕ
quote = b'"'

abbrev pub space : ℕ
space = 32

abbrev pub tab : ℕ
tab = 9

-- The `switch`: what is written for one character.
unfoldable pub escape_char : ℕ → Bytes
escape_char c = if c == backslash || (c == quote || c == tab) then backslash ∷ c ∷ [] else c ∷ []

-- The `while` loop.
unfoldable pub escape_chars : Bytes → Bytes
unfolding escape_char
escape_chars [] = []
escape_chars (c ∷ s) = escape_char c ++ escape_chars s

-- What the buffer holds at the return, without its final zero.
unfoldable pub shell_escape_str : Bytes → Bytes
unfolding escape_chars
shell_escape_str s =
    if strchr s space
    then backslash ∷ quote ∷ (escape_chars s ++ (backslash ∷ quote ∷ []))
    else escape_chars s
