-- ===== src/Cstring.antt =====
-- C strings as lists of bytes without the terminating zero, and the functions of <string.h> and
-- <ctype.h> that the logger calls.
pub mod Laws
use Prim.Native.Char.{code}
use Prim.Native.String.{String}
use cc_base.Base.{
  ℕ, ◌+◌, Bool, true, false, ◌&&◌, ◌||◌, Option, none, some, List, [], ◌∷◌, ◌++◌, leb, ◌==◌,
  if◌then◌else◌,
}

abbrev pub Bytes : Type 0
Bytes = List ℕ

-- The bytes of an ASCII literal.
abbrev pub codes : String → Bytes
codes String.[] = []
codes (String.◌∷◌ c s) = code c ∷ codes s

abbrev pub slash : ℕ
slash = b'/'

abbrev pub dot : ℕ
dot = b'.'

-- `strcmp (a, b) == 0`
unfoldable pub streq : Bytes → Bytes → Bool
streq [] [] = true
streq [] (y ∷ b) = false
streq (x ∷ a) [] = false
streq (x ∷ a) (y ∷ b) = x == y && streq a b

-- `strchr (s, c) != NULL` for a `c` other than zero
unfoldable pub strchr : Bytes → ℕ → Bool
strchr [] c = false
strchr (x ∷ s) c = x == c || strchr s c

-- Whether `p` is a prefix.
unfoldable pub starts_with : Bytes → Bytes → Bool
starts_with s [] = true
starts_with [] (y ∷ p) = false
starts_with (x ∷ s) (y ∷ p) = x == y && starts_with s p

-- `strstr (s, p)`: the rest of `s` from the first place where `p` stands.
unfoldable pub strstr : Bytes → Bytes → Option Bytes
unfolding starts_with
strstr [] p = if starts_with [] p then some [] else none
strstr (x ∷ s) p = let rest = strstr s p in if starts_with (x ∷ s) p then some (x ∷ s) else rest

-- `strstr (s, p) != NULL`
unfoldable pub contains : Bytes → Bytes → Bool
unfolding starts_with
contains [] p = starts_with [] p
contains (x ∷ s) p = starts_with (x ∷ s) p || contains s p

-- `strrchr (s, c)`: what stands before and after the last `c`.
unfoldable pub strrchr : Bytes → ℕ → Option (Bytes × Bytes)
strrchr [] c = none
strrchr (x ∷ s) c = elim (strrchr s c) [
  | some (a, b) ↦ some (x ∷ a, b)
  | none ↦ if x == c then some ([], s) else none
]

-- A byte that ends a token, and the token it ends, if that is not empty.
abbrev pub cons_token : Bytes → List Bytes → List Bytes
cons_token [] ts = ts
cons_token (x ∷ t) ts = (x ∷ t) ∷ ts

-- The tokens that the calls of `strtok (s, sep)` give in turn, for a separator of one byte. The
-- last argument is the token begun.
unfoldable pub tokens : ℕ → Bytes → Bytes → List Bytes
tokens sep [] t = cons_token t []
tokens sep (x ∷ s) t =
    let stop = cons_token t (tokens sep s []) in
    let go = tokens sep s (t ++ x ∷ []) in if x == sep then stop else go

unfoldable pub strtok : ℕ → Bytes → List Bytes
unfolding tokens
strtok sep s = tokens sep s []

-- `isspace` of the C locale
unfoldable pub isspace : ℕ → Bool
isspace c = c == 32 || leb 9 c && leb c 13

-- `tolower` of the C locale
unfoldable pub tolower : ℕ → ℕ
tolower c = if leb b'A' c && leb c b'Z' then c + 32 else c
