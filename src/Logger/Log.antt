-- ===== src/Logger/Log.antt =====
-- The log as a list of entries, their text, and what is printed where the stream stands.
use Prim.Native.Nat.add
use native.Mathlib.Nat.{add-zero}
use cc_base.Base.{
  ℕ, zero, suc, ◌+◌, ◌<◌, true, none, some, List, [], ◌∷◌, ◌++◌, ◌≡◌, refl, sym, ◌∙◌, ltb, length,
  drop, arith, append_assoc, append-nil, length-append, take-append,
}
use cc_base.Cstring.{Bytes, codes}
use cc_base.Host.{Host}
use cc_base.Tool.{Action}
use cc_base.Logger.Command.{create_json_command_string}
use cc_base.Logger.Stream.{Stream, fprintf, entry_text, separator}

-- One object of the compilation database.
pub record Entry : Type 0 where
  pub directory : Bytes
  pub command : Bytes
  pub file : Bytes

abbrev pub text_of : Entry → Bytes
text_of e = entry_text e.directory e.command e.file

-- The entries behind the first: each has a comma in front.
unfoldable pub more : List Entry → Bytes
more [] = []
more (e ∷ es) = separator ++ (text_of e ++ more es)

unfoldable pub items : List Entry → Bytes
items [] = []
items (e ∷ es) = text_of e ++ more es

-- The text of a log that holds these entries.
unfoldable pub render : List Entry → Bytes
render es = codes "[\n" ++ (items es ++ codes "]")

abbrev pub source_entries : Bytes → Bytes → List Bytes → List Entry
source_entries wd command [] = []
source_entries wd command (file ∷ files) =
    record { directory = wd; command = command; file = file } ∷ source_entries wd command files

-- The entries of an action: one for each source, none if there is no memory for the command.
unfoldable pub action_entries : Host → Bytes → Action → List Entry
action_entries host wd action = elim (create_json_command_string host action.arguments) [
  | none ↦ []
  | some command ↦ source_entries wd command action.sources
]

unfoldable pub new_entries : Host → Bytes → List Action → List Entry
new_entries host wd [] = []
new_entries host wd (action ∷ actions) =
    action_entries host wd action ++ new_entries host wd actions

-- The text of entries that are written when `n` stand before them.
abbrev pub joined : ℕ → List Entry → Bytes
joined zero es = items es
joined (suc n) es = more es

-- A stream whose position is behind `a` and before `r`.
abbrev pub cursor : Bytes → Bytes → Stream
cursor a r = record { bytes = a ++ r; pos = length a }

pub drop-append_add : (a r : Bytes) (n : ℕ) → drop (length a + n) (a ++ r) ≡ drop n r
drop-append_add [] r n = rw (add.zero n)
drop-append_add (x ∷ a) r n = rw (add.suc (length a) n) (drop-append_add a r n)

pub stream_eq :
    {b c : Bytes} {p q : ℕ}
    → b ≡ c
    → p ≡ q
    → ◌≡◌ {A = Stream} (record { bytes = b; pos = p }) (record { bytes = c; pos = q })
stream_eq e h = λ i. record { bytes = e i; pos = h i }

pub fprintf-cursor : (a r t : Bytes) → fprintf (cursor a r) t ≡ cursor (a ++ t) (drop (length t) r)
unfolding fprintf
fprintf-cursor a r t =
    stream_eq
      (rw (take-append a r, drop-append_add a r (length t), append_assoc a t (drop (length t) r)))
      (sym (length-append a t))

pub drop-nil : (n : ℕ) → drop {A = ℕ} n [] ≡ []
drop-nil zero = refl
drop-nil (suc n) = refl

pub drop-drop : (m n : ℕ) (r : Bytes) → drop n (drop m r) ≡ drop (m + n) r
drop-drop zero n r = rw (add.zero n)
drop-drop (suc m) n [] = drop-nil n ∙ sym (drop-nil (suc m + n))
drop-drop (suc m) n (x ∷ r) = rw (add.suc m n) (drop-drop m n r)

-- Two writes in a row are one.
pub fprintf-fprintf :
    (a r t u : Bytes) → fprintf (fprintf (cursor a r) t) u ≡ fprintf (cursor a r) (t ++ u)
fprintf-fprintf a r t u =
    rw
      (
        fprintf-cursor a r t,
        fprintf-cursor (a ++ t) (drop (length t) r) u,
        fprintf-cursor a r (t ++ u),
      )
      (rw (append_assoc a t u, drop-drop (length t) (length u) r, length-append t u))

pub fprintf-nil : (a r : Bytes) → fprintf (cursor a r) [] ≡ cursor a r
fprintf-nil a r = rw (fprintf-cursor a r [], append-nil a)

pub joined_of_pos : (n : ℕ) (es : List Entry) → 0 < n → joined n es ≡ more es
joined_of_pos zero es h = absurd (omega arith)
joined_of_pos (suc n) es h = refl

pub joined-nil : (n : ℕ) → joined n [] ≡ []
unfolding items more
joined-nil zero = refl
joined-nil (suc n) = refl

pub joined-append :
    (n : ℕ) (es fs : List Entry) → joined n (es ++ fs) ≡ joined n es ++ joined (n + length es) fs
unfolding items more
joined-append n [] fs = rw (joined-nil n, add-zero n)
joined-append zero (e ∷ es) fs = rw (
  joined-append 1 es fs,
  joined_of_pos (1 + length es) fs (omega arith),
  joined_of_pos (0 + suc (length es)) fs (omega arith),
  append_assoc (text_of e) (more es) (more fs),
)
joined-append (suc n) (e ∷ es) fs = rw (
  joined-append 1 es fs,
  joined_of_pos (1 + length es) fs (omega arith),
  joined_of_pos (suc n + suc (length es)) fs (omega arith),
  append_assoc separator (text_of e ++ more es) (more fs),
  append_assoc (text_of e) (more es) (more fs),
)

pub later : (n : ℕ) → ltb 1 (suc n + 1) ≡ true
later n = ground arith
