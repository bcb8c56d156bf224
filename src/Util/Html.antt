-- ===== src/Util/Html.antt =====
-- Text that is escaped for HTML.
use cc_base.Base.{
  ℕ, Option, none, some, [], ◌∷◌, ◌++◌, ◌≡◌, ◌≢◌, refl, sym, ap, ◌∙◌, inl, inr, arith,
  if◌then◌else◌, ◌==◌, ==_iff, Bool-cases, All-append,
}
use cc_base.Cstring.{Bytes, codes, streq, strchr}
use cc_base.Cstring.Laws.{Lacks, strchr-Lacks}
use cc_base.Util.{escape_html_char, escape_html}

-- What an entity stands for: one of the five that XML defines, or no known one, which stays as it is.
abbrev entity : Bytes → Bytes
entity name =
    if streq name (codes "lt")
    then b'<' ∷ []
    else if streq name (codes "gt")
    then b'>' ∷ []
    else if streq name (codes "amp")
    then b'&' ∷ []
    else if streq name (codes "quot")
    then b'"' ∷ []
    else if streq name (codes "apos")
    then 39 ∷ []
    else b'&' ∷ (name ++ b';' ∷ [])

-- How a browser reads a text: an entity ends at a semicolon, and its name is kept until then. One
-- that does not end stays as it is.
pub html_read : Option Bytes → Bytes → Bytes
html_read none [] = []
html_read (some name) [] = b'&' ∷ name
html_read none (c ∷ s) =
    let in_entity = html_read (some []) s in
    let plain = c ∷ html_read none s in if c == b'&' then in_entity else plain
html_read (some name) (c ∷ s) =
    let ends = entity name ++ html_read none s in
    let go = html_read (some (name ++ c ∷ [])) s in if c == b';' then ends else go

html_read-char :
    (c : ℕ) (s : Bytes) → html_read none (escape_html_char c ++ s) ≡ c ∷ html_read none s
unfolding html_read escape_html_char streq
html_read-char c s = elim (Bool-cases (c == b'<')) [
  | inl lt ↦ rw (escape_html_char, lt) (ap (λ x. x ∷ html_read none s) (sym ((==_iff c b'<').0 lt)))
  | inr a ↦ elim (Bool-cases (c == b'>')) [
    | inl gt ↦
        rw (escape_html_char, a, gt) (ap (λ x. x ∷ html_read none s) (sym ((==_iff c b'>').0 gt)))
    | inr b ↦ elim (Bool-cases (c == b'&')) [
      | inl amp ↦
          rw (escape_html_char, a, b, amp)
            (ap (λ x. x ∷ html_read none s) (sym ((==_iff c b'&').0 amp)))
      | inr other ↦ rw (escape_html_char, a, b, other, html_read) (rw other refl)
    ]
  ]
]

-- A byte is escaped, or it is none of the three.
escape_html_char-Lacks : (c : ℕ) → Lacks b'<' (escape_html_char c) × Lacks b'>' (escape_html_char c)
unfolding escape_html_char strchr
escape_html_char-Lacks c = elim (Bool-cases (c == b'<')) [
  | inl lt ↦ rw lt (strchr-Lacks (codes "&lt;") b'<' refl, strchr-Lacks (codes "&lt;") b'>' refl)
  | inr a ↦ elim (Bool-cases (c == b'>')) [
    | inl gt ↦
        rw (a, gt) (strchr-Lacks (codes "&gt;") b'<' refl, strchr-Lacks (codes "&gt;") b'>' refl)
    | inr b ↦ elim (Bool-cases (c == b'&')) [
      | inl amp ↦
          rw (a, b, amp)
            (strchr-Lacks (codes "&amp;") b'<' refl, strchr-Lacks (codes "&amp;") b'>' refl)
      | inr other ↦ rw (a, b, other) (((λ e. ground arith), tt), ((λ e. ground arith), tt))
    ]
  ]
]

-- The escaped text has no angle bracket, and is read back as the text.
pub html_read-escape_html :
    (s : Bytes)
    → (html_read none (escape_html s) ≡ s) × Lacks b'<' (escape_html s) × Lacks b'>' (escape_html s)
unfolding escape_html html_read
html_read-escape_html [] = (refl, tt, tt)
html_read-escape_html (c ∷ s) =
    let (back, no_lt, no_gt) = html_read-escape_html s in
    let (lt, gt) = escape_html_char-Lacks c in
    (
      html_read-char c (escape_html s) ∙ ap (λ x. c ∷ x) back,
      All-append (λ x. x ≢ b'<') (escape_html_char c) (escape_html s) lt no_lt,
      All-append (λ x. x ≢ b'>') (escape_html_char c) (escape_html s) gt no_gt,
    )
