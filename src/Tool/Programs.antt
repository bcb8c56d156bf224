-- ===== src/Tool/Programs.antt =====
-- Which program names match a list of programs.
use cc_base.Base.{
  true, false, none, some, List, [], ◌∷◌, ◌++◌, ◌≡◌, ◌≢◌, refl, ap, ◌∙◌, sym, ◌↔◌, Any, Bool-cases,
  inl, inr, ==-eq_false, All, append-nil, append_assoc,
}
use cc_base.Cstring.{Bytes, contains, strtok, tokens, cons_token}
use cc_base.Cstring.Laws.{Lacks, Within, contains_iff}
use cc_base.Host.{Environ, getenv}
use cc_base.Tool.{any_token, match_to_program_list, colon}

-- A name that can stand in a list: not empty, and without a colon.
abbrev pub IsName : Bytes → Type 0
IsName name = (name ≢ []) × Lacks colon name

-- The names with a colon between each two.
unfoldable pub program_list : List Bytes → Bytes
program_list [] = []
program_list (name ∷ []) = name
program_list (name ∷ next ∷ names) = name ++ colon ∷ program_list (next ∷ names)

tokens-Lacks :
    (name rest t : Bytes)
    → Lacks colon name
    → tokens colon (name ++ rest) t ≡ tokens colon rest (t ++ name)
unfolding tokens
tokens-Lacks [] rest t h = rw (append-nil t)
tokens-Lacks (c ∷ name) rest t h = rw (
  ==-eq_false c colon h.0,
  tokens-Lacks name rest (t ++ c ∷ []) h.1,
  append_assoc t (c ∷ []) name,
)

cons_token-cons : (name : Bytes) (ts : List Bytes) → name ≢ [] → cons_token name ts ≡ name ∷ ts
cons_token-cons [] ts h = absurd (h refl)
cons_token-cons (c ∷ name) ts h = refl

-- The tokens of a list of names are the names.
strtok-program_list :
    (names : List Bytes) → All IsName names → strtok colon (program_list names) ≡ names
unfolding strtok program_list tokens
strtok-program_list [] h = refl
strtok-program_list (name ∷ []) h = rw (← append-nil name) (
    rw (tokens-Lacks name [] [] h.0.1)
      (cons_token-cons name [] h.0.0 ∙ ap (λ l. l ∷ []) (sym (append-nil name))))
strtok-program_list (name ∷ next ∷ names) h =
    rw (tokens-Lacks name (colon ∷ program_list (next ∷ names)) [] h.0.1)
      (cons_token-cons name _ h.0.0 ∙ ap (λ l. name ∷ l) (strtok-program_list (next ∷ names) h.1))

any_token_iff :
    (names : List Bytes) (prog : Bytes)
    → (any_token names prog ≡ true) ↔ Any (λ name. Within name prog) names
unfolding any_token
any_token_iff [] prog = (λ h. absurd (cc h), λ h. elim h [ ])
any_token_iff (name ∷ names) prog = elim (Bool-cases (contains prog name)) [
  | inl hit ↦ (λ h. inl ((contains_iff prog name).0 hit), λ h. rw hit)
  | inr miss ↦ (
    λ h. inr ((any_token_iff names prog).0 (rw miss at h)),
    λ h. rw miss (elim h [
      | inl w ↦ absurd (cc (miss, (contains_iff prog name).1 w))
      | inr r ↦ (any_token_iff names prog).1 r
    ]),
  )
]

-- With a list of names in the variable, each not empty and without a colon, a program matches exactly when one of the names stands
-- somewhere in the program's name.
pub match_to_program_list_iff :
    (env : Environ) (var prog : Bytes) (names : List Bytes)
    → All IsName names
    → getenv env var ≡ some (program_list names)
    → (match_to_program_list env var prog ≡ true) ↔ Any (λ name. Within name prog) names
match_to_program_list_iff env var prog names ok e =
    unfold match_to_program_list in
    rw (match_to_program_list, e, strtok-program_list names ok) (any_token_iff names prog)

-- Without the variable nothing matches.
pub match_to_program_list_unset :
    (env : Environ) (var prog : Bytes)
    → getenv env var ≡ none
    → match_to_program_list env var prog ≡ false
unfolding match_to_program_list
match_to_program_list_unset env var prog e = rw (match_to_program_list, e)
