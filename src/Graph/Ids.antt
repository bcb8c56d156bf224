-- ===== src/Graph/Ids.antt =====
-- The identifiers of nodes and edges.
use cc_base.Base.{
  ℕ, zero, suc, ◌+◌, ◌-◌, ◌*◌, ◌≤◌, ◌<◌, true, false, List, [], ◌∷◌, ◌≡◌, refl, ap, inl, inr, arith,
  ◌==◌, ==_iff, ltb, if◌then◌else◌, sym, ◌∙◌, length, All, Bool-cases,
}
use cc_base.Cstring.{Bytes, streq}
use cc_base.Cstring.Laws.{streq→eq}
use cc_base.Sources.Keys.{mem_text}
use cc_base.Graph.{Graph, Graphviz, next_id, unused_id, generate_id}

-- Letters of the alphabet.
abbrev pub IsId : Bytes → Type 0
IsId = All (λ c. (b'a' ≤ c) × (c ≤ b'z'))

-- An identifier as a number: its letters are the digits 1 to 26, the lowest first.
abbrev pub number : Bytes → ℕ
number [] = 0
number (c ∷ id) = (c - 96) + 26 * number id

pub number-next_id : (id : Bytes) → IsId id → number (next_id id) ≡ suc (number id)
unfolding next_id
number-next_id [] h = refl
number-next_id (c ∷ id) h = elim (Bool-cases (c == b'z')) [
  | inl last ↦ rw last (omega (arith, number-next_id id h.1, (==_iff c b'z').0 last))
  | inr other ↦ rw other (omega (arith, h.0))
]

next_id-IsId : (id : Bytes) → IsId id → IsId (next_id id)
unfolding next_id
next_id-IsId [] h = ((omega arith, omega arith), tt)
next_id-IsId (c ∷ id) h = elim (Bool-cases (c == b'z')) [
  | inl last ↦ rw last ((omega arith, omega arith), next_id-IsId id h.1)
  | inr other ↦ rw other ((omega (arith, h.0), ground (arith, h.0, other)), h.1)
]

-- How many identifiers of a list are above a number.
abbrev above : ℕ → List Bytes → ℕ
above v [] = 0
above v (x ∷ xs) = let rest = above v xs in if ltb v (number x) then suc rest else rest

above-length : (v : ℕ) (xs : List Bytes) → above v xs ≤ length xs
above-length v [] = omega arith
above-length v (x ∷ xs) = ground (arith, above-length v xs)

above-suc : (v : ℕ) (xs : List Bytes) → above (suc v) xs ≤ above v xs
above-suc v [] = omega arith
above-suc v (x ∷ xs) = ground (arith, above-suc v xs)

above-mem_text :
    (v : ℕ) (y : Bytes) (xs : List Bytes)
    → mem_text y xs ≡ true
    → number y ≡ suc v
    → suc (above (suc v) xs) ≤ above v xs
unfolding mem_text
above-mem_text v y [] h e = absurd (cc)
above-mem_text v y (x ∷ xs) h e = elim (Bool-cases (streq y x)) [
  | inl hit ↦
      let q : number x ≡ suc v = sym (ap number (streq→eq y x hit)) ∙ e in
      ground (arith, q, above-suc v xs)
  | inr miss ↦ ground (arith, above-mem_text v y xs (ground (arith, h, miss)) e)
]

abbrev IsFresh : List Bytes → Bytes → Bytes → Type 0
IsFresh ids old id = (mem_text id ids ≡ false) × (number old < number id) × IsId id

unused_id-IsFresh :
    (ids : List Bytes) (n : ℕ) (old : Bytes)
    → IsId old
    → above (number old) ids ≤ n
    → IsFresh ids old (unused_id ids n old)
unfolding unused_id
unused_id-IsFresh ids zero old h le = elim (Bool-cases (mem_text (next_id old) ids)) [
  | inl taken ↦ absurd (
      omega (arith, le, above-mem_text (number old) (next_id old) ids taken (number-next_id old h)))
  | inr free ↦ (free, omega (arith, number-next_id old h), next_id-IsId old h)
]
unused_id-IsFresh ids (suc n) old h le = elim (Bool-cases (mem_text (next_id old) ids)) [
  | inl taken ↦
      let up = number-next_id old h in
      let fewer : above (number (next_id old)) ids ≤ n =
        rw up (omega (arith, le, above-mem_text (number old) (next_id old) ids taken up)) in
      let (free, later, id) = unused_id-IsFresh ids n (next_id old) (next_id-IsId old h) fewer in
      rw (unused_id, taken) (free, omega (arith, up, later), id)
  | inr free ↦ rw (unused_id, free) (free, omega (arith, number-next_id old h), next_id-IsId old h)
]

-- If the last identifier given consists of the letters `a` to `z`, then `generateId` gives letters
-- again: an identifier that no node has and that is above the last one, as a number. It is then the
-- last one given.
pub generate_id-IsFresh :
    {G : Type 0} (V : Graphviz G) (g : Graph G)
    → IsId g.current_id
    → IsFresh g.ids g.current_id (generate_id V g).1
      × ((generate_id V g).0.current_id ≡ (generate_id V g).1)
unfolding generate_id
generate_id-IsFresh V g h = (
  unused_id-IsFresh g.ids (length g.ids) g.current_id h (above-length (number g.current_id) g.ids),
  refl,
)
