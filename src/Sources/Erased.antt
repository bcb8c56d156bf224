-- ===== src/Sources/Erased.antt =====
-- What an erasure leaves of the rows and of the contents.
use cc_base.Base.{
  ℕ, suc, ◌+◌, Bool, true, false, not, ◌&&◌, Option, none, some, List, [], ◌∷◌, ◌++◌, ◌≡◌, refl,
  sym, ap, ◌∙◌, subst, inl, inr, arith, map, All, ◌==◌, Bool-cases,
}
use cc_base.Cstring.{Bytes, streq}
use cc_base.Cstring.Laws.{streq→eq}
use cc_base.Sources.Model.{LazyContent, File, FileContent}
use cc_base.Sources.Keys.{mem_id, mem_text, erase_id, erase_text}
use cc_base.Sources.Store.{has_content, references, erase_row, erase_content}
use cc_base.Sources.Synced.{Stored}

-- The identifier of a content.
abbrev pub content_id : Option LazyContent → Option Bytes
content_id none = none
content_id (some c) = some c.object_id

-- The file is a row of the table, whose content has the same identifier.
pub record IsRow (f : File) (rows : List File) : Type 0 where
  pub before : List File
  pub row : File
  pub after : List File
  pub split : rows ≡ before ++ row ∷ after
  pub same_id : row.id ≡ f.id
  pub same_content : content_id row.content ≡ content_id f.content

pub mem_id-erase_id :
    (x y : ℕ) (xs : List ℕ) → mem_id x (erase_id y xs) ≡ (not (y == x) && mem_id x xs)
unfolding mem_id erase_id
mem_id-erase_id x y [] = ground arith
mem_id-erase_id x y (z ∷ xs) = ground (arith, mem_id-erase_id x y xs)

pub streq_false_of : (y z x : Bytes) → streq y z ≡ true → streq y x ≡ streq z x
streq_false_of y z x e = ap (λ a. streq a x) (streq→eq y z e)

pub streq_sym : (a b : Bytes) → streq a b ≡ streq b a
unfolding streq
streq_sym [] [] = refl
streq_sym [] (y ∷ b) = refl
streq_sym (x ∷ a) [] = refl
streq_sym (x ∷ a) (y ∷ b) = ground (arith, streq_sym a b)

pub mem_text-erase_text :
    (x y : Bytes) (xs : List Bytes)
    → mem_text x (erase_text y xs) ≡ (not (streq y x) && mem_text x xs)
unfolding mem_text erase_text
mem_text-erase_text x y [] = ground arith
mem_text-erase_text x y (z ∷ xs) = elim (Bool-cases (streq y z)) [
  | inl hit ↦
      rw hit (ground (arith, mem_text-erase_text x y xs, streq_false_of y z x hit, streq_sym z x))
  | inr miss ↦ rw miss (elim (Bool-cases (streq x z)) [
    | inl is ↦
        let q : streq y x ≡ false =
          (streq_sym y x ∙ (streq_false_of x z y is ∙ streq_sym z y)) ∙ miss in
        rw (mem_text, is, q) refl
    | inr other ↦ rw (mem_text, other) (mem_text-erase_text x y xs)
  ])
]

pub row_ids-erase_row :
    (id : ℕ) (rows : List File)
    → map (λ f. f.id) (erase_row id rows) ≡ erase_id id (map (λ f. f.id) rows)
unfolding erase_row erase_id
row_ids-erase_row id [] = refl
row_ids-erase_row id (f ∷ rows) = elim (Bool-cases (id == f.id)) [
  | inl hit ↦ rw (erase_row, erase_id, hit) (row_ids-erase_row id rows)
  | inr miss ↦ rw (erase_row, erase_id, miss) (ap (λ l. f.id ∷ l) (row_ids-erase_row id rows))
]

pub hashes-erase_content :
    (h : Bytes) (cs : List FileContent)
    → map (λ c. c.hash) (erase_content h cs) ≡ erase_text h (map (λ c. c.hash) cs)
unfolding erase_content erase_text
hashes-erase_content h [] = refl
hashes-erase_content h (c ∷ cs) = elim (Bool-cases (streq h c.hash)) [
  | inl hit ↦ rw (erase_content, erase_text, hit) (hashes-erase_content h cs)
  | inr miss ↦
      rw (erase_content, erase_text, miss) (ap (λ l. c.hash ∷ l) (hashes-erase_content h cs))
]

-- A list without references to a content stays whole without it.
pub Stored-without :
    (h : Bytes) (hs : List Bytes) (f : File)
    → has_content h f ≡ false
    → Stored hs f.content
    → Stored (erase_text h hs) f.content
Stored-without h hs f unused s = stored_on f.content refl
  where
    stored_on : (o : Option LazyContent) → f.content ≡ o → Stored (erase_text h hs) f.content
    stored_on none e = subst (Stored (erase_text h hs)) (sym e) tt
    stored_on (some c) e =
        let other : streq c.object_id h ≡ false = rw (has_content, e) at unused in
        let there : mem_text c.object_id hs ≡ true = rw e at s in
        subst (Stored (erase_text h hs)) (sym e)
          (mem_text-erase_text c.object_id h hs ∙ ground (arith, streq_sym h c.object_id))

pub references-append :
    (h : Bytes) (xs ys : List File) → references h (xs ++ ys) ≡ references h xs + references h ys
unfolding references
references-append h [] ys = omega arith
references-append h (f ∷ xs) ys = ground (arith, references-append h xs ys)

pub unreferenced-Stored :
    (h : Bytes) (hs : List Bytes) (rows : List File)
    → references h rows ≡ 0
    → All (λ f. Stored hs f.content) rows
    → All (λ f. Stored (erase_text h hs) f.content) rows
unfolding references
unreferenced-Stored h hs [] e s = tt
unreferenced-Stored h hs (f ∷ rows) e s = elim (Bool-cases (has_content h f)) [
  | inl used ↦ absurd (ground (arith, used, e))
  | inr unused ↦ (
    Stored-without h hs f unused s.0,
    unreferenced-Stored h hs rows (ground (arith, unused, e)) s.1,
  )
]

pub erase_row-All :
    (P : File → Type 0) (id : ℕ) (rows : List File) → All P rows → All P (erase_row id rows)
unfolding erase_row
erase_row-All P id [] h = tt
erase_row-All P id (f ∷ rows) h = elim (Bool-cases (id == f.id)) [
  | inl hit ↦ rw hit (erase_row-All P id rows h.1)
  | inr miss ↦ rw miss (h.0, erase_row-All P id rows h.1)
]

pub erase_row-split :
    (id : ℕ) (before after : List File) (row : File)
    → row.id ≡ id
    → erase_row id (before ++ row ∷ after) ≡ erase_row id (before ++ after)
unfolding erase_row
erase_row-split id [] after row e =
    let hit : (id == row.id) ≡ true = ground arith in rw (erase_row, hit) refl
erase_row-split id (f ∷ before) after row e = elim (Bool-cases (id == f.id)) [
  | inl hit ↦ rw (erase_row, hit) (erase_row-split id before after row e)
  | inr miss ↦ rw (erase_row, miss) (ap (λ l. f ∷ l) (erase_row-split id before after row e))
]

pub All-drop :
    (P : File → Type 0) (before after : List File) (row : File)
    → All P (before ++ row ∷ after)
    → P row × All P (before ++ after)
All-drop P [] after row h = h
All-drop P (f ∷ before) after row h =
    let (p, rest) = All-drop P before after row h.1 in (p, (h.0, rest))

-- Whether an identifier is that of the content.
abbrev pub id_test : Bytes → Option Bytes → Bool
id_test h none = false
id_test h (some id) = streq id h

pub has_content-id_test :
    (h : Bytes) (f : File) → has_content h f ≡ id_test h (content_id f.content)
has_content-id_test h f = test_on f.content
  where
    test_on :
        (o : Option LazyContent)
        → (elim o [ none ↦ false | some c ↦ streq c.object_id h ]) ≡ id_test h (content_id o)
    test_on none = refl
    test_on (some c) = refl

pub unused_left :
    (h : Bytes) (before after : List File) (row : File)
    → references h (before ++ row ∷ after) ≡ 1
    → has_content h row ≡ true
    → references h (before ++ after) ≡ 0
unfolding references
unused_left h before after row one used =
    let q : references h (row ∷ after) ≡ suc (references h after) = rw (references, used) refl in
    omega
      (arith, q, one, references-append h before after, references-append h before (row ∷ after))

-- The rows that are left when the only row with a content goes with it.
pub left_whole :
    (h : Bytes) (hs : List Bytes) (f : File) (rows : List File) (r : IsRow f rows)
    → references h rows ≡ 1
    → has_content h f ≡ true
    → All (λ g. Stored hs g.content) rows
    → All (λ g. Stored (erase_text h hs) g.content) (erase_row f.id rows)
left_whole h hs f rows r one used s =
    let used_row : has_content h r.row ≡ true =
      has_content-id_test h r.row
      ∙ (ap (id_test h) r.same_content ∙ (sym (has_content-id_test h f) ∙ used)) in
    let (_, rest) =
      All-drop (λ g. Stored hs g.content) r.before r.after r.row
        (subst (All (λ g. Stored hs g.content)) r.split s) in
    let zero_left =
      unused_left h r.before r.after r.row (sym (ap (references h) r.split) ∙ one) used_row in
    subst (All (λ g. Stored (erase_text h hs) g.content))
      (sym (ap (erase_row f.id) r.split ∙ erase_row-split f.id r.before r.after r.row r.same_id))
      (erase_row-All (λ g. Stored (erase_text h hs) g.content) f.id (r.before ++ r.after)
        (unreferenced-Stored h hs (r.before ++ r.after) zero_left rest))
