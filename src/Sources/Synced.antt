-- ===== src/Sources/Synced.antt =====
-- What the caches of the source manager and the database have in common.
use cc_base.Base.{
  ℕ, zero, suc, Bool, true, false, ◌||◌, Option, none, some, List, [], ◌∷◌, ◌++◌, ◌≡◌, ◌≢◌, ◌⊎◌,
  refl, ap, ◌∙◌, inl, inr, map-append, get_elem?, set, All, ◌==◌,
}
use cc_base.Cstring.{Bytes, streq}
use cc_base.Sources.Model.{LazyContent, File, FileContent, Database}
use cc_base.Sources.Keys.{mem_id, mem_text}
use cc_base.Sources.Manager.{SourceManager}
use cc_base.Sources.Store.{row_ids, hashes, unloaded}

-- The content, if there is one, is among those of the hashes.
abbrev pub Stored : List Bytes → Option LazyContent → Type 0
Stored hs none = Unit
Stored hs (some c) = mem_text c.object_id hs ≡ true

-- The cache knows exactly which files and contents the database has, and the database has the
-- content of each of its files.
pub record IsSynced (m : SourceManager) : Type 0 where
  pub ids : (x : ℕ) → mem_id x m.persisted_files ≡ mem_id x (row_ids m.db)
  pub texts : (h : Bytes) → mem_text h m.persisted_contents ≡ mem_text h (hashes m.db)
  pub whole : All (λ f. Stored (hashes m.db) f.content) m.db.files

-- The content can be loaded.
abbrev pub Loadable : List Bytes → Option LazyContent → Type 0
Loadable hs none = Unit
Loadable hs (some c) = (c.loaded ≢ none) ⊎ (mem_text c.object_id hs ≡ true)

-- The pointer leads to a file whose content can be loaded.
pub record IsReady (m : SourceManager) (ptr : ℕ) : Type 0 where
  pub file : File
  pub at : get_elem? m.objects ptr ≡ some file
  pub loadable : Loadable m.persisted_contents file.content

-- The cache takes the file of a pointer as one that the database has.
pub record IsPersisted (m : SourceManager) (ptr : ℕ) : Type 0 where
  pub file : File
  pub at : get_elem? m.objects ptr ≡ some file
  pub row : mem_id file.id m.persisted_files ≡ true

or_assoc : (a b c : Bool) → (a || (b || c)) ≡ ((a || b) || c)
or_assoc true b c = refl
or_assoc false b c = refl

pub mem_id-append : (x : ℕ) (xs ys : List ℕ) → mem_id x (xs ++ ys) ≡ (mem_id x xs || mem_id x ys)
unfolding mem_id
mem_id-append x [] ys = refl
mem_id-append x (y ∷ xs) ys =
    ap (λ b. (x == y) || b) (mem_id-append x xs ys) ∙ or_assoc (x == y) (mem_id x xs) (mem_id x ys)

pub mem_text-append :
    (x : Bytes) (xs ys : List Bytes) → mem_text x (xs ++ ys) ≡ (mem_text x xs || mem_text x ys)
unfolding mem_text
mem_text-append x [] ys = refl
mem_text-append x (y ∷ xs) ys =
    ap (λ b. streq x y || b) (mem_text-append x xs ys)
    ∙ or_assoc (streq x y) (mem_text x xs) (mem_text x ys)

mem_text-append_left :
    (x : Bytes) (xs ys : List Bytes) → mem_text x xs ≡ true → mem_text x (xs ++ ys) ≡ true
mem_text-append_left x xs ys h = mem_text-append x xs ys ∙ ap (λ b. b || mem_text x ys) h

-- One more row, and one more content.
pub row_ids-append :
    (x : ℕ) (db : Database) (f : File)
    → mem_id x (row_ids (record db { files = db.files ++ f ∷ [] }))
      ≡ (mem_id x (row_ids db) || ((x == f.id) || false))
unfolding mem_id
row_ids-append x db f =
    ap (mem_id x) (map-append (λ f. f.id) db.files (f ∷ []))
    ∙ mem_id-append x (row_ids db) (f.id ∷ [])

pub hashes-append :
    (x : Bytes) (db : Database) (c : FileContent)
    → mem_text x (hashes (record db { contents = db.contents ++ c ∷ [] }))
      ≡ (mem_text x (hashes db) || (streq x c.hash || false))
unfolding mem_text
hashes-append x db c =
    ap (mem_text x) (map-append (λ c. c.hash) db.contents (c ∷ []))
    ∙ mem_text-append x (hashes db) (c.hash ∷ [])

-- More contents keep what is stored.
pub Stored-more :
    (hs ks : List Bytes) (c : Option LazyContent)
    → ((h : Bytes) → mem_text h hs ≡ true → mem_text h ks ≡ true)
    → Stored hs c
    → Stored ks c
Stored-more hs ks none more h = tt
Stored-more hs ks (some c) more h = more c.object_id h

pub All-Stored-more :
    (hs ks : List Bytes) (fs : List File)
    → ((h : Bytes) → mem_text h hs ≡ true → mem_text h ks ≡ true)
    → All (λ f. Stored hs f.content) fs
    → All (λ f. Stored ks f.content) fs
All-Stored-more hs ks [] more h = tt
All-Stored-more hs ks (f ∷ fs) more h =
    (Stored-more hs ks f.content more h.0, All-Stored-more hs ks fs more h.1)

pub Loadable-more :
    (hs ks : List Bytes) (c : Option LazyContent)
    → ((h : Bytes) → mem_text h hs ≡ true → mem_text h ks ≡ true)
    → Loadable hs c
    → Loadable ks c
Loadable-more hs ks none more h = tt
Loadable-more hs ks (some c) more (inl loaded) = inl loaded
Loadable-more hs ks (some c) more (inr stored) = inr (more c.object_id stored)

-- A released content can be loaded again if it is stored.
pub Loadable-unloaded :
    (hs : List Bytes) (c : Option LazyContent) → Stored hs c → Loadable hs (unloaded c)
Loadable-unloaded hs none h = tt
Loadable-unloaded hs (some c) h = inr h

pub Stored-unloaded :
    (hs : List Bytes) (c : Option LazyContent) → Stored hs c → Stored hs (unloaded c)
Stored-unloaded hs none h = tt
Stored-unloaded hs (some c) h = h

module _ {ℓ} {A : Type ℓ} where
  -- After a write, another place holds what it held, and the place itself what was written.
  pub get_elem?-set-cases :
      (xs : List A) (i j : ℕ) (v p w : A)
      → get_elem? xs i ≡ some p
      → get_elem? xs j ≡ some w
      → (get_elem? (set xs i v) j ≡ some w) ⊎ ((w ≡ p) × (get_elem? (set xs i v) j ≡ some v))
  get_elem?-set-cases [] i j v p w e f = absurd (cc)
  get_elem?-set-cases (x ∷ xs) zero zero v p w e f = inr (cc, refl)
  get_elem?-set-cases (x ∷ xs) zero (suc j) v p w e f = inl f
  get_elem?-set-cases (x ∷ xs) (suc i) zero v p w e f = inl f
  get_elem?-set-cases (x ∷ xs) (suc i) (suc j) v p w e f = get_elem?-set-cases xs i j v p w e f
