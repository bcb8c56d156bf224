-- ===== src/Sources/Copies.antt =====
-- What a round of `persistFiles` writes: the text of a content, and the row of a file.
use cc_base.Base.{
  ℕ, zero, suc, Option, none, some, List, [], ◌∷◌, ◌++◌, ◌≡◌, ◌≢◌, ◌⊎◌, refl, sym, ap, ◌∙◌, inl,
  inr, get_elem?, set, All, All-append,
}
use cc_base.Cstring.{Bytes}
use cc_base.Sources.Model.{LazyContent, File}
use cc_base.Sources.Manager.{SourceManager}
use cc_base.Sources.Store.{unloaded}
use cc_base.Sources.Between.{begun, with_content, with_row}

-- Each text, in the table or in memory, is the one that belongs to its hash.
pub record IsTextOf (text_of : Bytes → Bytes) (m : SourceManager) : Type 0 where
  pub stored : All (λ c. c.content ≡ text_of c.hash) m.db.contents
  pub held :
      (ptr : ℕ) (f : File) (c : LazyContent) (text : Bytes)
      → get_elem? m.objects ptr ≡ some f
      → f.content ≡ some c
      → c.loaded ≡ some text
      → text ≡ text_of c.object_id

-- The row of a file: its content is only the reference.
abbrev pub row_of : File → File
row_of f = record f { content = unloaded f.content }

unloaded_twice : (c : Option LazyContent) → unloaded (unloaded c) ≡ unloaded c
unloaded_twice none = refl
unloaded_twice (some c) = refl

-- What a round does to the rows, to the texts and to the objects.
pub record IsWriting (ptr : ℕ) (m m' : SourceManager) : Type 0 where
  pub rows :
      (m'.db.files ≡ m.db.files)
      ⊎ ((f : File) × (get_elem? m.objects ptr ≡ some f)
          × (m'.db.files ≡ m.db.files ++ row_of f ∷ []))
  pub texts : (text_of : Bytes → Bytes) → IsTextOf text_of m → IsTextOf text_of m'
  pub objects :
      (j : ℕ) (g : File)
      → get_elem? m'.objects j ≡ some g
      → (f : File) × (get_elem? m.objects j ≡ some f) × (row_of g ≡ row_of f)

pub IsWriting-refl : (ptr : ℕ) (m : SourceManager) → IsWriting ptr m m
IsWriting-refl ptr m = record {
  rows = inl refl;
  texts = λ text_of t. t;
  objects = λ j g e. (g, e, refl);
}

pub with_content-IsTextOf :
    (text_of : Bytes → Bytes) (ptr : ℕ) (f : File) (m : SourceManager) (c : LazyContent)
    (text : Bytes)
    → get_elem? m.objects ptr ≡ some f
    → f.content ≡ some c
    → c.loaded ≡ some text
    → IsTextOf text_of m
    → IsTextOf text_of (with_content f m (record { hash = c.object_id; content = text }))
with_content-IsTextOf text_of ptr f m c text at has e t = record {
  stored =
      All-append (λ c. c.content ≡ text_of c.hash) m.db.contents _ t.stored
        (t.held ptr f c text at has e, tt);
  held = t.held;
}

-- An object behind the release of a content was there before, or it is the released one.
set_back :
    (xs : List File) (i j : ℕ) (v p g : File)
    → get_elem? xs i ≡ some p
    → get_elem? (set xs i v) j ≡ some g
    → (get_elem? xs j ≡ some g) ⊎ ((g ≡ v) × (get_elem? xs j ≡ some p))
set_back [] i j v p g e h = absurd (cc)
set_back (x ∷ xs) zero zero v p g e h = inr (cc, e)
set_back (x ∷ xs) zero (suc j) v p g e h = inl h
set_back (x ∷ xs) (suc i) zero v p g e h = inl h
set_back (x ∷ xs) (suc i) (suc j) v p g e h = set_back xs i j v p g e h

unloaded_has_no_text :
    (o : Option LazyContent) (c : LazyContent) (text : Bytes)
    → unloaded o ≡ some c
    → c.loaded ≢ some text
unloaded_has_no_text none c text e h = absurd (cc)
unloaded_has_no_text (some d) c text e h = let nothing : none ≡ c.loaded = cc in absurd (cc)

pub with_row-IsTextOf :
    (text_of : Bytes → Bytes) (ptr : ℕ) (f : File) (m : SourceManager)
    → get_elem? m.objects ptr ≡ some f
    → IsTextOf text_of m
    → IsTextOf text_of (with_row ptr f m)
with_row-IsTextOf text_of ptr f m at t = record {
  stored = t.stored;
  held = λ j g c text e has loaded. elim (set_back m.objects ptr j (row_of f) f g at e) [
    | inl before ↦ t.held j g c text before has loaded
    | inr (is, was) ↦
        absurd (unloaded_has_no_text f.content c text (sym (ap (λ h. h.content) is) ∙ has) loaded)
  ];
}

-- The whole round, from what the content led to.
pub with_row-IsWriting :
    (ptr : ℕ) (f : File) (m m' : SourceManager)
    → get_elem? m.objects ptr ≡ some f
    → m'.objects ≡ m.objects
    → m'.db.files ≡ m.db.files
    → ((text_of : Bytes → Bytes) → IsTextOf text_of m → IsTextOf text_of m')
    → IsWriting ptr m (with_row ptr f m')
with_row-IsWriting ptr f m m' at objects_kept rows_kept texts = record {
  rows = inr (f, at, ap (λ rows. rows ++ row_of f ∷ []) rows_kept);
  texts = λ text_of t. with_row-IsTextOf text_of ptr f m' here (texts text_of t);
  objects = λ j g e. elim (set_back m'.objects ptr j (row_of f) f g here e) [
    | inl before ↦ (g, back j g before, refl)
    | inr (is, was) ↦ (
      f,
      back j f was,
      ap row_of is ∙ ap (λ c. record f { content = c }) (unloaded_twice f.content),
    )
  ];
}
  where
    here : get_elem? m'.objects ptr ≡ some f
    here = ap (λ xs. get_elem? xs ptr) objects_kept ∙ at

    back : (j : ℕ) (g : File) → get_elem? m'.objects j ≡ some g → get_elem? m.objects j ≡ some g
    back j g e = sym (ap (λ xs. get_elem? xs j) objects_kept) ∙ e

-- The row is that of a file in the list.
pub record IsCopy (files : List (Bytes × ℕ)) (m : SourceManager) (row : File) : Type 0 where
  pub place : ℕ
  pub path : Bytes
  pub ptr : ℕ
  pub file : File
  pub listed : get_elem? files place ≡ some (path, ptr)
  pub at : get_elem? m.objects ptr ≡ some file
  pub is : row ≡ row_of file

-- The new rows are those of files in the list, and stand behind the old ones.
pub record IsGrown (files : List (Bytes × ℕ)) (m m' : SourceManager) : Type 0 where
  pub added : List File
  pub rows : m'.db.files ≡ m.db.files ++ added
  pub copies : All (IsCopy files m) added

-- To put the identifier into the cache writes nothing.
pub begun-IsTextOf :
    (text_of : Bytes → Bytes) (f : File) (m : SourceManager)
    → IsTextOf text_of m
    → IsTextOf text_of (begun f m)
begun-IsTextOf text_of f m t = record { stored = t.stored; held = t.held }
