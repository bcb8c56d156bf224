-- ===== src/Sources/Between.antt =====
-- A round of `persistFiles`, from the content of a file to its row.
use cc_base.Base.{
  ℕ, Bool, true, false, ◌||◌, some, List, [], ◌∷◌, ◌++◌, ◌≡◌, refl, sym, ap, ◌∙◌, subst, inl, inr,
  arith, get_elem?, set, All, All-append, ◌==◌,
}
use cc_base.Cstring.{Bytes, streq}
use cc_base.Cstring.Laws.{streq_refl}
use cc_base.Sources.Model.{LazyContent, File, FileContent}
use cc_base.Sources.Keys.{mem_id, mem_text}
use cc_base.Sources.Manager.{SourceManager}
use cc_base.Sources.Store.{row_ids, hashes, unloaded, persist_row, store_row}
use cc_base.Sources.Synced.{
  Stored, IsSynced, IsReady, IsPersisted, row_ids-append, hashes-append, Stored-more,
  All-Stored-more, Loadable-more, Loadable-unloaded, Stored-unloaded, get_elem?-set-cases,
}

pub All-map {ℓ} :
    {A : Type ℓ} (P Q : A → Type 0) → ((p : A) → P p → Q p) → (ps : List A) → All P ps → All Q ps
All-map P Q f [] h = tt
All-map P Q f (p ∷ ps) h = (f p h.0, All-map P Q f ps h.1)

-- What a part of `persistFiles` keeps.
pub record IsKeptBy (m m' : SourceManager) : Type 0 where
  pub ready : (ptr : ℕ) → IsReady m ptr → IsReady m' ptr
  pub persisted : (ptr : ℕ) → IsPersisted m ptr → IsPersisted m' ptr
  pub files_kept : m'.files ≡ m.files

pub IsKeptBy-refl : (m : SourceManager) → IsKeptBy m m
IsKeptBy-refl m = record { ready = λ ptr r. r; persisted = λ ptr r. r; files_kept = refl }

pub IsKeptBy-trans : {m m' m'' : SourceManager} → IsKeptBy m m' → IsKeptBy m' m'' → IsKeptBy m m''
IsKeptBy-trans a b = record {
  ready = λ ptr r. b.ready ptr (a.ready ptr r);
  persisted = λ ptr r. b.persisted ptr (a.persisted ptr r);
  files_kept = b.files_kept ∙ a.files_kept;
}

-- Between the content of a file and its row: the identifier is in the cache, but not in the database.
pub record IsBetween (f : File) (m m' : SourceManager) : Type 0 where
  pub ids : (x : ℕ) → mem_id x m'.persisted_files ≡ ((x == f.id) || mem_id x (row_ids m'.db))
  pub fresh : mem_id f.id (row_ids m'.db) ≡ false
  pub texts : (h : Bytes) → mem_text h m'.persisted_contents ≡ mem_text h (hashes m'.db)
  pub whole : All (λ g. Stored (hashes m'.db) g.content) m'.db.files
  pub stored : Stored m'.persisted_contents f.content
  pub more :
      (h : Bytes) → mem_text h m.persisted_contents ≡ true → mem_text h m'.persisted_contents ≡ true
  pub objects_kept : m'.objects ≡ m.objects
  pub files_kept : m'.files ≡ m.files
  pub persisted_more :
      (x : ℕ) → mem_id x m.persisted_files ≡ true → mem_id x m'.persisted_files ≡ true

-- With the identifier of the file in the cache.
abbrev pub begun : File → SourceManager → SourceManager
begun f m = record m { persisted_files = f.id ∷ m.persisted_files }

pub begun-IsBetween :
    (f : File) (m : SourceManager)
    → IsSynced m
    → mem_id f.id m.persisted_files ≡ false
    → Stored m.persisted_contents f.content
    → IsBetween f m (begun f m)
unfolding mem_id
begun-IsBetween f m s new h = record {
  ids = λ x. ap (λ b. (x == f.id) || b) (s.ids x);
  fresh = sym (s.ids f.id) ∙ new;
  texts = s.texts;
  whole = s.whole;
  stored = h;
  more = λ x e. e;
  objects_kept = refl;
  files_kept = refl;
  persisted_more = λ x e. ground (arith, e);
}

pub or_true : (a b : Bool) → b ≡ true → (a || b) ≡ true
or_true true b h = refl
or_true false b h = h

pub or_left : (a b : Bool) → a ≡ true → (a || b) ≡ true
or_left true b h = refl
or_left false b h = absurd (cc)

pub or_back : (a b c : Bool) → a ≡ b → (c || a) ≡ (b || (c || false))
or_back a true true e = refl
or_back a true false e = e
or_back a false true e = refl
or_back a false false e = e

-- With the content of the file in both.
abbrev pub with_content : File → SourceManager → FileContent → SourceManager
with_content f m c = record m {
  persisted_files = f.id ∷ m.persisted_files;
  persisted_contents = c.hash ∷ m.persisted_contents;
  db = record m.db { contents = m.db.contents ++ c ∷ [] };
}

pub with_content-IsBetween :
    (f : File) (m : SourceManager) (c : FileContent) (l : LazyContent)
    → IsSynced m
    → mem_id f.id m.persisted_files ≡ false
    → f.content ≡ some l
    → l.object_id ≡ c.hash
    → IsBetween f m (with_content f m c)
unfolding mem_id mem_text
with_content-IsBetween f m c l s new has same = record {
  ids = λ x. ap (λ b. (x == f.id) || b) (s.ids x);
  fresh = sym (s.ids f.id) ∙ new;
  texts = λ h. or_back _ _ (streq h c.hash) (s.texts h) ∙ sym (hashes-append h m.db c);
  whole =
      All-Stored-more (hashes m.db) _ m.db.files (λ h e. hashes-append h m.db c ∙ or_left _ _ e)
        s.whole;
  stored =
      subst (Stored (c.hash ∷ m.persisted_contents)) (sym has)
        (or_left _ _ (ap (λ x. streq x c.hash) same ∙ streq_refl c.hash));
  more = λ h e. or_true (streq h c.hash) _ e;
  objects_kept = refl;
  files_kept = refl;
  persisted_more = λ x e. or_true (x == f.id) _ e;
}

-- The state after the row was stored.
abbrev pub with_row : ℕ → File → SourceManager → SourceManager
with_row ptr f m = record m {
  db = record m.db { files = m.db.files ++ (record f { content = unloaded f.content }) ∷ [] };
  objects = set m.objects ptr (record f { content = unloaded f.content });
}

pub store_row-fresh :
    (ptr : ℕ) (f : File) (m : SourceManager)
    → mem_id f.id (row_ids m.db) ≡ false
    → store_row ptr f m ≡ with_row ptr f m
unfolding store_row persist_row
store_row-fresh ptr f m fresh = rw (store_row, persist_row, fresh) refl

pub with_row-IsSynced :
    (ptr : ℕ) (f : File) (m m' : SourceManager) → IsBetween f m m' → IsSynced (with_row ptr f m')
with_row-IsSynced ptr f m m' b = record {
  ids = λ x.
      (b.ids x
        ∙ (or_back _ _ (x == f.id) refl
            ∙ sym (row_ids-append x m'.db (record f { content = unloaded f.content }))));
  texts = b.texts;
  whole =
      All-append (λ g. Stored (hashes m'.db) g.content) m'.db.files _ b.whole
        (
          Stored-unloaded (hashes m'.db) f.content (
              Stored-more m'.persisted_contents (hashes m'.db) f.content
                (λ h e. sym (b.texts h) ∙ e) b.stored),
          tt,
        );
}

pub with_row-IsKeptBy :
    (ptr : ℕ) (f : File) (m m' : SourceManager)
    → get_elem? m.objects ptr ≡ some f
    → IsBetween f m m'
    → IsKeptBy m (with_row ptr f m')
with_row-IsKeptBy ptr f m m' at b = record {
  ready = λ j r. elim (get_elem?-set-cases m'.objects ptr j _ f r.file here (there j r.file r.at)) [
    | inl same ↦ record {
      file = r.file;
      at = same;
      loadable = Loadable-more _ _ r.file.content b.more r.loadable;
    }
    | inr (is, e) ↦ record {
      file = record f { content = unloaded f.content };
      at = e;
      loadable = Loadable-unloaded _ f.content b.stored;
    }
  ];
  persisted = λ j r.
      elim (get_elem?-set-cases m'.objects ptr j _ f r.file here (there j r.file r.at)) [
        | inl same ↦ record { file = r.file; at = same; row = b.persisted_more _ r.row }
        | inr (is, e) ↦ record {
          file = record f { content = unloaded f.content };
          at = e;
          row = subst (λ g. mem_id g.id m'.persisted_files ≡ true) is (b.persisted_more _ r.row);
        }
      ];
  files_kept = b.files_kept;
}
  where
    here : get_elem? m'.objects ptr ≡ some f
    here = ap (λ xs. get_elem? xs ptr) b.objects_kept ∙ at

    there : (j : ℕ) (g : File) → get_elem? m.objects j ≡ some g → get_elem? m'.objects j ≡ some g
    there j g e = ap (λ xs. get_elem? xs j) b.objects_kept ∙ e
