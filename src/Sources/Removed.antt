-- ===== src/Sources/Removed.antt =====
-- `removeFile` takes a content from the database only with the last file that has it.
use cc_base.Base.{
  ℕ, Bool, true, false, not, ◌&&◌, Option, none, some, List, [], ◌∷◌, ◌++◌, ◌≡◌, ◌≢◌, refl, sym, ap,
  ◌∙◌, subst, inl, inr, arith, map, All, ◌==◌, ==_refl, Bool-cases,
}
use cc_base.Cstring.{Bytes, streq}
use cc_base.Sources.Model.{LazyContent, File, FileContent, Database}
use cc_base.Sources.Keys.{mem_id, mem_text, erase_id, erase_key}
use cc_base.Sources.Manager.{SourceManager}
use cc_base.Sources.Store.{
  row_ids, hashes, erase_row, erase_content, erase_content_of, forget_content, remove_row,
  remove_file,
}
use cc_base.Sources.Last.{is_last_with, Decided, keeps, gives_up, removes_content-Decided}
use cc_base.Sources.Synced.{Stored, IsSynced}
use cc_base.Sources.Erased.{
  content_id, IsRow, mem_id-erase_id, mem_text-erase_text, row_ids-erase_row, hashes-erase_content,
  erase_row-All, All-drop, left_whole,
}

mem_row : (f : File) (rows : List File) → IsRow f rows → mem_id f.id (map (λ g. g.id) rows) ≡ true
unfolding mem_id
mem_row f rows r =
    ap (λ l. mem_id f.id (map (λ g. g.id) l)) r.split ∙ in_middle r.before r.after r.row r.same_id
  where
    in_middle :
        (before after : List File) (row : File)
        → row.id ≡ f.id
        → mem_id f.id (map (λ g. g.id) (before ++ row ∷ after)) ≡ true
    in_middle [] after row e =
        let hit : (f.id == row.id) ≡ true = ground arith in rw (mem_id, hit) refl
    in_middle (g ∷ before) after row e = elim (Bool-cases (f.id == g.id)) [
      | inl hit ↦ rw (mem_id, hit) refl
      | inr miss ↦ rw (mem_id, miss) (in_middle before after row e)
    ]

Stored-mem :
    (hs : List Bytes) (o : Option LazyContent) (h : Bytes)
    → Stored hs o
    → content_id o ≡ some h
    → mem_text h hs ≡ true
Stored-mem hs none h s e = absurd (cc)
Stored-mem hs (some c) h s e =
    let same : c.object_id ≡ h = cc in subst (λ i. mem_text i hs ≡ true) same s

-- The state after a removal.
abbrev removed : File → Option Bytes → SourceManager → Database → SourceManager
removed f lost m db = record {
  objects = m.objects;
  files = erase_key f.path m.files;
  persisted_files = erase_id f.id m.persisted_files;
  persisted_contents = forget_content lost m.persisted_contents;
  db = record db { files = erase_row f.id db.files };
}

-- What is proved of it.
record IsRemoved (f : File) (lost : Bytes → Bool) (m m' : SourceManager) : Type 0 where
  synced : IsSynced m'
  absent : mem_id f.id (row_ids m'.db) ≡ false
  others : (id : ℕ) → id ≢ f.id → mem_id id (row_ids m'.db) ≡ mem_id id (row_ids m.db)
  left : (x : Bytes) → mem_text x (hashes m'.db) ≡ (not (lost x) && mem_text x (hashes m.db))

ids_left :
    (f : File) (m : SourceManager) (x : ℕ)
    → mem_id x (map (λ g. g.id) (erase_row f.id m.db.files))
      ≡ (not (f.id == x) && mem_id x (row_ids m.db))
ids_left f m x =
    ap (mem_id x) (row_ids-erase_row f.id m.db.files) ∙ mem_id-erase_id x f.id (row_ids m.db)

removed-IsRemoved :
    (f : File) (others : List File) (lost : Option Bytes) (m : SourceManager)
    (contents : List FileContent)
    → IsSynced m
    → ((x : Bytes)
        → mem_text x (map (λ c. c.hash) contents)
          ≡ (not (is_last_with f others x) && mem_text x (hashes m.db)))
    → ((h : Bytes)
        → mem_text h (forget_content lost m.persisted_contents)
          ≡ mem_text h (map (λ c. c.hash) contents))
    → All (λ g. Stored (map (λ c. c.hash) contents) g.content) (erase_row f.id m.db.files)
    → IsRemoved f (is_last_with f others) m (removed f lost m (record m.db { contents = contents }))
removed-IsRemoved f others lost m contents s left texts whole = record {
  synced = record {
    ids = λ x.
        (mem_id-erase_id x f.id m.persisted_files
          ∙ (ap (λ b. not (f.id == x) && b) (s.ids x) ∙ sym (ids_left f m x)));
    texts = texts;
    whole = whole;
  };
  absent = ids_left f m f.id ∙ ap (λ b. not b && mem_id f.id (row_ids m.db)) (==_refl f.id);
  others = λ id ne.
      (let other : (f.id == id) ≡ false = ground (arith, ne) in
        ids_left f m id ∙ ap (λ b. not b && mem_id id (row_ids m.db)) other);
  left = left;
}

removes :
    (f : File) (m : SourceManager)
    → IsSynced m
    → (r : IsRow f m.db.files) → Decided f (r.before ++ r.after) m.db
    → (m' : SourceManager) × (remove_file f m ≡ some m')
      × IsRemoved f (is_last_with f (r.before ++ r.after)) m m'
unfolding remove_file erase_content_of remove_row
removes f m s r (keeps e stays) = (
  removed f none m m.db,
  rw (remove_file, e, remove_row, mem_row f m.db.files r) refl,
  removed-IsRemoved f (r.before ++ r.after) none m m.db.contents s
      (λ x. sym (ap (λ b. not b && mem_text x (hashes m.db)) (stays x))) s.texts
      (erase_row-All (λ g. Stored (hashes m.db) g.content) f.id m.db.files s.whole),
)
removes f m s r (gives_up h e one used id goes) =
    (let (here, _) =
        All-drop (λ g. Stored (hashes m.db) g.content) r.before r.after r.row
          (subst (All (λ g. Stored (hashes m.db) g.content)) r.split s.whole) in
      let known = Stored-mem (hashes m.db) r.row.content h here (r.same_content ∙ id) in
      let left = hashes-erase_content h m.db.contents in
      (
        removed f (some h) m (record m.db { contents = erase_content h m.db.contents }),
        rw (remove_file, e, erase_content_of, known, remove_row, mem_row f m.db.files r) refl,
        removed-IsRemoved f (r.before ++ r.after) (some h) m (erase_content h m.db.contents) s
            (λ x.
              (ap (mem_text x) left
                ∙ (mem_text-erase_text x h (hashes m.db)
                    ∙ sym (ap (λ b. not b && mem_text x (hashes m.db)) (goes x)))))
            (λ x.
              (mem_text-erase_text x h m.persisted_contents
                ∙ (ap (λ b. not (streq h x) && b) (s.texts x)
                    ∙ (sym (mem_text-erase_text x h (hashes m.db)) ∙ ap (mem_text x) (sym left)))))
            (subst (λ hs. All (λ g. Stored hs g.content) (erase_row f.id m.db.files)) (sym left)
              (left_whole h (hashes m.db) f m.db.files r one used s.whole)),
      ))

pub remove_file-IsSynced :
    (f : File) (m : SourceManager)
    → IsSynced m
    → (r : IsRow f m.db.files)
    → (m' : SourceManager) × (remove_file f m ≡ some m')
      × IsSynced m'
      × (mem_id f.id (row_ids m'.db) ≡ false)
      × ((id : ℕ) → id ≢ f.id → mem_id id (row_ids m'.db) ≡ mem_id id (row_ids m.db))
      × ((h : Bytes)
          → mem_text h (hashes m'.db)
            ≡ (not (is_last_with f (r.before ++ r.after) h) && mem_text h (hashes m.db)))
remove_file-IsSynced f m s r =
    let (m', run, d) = removes f m s r (removes_content-Decided f m.db r f.content refl) in
    (m', run, d.synced, d.absent, d.others, d.left)
