-- ===== src/Sources/Taken.antt =====
-- What a removal takes from the cache and from the rows.
use cc_base.Base.{
  ℕ, false, Option, none, some, List, [], ◌∷◌, ◌++◌, ◌≡◌, ◌≢◌, refl, ap, sym, ◌∙◌, subst, inl, inr,
  arith, ◌==◌, Bool-cases, if◌then◌else◌, bind-some,
}
use cc_base.Cstring.{Bytes, streq}
use cc_base.Cstring.Laws.{streq→eq}
use cc_base.Sources.Model.{File, Database}
use cc_base.Sources.Keys.{find_key, erase_key, mem_id, mem_text, erase_id}
use cc_base.Sources.Manager.{SourceManager}
use cc_base.Sources.Store.{
  row_ids, hashes, erase_row, removes_content, erase_content_of, remove_row, remove_file,
  erase_content, forget_content,
}
use cc_base.Sources.Erased.{IsRow}

pub find_key-erase_key_other :
    (m : List (Bytes × ℕ)) (key other : Bytes)
    → streq key other ≡ false
    → find_key (erase_key key m) other ≡ find_key m other
unfolding find_key erase_key
find_key-erase_key_other [] key other ne = refl
find_key-erase_key_other ((k, v) ∷ m) key other ne =
    let rest = find_key-erase_key_other m key other ne in
    elim (Bool-cases (streq k key)) [
      | inl hit ↦
          let miss : streq k other ≡ false = ap (λ x. streq x other) (streq→eq k key hit) ∙ ne in
          rw (hit, miss) rest
      | inr other_key ↦ rw other_key (ap (λ r. if streq k other then some v else r) rest)
    ]

erase_row-append :
    (id : ℕ) (xs ys : List File) → erase_row id (xs ++ ys) ≡ erase_row id xs ++ erase_row id ys
unfolding erase_row
erase_row-append id [] ys = refl
erase_row-append id (x ∷ xs) ys = ground (arith, erase_row-append id xs ys)

pub IsRow-erase_row :
    (f : File) (rows : List File) (id : ℕ) → f.id ≢ id → IsRow f rows → IsRow f (erase_row id rows)
unfolding erase_row
IsRow-erase_row f rows id ne r =
    let stays : (id == r.row.id) ≡ false = ground (arith, r.same_id, ne) in
    record {
      before = erase_row id r.before;
      row = r.row;
      after = erase_row id r.after;
      split =
          ap (erase_row id) r.split
          ∙ (erase_row-append id r.before (r.row ∷ r.after)
              ∙ ap
                  (λ b.
                    erase_row id r.before
                    ++ (if b then erase_row id r.after else r.row ∷ erase_row id r.after))
                  stays);
      same_id = r.same_id;
      same_content = r.same_content;
    }

erase_content_of-files :
    (lost : Option Bytes) (db db' : Database)
    → erase_content_of lost db ≡ some db'
    → db'.files ≡ db.files
unfolding erase_content_of
erase_content_of-files none db db' e = let same : db ≡ db' = cc in sym (ap (λ d. d.files) same)
erase_content_of-files (some hash) db db' e = elim (Bool-cases (mem_text hash (hashes db))) [
  | inl there ↦
      let q : some (record db { contents = erase_content hash db.contents }) ≡ some db' =
        rw (erase_content_of, there) at e in
      let same : record db { contents = erase_content hash db.contents } ≡ db' = cc in
      sym (ap (λ (d : Database). d.files) same)
  | inr missing ↦ absurd (cc (rw (erase_content_of, missing) at e))
]

-- What a removal does to the objects, to the cache and to the rows.
abbrev pub HasRemoved : File → SourceManager → Database → SourceManager → Type 0
HasRemoved f m db m' =
    (m'.objects ≡ m.objects)
    × (m'.files ≡ erase_key f.path m.files)
    × (m'.db.files ≡ erase_row f.id db.files)

remove_row-HasRemoved :
    (f : File) (lost : Option Bytes) (m : SourceManager) (db : Database) (m' : SourceManager)
    → remove_row f lost m db ≡ some m'
    → HasRemoved f m db m'
unfolding remove_row
remove_row-HasRemoved f lost m db m' e = elim (Bool-cases (mem_id f.id (row_ids db))) [
  | inl there ↦
      let after : SourceManager = record {
        objects = m.objects;
        files = erase_key f.path m.files;
        persisted_files = erase_id f.id m.persisted_files;
        persisted_contents = forget_content lost m.persisted_contents;
        db = record db { files = erase_row f.id db.files };
      } in
      let q : some after ≡ some m' = rw (remove_row, there) at e in
      let same : after ≡ m' = cc in subst (HasRemoved f m db) same (refl, refl, refl)
  | inr missing ↦ absurd (cc (rw (remove_row, missing) at e))
]

pub remove_file-HasRemoved :
    (f : File) (m m' : SourceManager) → remove_file f m ≡ some m' → HasRemoved f m m.db m'
unfolding remove_file
remove_file-HasRemoved f m m' e =
    let (db, erased, row) =
      bind-some (erase_content_of (removes_content f m.db) m.db)
        (remove_row f (removes_content f m.db) m) m' e in
    let (objects, files, rows) = remove_row-HasRemoved f (removes_content f m.db) m db m' row in
    (
      objects,
      files,
      rows ∙ ap (erase_row f.id) (erase_content_of-files (removes_content f m.db) m.db db erased),
    )
