-- ===== src/Sources/Last.antt =====
-- When `removeFile` takes the content along: the file is the last one that has it.
use cc_base.Base.{
  suc, Bool, true, false, ◌&&◌, Option, none, some, List, ◌∷◌, ◌++◌, ◌≡◌, refl, sym, ap, ◌∙◌, inl,
  inr, arith, ◌==◌, Bool-cases,
}
use cc_base.Cstring.{Bytes, streq}
use cc_base.Cstring.Laws.{streq_refl, streq→eq}
use cc_base.Sources.Model.{LazyContent, File, Database}
use cc_base.Sources.Store.{has_content, references, removes_content}
use cc_base.Sources.Erased.{content_id, IsRow, references-append, has_content-id_test, id_test}

-- Whether the file has the content, and no file of a list.
abbrev pub is_last_with : File → List File → Bytes → Bool
is_last_with f others h = has_content h f && (references h others == 0)

-- What `removes_content` decides.
pub data Decided (f : File) (others : List File) (db : Database) : Type 0 where
  keeps :
      removes_content f db ≡ none
      → ((x : Bytes) → is_last_with f others x ≡ false)
      → Decided f others db
  gives_up :
      (h : Bytes)
      → removes_content f db ≡ some h
      → references h db.files ≡ 1
      → has_content h f ≡ true
      → content_id f.content ≡ some h
      → ((x : Bytes) → is_last_with f others x ≡ streq h x)
      → Decided f others db

-- The others that have a content are one less than all, if the file has it.
counts_others :
    (f : File) (rows : List File) (r : IsRow f rows) (h : Bytes)
    → has_content h f ≡ true
    → references h rows ≡ suc (references h (r.before ++ r.after))
unfolding references
counts_others f rows r h used =
    let used_row : has_content h r.row ≡ true =
      has_content-id_test h r.row
      ∙ (ap (id_test h) r.same_content ∙ (sym (has_content-id_test h f) ∙ used)) in
    let q : references h (r.row ∷ r.after) ≡ suc (references h r.after) =
      rw (references, used_row) refl in
    ap (references h) r.split
    ∙ omega (
      arith,
      q,
      references-append h r.before r.after,
      references-append h r.before (r.row ∷ r.after),
    )

pub removes_content-Decided :
    (f : File) (db : Database) (r : IsRow f db.files) (o : Option LazyContent)
    → f.content ≡ o
    → Decided f (r.before ++ r.after) db
unfolding removes_content
removes_content-Decided f db r none e =
    keeps (rw (removes_content, e) refl) (λ x. rw (has_content, e) refl)
removes_content-Decided f db r (some c) e =
    elim (Bool-cases (references c.object_id db.files == 1)) [
      | inr several ↦ keeps (rw (removes_content, e, several) refl) (λ x.
          rw (has_content, e)
            (elim (Bool-cases (streq c.object_id x)) [
              | inr other ↦ rw other refl
              | inl same ↦ rw same (left_of x same several)
            ]))
      | inl single ↦
          gives_up c.object_id (rw (removes_content, e, single) refl) (ground (arith, single))
            (rw (has_content, e) (streq_refl c.object_id)) (ap content_id e)
            (λ x.
              rw (has_content, e)
                (elim (Bool-cases (streq c.object_id x)) [
                  | inr other ↦ rw other refl
                  | inl same ↦ rw same (none_of x same single)
                ]))
    ]
  where
    count :
        (x : Bytes)
        → streq c.object_id x ≡ true
        → references c.object_id db.files ≡ suc (references x (r.before ++ r.after))
    count x same =
        ap (λ h. references h db.files) (streq→eq c.object_id x same)
        ∙ counts_others f db.files r x (rw (has_content, e) same)

    left_of :
        (x : Bytes)
        → streq c.object_id x ≡ true
        → (references c.object_id db.files == 1) ≡ false
        → (references x (r.before ++ r.after) == 0) ≡ false
    left_of x same several = ground (arith, count x same, several)

    none_of :
        (x : Bytes)
        → streq c.object_id x ≡ true
        → (references c.object_id db.files == 1) ≡ true
        → (references x (r.before ++ r.after) == 0) ≡ true
    none_of x same single = ground (arith, count x same, single)
