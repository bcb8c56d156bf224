-- ===== src/Sources/Persisted.antt =====
-- `persistFiles` brings the whole cache to the database.
use cc_base.Base.{
  ℕ, suc, ◌++◌, append_assoc, append-nil, some, List, [], ◌∷◌, ◌≡◌, refl, sym, ap, ◌∙◌, inl, inr,
  All,
}
use cc_base.Cstring.{Bytes}
use cc_base.Sources.Model.{File}
use cc_base.Sources.Manager.{SourceManager}
use cc_base.Sources.Store.{persist_object, persist_file, persist_each, persist_files}
use cc_base.Sources.Synced.{IsSynced, IsReady, IsPersisted}
use cc_base.Sources.Copies.{row_of, IsTextOf, IsWriting, IsCopy, IsGrown}
use cc_base.Sources.Rounds.{Rounds, persist_file-Rounds}
use cc_base.Sources.Between.{All-map, IsKeptBy, IsKeptBy-refl, IsKeptBy-trans}

-- A round in front of the others.
grows :
    (path : Bytes) (ptr : ℕ) (files : List (Bytes × ℕ)) (m m' m'' : SourceManager)
    → IsWriting ptr m m'
    → IsGrown files m' m''
    → IsGrown ((path, ptr) ∷ files) m m''
grows path ptr files m m' m'' w g = elim w.rows [
  | inl same ↦ record {
    added = g.added;
    rows = g.rows ∙ ap (λ rows. rows ++ g.added) same;
    copies = later;
  }
  | inr (f, at, one) ↦ record {
    added = row_of f ∷ g.added;
    rows =
        g.rows
        ∙ (ap (λ rows. rows ++ g.added) one ∙ append_assoc m.db.files (row_of f ∷ []) g.added);
    copies = (
      record { place = 0; path = path; ptr = ptr; file = f; listed = refl; at = at; is = refl },
      later,
    );
  }
]
  where
    earlier : (row : File) → IsCopy files m' row → IsCopy ((path, ptr) ∷ files) m row
    earlier row c =
        let (f, at, same) = w.objects c.ptr c.file c.at in
        record {
          place = suc c.place;
          path = c.path;
          ptr = c.ptr;
          file = f;
          listed = c.listed;
          at = at;
          is = c.is ∙ same;
        }

    later : All (IsCopy ((path, ptr) ∷ files) m) g.added
    later = All-map (IsCopy files m') (IsCopy ((path, ptr) ∷ files) m) earlier g.added g.copies

-- The loop over a list of files.
persist_each-All :
    (files : List (Bytes × ℕ)) (m : SourceManager)
    → IsSynced m
    → All (λ p. IsReady m p.1) files
    → (m' : SourceManager) × (persist_each files m ≡ some m')
      × IsSynced m'
      × IsKeptBy m m'
      × All (λ p. IsPersisted m' p.1) files
      × IsGrown files m m'
      × ((text_of : Bytes → Bytes) → IsTextOf text_of m → IsTextOf text_of m')
unfolding persist_each Rounds
persist_each-All [] m s ready = (
  m,
  refl,
  s,
  IsKeptBy-refl m,
  tt,
  record { added = []; rows = sym (append-nil m.db.files); copies = tt },
  λ text_of t. t,
)
persist_each-All ((path, ptr) ∷ files) m s ready =
    (let (m', run, step) = persist_file-Rounds ptr m s ready.0 in
      let (m'', runs, synced, kept, there, grown, texts) = persist_each-All files m' step.synced (
        All-map (λ p. IsReady m p.1) (λ p. IsReady m' p.1) (λ p. step.kept.ready p.1) files
          ready.1) in
      (
        m'',
        rw (persist_each, run) runs,
        synced,
        IsKeptBy-trans step.kept kept,
        (kept.persisted ptr step.there, there),
        grows path ptr files m m' m'' step.writing grown,
        λ text_of t. texts text_of (step.writing.texts text_of t),
      ))

persist_each-idle :
    (files : List (Bytes × ℕ)) (m : SourceManager)
    → All (λ p. IsPersisted m p.1) files
    → persist_each files m ≡ some m
unfolding persist_each persist_file persist_object
persist_each-idle [] m h = refl
persist_each-idle ((path, ptr) ∷ files) m h =
    rw (persist_each, persist_file, h.0.at, persist_object, h.0.row) (persist_each-idle files m h.1)

-- The files of the cache are in the database, each with its content, and the cache knows it.
pub record IsStored (files : List (Bytes × ℕ)) (m : SourceManager) : Type 0 where
  pub synced : IsSynced m
  pub cache_kept : m.files ≡ files
  pub ready : All (λ p. IsReady m p.1) files
  pub persisted : All (λ p. IsPersisted m p.1) files

-- From a state in which the cache and the database agree, the content of each file in the cache can
-- be loaded, and each text that is in memory or stored is the one of its hash, `persist_files`
-- returns. Then the identifier of each file of the cache is in the table; the rows are the old ones
-- and behind them copies of files of the cache; each content that a row refers to is stored, and
-- each stored text is the one of its hash. The cache and the database still agree, and a second call
-- changes nothing.
pub persist_files-IsStored :
    (text_of : Bytes → Bytes) (m : SourceManager)
    → IsSynced m
    → All (λ p. IsReady m p.1) m.files
    → IsTextOf text_of m
    → (m' : SourceManager) × (persist_files m ≡ some m')
      × IsStored m.files m'
      × IsGrown m.files m m'
      × IsTextOf text_of m'
      × (persist_files m' ≡ some m')
unfolding persist_files
persist_files-IsStored text_of m s ready held =
    (let (m', run, synced, kept, there, grown, texts) = persist_each-All m.files m s ready in
      (
        m',
        run,
        record {
          synced = synced;
          cache_kept = kept.files_kept;
          ready =
              All-map (λ p. IsReady m p.1) (λ p. IsReady m' p.1) (λ p. kept.ready p.1) m.files
                ready;
          persisted = there;
        },
        grown,
        texts text_of held,
        ap (λ fs. persist_each fs m') kept.files_kept ∙ persist_each-idle m.files m' there,
      ))
