-- ===== src/Metrics/Incremental.antt =====
-- What an incremental run makes of the table of metrics.
use cc_base.Base.{
  ℕ, suc, Bool, true, false, not, ◌&&◌, ◌||◌, some, List, [], ◌∷◌, ◌++◌, ◌≡◌, refl, ap, ap₂, sym,
  ◌∙◌, inl, inr, arith, ◌==◌, Bool-cases, if◌then◌else◌, map,
}
use cc_base.Sources.Model.{File, Database}
use cc_base.Sources.Keys.{find_key, mem_id}
use cc_base.Sources.Erased.{mem_id-erase_id}
use cc_base.Sources.Status.{Statuses}
use cc_base.Metrics.{Loc}
use cc_base.Metrics.Parser.{
  MetricsRow, MetricsParser, MetricsType, original_loc, nonblank_loc, code_loc, make_parser,
  metric_row, loc_rows, persist_loc, get_loc_from_file, count_file, is_stale, erase_rows,
  cleanup_file, cleanup_files, cleanup_database,
}

-- The rows of a file.
pub rows_of : ℕ → List MetricsRow → List MetricsRow
rows_of file [] = []
rows_of file (r ∷ rows) = let rest = rows_of file rows in if r.file == file then r ∷ rest else rest

rows_of-append :
    (id : ℕ) (xs ys : List MetricsRow) → rows_of id (xs ++ ys) ≡ rows_of id xs ++ rows_of id ys
unfolding rows_of
rows_of-append id [] ys = refl
rows_of-append id (r ∷ xs) ys = ground (arith, rows_of-append id xs ys)

rows_of-erase_rows :
    (id file : ℕ) (rows : List MetricsRow)
    → rows_of id (erase_rows file rows) ≡ (if file == id then [] else rows_of id rows)
unfolding rows_of erase_rows
rows_of-erase_rows id file [] = ground arith
rows_of-erase_rows id file (r ∷ rows) = ground (arith, rows_of-erase_rows id file rows)

rows_of-metric_row :
    (id : ℕ) (kind : MetricsType) (m : ℕ) → rows_of id (metric_row id kind m) ≡ metric_row id kind m
unfolding rows_of metric_row
rows_of-metric_row id kind m = ground arith

-- A file without an entry of the cache has no rows.
make_parser-rows :
    (rows : List MetricsRow) (id : ℕ)
    → mem_id id (make_parser rows).file_id_cache ≡ false
    → rows_of id rows ≡ []
unfolding make_parser mem_id rows_of
make_parser-rows [] id h = refl
make_parser-rows (r ∷ rows) id h = ground (arith, h, make_parser-rows rows id)

-- Whether a file with this number is stale.
pub touched : Statuses → List File → ℕ → Bool
unfolding is_stale
touched statuses [] id = false
touched statuses (f ∷ files) id =
    f.id == id && is_stale (find_key statuses f.path) || touched statuses files id

module _ (statuses : Statuses) where
  rows-cleanup_file :
      (f : File) (p : MetricsParser) (id : ℕ)
      → rows_of id (cleanup_file statuses f p).rows
        ≡ (if f.id == id && is_stale (find_key statuses f.path) then [] else rows_of id p.rows)
  unfolding cleanup_file
  rows-cleanup_file f p id = elim (Bool-cases (is_stale (find_key statuses f.path))) [
    | inl stale ↦ rw (cleanup_file, stale) (ground (arith, rows_of-erase_rows id f.id p.rows))
    | inr fresh ↦ rw (cleanup_file, fresh) (ground arith)
  ]

  cache-cleanup_file :
      (f : File) (p : MetricsParser) (id : ℕ)
      → mem_id id (cleanup_file statuses f p).file_id_cache
        ≡ (mem_id id p.file_id_cache && not (f.id == id && is_stale (find_key statuses f.path)))
  unfolding cleanup_file
  cache-cleanup_file f p id = elim (Bool-cases (is_stale (find_key statuses f.path))) [
    | inl stale ↦ rw (cleanup_file, stale) (ground (arith, mem_id-erase_id id f.id p.file_id_cache))
    | inr fresh ↦ rw (cleanup_file, fresh) (ground arith)
  ]

  rows-cleanup_files :
      (cache : List ℕ) (files : List File) (p : MetricsParser) (id : ℕ)
      → rows_of id (cleanup_files statuses cache files p).rows
        ≡ (if mem_id id cache && touched statuses files id then [] else rows_of id p.rows)
  unfolding cleanup_files touched
  rows-cleanup_files cache [] p id = ground arith
  rows-cleanup_files cache (f ∷ files) p id =
      let same : f.id ≡ id → mem_id f.id cache ≡ mem_id id cache =
        λ q. ap (λ x. mem_id x cache) q in
      elim (Bool-cases (mem_id f.id cache)) [
        | inl known ↦
            rw (cleanup_files, known)
              (ground (
                arith,
                rows-cleanup_files cache files (cleanup_file statuses f p) id,
                rows-cleanup_file f p id,
                same,
                known,
              ))
        | inr other ↦
            rw (cleanup_files, other)
              (ground (arith, rows-cleanup_files cache files p id, same, other))
      ]

  cache-cleanup_files :
      (cache : List ℕ) (files : List File) (p : MetricsParser) (id : ℕ)
      → mem_id id (cleanup_files statuses cache files p).file_id_cache
        ≡ (mem_id id p.file_id_cache && not (mem_id id cache && touched statuses files id))
  unfolding cleanup_files touched
  cache-cleanup_files cache [] p id = ground arith
  cache-cleanup_files cache (f ∷ files) p id =
      let same : f.id ≡ id → mem_id f.id cache ≡ mem_id id cache =
        λ q. ap (λ x. mem_id x cache) q in
      elim (Bool-cases (mem_id f.id cache)) [
        | inl known ↦
            rw (cleanup_files, known)
              (ground (
                arith,
                cache-cleanup_files cache files (cleanup_file statuses f p) id,
                cache-cleanup_file f p id,
                same,
                known,
              ))
        | inr other ↦
            rw (cleanup_files, other)
              (ground (arith, cache-cleanup_files cache files p id, same, other))
      ]

  -- What the cleanup leaves of the table, and of the cache.
  rows-cleanup_database :
      (files : List File) (rows : List MetricsRow) (id : ℕ)
      → rows_of id (cleanup_database statuses files (make_parser rows)).rows
        ≡ (if touched statuses files id then [] else rows_of id rows)
  unfolding cleanup_database make_parser
  rows-cleanup_database files rows id = ground (
    arith,
    rows-cleanup_files (map (λ r. r.file) rows) files (make_parser rows) id,
    make_parser-rows rows id,
  )

  cache-cleanup_database :
      (files : List File) (p : MetricsParser) (id : ℕ)
      → mem_id id (cleanup_database statuses files p).file_id_cache
        ≡ (mem_id id p.file_id_cache && not (touched statuses files id))
  unfolding cleanup_database
  cache-cleanup_database files p id = ground (arith, cache-cleanup_files p.file_id_cache files p id)

rows_of-loc_rows : (l : Loc) (id : ℕ) → rows_of id (loc_rows l id) ≡ loc_rows l id
unfolding loc_rows
rows_of-loc_rows l id =
    let code = metric_row id code_loc l.code_lines in
    let nonblank = metric_row id nonblank_loc l.nonblank_lines in
    let original = metric_row id original_loc l.original_lines in
    rows_of-append id code (nonblank ++ original)
    ∙ (ap (λ x. x ++ rows_of id (nonblank ++ original))
          (rows_of-metric_row id code_loc l.code_lines)
        ∙ ap (λ x. code ++ x)
            (rows_of-append id nonblank original
              ∙ ap₂ ◌++◌ (rows_of-metric_row id nonblank_loc l.nonblank_lines)
                  (rows_of-metric_row id original_loc l.original_lines)))

count_file-new :
    (n : ℕ) (db : Database) (f : File) (p : MetricsParser) (l : Loc)
    → get_loc_from_file n db f ≡ some l
    → mem_id f.id p.file_id_cache ≡ false
    → rows_of f.id p.rows ≡ []
    → (q : MetricsParser) × (count_file n db (some f) p ≡ some q)
      × (rows_of f.id q.rows ≡ loc_rows l f.id)
unfolding count_file persist_loc
count_file-new n db f p l e new empty = (
  record (persist_loc l f.id p) { visited_file_count = suc p.visited_file_count },
  rw (count_file, new, e) refl,
  rows_of-append f.id p.rows (loc_rows l f.id)
      ∙ (ap (λ x. x ++ rows_of f.id (loc_rows l f.id)) empty ∙ rows_of-loc_rows l f.id),
)

-- If the text of a file can be counted, then after the cleanup of the table with which the parser
-- was made the callback leaves these rows of the file: the new ones if a file with its number is
-- modified or deleted or has another action, or if it had none, and else the old ones.
pub count_file-cleanup_database :
    (statuses : Statuses) (files : List File) (rows : List MetricsRow) (n : ℕ) (db : Database)
    (f : File) (l : Loc)
    → get_loc_from_file n db f ≡ some l
    → (q : MetricsParser) × (count_file n db
          (some f)
          (cleanup_database statuses files (make_parser rows))
        ≡ some q)
      × (rows_of f.id q.rows ≡ (
          if touched statuses files f.id || not (mem_id f.id (make_parser rows).file_id_cache)
          then loc_rows l f.id
          else rows_of f.id rows))
unfolding count_file
count_file-cleanup_database statuses files rows n db f l e =
    let p = cleanup_database statuses files (make_parser rows) in
    let cached = cache-cleanup_database statuses files (make_parser rows) f.id in
    let kept = rows-cleanup_database statuses files rows f.id in
    elim (Bool-cases (mem_id f.id p.file_id_cache)) [
      | inl known ↦ (p, rw (count_file, known) refl, ground (arith, known, cached, kept))
      | inr new ↦
          let empty : rows_of f.id p.rows ≡ [] =
            ground (arith, new, cached, kept, make_parser-rows rows f.id) in
          let (q, counts, new_rows) = count_file-new n db f p l e new empty in
          let again : (touched statuses files f.id
                || not (mem_id f.id (make_parser rows).file_id_cache))
              ≡ true =
            ground (arith, new, cached) in
          (
            q,
            counts,
            new_rows ∙ sym (ap (λ b. if b then loc_rows l f.id else rows_of f.id rows) again),
          )
    ]
