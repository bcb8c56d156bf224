-- ===== src/Sources/Cached.antt =====
-- What `getFile` puts into the cache.
use cc_base.Base.{
  bind-some, ℕ, zero, suc, Bool, Option, none, some, [], ◌∷◌, ◌++◌, ◌≡◌, refl, sym, ap, ◌∙◌, subst,
  inl, inr, length, Option-cases,
}
use cc_base.Cstring.{Bytes}
use cc_base.Sources.Model.{Disk}
use cc_base.Sources.Keys.{
  find_key, assign_key, assign_key-found, assign_key-stays, find_key-assign_key,
}
use cc_base.Sources.Manager.{
  SourceManager, GetFile, canonical_form, new_entry, get_create_parent, get_create_file_entry,
  get_file,
}
use cc_base.Sources.Parents.{
  IsObject, IsCached, Stays, IsFetched, get_elem?-last, IsObject-append, Fetches, IsParent,
  get_create_parent-IsParent,
}

-- After the entry of a path was found or made.
record IsEntry (disk : Disk) (path : Bytes) (m : SourceManager) (r : ℕ × SourceManager)
    : Type 0 where
  cached : IsCached disk r.1
  object : IsObject disk r.1.objects path r.0
  stays : Stays m r.1
  db_kept : r.1.db ≡ m.db
  old : (ptr : ℕ) → find_key m.files path ≡ some ptr → r.0 ≡ ptr

made-IsEntry :
    (disk : Disk) (path : Bytes) (w : Bool) (m m' : SourceManager) (parent : Option ℕ)
    → find_key m.files path ≡ none
    → IsParent disk path m (parent, m')
    → IsEntry disk path m
        (length m'.objects, record m' { objects = m'.objects ++ new_entry disk path w parent ∷ [] })
unfolding new_entry
made-IsEntry disk path w m m' parent fresh d = record {
  cached = λ p ptr h.
      (IsObject-append disk m'.objects (new_entry disk path w parent ∷ []) p ptr
        (d.cached p ptr h));
  object = record {
    file = new_entry disk path w parent;
    at = get_elem?-last m'.objects (new_entry disk path w parent);
    path_is = refl;
    id_is = refl;
    parent_is = d.parent_is;
  };
  stays = d.stays;
  db_kept = d.db_kept;
  old = λ ptr h. absurd (cc);
}

get_create_file_entry-IsEntry :
    (disk : Disk) (g : GetFile) (path : Bytes) (w : Bool) (m : SourceManager)
    (r : ℕ × SourceManager)
    → Fetches disk g
    → IsCached disk m
    → get_create_file_entry disk g path w m ≡ some r
    → IsEntry disk path m r
unfolding get_create_file_entry
get_create_file_entry-IsEntry disk g path w m r fetches cached e =
    elim (Option-cases (find_key m.files path)) [
      | inr (ptr, hit) ↦
          let f : some (ptr, m) ≡ some r = rw (get_create_file_entry, hit) at e in
          let same : (ptr, m) ≡ r = cc in
          subst (IsEntry disk path m) same (record {
            cached = cached;
            object = cached path ptr hit;
            stays = λ p q h. h;
            db_kept = refl;
            old = λ q h. cc;
          })
      | inl miss ↦
          let f = rw (get_create_file_entry, miss) at e in
          let ((parent, m'), got, h) = bind-some (get_create_parent disk g path m) _ r f in
          let same : (
            length m'.objects,
            record m' { objects = m'.objects ++ new_entry disk path w parent ∷ [] },
          )
              ≡ r =
            cc in
          subst (IsEntry disk path m) same (
            made-IsEntry disk path w m m' parent miss (
              get_create_parent-IsParent disk g path (disk.parent_path path) m (parent, m') fetches
                cached refl got))
    ]

entry-IsFetched :
    (disk : Disk) (p : Bytes) (m : SourceManager) (ptr : ℕ) (m' : SourceManager)
    → IsEntry disk (canonical_form disk p).0 m (ptr, m')
    → IsFetched disk p m ptr
        (record m' { files = assign_key (canonical_form disk p).0 ptr m'.files })
entry-IsFetched disk p m ptr m' d = record {
  cached = λ q old h. elim (assign_key-found m'.files (canonical_form disk p).0 q ptr old h) [
    | inl (same, is) ↦
        subst (λ x. IsObject disk m'.objects q x) is
          (subst (λ x. IsObject disk m'.objects x ptr) same d.object)
    | inr there ↦ d.cached q old there
  ];
  found = find_key-assign_key m'.files (canonical_form disk p).0 ptr;
  stays = λ q old h.
      (assign_key-stays m'.files (canonical_form disk p).0 q ptr old (d.stays q old h)
        (λ same. d.old old (ap (find_key m.files) same ∙ h)));
  db_kept = d.db_kept;
}

get_file-Fetches : (disk : Disk) (n : ℕ) → Fetches disk (get_file disk n)
unfolding get_file
get_file-Fetches disk zero p m ptr m' cached e = absurd (cc)
get_file-Fetches disk (suc n) p m ptr m' cached e =
    let ((ptr1, m1), got, h) =
      bind-some
        (get_create_file_entry disk (λ q s. get_file disk n q s) (canonical_form disk p).0
          (canonical_form disk p).1 m)
        _ (ptr, m') e in
    let r : ℕ × SourceManager =
      (ptr1, record m1 { files = assign_key (canonical_form disk p).0 ptr1 m1.files }) in
    let same : r ≡ (ptr, m') = cc in
    subst (λ r. IsFetched disk p m r.0 r.1) same
      (entry-IsFetched disk p m ptr1 m1 (
        get_create_file_entry-IsEntry disk (λ q s. get_file disk n q s) (canonical_form disk p).0
          (canonical_form disk p).1 m (ptr1, m1) (get_file-Fetches disk n) cached got))

cached_entry :
    (disk : Disk) (n : ℕ) (p : Bytes) (m : SourceManager) (ptr : ℕ)
    → find_key m.files (canonical_form disk p).0 ≡ some ptr
    → (after : SourceManager) × (get_file disk (suc n) p m ≡ some (ptr, after))
unfolding get_file get_create_file_entry
cached_entry disk n p m ptr e = (
  record m { files = assign_key (canonical_form disk p).0 ptr m.files },
  rw (get_file, get_create_file_entry, e) refl,
)

-- A call of `get_file` that returns, while no other thread makes one, leaves each path in the cache with its own file, which has the
-- hash of the path as its identifier and that of its parent's canonical form as its parent's. The
-- file of every path that was there, and the database, are as before. From then on, every path with
-- the same canonical form leads to the same object.
pub get_file-IsFetched :
    (disk : Disk) (n : ℕ) (p : Bytes) (m : SourceManager) (ptr : ℕ) (m' : SourceManager)
    → IsCached disk m
    → get_file disk n p m ≡ some (ptr, m')
    → IsFetched disk p m ptr m'
      × ((k : ℕ) (q : Bytes)
          → (canonical_form disk p).0 ≡ (canonical_form disk q).0
          → (after : SourceManager) × (get_file disk (suc k) q m' ≡ some (ptr, after)))
get_file-IsFetched disk n p m ptr m' cached e =
    let d = get_file-Fetches disk n p m ptr m' cached e in
    (d, λ k q same. cached_entry disk k q m' ptr (ap (find_key m'.files) (sym same) ∙ d.found))
