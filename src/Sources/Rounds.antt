-- ===== src/Sources/Rounds.antt =====
-- One round of the loop of `persistFiles`.
use cc_base.Base.{
  ℕ, true, false, Option, none, some, ◌≡◌, refl, sym, ap, ◌∙◌, subst, inl, inr, get_elem?, ==_refl,
  Bool-cases, Option-cases,
}
use cc_base.Sources.Model.{LazyContent, File, FileContent}
use cc_base.Sources.Keys.{mem_id, mem_text}
use cc_base.Sources.Manager.{SourceManager}
use cc_base.Sources.Store.{
  hashes, unloaded, load, persist_content, goes_on, store_content, try_store, persist_object,
  persist_file,
}
use cc_base.Sources.Synced.{Stored, IsSynced, Loadable, IsReady, IsPersisted, get_elem?-set-cases}
use cc_base.Sources.Copies.{
  IsWriting, IsWriting-refl, begun-IsTextOf, with_content-IsTextOf, with_row-IsWriting,
}
use cc_base.Sources.Between.{
  IsKeptBy, IsKeptBy-refl, IsBetween, begun, begun-IsBetween, or_left, with_content,
  with_content-IsBetween, with_row, store_row-fresh, with_row-IsSynced, with_row-IsKeptBy,
}

-- What a round of the loop does.
pub record IsStep (ptr : ℕ) (m m' : SourceManager) : Type 0 where
  pub synced : IsSynced m'
  pub kept : IsKeptBy m m'
  pub there : IsPersisted m' ptr
  pub writing : IsWriting ptr m m'

with_row-IsStep :
    (ptr : ℕ) (f : File) (m m' : SourceManager)
    → get_elem? m.objects ptr ≡ some f
    → IsBetween f m m'
    → IsWriting ptr m (with_row ptr f m')
    → IsStep ptr m (with_row ptr f m')
with_row-IsStep ptr f m m' at b w = record {
  writing = w;
  synced = with_row-IsSynced ptr f m m' b;
  kept = with_row-IsKeptBy ptr f m m' at b;
  there =
      let e =
        get_elem?-set-cases m'.objects ptr ptr (record f { content = unloaded f.content }) f f
          (ap (λ xs. get_elem? xs ptr) b.objects_kept ∙ at)
          (ap (λ xs. get_elem? xs ptr) b.objects_kept ∙ at) in
      elim e [
        | inl same ↦ record { file = f; at = same; row = row }
        | inr (_, same) ↦ record {
          file = record f { content = unloaded f.content };
          at = same;
          row = row;
        }
      ];
}
  where
    row : mem_id f.id m'.persisted_files ≡ true
    row = b.ids f.id ∙ or_left _ _ (==_refl f.id)

IsStep-old :
    (ptr : ℕ) (f : File) (m : SourceManager)
    → IsSynced m
    → get_elem? m.objects ptr ≡ some f
    → mem_id f.id m.persisted_files ≡ true
    → IsStep ptr m m
IsStep-old ptr f m s at row = record {
  synced = s;
  kept = IsKeptBy-refl m;
  there = record { file = f; at = at; row = row };
  writing = IsWriting-refl ptr m;
}

-- What the content of a new file leads to.
data Way (ptr : ℕ) (f : File) (m : SourceManager) : Type 0 where
  way :
      (m' : SourceManager)
      → IsBetween f m m'
      → store_content f (begun f m) ≡ some (goes_on m')
      → IsWriting ptr m (with_row ptr f m')
      → Way ptr f m

store_content-Way :
    (ptr : ℕ) (f : File) (m : SourceManager) (content : Option LazyContent)
    → get_elem? m.objects ptr ≡ some f
    → IsSynced m
    → mem_id f.id m.persisted_files ≡ false
    → f.content ≡ content
    → Loadable m.persisted_contents content
    → Way ptr f m
unfolding store_content load persist_content
store_content-Way ptr f m none at s new has l =
    way (begun f m) (begun-IsBetween f m s new (subst (Stored m.persisted_contents) (sym has) tt))
      (rw (store_content, has) refl)
      (with_row-IsWriting ptr f m (begun f m) at refl refl
        (λ text_of t. begun-IsTextOf text_of f m t))
store_content-Way ptr f m (some c) at s new has l =
    elim (Bool-cases (mem_text c.object_id m.persisted_contents)) [
      | inl old ↦
          way (begun f m)
            (begun-IsBetween f m s new (subst (Stored m.persisted_contents) (sym has) old))
            (rw (store_content, has, old) refl)
            (with_row-IsWriting ptr f m (begun f m) at refl refl
              (λ text_of t. begun-IsTextOf text_of f m t))
      | inr absent ↦ elim (Option-cases c.loaded) [
        | inl e ↦ elim l [ inl loaded ↦ absurd (loaded e) | inr stored ↦ absurd (cc) ]
        | inr (text, e) ↦
            let fc : FileContent = record { hash = c.object_id; content = text } in
            let unknown : mem_text c.object_id (hashes m.db) ≡ false =
              sym (s.texts c.object_id) ∙ absent in
            way (with_content f m fc) (with_content-IsBetween f m fc c s new has refl)
              (rw (store_content, has, absent, load, e, persist_content, unknown) refl)
              (with_row-IsWriting ptr f m (with_content f m fc) at refl refl
                (λ text_of. with_content-IsTextOf text_of ptr f m c text at has e))
      ]
    ]

-- A round of the loop goes through.
unfoldable pub Rounds : ℕ → SourceManager → Type 0
Rounds ptr m = (m' : SourceManager) × (persist_file ptr m ≡ some m') × IsStep ptr m m'

persist_new :
    (ptr : ℕ) (f : File) (m : SourceManager)
    → get_elem? m.objects ptr ≡ some f
    → mem_id f.id m.persisted_files ≡ false
    → Way ptr f m
    → Rounds ptr m
unfolding Rounds persist_file persist_object try_store
persist_new ptr f m at new (way m' b run w) = (
  with_row ptr f m',
  rw (persist_file, at, persist_object, new, try_store, run)
      (ap some (store_row-fresh ptr f m' b.fresh)),
  with_row-IsStep ptr f m m' at b w,
)

pub persist_file-Rounds : (ptr : ℕ) (m : SourceManager) → IsSynced m → IsReady m ptr → Rounds ptr m
unfolding Rounds persist_file persist_object
persist_file-Rounds ptr m s r = elim (Bool-cases (mem_id r.file.id m.persisted_files)) [
  | inl old ↦
      (m, rw (persist_file, r.at, persist_object, old) refl, IsStep-old ptr r.file m s r.at old)
  | inr new ↦
      persist_new ptr r.file m r.at new
        (store_content-Way ptr r.file m r.file.content r.at s new refl r.loadable)
]
