-- ===== src/Sources/Statuses.antt =====
-- The loop of `ParserContext` gives each file of the cache its status.
use cc_base.Base.{
  ℕ, true, false, none, some, List, [], ◌∷◌, ◌≡◌, refl, sym, ap, ◌∙◌, subst, inl, inr, get_elem?,
  if◌then◌else◌, All, Bool-cases, Option-cases,
}
use cc_base.Cstring.{Bytes, streq}
use cc_base.Cstring.Laws.{streq→eq}
use cc_base.Sources.Model.{File, Disk}
use cc_base.Sources.Keys.{find_key}
use cc_base.Sources.Manager.{SourceManager}
use cc_base.Sources.Erased.{streq_sym}
use cc_base.Sources.Status.{Statuses, add_statuses, file_status}
use cc_base.Sources.Incremental.{expected, expected_at, IsEntry, Distinct, or_else, Adds, round}

find_key-absent :
    (files : List (Bytes × ℕ)) (key : Bytes)
    → All (λ q. streq key q.0 ≡ false) files
    → find_key files key ≡ none
unfolding find_key
find_key-absent [] key h = refl
find_key-absent ((k, v) ∷ files) key h =
    let miss : streq k key ≡ false = streq_sym k key ∙ h.0 in
    rw miss (find_key-absent files key h.1)

-- No path of the list has a status.
abbrev Fresh : Statuses → List (Bytes × ℕ) → Type 0
Fresh statuses files = All (λ q. find_key statuses q.0 ≡ none) files

Adds-Fresh :
    (disk : Disk) (f : File) (statuses after : Statuses) (files : List (Bytes × ℕ))
    → Adds disk f statuses after
    → All (λ q. streq f.path q.0 ≡ false) files
    → Fresh statuses files
    → Fresh after files
Adds-Fresh disk f statuses after [] adds d h = tt
Adds-Fresh disk f statuses after ((k, v) ∷ files) adds d h = (
  adds k
      ∙ ap (λ b. if b then or_else (expected disk f) (find_key statuses k) else find_key statuses k)
          d.0
      ∙ h.0,
  Adds-Fresh disk f statuses after files adds d.1 h.1,
)

-- The status of a path after a round and the rest of the loop.
after_round :
    (disk : Disk) (objects : List File) (f : File) (key : Bytes) (ptr : ℕ)
    (files : List (Bytes × ℕ)) (statuses after : Statuses) (path : Bytes)
    → f.path ≡ key
    → get_elem? objects ptr ≡ some f
    → All (λ q. streq key q.0 ≡ false) files
    → Adds disk f statuses after
    → or_else (expected_at disk objects files path) (find_key after path)
      ≡ or_else (expected_at disk objects ((key, ptr) ∷ files) path) (find_key statuses path)
unfolding find_key
after_round disk objects f key ptr files statuses after path p at d adds =
    elim (Bool-cases (streq key path)) [
      | inl hit ↦
          let here : streq f.path path ≡ true = ap (λ x. streq x path) p ∙ hit in
          let absent : find_key files path ≡ none =
            subst (λ x. find_key files x ≡ none) (streq→eq key path hit)
              (find_key-absent files key d) in
          let q : find_key after path ≡ or_else (expected disk f) (find_key statuses path) =
            adds path
            ∙ ap
                (λ b.
                  if b
                  then or_else (expected disk f) (find_key statuses path)
                  else find_key statuses path)
                here in
          rw (expected_at, absent, hit, at) q
      | inr miss ↦
          let away : streq f.path path ≡ false = ap (λ x. streq x path) p ∙ miss in
          let q : find_key after path ≡ find_key statuses path =
            adds path
            ∙ ap
                (λ b.
                  if b
                  then or_else (expected disk f) (find_key statuses path)
                  else find_key statuses path)
                away in
          rw (expected_at, miss) (ap (or_else (expected_at disk objects files path)) q)
    ]

loop :
    (disk : Disk) (m : SourceManager) (files : List (Bytes × ℕ)) (statuses : Statuses)
    → All (IsEntry m) files
    → Distinct files
    → Fresh statuses files
    → (after : Statuses) × (add_statuses disk m files statuses ≡ some after)
      × ((path : Bytes)
          → find_key after path
            ≡ or_else (expected_at disk m.objects files path) (find_key statuses path))
unfolding add_statuses find_key
loop disk m [] statuses entries d h = (statuses, refl, λ path. refl)
loop disk m ((key, ptr) ∷ files) statuses entries d h =
    (let f = entries.0.file in
      let fresh : find_key statuses f.path ≡ none =
        ap (find_key statuses) entries.0.path_is ∙ h.0 in
      let apart : All (λ q. streq f.path q.0 ≡ false) files =
        subst (λ x. All (λ q. streq x q.0 ≡ false) files) (sym entries.0.path_is) d.0 in
      let (middle, first, adds) = round disk m f f.content statuses fresh entries.0.loads refl in
      let (after, rest, all) =
        loop disk m files middle entries.1 d.1
          (Adds-Fresh disk f statuses middle files adds apart h.1) in
      (
        after,
        rw (add_statuses, entries.0.at, first) rest,
        λ path.
            (all path
              ∙ after_round disk m.objects f key ptr files statuses middle path entries.0.path_is
                  entries.0.at d.0 adds),
      ))

no_status :
    (disk : Disk) (objects : List File) (files : List (Bytes × ℕ)) (path : Bytes)
    → or_else (expected_at disk objects files path) none ≡ expected_at disk objects files path
no_status disk objects files path = elim (Option-cases (expected_at disk objects files path)) [
  | inl e ↦ rw e refl
  | inr (s, e) ↦ rw e refl
]

-- If each path in the cache leads to its own file, whose content can be loaded, and no path stands
-- twice, then the statuses are found for all files. A path has the status deleted exactly if it leads to a
-- source that is missing on the disk, and modified exactly if it leads to one that is there, has a
-- content, and has another hash on the disk; no other path has a status.
pub file_status-expected :
    (disk : Disk) (m : SourceManager)
    → All (IsEntry m) m.files
    → Distinct m.files
    → (statuses : Statuses) × (file_status disk m ≡ some statuses)
      × ((path : Bytes) → find_key statuses path ≡ expected_at disk m.objects m.files path)
unfolding file_status find_key
file_status-expected disk m entries d =
    let (statuses, run, all) = loop disk m m.files [] entries d (nothing m.files) in
    (statuses, run, λ path. all path ∙ no_status disk m.objects m.files path)
  where
    nothing : (files : List (Bytes × ℕ)) → Fresh [] files
    nothing [] = tt
    nothing (q ∷ files) = (refl, nothing files)
