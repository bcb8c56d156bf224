-- ===== src/Sources/Incremental.antt =====
-- Which status each file of the cache gets.
use cc_base.Base.{
  ℕ, true, false, not, ◌||◌, Option, none, some, List, [], ◌∷◌, ◌≡◌, ◌≢◌, refl, sym, ap, ◌∙◌, inl,
  inr, arith, get_elem?, if◌then◌else◌, ◌>>=◌, All, Bool-cases, Option-cases,
}
use cc_base.Cstring.{Bytes, streq}
use cc_base.Cstring.Laws.{streq→eq}
use cc_base.Sources.Model.{LazyContent, File, Disk, directory_type, binary_type}
use cc_base.Sources.Keys.{find_key}
use cc_base.Sources.Manager.{SourceManager}
use cc_base.Sources.Store.{load}
use cc_base.Sources.Erased.{streq_sym}
use cc_base.Sources.Status.{
  IncrementalStatus, modified, deleted, Statuses, emplace_status, is_source, is_changed,
  stream_text, compare_content, add_status,
}

-- The status that a file should have: none for a directory or a binary file, deleted if it is
-- missing, and modified if its content has another hash than what is on the disk.
abbrev pub expected : Disk → File → Option IncrementalStatus
expected disk f =
    if streq f.file_type directory_type || streq f.file_type binary_type
    then none
    else if not (disk.exists f.path)
    then some deleted
    else elim f.content [
      | none ↦ none
      | some c ↦
          if streq c.object_id (disk.sha1_hash (stream_text (disk.read f.path)))
          then none
          else some modified
    ]

-- The status that a path should have.
abbrev pub expected_at : Disk → List File → List (Bytes × ℕ) → Bytes → Option IncrementalStatus
expected_at disk objects files path = do
  ptr ← find_key files path
  f ← get_elem? objects ptr
  expected disk f

-- Each path leads to its own file, whose content can be loaded.
pub record IsEntry (m : SourceManager) (p : Bytes × ℕ) : Type 0 where
  pub file : File
  pub at : get_elem? m.objects p.1 ≡ some file
  pub path_is : file.path ≡ p.0
  pub loads : (c : LazyContent) → file.content ≡ some c → load m.db c ≢ none

-- No path stands twice.
abbrev pub Distinct : List (Bytes × ℕ) → Type 0
Distinct [] = Unit
Distinct (p ∷ files) = All (λ q. streq p.0 q.0 ≡ false) files × Distinct files

abbrev pub or_else : Option IncrementalStatus → Option IncrementalStatus → Option IncrementalStatus
or_else none b = b
or_else (some s) b = some s

find_key-emplace_status :
    (statuses : Statuses) (path other : Bytes) (s : IncrementalStatus)
    → find_key statuses path ≡ none
    → find_key (emplace_status path s statuses) other
      ≡ (if streq path other then some s else find_key statuses other)
unfolding find_key emplace_status
find_key-emplace_status [] path other s h = refl
find_key-emplace_status ((p, t) ∷ statuses) path other s h = elim (Bool-cases (streq p path)) [
  | inl hit ↦ absurd (ground (arith, hit, h))
  | inr miss ↦ elim (Bool-cases (streq p other)) [
    | inl is ↦
        let q : streq path other ≡ false =
          ap (streq path) (sym (streq→eq p other is)) ∙ (streq_sym path p ∙ miss) in
        rw (emplace_status, miss) (rw (is, q) refl)
    | inr no_hit ↦
        rw (emplace_status, miss)
          (rw no_hit (find_key-emplace_status statuses path other s (ground (arith, miss, h))))
  ]
]

-- What a round does to the statuses.
abbrev pub Adds : Disk → File → Statuses → Statuses → Type 0
Adds disk f statuses after =
    (path : Bytes)
    → find_key after path ≡ (
        if streq f.path path
        then or_else (expected disk f) (find_key statuses path)
        else find_key statuses path)

Adds-nothing :
    (disk : Disk) (f : File) (statuses : Statuses)
    → expected disk f ≡ none
    → Adds disk f statuses statuses
Adds-nothing disk f statuses e path = rw e (ground arith)

Adds-status :
    (disk : Disk) (f : File) (statuses : Statuses) (s : IncrementalStatus)
    → find_key statuses f.path ≡ none
    → expected disk f ≡ some s
    → Adds disk f statuses (emplace_status f.path s statuses)
Adds-status disk f statuses s fresh e path =
    find_key-emplace_status statuses f.path path s fresh ∙ rw e refl

-- Which of the statuses it is, by the tests of the loop.
expected-none : (disk : Disk) (f : File) → is_source f ≡ false → expected disk f ≡ none
unfolding is_source
expected-none disk f other = ground (arith, other)

expected_deleted :
    (disk : Disk) (f : File)
    → is_source f ≡ true
    → disk.exists f.path ≡ false
    → expected disk f ≡ some deleted
unfolding is_source
expected_deleted disk f source missing = ground (arith, source, missing)

source_type :
    (f : File)
    → is_source f ≡ true
    → (streq f.file_type directory_type || streq f.file_type binary_type) ≡ false
unfolding is_source
source_type f source = ground (arith, source)

expected_same :
    (disk : Disk) (f : File)
    → is_source f ≡ true
    → disk.exists f.path ≡ true
    → f.content ≡ none
    → expected disk f ≡ none
expected_same disk f source there e = rw (expected, source_type f source, there, e) refl

expected_content :
    (disk : Disk) (f : File) (c : LazyContent)
    → is_source f ≡ true
    → disk.exists f.path ≡ true
    → f.content ≡ some c
    → expected disk f ≡ (if is_changed disk f c then some modified else none)
expected_content disk f c source there e =
    rw (expected, source_type f source, there, e) (ground arith)

-- A round goes through.
pub round :
    (disk : Disk) (m : SourceManager) (f : File) (o : Option LazyContent) (statuses : Statuses)
    → find_key statuses f.path ≡ none
    → ((c : LazyContent) → f.content ≡ some c → load m.db c ≢ none)
    → f.content ≡ o
    → (after : Statuses) × ((if is_source f then add_status disk m f statuses else some statuses)
        ≡ some after)
      × Adds disk f statuses after
unfolding add_status compare_content
round disk m f o statuses fresh loads e = elim (Bool-cases (is_source f)) [
  | inr other ↦ (statuses, rw other refl, Adds-nothing disk f statuses (expected-none disk f other))
  | inl source ↦ elim (Bool-cases (disk.exists f.path)) [
    | inr missing ↦ (
      emplace_status f.path deleted statuses,
      rw (source, add_status, missing) refl,
      Adds-status disk f statuses deleted fresh (expected_deleted disk f source missing),
    )
    | inl there ↦ on_content o e source there
  ]
]
  where
    on_content :
        (o : Option LazyContent)
        → f.content ≡ o
        → is_source f ≡ true
        → disk.exists f.path ≡ true
        → (after : Statuses) × ((if is_source f
              then add_status disk m f statuses
              else some statuses)
            ≡ some after)
          × Adds disk f statuses after
    on_content none e source there = (
      statuses,
      rw (source, add_status, there, fresh, compare_content, e) refl,
      Adds-nothing disk f statuses (expected_same disk f source there e),
    )
    on_content (some c) e source there = elim (Option-cases (load m.db c)) [
      | inl fails ↦ absurd (loads c e fails)
      | inr (text, loaded) ↦ elim (Bool-cases (is_changed disk f c)) [
        | inl changed ↦ (
          emplace_status f.path modified statuses,
          rw (source, add_status, there, fresh, compare_content, e, loaded, changed) refl,
          Adds-status disk f statuses modified fresh
              (expected_content disk f c source there e ∙ rw changed refl),
        )
        | inr same ↦ (
          statuses,
          rw (source, add_status, there, fresh, compare_content, e, loaded, same) refl,
          Adds-nothing disk f statuses (expected_content disk f c source there e ∙ rw same refl),
        )
      ]
    ]
