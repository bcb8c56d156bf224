-- ===== src/Vector/Memory.antt =====
-- `LoggerVector` of logger/src/ldlogger-util.c as it lies in memory. `none` as the result of an
-- operation is a failed assertion, an access out of bounds, or the use of a NULL item.
use cc_base.Base.{
  ℕ, zero, suc, ◌+◌, ◌*◌, ◌-◌, Bool, true, false, Option, none, some, List, [], ◌∷◌, ◌++◌,
  if◌then◌else◌, length, not, leb, ltb, ◌==◌, take, set, get_elem?, replicate, ◌>>=◌,
}

-- The items lie in the block `data`, here `items`, which is empty for NULL; the slot of an item that was never
-- written, or is NULL, is `none`.
pub record LoggerVector {ℓ} (A : Type ℓ) : Type ℓ where
  pub size : ℕ
  pub capacity : ℕ
  pub items : List (Option A)

-- The pointers in a block of this many items.
abbrev pub block_bytes : ℕ → ℕ
block_bytes n = 8 * n

module _ {ℓ} {A : Type ℓ} where
  -- `data[i] = x`
  unfoldable pub write : List (Option A) → ℕ → Option A → Option (List (Option A))
  write slots i x = if ltb i (length slots) then some (set slots i x) else none

  -- The item at `data[i]`, which is used.
  unfoldable pub item : List (Option A) → ℕ → Option A
  item slots i = do x ← get_elem? slots i; x

  -- A block that realloc has grown or cut.
  unfoldable pub resized : ℕ → List (Option A) → List (Option A)
  resized n slots = take n slots ++ replicate (n - length slots) none

  -- `loggerVectorClear`, and the items that are freed.
  unfoldable pub vector_clear : LoggerVector A → List (Option A) × LoggerVector A
  vector_clear vec = elim vec.items [
    | [] ↦ ([], vec)
    | _ ∷ _ ↦ (take vec.size vec.items, record { size = 0; capacity = 0; items = [] })
  ]

  module _ (grants : ℕ → Bool) where
    -- `loggerVectorInitAdv`, and whether the vector or NULL is returned.
    unfoldable pub vector_init_adv : ℕ → Bool × LoggerVector A
    vector_init_adv zero = (true, record { size = 0; capacity = 0; items = [] })
    vector_init_adv (suc cap) =
        if grants (block_bytes (suc cap))
        then (true, record { size = 0; capacity = suc cap; items = replicate (suc cap) none })
        else (false, record { size = 0; capacity = suc cap; items = [] })

    -- `loggerVectorInit`
    unfoldable pub vector_init : Bool × LoggerVector A
    unfolding vector_init_adv
    vector_init = vector_init_adv 10

    -- The call of realloc; `none` says that it fails.
    unfoldable pub vector_reserve : ℕ → LoggerVector A → Option (LoggerVector A)
    unfolding resized
    vector_reserve cap vec =
        if grants (block_bytes cap)
        then some (record vec { capacity = cap; items = resized cap vec.items })
        else none

    -- The room that `loggerVectorAdd` makes.
    unfoldable pub vector_grow : LoggerVector A → Option (LoggerVector A)
    vector_grow vec =
        if vec.size == vec.capacity
        then vector_reserve (if vec.capacity == 0 then 10 else vec.capacity * 2) vec
        else some vec

    -- `loggerVectorAdd`, and whether it returns 1 or 0.
    unfoldable pub vector_add : LoggerVector A → Option A → Option (Bool × LoggerVector A)
    vector_add vec none = some (false, vec)
    vector_add vec (some x) = elim (vector_grow vec) [
      | none ↦ some (false, vec)
      | some grown ↦ do
        slots ← write grown.items grown.size (some x)
        some (true, record grown { size = grown.size + 1; items = slots })
    ]

  -- The loop of `loggerVectorFind` from an index on, over the number of rounds left. `eq x y` is
  -- `cmp_ (x, y) == 0`. The inner `none` is SIZE_MAX.
  unfoldable pub find_from : (A → A → Bool) → ℕ → ℕ → List (Option A) → A → Option (Option ℕ)
  find_from eq zero i slots x = some none
  find_from eq (suc left) i slots x = do
    y ← item slots i
    let later = find_from eq left (i + 1) slots x
    if eq x y then some (some i) else later

  unfoldable pub vector_find : (A → A → Bool) → LoggerVector A → A → Option (Option ℕ)
  unfolding find_from
  vector_find eq vec x = find_from eq vec.size 0 vec.items x

  -- The loop of `loggerVectorErase` from an index on, over the number of rounds left.
  unfoldable pub close_gap : ℕ → ℕ → List (Option A) → Option (List (Option A))
  close_gap zero i slots = some slots
  close_gap (suc left) i slots = do
    x ← get_elem? slots i
    moved ← write slots (i - 1) x
    close_gap left (i + 1) moved

  unfoldable pub vector_erase : LoggerVector A → ℕ → Option (LoggerVector A)
  unfolding close_gap
  vector_erase vec index = if leb vec.size index then some vec else (do
    slots ← close_gap (vec.size - (index + 1)) (index + 1) vec.items
    some (record vec { size = vec.size - 1; items = slots }))

  -- The loop of `loggerVectorAddFrom` that moves the items behind the position, from index `i`
  -- down. After index 0 the counter wraps to SIZE_MAX: it is not below the position 0, and the read
  -- there is out of bounds.
  unfoldable pub move_back : ℕ → ℕ → ℕ → List (Option A) → Option (List (Option A))
  move_back zero pos n slots = do
    x ← get_elem? slots 0
    moved ← write slots n x
    cleared ← write moved 0 none
    if pos == 0 then none else some cleared
  move_back (suc i) pos n slots = do
    x ← get_elem? slots (suc i)
    moved ← write slots (suc i + n) x
    cleared ← write moved (suc i) none
    let rest = move_back i pos n cleared
    if leb pos i then rest else some cleared

  -- The loop of `loggerVectorAddFrom` that copies, from index `i` of the source on, over the number
  -- of rounds left. `dup` may return NULL.
  unfoldable pub copy_in :
      (A → Option A) → ℕ → ℕ → ℕ → List (Option A) → List (Option A) → Option (List (Option A))
  copy_in dup zero i pos source slots = some slots
  copy_in dup (suc left) i pos source slots = do
    x ← item source i
    written ← write slots (i + pos) (dup x)
    copy_in dup left (i + 1) pos source written

  -- The items behind the position are moved, if there are any.
  unfoldable pub open_gap : ℕ → ℕ → LoggerVector A → Option (List (Option A))
  unfolding move_back
  open_gap pos n vec =
      let moved = move_back (vec.size - 1) pos n vec.items in
      if ltb pos vec.size then moved else some vec.items

  -- `loggerVectorAddFrom` with room for the items.
  unfoldable pub put_from :
      (A → Option A) → LoggerVector A → LoggerVector A → ℕ → Option (Bool × LoggerVector A)
  unfolding open_gap copy_in
  put_from dup vec source pos = do
    gap ← open_gap pos source.size vec
    slots ← copy_in dup source.size 0 pos source.items gap
    some (true, record vec { size = vec.size + source.size; items = slots })

  module _ (grants : ℕ → Bool) where
    -- `loggerVectorAddUnique`, and whether it returns 2 (as `none`), 1 or 0.
    unfoldable pub vector_add_unique :
        (A → A → Bool) → LoggerVector A → A → Option (Option Bool × LoggerVector A)
    vector_add_unique eq vec x = do
      found ← vector_find eq vec x
      elim found [
        | some _ ↦ some (none, vec)
        | none ↦ do r ← vector_add grants vec (some x); some (some r.0, r.1)
      ]

    -- `loggerVectorAddFrom`; the position may be NULL.
    unfoldable pub vector_add_from :
        (A → Option A) → LoggerVector A → LoggerVector A → Option ℕ → Option (Bool × LoggerVector A)
    unfolding put_from
    vector_add_from dup vec source position =
        let pos : ℕ = elim position [ none ↦ vec.size | some p ↦ p ] in
        let cap = vec.size + source.size in
        if not (leb pos vec.size)
        then none
        else if leb cap vec.capacity
        then put_from dup vec source pos
        else elim (vector_reserve grants cap vec) [
          | none ↦ some (false, vec)
          | some grown ↦ put_from dup grown source pos
        ]
