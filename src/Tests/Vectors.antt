-- ===== src/Tests/Vectors.antt =====
-- The theorems about vectors in memory at concrete inputs.
use cc_base.Base.{ℕ, Bool, true, some, [], ◌∷◌, ◌++◌, ◌≡◌, refl}
use cc_base.Vector.Memory.{LoggerVector, vector_add}
use cc_base.Vector.Holds.{Holds, vector_add-Holds}

abbrev plenty : ℕ → Bool
plenty n = true

-- A full vector of two numbers.
abbrev pair : LoggerVector ℕ
pair = record { size = 2; capacity = 2; items = some 5 ∷ some 7 ∷ [] }

pair-Holds : Holds pair (5 ∷ 7 ∷ [])
pair-Holds = record { room = []; filled = refl; sized = refl; capable = refl }

vector_add-Holds_example :
    (w : LoggerVector ℕ) × (vector_add plenty pair (some 9) ≡ some (true, w))
    × Holds w (5 ∷ 7 ∷ [] ++ 9 ∷ [])
vector_add-Holds_example = vector_add-Holds plenty pair (5 ∷ 7 ∷ []) 9 pair-Holds (λ n. refl)
