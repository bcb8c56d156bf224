-- ===== src/Tool/Preload.antt =====
-- What `turn_logging` does to the environment.
use cc_base.Base.{Bool, true, false, [], ◌∷◌, ◌≡◌, refl, ap₂, All, arith}
use cc_base.Cstring.{Bytes, contains, starts_with}
use cc_base.Host.{Environ}
use cc_base.Tool.{ld_preload, turn_entry, turn_logging}

-- The name of the variable stands nowhere behind the first byte of the entry.
abbrev pub IsOnce : Bytes → Type 0
IsOnce [] = Unit
IsOnce (c ∷ entry) = contains entry ld_preload ≡ false

abbrev pub IsOff : Bytes → Type 0
IsOff entry = contains entry ld_preload ≡ false

turn_entry-IsOff : (entry : Bytes) → IsOnce entry → IsOff (turn_entry false entry)
unfolding turn_entry contains starts_with
turn_entry-IsOff [] h = refl
turn_entry-IsOff (c ∷ entry) h = ground arith

turn_entry_off : (on : Bool) (entry : Bytes) → IsOff entry → turn_entry on entry ≡ entry
unfolding turn_entry
turn_entry_off on entry h = rw h

pub turn_logging-All-IsOff : (env : Environ) → All IsOnce env → All IsOff (turn_logging false env)
unfolding turn_logging
turn_logging-All-IsOff [] h = tt
turn_logging-All-IsOff (entry ∷ env) h =
    (turn_entry-IsOff entry h.0, turn_logging-All-IsOff env h.1)

turn_logging_off : (on : Bool) (env : Environ) → All IsOff env → turn_logging on env ≡ env
unfolding turn_logging
turn_logging_off on [] h = refl
turn_logging_off on (entry ∷ env) h =
    ap₂ ◌∷◌ (turn_entry_off on entry h.0) (turn_logging_off on env h.1)

-- If the name LD_PRELOAD= stands at most at the beginning of each entry, then no entry holds it
-- after logging is turned off, and turning it on again restores nothing.
pub turn_logging-turn_logging :
    (env : Environ)
    → All IsOnce env
    → All IsOff (turn_logging false env)
      × (turn_logging true (turn_logging false env) ≡ turn_logging false env)
turn_logging-turn_logging env h =
    let off = turn_logging-All-IsOff env h in
    (off, turn_logging_off true (turn_logging false env) off)
