-- ===== src/Logger/Locking.antt =====
-- The order of the calls on files in `log_exec`.
use cc_base.Base.{
  Bool, true, false, Option, none, some, List, [], ◌∷◌, ◌≡◌, ◌≢◌, refl, sym, subst, ◌∙◌, inl, inr,
  arith, if◌then◌else◌, ◌>>=◌, Bool-cases, Option-cases,
}
use cc_base.Cstring.{Bytes, codes}
use cc_base.Paths.{make_path_abs}
use cc_base.Host.{Host, Environ, getenv}
use cc_base.Logger.Session.{
  lock_file, log_file, Event, opens, locks, unlocks, closes, writes, Outcome, Status, ok,
  no_log_file, no_lock, no_open, no_stream, too_few_args, acquire_lock, free_lock, log_program_args,
  Logged, quit, log_exec,
}

-- Which of the two files the process has open, and whether it holds the lock.
pub record Files : Type 0 where
  pub lock_open : Bool
  pub locked : Bool
  pub log_open : Bool

abbrev pub all_closed : Files
all_closed = record { lock_open = false; locked = false; log_open = false }

-- An event is allowed when its file is open, or closed for an opening; the log is opened, written
-- and closed under the lock alone, and the lock file is not closed while the lock is held.
unfoldable pub perform : Event → Files → Option Files
perform (opens lock_file) f = if f.lock_open then none else some (record f { lock_open = true })
perform (opens log_file) f =
    if f.locked then (if f.log_open then none else some (record f { log_open = true })) else none
perform locks f =
    if f.lock_open then (if f.locked then none else some (record f { locked = true })) else none
perform unlocks f =
    if f.locked then (if f.log_open then none else some (record f { locked = false })) else none
perform writes f = if f.locked then (if f.log_open then some f else none) else none
perform (closes lock_file) f =
    if f.lock_open then (if f.locked then none else some (record f { lock_open = false })) else none
perform (closes log_file) f =
    if f.log_open then (if f.locked then some (record f { log_open = false }) else none) else none

unfoldable pub perform_all : List Event → Files → Option Files
unfolding perform
perform_all [] f = some f
perform_all (e ∷ es) f = do f' ← perform e f; perform_all es f'

abbrev Balanced : List Event → Type 0
Balanced es = perform_all es all_closed ≡ some all_closed

-- What `log_exec` makes of the descriptors that `acquire_lock` leaves.
data Acquired : Bool × List Event → Type 0 where
  refused : {r : Bool × List Event} → r ≡ (false, []) → Acquired r
  unlocked :
      {r : Bool × List Event} → r ≡ (false, opens lock_file ∷ closes lock_file ∷ []) → Acquired r
  held : {r : Bool × List Event} → r ≡ (true, opens lock_file ∷ locks ∷ []) → Acquired r

acquire_lock-Acquired :
    (host : Host) (os : Outcome) (file : Bytes) → Acquired (acquire_lock host os file)
unfolding acquire_lock
acquire_lock-Acquired host os file = elim (Option-cases (make_path_abs host.fs file false)) [
  | inl e ↦ refused (rw (acquire_lock, e))
  | inr (p, e) ↦ elim (Bool-cases os.opens_lock) [
    | inr f ↦ refused (rw (acquire_lock, e, f))
    | inl f ↦ elim (Bool-cases os.flocks) [
      | inr g ↦ unlocked (rw (acquire_lock, e, f, g))
      | inl g ↦ held (rw (acquire_lock, e, f, g))
    ]
  ]
]

-- A way through `log_exec`: one that logs nothing, or one that writes to the log.
pub data Way (host : Host) (env : Environ) (log prog : Bytes) (argv : List Bytes)
    : Option Logged → Type 0 where
  quits :
      {r : Option Logged} (status : Status) (events : List Event)
      → status ≢ ok
      → Balanced events
      → r ≡ quit env log status events
      → Way host env log prog argv r
  logs :
      {r : Option Logged} (events : List Event)
      → Balanced events
      → r ≡ (log_program_args host env log prog argv >>= λ w. quit w.1 w.0 ok events)
      → Way host env log prog argv r

log_exec-Way-Acquired :
    (host : Host) (os : Outcome) (env : Environ) (log prog argv0 : Bytes) (argv : List Bytes)
    (file : Bytes)
    → getenv env (codes "CC_LOGGER_FILE") ≡ some file
    → Acquired (acquire_lock host os file)
    → Way host env log prog argv (log_exec host os env log (prog ∷ argv0 ∷ argv))
unfolding log_exec perform_all
log_exec-Way-Acquired host os env log prog argv0 argv file e (refused a) =
    quits no_lock [] (λ p. cc) refl (rw (log_exec, e, a))
log_exec-Way-Acquired host os env log prog argv0 argv file e (unlocked a) =
    quits no_lock (opens lock_file ∷ closes lock_file ∷ []) (λ p. cc) refl (rw (log_exec, e, a))
log_exec-Way-Acquired host os env log prog argv0 argv file e (held a) =
    elim (Bool-cases os.opens_log) [
      | inr f ↦
          quits no_open (opens lock_file ∷ locks ∷ free_lock) (λ p. cc) refl
            (rw (log_exec, e, a, f))
      | inl f ↦ elim (Bool-cases os.fdopens) [
        | inr g ↦
            quits no_stream (opens lock_file ∷ locks ∷ opens log_file ∷ closes log_file ∷ free_lock)
              (λ p. cc) refl (rw (log_exec, e, a, f, g))
        | inl g ↦
            logs (opens lock_file ∷ locks ∷ opens log_file ∷ writes ∷ closes log_file ∷ free_lock)
              refl (rw (log_exec, e, a, f, g))
      ]
    ]

pub log_exec-Way :
    (host : Host) (os : Outcome) (env : Environ) (log prog argv0 : Bytes) (argv : List Bytes)
    → Way host env log prog argv (log_exec host os env log (prog ∷ argv0 ∷ argv))
unfolding log_exec perform_all
log_exec-Way host os env log prog argv0 argv =
    elim (Option-cases (getenv env (codes "CC_LOGGER_FILE"))) [
      | inl e ↦ quits no_log_file [] (λ p. cc) refl (rw (log_exec, e))
      | inr (file, e) ↦
          log_exec-Way-Acquired host os env log prog argv0 argv file e
            (acquire_lock-Acquired host os file)
    ]

Way-Balanced :
    (host : Host) (env : Environ) (log prog : Bytes) (argv : List Bytes) (r : Option Logged)
    (l : Logged)
    → Way host env log prog argv r
    → r ≡ some l
    → Balanced l.events × (l.status ≢ ok → (l.log ≡ log) × (l.env ≡ env))
Way-Balanced host env log prog argv r l (quits status events bad b e) h =
    let same : quit env log status events ≡ some l = sym e ∙ h in
    (subst (λ es. Balanced es) (ground arith) b, λ _. (ground arith, ground arith))
Way-Balanced host env log prog argv r l (logs events b e) h =
    elim (Option-cases (log_program_args host env log prog argv)) [
      | inl f ↦ absurd (cc (f, e, h))
      | inr (w, f) ↦
          let same : quit w.1 w.0 ok events ≡ some l = ground (arith, e, h, f) in
          (subst (λ es. Balanced es) (ground arith) b, λ bad. absurd (bad (ground arith)))
    ]

no_events : Balanced []
unfolding perform_all
no_events = refl

pub too_few :
    (host : Host) (env : Environ) (log : Bytes)
    → Way host env log [] [] (quit env log too_few_args [])
too_few host env log = quits too_few_args [] (λ p. cc) no_events refl

-- When `log_exec` returns, the calls it made on its files are in a right order: both files are
-- closed in the end, the lock is released, and the log was opened and written under the lock alone.
-- An error leaves the log and the environment as they were.
pub log_exec-Balanced :
    (host : Host) (os : Outcome) (env : Environ) (log : Bytes) (args : List Bytes) (l : Logged)
    → log_exec host os env log args ≡ some l
    → (perform_all l.events all_closed ≡ some all_closed)
      × (l.status ≢ ok → (l.log ≡ log) × (l.env ≡ env))
unfolding log_exec
log_exec-Balanced host os env log [] l h =
    Way-Balanced host env log [] [] _ l (too_few host env log) h
log_exec-Balanced host os env log (prog ∷ []) l h =
    Way-Balanced host env log [] [] _ l (too_few host env log) h
log_exec-Balanced host os env log (prog ∷ argv0 ∷ argv) l h =
    Way-Balanced host env log prog argv _ l (log_exec-Way host os env log prog argv0 argv) h
