-- ===== src/Logger/Concurrent.antt =====
-- Several processes that call `logExec` of logger/src/ldlogger-logger.c on one log at once.
use cc_base.Base.{
  ℕ, Option, none, some, List, [], ◌∷◌, ◌++◌, map, ◌≡◌, get_elem?, set, ◌==◌, if◌then◌else◌, ◌>>=◌,
}
use cc_base.Cstring.{Bytes}
use cc_base.Host.{Host, Environ}
use cc_base.Logger.Session.{
  lock_file, log_file, File, Event, opens, locks, unlocks, closes, writes, Outcome,
  log_program_args, log_exec,
}

-- The calls that a process still makes, and what it has read of the log while it writes.
pub record Process : Type 0 where
  pub todo : List Event
  pub read : Option Bytes

-- The log, the process that `flock` gave the lock, and the processes.
pub record World : Type 0 where
  pub log : Bytes
  pub holder : Option ℕ
  pub processes : List Process

-- The lock after a process unlocks or closes the lock file, or dies.
unfoldable pub release : ℕ → Option ℕ → Option ℕ
release i none = none
release i (some j) = if i == j then none else some j

abbrev pub closed : ℕ → File → Option ℕ → Option ℕ
closed i lock_file h = release i h
closed i log_file h = h

-- A step of process `i`, on the log and the lock: one of its calls, of which `writes` is two steps
-- since the log is read and then written, or its death. The list holds `i` if the log was written.
pub data Move (writer : ℕ → Bytes → Option Bytes) (i : ℕ)
    : Bytes → Option ℕ → Process → List ℕ → Bytes → Option ℕ → Process → Type 0 where
  opening :
      {l : Bytes} {h : Option ℕ} {f : File} {es : List Event}
      → Move writer i l h
          (record { todo = opens f ∷ es; read = none })
          []
          l
          h
          (record { todo = es; read = none })
  closing :
      {l : Bytes} {h : Option ℕ} {f : File} {es : List Event}
      → Move writer i l h
          (record { todo = closes f ∷ es; read = none })
          []
          l
          (closed i f h)
          (record { todo = es; read = none })
  locking :
      {l : Bytes} {es : List Event}
      → Move writer i l none
          (record { todo = locks ∷ es; read = none })
          []
          l
          (some i)
          (record { todo = es; read = none })
  unlocking :
      {l : Bytes} {h : Option ℕ} {es : List Event}
      → Move writer i l h
          (record { todo = unlocks ∷ es; read = none })
          []
          l
          (release i h)
          (record { todo = es; read = none })
  reading :
      {l : Bytes} {h : Option ℕ} {es : List Event}
      → Move writer i l h
          (record { todo = writes ∷ es; read = none })
          []
          l
          h
          (record { todo = writes ∷ es; read = some l })
  writing :
      {l text new : Bytes} {h : Option ℕ} {es : List Event}
      → writer i text ≡ some new
      → Move writer i l h
          (record { todo = writes ∷ es; read = some text })
          (i ∷ [])
          new
          h
          (record { todo = es; read = none })
  dying :
      {l : Bytes} {h : Option ℕ} {p : Process}
      → Move writer i l h p [] l (release i h) (record { todo = []; read = none })

-- What steps lead to, with the processes that wrote the log, in order.
pub data Reach (writer : ℕ → Bytes → Option Bytes) (w : World) : List ℕ → World → Type 0 where
  here : Reach writer w [] w
  next :
      {order wrote : List ℕ} {x : World} {p p' : Process} {log : Bytes} {holder : Option ℕ} (i : ℕ)
      → Reach writer w order x
      → get_elem? x.processes i ≡ some p
      → Move writer i x.log x.holder p wrote log holder p'
      → Reach writer w
          (order ++ wrote)
          (record { log = log; holder = holder; processes = set x.processes i p' })

-- A process that calls `logExec`.
pub record Caller : Type 0 where
  pub host : Host
  pub os : Outcome
  pub env : Environ
  pub prog : Bytes
  pub argv0 : Bytes
  pub argv : List Bytes

-- What it makes of the log that it has read: `logProgramArgs`.
abbrev pub caller_writes : Option Caller → Bytes → Option Bytes
caller_writes none text = none
caller_writes (some c) text = do w ← log_program_args c.host c.env text c.prog c.argv; some w.0

abbrev pub writes_of : List Caller → ℕ → Bytes → Option Bytes
writes_of callers i = caller_writes (get_elem? callers i)

-- The calls of its `logExec`, which do not depend on the log.
unfoldable pub calls_of : Bytes → Caller → List Event
unfolding log_exec
calls_of log c = elim (log_exec c.host c.os c.env log (c.prog ∷ c.argv0 ∷ c.argv)) [
  | none ↦ []
  | some l ↦ l.events
]

abbrev pub start_all : Bytes → List Caller → World
start_all log callers = record {
  log = log;
  holder = none;
  processes = map (λ c. record { todo = calls_of log c; read = none }) callers;
}
