-- ===== src/Pool.antt =====
-- util/include/util/threadpool.h: jobs in a queue, taken by worker threads.
pub mod Counts
pub mod Moves
pub mod Inv
pub mod Outcome
use cc_base.Base.{
  ℕ, zero, suc, ◌+◌, Bool, true, false, not, ◌&&◌, Option, none, some, List, [], ◌∷◌, ◌++◌, ◌≡◌,
  ◌≢◌, ◌==◌, if◌then◌else◌, length, get_elem?, set, replicate,
}

-- Where a worker stands: before it reads `_die`, before it reads `_queue.empty ()` outside the lock,
-- before it locks, with the lock, asleep in `wait_for`, awake with the lock, in the function on a
-- job, and at its end.
pub data Pc : Type 0 where
  check check_queue acquire locked waiting woken : Pc
  running : ℕ → Pc
  exited : Pc

-- Where the client stands: before it enqueues the jobs left, with the lock and a job to push, in
-- the loop of `wait` before it joins a thread, and at the return of `wait`.
pub data Client : Type 0 where
  enqueues : List ℕ → Client
  pushes : ℕ → List ℕ → Client
  joins : ℕ → Client
  returned : Client

-- `_die`, `_queue`, whether `_lock` is held, and the jobs on which the function was called.
pub record Shared : Type 0 where
  pub die : Bool
  pub queue : List ℕ
  pub lock : Bool
  pub done : List ℕ

pub record System : Type 0 where
  pub shared : Shared
  pub workers : List Pc
  pub client : Client

-- One step of `worker`, from the shared state and its place to those after.
pub data Move (s : Shared) : Pc → Shared → Pc → Type 0 where
  -- The test of the loop, with `_die` unset, and set.
  stays : s.die ≡ false → Move s check s acquire
  dies : s.die ≡ true → Move s check s check_queue
  leaves : s.queue ≡ [] → Move s check_queue s exited
  goes_on : s.queue ≢ [] → Move s check_queue s acquire
  takes_lock : s.lock ≡ false → Move s acquire (record s { lock = true }) locked
  sleeps : s.queue ≡ [] → Move s locked (record s { lock = false }) waiting
  -- Notified, at the end of the second, or for no reason.
  wakes : s.lock ≡ false → Move s waiting (record s { lock = true }) woken
  gives_lock : Move s woken (record s { lock = false }) check
  pops :
      (job : ℕ) (rest : List ℕ)
      → s.queue ≡ job ∷ rest
      → Move s locked (record s { queue = rest; lock = false }) (running job)
  works : {job : ℕ} → Move s (running job) (record s { done = job ∷ s.done }) check

-- One step of the client, which enqueues its jobs and then waits.
pub data Act (workers : List Pc) (s : Shared) : Client → Shared → Client → Type 0 where
  locks :
      {job : ℕ} {jobs : List ℕ}
      → s.lock ≡ false
      → Act workers s (enqueues (job ∷ jobs)) (record s { lock = true }) (pushes job jobs)
  pushes_job :
      {job : ℕ} {jobs : List ℕ}
      → Act workers s
          (pushes job jobs)
          (record s { queue = s.queue ++ job ∷ []; lock = false })
          (enqueues jobs)
  -- `wait` is called.
  sets_die : Act workers s (enqueues []) (record s { die = true }) (joins 0)
  joins_thread :
      {i : ℕ} → get_elem? workers i ≡ some exited → Act workers s (joins i) s (joins (suc i))
  returns : {i : ℕ} → i ≡ length workers → Act workers s (joins i) s returned

pub data Step (x : System) : System → Type 0 where
  by_worker :
      (i : ℕ) {p p' : Pc} {s : Shared}
      → get_elem? x.workers i ≡ some p
      → Move x.shared p s p'
      → Step x (record x { shared = s; workers = set x.workers i p' })
  by_client :
      {c : Client} {s : Shared}
      → Act x.workers x.shared x.client s c
      → Step x (record x { shared = s; client = c })

-- The constructor of the pool starts the threads.
abbrev pub start : ℕ → List ℕ → System
start threads jobs = record {
  shared = record { die = false; queue = []; lock = false; done = [] };
  workers = replicate threads check;
  client = enqueues jobs;
}

pub data Reach (x : System) : System → Type 0 where
  here : Reach x x
  next : {y z : System} → Reach x y → Step y z → Reach x z
