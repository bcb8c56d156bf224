-- ===== src/Pool/Outcome.antt =====
-- What the pool has done when `wait` returns, and that it always goes on until then.
use cc_base.Base.{
  ℕ, zero, suc, ◌+◌, ◌≤◌, ◌<◌, false, some, List, [], ◌∷◌, ◌≡◌, ◌≢◌, refl, sym, ap, ◌∙◌, subst, ◌⊎◌,
  inl, inr, arith, length, get_elem?, Bool-cases,
}
use cc_base.Pool.{
  Pc, check, check_queue, acquire, locked, waiting, woken, running, exited, Client, enqueues,
  pushes, joins, returned, Shared, System, stays, dies, leaves, goes_on, takes_lock, sleeps, wakes,
  gives_lock, pops, works, locks, pushes_job, sets_die, joins_thread, returns, Step, by_worker,
  by_client, start, Reach,
}
use cc_base.Pool.Counts.{count, total, total-all, total_found, runs}
use cc_base.Pool.Moves.{bit, holds, client_holds, joined, IsInv}
use cc_base.Pool.Inv.{reach-IsInv}

List-cases : (xs : List ℕ) → (xs ≡ []) ⊎ ((x : ℕ) × (rest : List ℕ) × (xs ≡ x ∷ rest))
List-cases [] = inl refl
List-cases (x ∷ xs) = inr (x, xs, refl)

get_elem?-found : (ps : List Pc) (i : ℕ) → i < length ps → (p : Pc) × (get_elem? ps i ≡ some p)
get_elem?-found [] i lt = absurd (omega (arith, lt))
get_elem?-found (p ∷ ps) zero lt = (p, refl)
get_elem?-found (p ∷ ps) (suc i) lt = get_elem?-found ps i (omega (arith, lt))

-- When `wait` of a pool with at least one thread returns, the queue is empty, and the function was
-- called on each job exactly as often as it was enqueued, in whatever order the threads took their
-- steps.
pub wait_done :
    (n : ℕ) (jobs : List ℕ) (x : System)
    → Reach (start (suc n) jobs) x
    → x.client ≡ returned
    → (x.shared.queue ≡ []) × ((job : ℕ) → count job x.shared.done ≡ count job jobs)
unfolding count
wait_done n jobs x r e = (
  empty,
  λ job.
      (let idle =
          total-all (runs job) exited x.workers refl
            (λ i lt. inv.ended i (omega (arith, lt, inv.sized))) in
        let q : count job x.shared.queue ≡ 0 = rw empty in
        omega (arith, q, idle, inv.conserved job)),
)
  where
    inv : IsInv (suc n) jobs (record x { client = returned })
    inv = subst (λ c. IsInv (suc n) jobs (record x { client = c })) e (reach-IsInv r)

    empty : x.shared.queue ≡ []
    empty = inv.emptied 0 (inv.ended 0 (omega arith))

-- A place from which a worker can take a step, while nobody holds the lock.
worker_goes_on :
    (x : System) (i : ℕ) (p : Pc)
    → get_elem? x.workers i ≡ some p
    → x.shared.lock ≡ false
    → p ≢ exited
    → (y : System) × Step x y
worker_goes_on x i check at free live = elim (Bool-cases x.shared.die) [
  | inl on ↦ (_, by_worker i at (dies on))
  | inr off ↦ (_, by_worker i at (stays off))
]
worker_goes_on x i check_queue at free live = elim (List-cases x.shared.queue) [
  | inl e ↦ (_, by_worker i at (leaves e))
  | inr (job, rest, e) ↦ (_, by_worker i at (goes_on (λ q. absurd (cc))))
]
worker_goes_on x i acquire at free live = (_, by_worker i at (takes_lock free))
worker_goes_on x i locked at free live = elim (List-cases x.shared.queue) [
  | inl e ↦ (_, by_worker i at (sleeps e))
  | inr (job, rest, e) ↦ (_, by_worker i at (pops job rest e))
]
worker_goes_on x i waiting at free live = (_, by_worker i at (wakes free))
worker_goes_on x i woken at free live = (_, by_worker i at gives_lock)
worker_goes_on x i (running job) at free live = (_, by_worker i at works)
worker_goes_on x i exited at free live = absurd (live refl)

-- Whoever holds the lock can take a step, which gives it back.
holder_goes_on :
    (x : System) (i : ℕ) (p : Pc)
    → get_elem? x.workers i ≡ some p
    → 0 < holds p
    → (y : System) × Step x y
holder_goes_on x i locked at h = elim (List-cases x.shared.queue) [
  | inl e ↦ (_, by_worker i at (sleeps e))
  | inr (job, rest, e) ↦ (_, by_worker i at (pops job rest e))
]
holder_goes_on x i woken at h = (_, by_worker i at gives_lock)
holder_goes_on x i check at h = absurd (omega (arith, h))
holder_goes_on x i check_queue at h = absurd (omega (arith, h))
holder_goes_on x i acquire at h = absurd (omega (arith, h))
holder_goes_on x i waiting at h = absurd (omega (arith, h))
holder_goes_on x i (running job) at h = absurd (omega (arith, h))
holder_goes_on x i exited at h = absurd (omega (arith, h))

exited-cases : (p : Pc) → (p ≡ exited) ⊎ (p ≢ exited)
exited-cases exited = inl refl
exited-cases check = inr (λ e. absurd (cc))
exited-cases check_queue = inr (λ e. absurd (cc))
exited-cases acquire = inr (λ e. absurd (cc))
exited-cases locked = inr (λ e. absurd (cc))
exited-cases waiting = inr (λ e. absurd (cc))
exited-cases woken = inr (λ e. absurd (cc))
exited-cases (running job) = inr (λ e. absurd (cc))

end_or_below : (i n : ℕ) → i ≤ n → (i ≡ n) ⊎ (i < n)
end_or_below i n le = omega (arith, le)

client_goes_on :
    (ws : List Pc) (s : Shared) (c : Client)
    → s.lock ≡ false
    → joined c (length ws) ≤ length ws
    → c ≢ returned
    → (y : System) × Step (record { shared = s; workers = ws; client = c }) y
client_goes_on ws s (enqueues []) free le live = (_, by_client sets_die)
client_goes_on ws s (enqueues (job ∷ jobs)) free le live = (_, by_client (locks free))
client_goes_on ws s (pushes job jobs) free le live = (_, by_client pushes_job)
client_goes_on ws s returned free le live = absurd (live refl)
client_goes_on ws s (joins i) free le live = elim (end_or_below i (length ws) le) [
  | inl e ↦ (_, by_client (returns e))
  | inr lt ↦
      let (p, at) = get_elem?-found ws i lt in
      elim (exited-cases p) [
        | inl e ↦ (_, by_client (joins_thread (at ∙ ap some e)))
        | inr n ↦
            worker_goes_on (record { shared = s; workers = ws; client = joins i }) i p at free n
      ]
]

one_of : (a b : ℕ) → a + b ≡ 1 → (0 < a) ⊎ (b ≡ 1)
one_of a b e = omega (arith, e)

pushing_goes_on :
    (ws : List Pc) (s : Shared) (c : Client)
    → client_holds c ≡ 1
    → (y : System) × Step (record { shared = s; workers = ws; client = c }) y
pushing_goes_on ws s (pushes job jobs) h = (_, by_client pushes_job)
pushing_goes_on ws s (enqueues jobs) h = absurd (omega (arith, h))
pushing_goes_on ws s (joins i) h = absurd (omega (arith, h))
pushing_goes_on ws s returned h = absurd (omega (arith, h))

-- There is no deadlock: as long as the client is not back from `wait`, in every state that the
-- threads and the client can reach together, one of them can take a step.
pub never_stuck :
    (threads : ℕ) (jobs : List ℕ) (x : System)
    → Reach (start threads jobs) x
    → x.client ≢ returned
    → (y : System) × Step x y
never_stuck threads jobs x r live = elim (Bool-cases x.shared.lock) [
  | inr free ↦
      client_goes_on x.workers x.shared x.client free
        (subst (λ n. joined x.client n ≤ n) (sym inv.sized) inv.within) live
  | inl taken ↦
      let b : bit x.shared.lock ≡ 1 = ap bit taken in
      elim (one_of (total holds x.workers) (client_holds x.client) (inv.held ∙ b)) [
        | inl some_holds ↦
            let (i, p, at, h) = total_found holds x.workers some_holds in holder_goes_on x i p at h
        | inr pushing ↦ pushing_goes_on x.workers x.shared x.client pushing
      ]
]
  where
    inv : IsInv threads jobs x
    inv = reach-IsInv r
