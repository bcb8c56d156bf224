-- ===== src/Pool/Moves.antt =====
-- What the pool keeps, and what a step of a worker does to each part of it.
use cc_base.Base.{
  ℕ, ◌+◌, ◌≤◌, ◌<◌, Bool, true, false, some, List, [], ◌∷◌, ◌≡◌, ◌≢◌, refl, sym, arith, ◌==◌,
  if◌then◌else◌, length, get_elem?, set, ◌⊎◌, inl, inr,
}
use cc_base.Pool.{
  Pc, check_queue, locked, woken, exited, Client, enqueues, pushes, joins, returned, Shared, System,
  Move, stays, dies, leaves, goes_on, takes_lock, sleeps, wakes, gives_lock, pops, works,
}
use cc_base.Pool.Counts.{count, total, runs, get_elem?-set}

abbrev pub bit : Bool → ℕ
bit true = 1
bit false = 0

-- Who holds the lock.
abbrev pub holds : Pc → ℕ
holds locked = 1
holds woken = 1
holds _ = 0

abbrev pub client_holds : Client → ℕ
client_holds (pushes _ _) = 1
client_holds _ = 0

-- The jobs that the client has not pushed.
abbrev pub left : Client → List ℕ
left (enqueues jobs) = jobs
left (pushes job jobs) = job ∷ jobs
left _ = []

-- How many threads were joined.
abbrev pub joined : Client → ℕ → ℕ
joined (joins i) _ = i
joined returned n = n
joined _ _ = 0

pub record IsInv (threads : ℕ) (jobs : List ℕ) (x : System) : Type 0 where
  pub sized : length x.workers ≡ threads
  pub conserved :
      (a : ℕ)
      → count a x.shared.queue
          + total (runs a) x.workers
          + count a x.shared.done
          + count a (left x.client)
        ≡ count a jobs
  pub held : total holds x.workers + client_holds x.client ≡ bit x.shared.lock
  pub dying : (i : ℕ) → get_elem? x.workers i ≡ some check_queue → x.shared.die ≡ true
  pub dead : (i : ℕ) → get_elem? x.workers i ≡ some exited → x.shared.die ≡ true
  pub emptied : (i : ℕ) → get_elem? x.workers i ≡ some exited → x.shared.queue ≡ []
  pub drained : x.shared.die ≡ true → left x.client ≡ []
  pub ended : (i : ℕ) → i < joined x.client threads → get_elem? x.workers i ≡ some exited
  pub within : joined x.client threads ≤ threads

pub Move-die : {s s' : Shared} {p p' : Pc} → Move s p s' p' → s'.die ≡ s.die
Move-die (stays _) = refl
Move-die (dies _) = refl
Move-die (leaves _) = refl
Move-die (goes_on _) = refl
Move-die (takes_lock _) = refl
Move-die (sleeps _) = refl
Move-die (wakes _) = refl
Move-die gives_lock = refl
Move-die (pops _ _ _) = refl
Move-die works = refl

pub Move-conserved :
    (a : ℕ) {s s' : Shared} {p p' : Pc}
    → Move s p s' p'
    → count a s.queue + runs a p + count a s.done ≡ count a s'.queue + runs a p' + count a s'.done
unfolding count
Move-conserved a (stays _) = refl
Move-conserved a (dies _) = refl
Move-conserved a (leaves _) = refl
Move-conserved a (goes_on _) = refl
Move-conserved a (takes_lock _) = refl
Move-conserved a (sleeps _) = refl
Move-conserved a (wakes _) = refl
Move-conserved a gives_lock = refl
Move-conserved a {s} (pops job rest e) =
    let q : count a s.queue ≡ (if job == a then 1 else 0) + count a rest = rw e in omega (arith, q)
Move-conserved a works = omega arith

pub locked_bit : (b : Bool) → 1 ≤ bit b → bit b ≡ 1
locked_bit true h = refl
locked_bit false h = absurd (omega arith)

pub Move-holds :
    {s s' : Shared} {p p' : Pc}
    → Move s p s' p'
    → holds p ≤ bit s.lock
    → holds p' + bit s.lock ≡ holds p + bit s'.lock
Move-holds (stays _) h = refl
Move-holds (dies _) h = refl
Move-holds (leaves _) h = refl
Move-holds (goes_on _) h = refl
Move-holds (takes_lock e) h = rw e
Move-holds {s} (sleeps _) h = omega (arith, locked_bit s.lock h)
Move-holds (wakes e) h = rw e
Move-holds {s} gives_lock h = omega (arith, locked_bit s.lock h)
Move-holds {s} (pops _ _ _) h = omega (arith, locked_bit s.lock h)
Move-holds works h = refl

pub Move-empty : {s s' : Shared} {p p' : Pc} → Move s p s' p' → s.queue ≡ [] → s'.queue ≡ []
Move-empty (stays _) e = e
Move-empty (dies _) e = e
Move-empty (leaves _) e = e
Move-empty (goes_on _) e = e
Move-empty (takes_lock _) e = e
Move-empty (sleeps _) e = e
Move-empty (wakes _) e = e
Move-empty gives_lock e = e
Move-empty (pops _ _ f) e = absurd (cc)
Move-empty works e = e

pub Move-exited :
    {s s' : Shared} {p : Pc} → Move s p s' exited → (p ≡ check_queue) × (s'.queue ≡ [])
Move-exited (leaves e) = (refl, e)

pub Move-check_queue : {s s' : Shared} {p : Pc} → Move s p s' check_queue → s.die ≡ true
Move-check_queue (dies e) = e

pub Move-from-exited : {s s' : Shared} {p p' : Pc} → Move s p s' p' → p ≢ exited
Move-from-exited (stays _) = λ e. absurd (cc)
Move-from-exited (dies _) = λ e. absurd (cc)
Move-from-exited (leaves _) = λ e. absurd (cc)
Move-from-exited (goes_on _) = λ e. absurd (cc)
Move-from-exited (takes_lock _) = λ e. absurd (cc)
Move-from-exited (sleeps _) = λ e. absurd (cc)
Move-from-exited (wakes _) = λ e. absurd (cc)
Move-from-exited gives_lock = λ e. absurd (cc)
Move-from-exited (pops _ _ _) = λ e. absurd (cc)
Move-from-exited works = λ e. absurd (cc)

-- What a write over a worker that is no longer at its old place leaves there.
pub set-next :
    (ps : List Pc) (i j : ℕ) (p' w : Pc)
    → get_elem? (set ps i p') j ≡ some w
    → (p' ≡ w) ⊎ (get_elem? ps j ≡ some w)
set-next ps i j p' w e = elim (get_elem?-set ps i j p' w e) [ inl q ↦ inl (sym q) | inr q ↦ inr q ]
