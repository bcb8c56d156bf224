-- ===== src/Logger/Steps.antt =====
-- A step of one of the processes that log at once keeps all of them in order.
use cc_base.Base.{
  ℕ, Bool, true, false, Option, none, some, List, ◌∷◌, ◌≡◌, ◌≢◌, refl, ap, sym, ◌∙◌, arith, ◌==◌,
  ==_refl, ==-eq_false, bind-some,
}
use cc_base.Cstring.{Bytes}
use cc_base.Logger.Session.{lock_file, log_file, Event, opens, locks, unlocks, closes, writes}
use cc_base.Logger.Locking.{Files, all_closed, perform, perform_all}
use cc_base.Logger.Concurrent.{
  Process, release, Move, opening, closing, locking, unlocking, reading, writing, dying,
}

-- Whether a process holds the lock.
abbrev pub holds : ℕ → Option ℕ → Bool
holds i none = false
holds i (some j) = i == j

-- A process between two steps: its calls that are left are in a right order, it has the lock exactly
-- if they say so, and what it has read is the log, under the lock.
pub record IsFine (i : ℕ) (log : Bytes) (holder : Option ℕ) (p : Process) : Type 0 where
  pub files : Files
  pub goes : perform_all p.todo files ≡ some all_closed
  pub has_lock : files.locked ≡ holds i holder
  pub fresh : (text : Bytes) → p.read ≡ some text → (text ≡ log) × (holds i holder ≡ true)

holds-release : (i : ℕ) (h : Option ℕ) → holds i (release i h) ≡ false
unfolding release
holds-release i none = refl
holds-release i (some j) = ground arith

holds-release_other : (i j : ℕ) (h : Option ℕ) → j ≢ i → holds j (release i h) ≡ holds j h
unfolding release
holds-release_other i j none ne = refl
holds-release_other i j (some k) ne = ground (arith, ne)

-- What a call does to the lock.
abbrev lock_after : Event → Bool → Bool
lock_after locks b = true
lock_after unlocks b = false
lock_after (opens f) b = b
lock_after (closes f) b = b
lock_after writes b = b

perform-lock :
    (e : Event) (f f' : Files) → perform e f ≡ some f' → f'.locked ≡ lock_after e f.locked
unfolding perform
perform-lock (opens lock_file) f f' h = ground (arith, h)
perform-lock (opens log_file) f f' h = ground (arith, h)
perform-lock locks f f' h = ground (arith, h)
perform-lock unlocks f f' h = ground (arith, h)
perform-lock writes f f' h = ground (arith, h)
perform-lock (closes lock_file) f f' h = ground (arith, h)
perform-lock (closes log_file) f f' h = ground (arith, h)

perform-writes : (f f' : Files) → perform writes f ≡ some f' → f.locked ≡ true
unfolding perform
perform-writes f f' h = ground (arith, h)

perform-closes : (f f' : Files) → perform (closes lock_file) f ≡ some f' → f.locked ≡ false
unfolding perform
perform-closes f f' h = ground (arith, h)

holds-one : (i j : ℕ) (h : Option ℕ) → holds i h ≡ true → holds j h ≡ true → j ≡ i
holds-one i j none a b = absurd (cc)
holds-one i j (some k) a b = ground (arith, a, b)

-- A call that is made leaves a process fine, if the lock is as the call says.
made :
    {i : ℕ} {log log' : Bytes} {h h' : Option ℕ} {p : Process} {e : Event} {es : List Event}
    → IsFine i log h p
    → p.todo ≡ e ∷ es
    → holds i h' ≡ lock_after e (holds i h)
    → IsFine i log' h' (record { todo = es; read = none })
unfolding perform_all
made {i} {log} {log'} {h} {h'} {p} {e} {es} fine todo lock =
    let (f', done, goes) =
      bind-some (perform e fine.files) (perform_all es) all_closed
        (sym (ap (λ es. perform_all es fine.files) todo) ∙ fine.goes) in
    record {
      files = f';
      goes = goes;
      has_lock = perform-lock e fine.files f' done ∙ (ap (lock_after e) fine.has_lock ∙ sym lock);
      fresh = λ text r. absurd (cc);
    }

-- What the first call needs of the lock.
first_call :
    {i : ℕ} {log : Bytes} {h : Option ℕ} {p : Process} {e : Event} {es : List Event} (b : Bool)
    → IsFine i log h p
    → p.todo ≡ e ∷ es
    → ((f f' : Files) → perform e f ≡ some f' → f.locked ≡ b)
    → holds i h ≡ b
unfolding perform_all
first_call {e = e} {es = es} b fine todo needs =
    let (f', done, goes) =
      bind-some (perform e fine.files) (perform_all es) all_closed
        (sym (ap (λ es. perform_all es fine.files) todo) ∙ fine.goes) in
    sym fine.has_lock ∙ needs fine.files f' done

module _ (writer : ℕ → Bytes → Option Bytes) where
  pub Move-own :
      {i : ℕ} {log log' : Bytes} {h h' : Option ℕ} {p p' : Process} {wrote : List ℕ}
      → IsFine i log h p
      → Move writer i log h p wrote log' h' p'
      → IsFine i log' h' p'
  unfolding perform_all
  Move-own fine opening = made fine refl refl
  Move-own {i} {h = h} fine (closing {f = lock_file}) =
      made fine refl (holds-release i h ∙ sym (first_call false fine refl perform-closes))
  Move-own fine (closing {f = log_file}) = made fine refl refl
  Move-own {i} fine locking = made fine refl (==_refl i)
  Move-own {i} {h = h} fine unlocking = made fine refl (holds-release i h)
  Move-own {log = log} fine reading = record {
    files = fine.files;
    goes = fine.goes;
    has_lock = fine.has_lock;
    fresh = λ text r. (cc, first_call true fine refl perform-writes);
  }
  Move-own fine (writing w) = made fine refl refl
  Move-own {i} {h = h} fine dying = record {
    files = all_closed;
    goes = refl;
    has_lock = sym (holds-release i h);
    fresh = λ text r. absurd (cc);
  }

  -- A step of another process.
  kept :
      {j : ℕ} {log log' : Bytes} {h h' : Option ℕ} {q : Process}
      → IsFine j log h q
      → holds j h' ≡ holds j h
      → (holds j h ≡ true → log ≡ log')
      → IsFine j log' h' q
  kept fine lock same = record {
    files = fine.files;
    goes = fine.goes;
    has_lock = fine.has_lock ∙ sym lock;
    fresh = λ text r. let (t, held) = fine.fresh text r in (t ∙ same held, lock ∙ held);
  }

  pub Move-other :
      {i j : ℕ} {log log' : Bytes} {h h' : Option ℕ} {p p' q : Process} {wrote : List ℕ}
      → j ≢ i
      → IsFine i log h p
      → IsFine j log h q
      → Move writer i log h p wrote log' h' p'
      → IsFine j log' h' q
  Move-other ne own fine opening = kept fine refl (λ e. refl)
  Move-other {i} {j} {h = h} ne own fine (closing {f = lock_file}) =
      kept fine (holds-release_other i j h ne) (λ e. refl)
  Move-other ne own fine (closing {f = log_file}) = kept fine refl (λ e. refl)
  Move-other {i} {j} ne own fine locking = kept fine (==-eq_false j i ne) (λ e. refl)
  Move-other {i} {j} {h = h} ne own fine unlocking =
      kept fine (holds-release_other i j h ne) (λ e. refl)
  Move-other ne own fine reading = kept fine refl (λ e. refl)
  Move-other {i} {j} {h = h} ne own fine (writing {text = text} w) =
      kept fine refl (λ e. absurd (ne (holds-one i j h (own.fresh text refl).1 e)))
  Move-other {i} {j} {h = h} ne own fine dying =
      kept fine (holds-release_other i j h ne) (λ e. refl)
