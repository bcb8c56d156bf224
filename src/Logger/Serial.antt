-- ===== src/Logger/Serial.antt =====
-- Processes that log at once leave what they leave one after another.
use cc_base.Base.{
  ℕ, zero, suc, Option, none, some, List, [], ◌∷◌, ◌++◌, map, ◌≡◌, ◌≢◌, refl, ap, sym, ◌∙◌, subst,
  inl, inr, ◌⊎◌, arith, get_elem?, set, ◌>>=◌, bind-some, Option-cases, append_assoc, append-nil,
}
use cc_base.Cstring.{Bytes}
use cc_base.Logger.Session.{log_program_args, log_exec}
use cc_base.Logger.Locking.{all_closed, perform_all, log_exec-Balanced}
use cc_base.Logger.Log.{Entry}
use cc_base.Logger.Growth.{IsLogOf, Grown, log_program_args-Grown}
use cc_base.Logger.Steps.{IsFine, Move-own, Move-other}
use cc_base.Logger.Concurrent.{
  Process, World, Move, opening, closing, locking, unlocking, reading, writing, dying, Reach, here,
  next, Caller, caller_writes, writes_of, calls_of, start_all,
}

-- One process after another, each on the log that the one before it leaves.
pub serial : (ℕ → Bytes → Option Bytes) → List ℕ → Bytes → Option Bytes
serial writer [] log = some log
serial writer (i ∷ order) log = do log' ← writer i log; serial writer order log'

get_elem?-set-at :
    (xs : List Process) (i j : ℕ) (v w : Process)
    → get_elem? (set xs i v) j ≡ some w
    → ((j ≡ i) × (v ≡ w)) ⊎ ((j ≢ i) × (get_elem? xs j ≡ some w))
get_elem?-set-at [] i j v w e = absurd (cc)
get_elem?-set-at (x ∷ xs) zero zero v w e = inl (refl, cc)
get_elem?-set-at (x ∷ xs) zero (suc j) v w e = inr (λ q. omega (arith, q), e)
get_elem?-set-at (x ∷ xs) (suc i) zero v w e = inr (λ q. omega (arith, q), e)
get_elem?-set-at (x ∷ xs) (suc i) (suc j) v w e = elim (get_elem?-set-at xs i j v w e) [
  | inl (q, r) ↦ inl (ap suc q, r)
  | inr (q, r) ↦ inr (λ s. q (omega (arith, s)), r)
]

module _ (writer : ℕ → Bytes → Option Bytes) where
  abbrev AllFine : World → Type 0
  AllFine w = (j : ℕ) (p : Process) → get_elem? w.processes j ≡ some p → IsFine j w.log w.holder p

  serial-append :
      (order wrote : List ℕ) (log log' : Bytes)
      → serial writer order log ≡ some log'
      → serial writer (order ++ wrote) log ≡ serial writer wrote log'
  unfolding serial
  serial-append [] wrote log log' e = let same : log ≡ log' = cc in ap (serial writer wrote) same
  serial-append (i ∷ order) wrote log log' e =
      let (log1, f, g) = bind-some (writer i log) (serial writer order) log' e in
      rw (serial, f) (serial-append order wrote log1 log' g)

  serial-Move :
      {i : ℕ} {log log' : Bytes} {h h' : Option ℕ} {p p' : Process} {wrote : List ℕ}
      → IsFine i log h p
      → Move writer i log h p wrote log' h' p'
      → serial writer wrote log ≡ some log'
  unfolding serial
  serial-Move fine opening = refl
  serial-Move fine closing = refl
  serial-Move fine locking = refl
  serial-Move fine unlocking = refl
  serial-Move fine reading = refl
  serial-Move {i} fine (writing {text = text} w) =
      ap (λ l. writer i l >>= serial writer []) (sym (fine.fresh text refl).0) ∙ rw w refl
  serial-Move fine dying = refl

  reach_serial :
      {w x : World} {order : List ℕ}
      → AllFine w
      → Reach writer w order x
      → AllFine x × (serial writer order w.log ≡ some x.log)
  unfolding serial
  reach_serial fine here = (fine, refl)
  reach_serial {w} fine
        (next {order = order} {wrote = wrote} {x = y} {p = p} {p' = p'} {log = log}
          {holder = holder} i path at move) =
      let (fine', serially) = reach_serial fine path in
      (
        (λ j q e. elim (get_elem?-set-at y.processes i j p' q e) [
          | inl (same, is) ↦
              subst (λ k. IsFine k log holder q) (sym same)
                (subst (IsFine i log holder) is (Move-own writer (fine' i p at) move))
          | inr (other, before) ↦ Move-other writer other (fine' i p at) (fine' j q before) move
        ]),
        serial-append order wrote w.log y.log serially ∙ serial-Move (fine' i p at) move,
      )

map-at :
    (f : Caller → Process) (callers : List Caller) (j : ℕ) (p : Process)
    → get_elem? (map f callers) j ≡ some p
    → (c : Caller) × (f c ≡ p)
map-at f [] j p e = absurd (cc)
map-at f (c ∷ callers) zero p e = (c, cc)
map-at f (c ∷ callers) (suc j) p e = map-at f callers j p e

calls_of-Balanced :
    (log : Bytes) (c : Caller) → perform_all (calls_of log c) all_closed ≡ some all_closed
unfolding calls_of perform_all
calls_of-Balanced log c =
    elim (Option-cases (log_exec c.host c.os c.env log (c.prog ∷ c.argv0 ∷ c.argv))) [
      | inl e ↦ rw (calls_of, e) refl
      | inr (l, e) ↦
          rw (calls_of, e)
            (log_exec-Balanced c.host c.os c.env log (c.prog ∷ c.argv0 ∷ c.argv) l e).0
    ]

start_all-AllFine :
    (log : Bytes) (callers : List Caller) → AllFine (writes_of callers) (start_all log callers)
start_all-AllFine log callers j p e =
    let (c, q) = map-at (λ c. record { todo = calls_of log c; read = none }) callers j p e in
    subst (IsFine j log none) q (record {
      files = all_closed;
      goes = calls_of-Balanced log c;
      has_lock = refl;
      fresh = λ text r. absurd (cc);
    })

serial-Grown :
    (callers : List Caller) (order : List ℕ) (es : List Entry) (log log' : Bytes)
    → IsLogOf es log
    → serial (writes_of callers) order log ≡ some log'
    → Grown es log'
unfolding serial
serial-Grown callers [] es log log' h e =
    let same : log ≡ log' = cc in ([], subst (IsLogOf (es ++ [])) same (rw (append-nil es) h))
serial-Grown callers (i ∷ order) es log log' h e =
    let (log1, f, g) =
      bind-some (writes_of callers i log) (serial (writes_of callers) order) log' e in
    elim (Option-cases (get_elem? callers i)) [
      | inl missing ↦ absurd (cc (missing, f))
      | inr (c, at) ↦
          let (w, written, q) =
            bind-some (log_program_args c.host c.env log c.prog c.argv) (λ w. some w.0) log1
              (sym (ap (λ o. caller_writes o log) at) ∙ f) in
          let (new, is) = log_program_args-Grown c.host c.env log c.prog c.argv es w h written in
          let same : w.0 ≡ log1 = cc in
          let (more, is2) =
            serial-Grown callers order (es ++ new) log1 log' (subst (IsLogOf (es ++ new)) same is)
              g in
          (new ++ more, subst (λ fs. IsLogOf fs log') (append_assoc es new more) is2)
    ]

-- Processes that log at once, on a log of some entries: whatever the order of their steps, and
-- wherever some of them die but inside of the writing, the log is the one that the processes that wrote it leave one after
-- another, in the order in which they wrote. It is the log of the same entries with more behind them.
pub start_all-serial :
    (callers : List Caller) (es : List Entry) (log : Bytes) (order : List ℕ) (x : World)
    → IsLogOf es log
    → Reach (writes_of callers) (start_all log callers) order x
    → (serial (writes_of callers) order log ≡ some x.log) × Grown es x.log
start_all-serial callers es log order x h path =
    let (_, serially) = reach_serial (writes_of callers) (start_all-AllFine log callers) path in
    (serially, serial-Grown callers order es log x.log h serially)
