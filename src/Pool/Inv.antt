-- ===== src/Pool/Inv.antt =====
-- Every step of the pool keeps the invariant.
use cc_base.Base.{
  ℕ, zero, suc, ◌+◌, ◌≤◌, ◌<◌, Bool, true, false, some, List, [], ◌∷◌, ◌++◌, ◌≡◌, ◌≢◌, refl, sym,
  ap, ◌∙◌, subst, arith, length, get_elem?, set, replicate, length-set, ◌⊎◌, inl, inr,
  length-replicate,
}
use cc_base.Pool.{
  Pc, check, check_queue, exited, Client, Shared, System, Move, Act, locks, pushes_job, sets_die,
  joins_thread, returns, Step, by_worker, by_client, start, Reach, here, next,
}
use cc_base.Pool.Counts.{
  count, count-append, total, total-set, total-replicate, runs, get_elem?-set_other,
  total-get_elem?,
}
use cc_base.Pool.Moves.{
  bit, holds, IsInv, Move-die, Move-conserved, Move-holds, Move-empty, Move-exited,
  Move-check_queue, Move-from-exited, set-next,
}

Move-IsInv :
    {threads : ℕ} {jobs : List ℕ} (x : System) (i : ℕ) {p p' : Pc} {s : Shared}
    → IsInv threads jobs x
    → get_elem? x.workers i ≡ some p
    → Move x.shared p s p'
    → IsInv threads jobs (record x { shared = s; workers = set x.workers i p' })
Move-IsInv {threads} {jobs} x i {p} {p'} {s} inv at m = record {
  sized = length-set x.workers i p' ∙ inv.sized;
  conserved = λ a.
      omega (arith, inv.conserved a, Move-conserved a m, total-set (runs a) x.workers i p p' at);
  held = omega (
    arith,
    inv.held,
    Move-holds m (omega (arith, inv.held, total-get_elem? holds x.workers i p at)),
    total-set holds x.workers i p p' at,
  );
  dying = λ j e. Move-die m ∙ (elim (set-next x.workers i j p' check_queue e) [
    | inl q ↦ Move-check_queue (subst (λ w. Move x.shared p s w) q m)
    | inr q ↦ inv.dying j q
  ]);
  dead = λ j e. Move-die m ∙ (elim (set-next x.workers i j p' exited e) [
    | inl q ↦
        let (from, _) = Move-exited (subst (λ w. Move x.shared p s w) q m) in
        inv.dying i (at ∙ ap some from)
    | inr q ↦ inv.dead j q
  ]);
  emptied = λ j e. elim (set-next x.workers i j p' exited e) [
    | inl q ↦ let (_, none_left) = Move-exited (subst (λ w. Move x.shared p s w) q m) in none_left
    | inr q ↦ Move-empty m (inv.emptied j q)
  ];
  drained = λ d. inv.drained (sym (Move-die m) ∙ d);
  ended = λ j lt.
      get_elem?-set_other x.workers i j p p' exited at (Move-from-exited m) (inv.ended j lt);
  within = inv.within;
}

below_or_equal : (i j : ℕ) → j < suc i → (j < i) ⊎ (j ≡ i)
below_or_equal i j lt = omega (arith, lt)

get_elem?-lt : (ps : List Pc) (i : ℕ) {p : Pc} → get_elem? ps i ≡ some p → i < length ps
get_elem?-lt [] i e = absurd (cc)
get_elem?-lt (x ∷ ps) zero e = omega arith
get_elem?-lt (x ∷ ps) (suc i) e = omega (arith, get_elem?-lt ps i e)

only_checks : (n i : ℕ) (p : Pc) → get_elem? (replicate n check) i ≡ some p → check ≢ p → ⊥
only_checks zero i p e ne = absurd (cc)
only_checks (suc n) zero p e ne = ne (cc)
only_checks (suc n) (suc i) p e ne = only_checks n i p e ne

Act-IsInv :
    {threads : ℕ} {jobs : List ℕ} (ws : List Pc) (s : Shared) {s' : Shared} {c c' : Client}
    → IsInv threads jobs (record { shared = s; workers = ws; client = c })
    → Act ws s c s' c'
    → IsInv threads jobs (record { shared = s'; workers = ws; client = c' })
unfolding count
Act-IsInv ws s inv (locks e) = record {
  sized = inv.sized;
  conserved = inv.conserved;
  dying = inv.dying;
  dead = inv.dead;
  emptied = inv.emptied;
  drained = inv.drained;
  ended = inv.ended;
  within = inv.within;
  held = let unlocked : bit s.lock ≡ 0 = ap bit e in omega (arith, inv.held, unlocked);
}
Act-IsInv {threads} {jobs} ws s inv (pushes_job {job} {jobs = rest}) = record {
  sized = inv.sized;
  conserved = λ a.
      (let q : count a (s.queue ++ job ∷ []) ≡ count a s.queue + count a (job ∷ []) =
          count-append a s.queue (job ∷ []) in
        pushed a q (inv.conserved a));
  held = omega (arith, inv.held, lock_bit s.lock);
  dying = inv.dying;
  dead = inv.dead;
  emptied = λ i e. let d = inv.drained (inv.dead i e) in absurd (cc);
  drained = λ d. let d = inv.drained d in absurd (cc);
  ended = inv.ended;
  within = inv.within;
}
  where
    pushed :
        (a : ℕ)
        → count a (s.queue ++ job ∷ []) ≡ count a s.queue + count a (job ∷ [])
        → count a s.queue + total (runs a) ws + count a s.done + count a (job ∷ rest) ≡ count a jobs
        → count a (s.queue ++ job ∷ []) + total (runs a) ws + count a s.done + count a rest
          ≡ count a jobs
    pushed a q h = omega (arith, q, h)

    lock_bit : (b : Bool) → bit b ≤ 1
    lock_bit true = omega arith
    lock_bit false = omega arith
Act-IsInv ws s inv sets_die = record {
  sized = inv.sized;
  conserved = inv.conserved;
  held = inv.held;
  dying = λ i e. refl;
  dead = λ i e. refl;
  emptied = inv.emptied;
  drained = λ d. refl;
  ended = inv.ended;
  within = inv.within;
}
Act-IsInv {threads} ws s inv (joins_thread {i} e) = record {
  sized = inv.sized;
  conserved = inv.conserved;
  dying = inv.dying;
  dead = inv.dead;
  emptied = inv.emptied;
  drained = inv.drained;
  held = inv.held;
  ended = λ j lt. (elim (below_or_equal i j (omega (arith, lt))) [
    | inl less ↦ inv.ended j less
    | inr same ↦ subst (λ k. get_elem? ws k ≡ some exited) (sym same) e
  ]);
  within = omega (arith, inv.sized, get_elem?-lt ws i e);
}
Act-IsInv {threads} ws s inv (returns {i} e) = record {
  sized = inv.sized;
  conserved = inv.conserved;
  dying = inv.dying;
  dead = inv.dead;
  emptied = inv.emptied;
  drained = inv.drained;
  held = inv.held;
  ended = λ j lt. inv.ended j (omega (arith, lt, e, inv.sized));
  within = omega arith;
}

next-IsInv :
    {threads : ℕ} {jobs : List ℕ} {x y : System}
    → IsInv threads jobs x
    → Step x y
    → IsInv threads jobs y
next-IsInv {threads} {jobs} {x} inv (by_worker i at m) = Move-IsInv x i inv at m
next-IsInv {threads} {jobs} {x} inv (by_client a) = Act-IsInv x.workers x.shared inv a

start-IsInv : (threads : ℕ) (jobs : List ℕ) → IsInv threads jobs (start threads jobs)
unfolding count
start-IsInv threads jobs = record {
  sized = length-replicate threads check;
  conserved = λ a. omega (arith, total-replicate (runs a) check threads refl);
  held = omega (arith, total-replicate holds check threads refl);
  dying = λ i e. absurd (only_checks threads i check_queue e (λ q. absurd (cc)));
  dead = λ i e. absurd (only_checks threads i exited e (λ q. absurd (cc)));
  emptied = λ i e. absurd (only_checks threads i exited e (λ q. absurd (cc)));
  drained = λ d. absurd (cc);
  ended = λ i lt. absurd (omega (arith, lt));
  within = omega arith;
}

pub reach-IsInv :
    {threads : ℕ} {jobs : List ℕ} {x : System} → Reach (start threads jobs) x → IsInv threads jobs x
reach-IsInv {threads} {jobs} here = start-IsInv threads jobs
reach-IsInv (next r s) = next-IsInv (reach-IsInv r) s
