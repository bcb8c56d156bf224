-- ===== src/Tests/Pools.antt =====
-- A pool with one thread and one job, to the end.
use cc_base.Base.{ℕ, true, false, [], ◌∷◌, ◌≡◌, refl}
use cc_base.Pool.{
  exited, enqueues, returned, System, stays, dies, leaves, takes_lock, pops, works, locks,
  pushes_job, sets_die, joins_thread, returns, Step, by_worker, by_client, start, Reach, here, next,
}
use cc_base.Pool.Counts.{count}
use cc_base.Pool.Outcome.{wait_done, never_stuck}

abbrev finished : System
finished = record {
  shared = record { die = true; queue = []; lock = false; done = 7 ∷ [] };
  workers = exited ∷ [];
  client = returned;
}

enqueued : Reach (start 1 (7 ∷ [])) (record (start 1 (7 ∷ [])) {
  shared = record { die = false; queue = 7 ∷ []; lock = false; done = [] };
  client = enqueues [];
})
enqueued = next (next here (by_client (locks refl))) (by_client pushes_job)

worked : Reach (start 1 (7 ∷ [])) (record (start 1 (7 ∷ [])) {
  shared = record { die = false; queue = []; lock = false; done = 7 ∷ [] };
  client = enqueues [];
})
worked =
    next
      (next
        (next (next enqueued (by_worker 0 refl (stays refl))) (by_worker 0 refl (takes_lock refl)))
        (by_worker 0 refl (pops 7 [] refl)))
      (by_worker 0 refl works)

finished-Reach : Reach (start 1 (7 ∷ [])) finished
finished-Reach =
    next
      (next
        (next (next (next worked (by_client sets_die)) (by_worker 0 refl (dies refl)))
          (by_worker 0 refl (leaves refl)))
        (by_client (joins_thread refl)))
      (by_client (returns refl))

wait_done_example :
    (finished.shared.queue ≡ []) × ((job : ℕ) → count job finished.shared.done ≡ count job (7 ∷ []))
wait_done_example = wait_done 0 (7 ∷ []) finished finished-Reach refl

never_stuck_example :
    (y : System) × Step
      (record (start 1 (7 ∷ [])) {
        shared = record { die = false; queue = []; lock = false; done = 7 ∷ [] };
        client = enqueues [];
      })
      y
never_stuck_example = never_stuck 1 (7 ∷ []) _ worked (λ e. absurd (cc))
