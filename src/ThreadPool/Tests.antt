-- ===== src/ThreadPool/Tests.antt =====
-- One task through the pool.
use virus_detector.Base.{ℕ, zero, suc, ◌+◌, subst, arith, ◌≡◌, refl, [], ◌∷◌}
use virus_detector.ThreadPool.{
  System, start, Reach, here, next, accepts, starts, ends, shuts, returns, new_pool, enqueue,
  take_task, end_task, wait, shut,
}
use virus_detector.ThreadPool.Invariant.{IsSound, Reach-IsSound, count}
use virus_detector.ThreadPool.Progress.{wait-ended, returned-ended}

abbrev queued : System
queued = record start { pool = record new_pool { tasks = 7 ∷ [] }; accepted = 7 ∷ [] }

abbrev done : System
done = record start { accepted = 7 ∷ []; started = 7 ∷ []; ended = 7 ∷ [] }

queued-Reach : Reach queued
unfolding enqueue
queued-Reach = next here (accepts 7 (record new_pool { tasks = 7 ∷ [] }) refl)

done-Reach : Reach done
unfolding take_task end_task
done-Reach =
    next (next queued-Reach (starts 15 7 (record new_pool { active_tasks = 1 }) refl refl))
      (ends [] [] 7 refl)

Reach-IsSound_example : IsSound done
Reach-IsSound_example = Reach-IsSound done-Reach

wait-ended_example : count 7 done.ended ≡ count 7 done.accepted
unfolding wait
wait-ended_example = wait-ended done new_pool done-Reach refl 7

-- The pool after the task and the shutdown, when some workers have returned.
abbrev leaving : ℕ → ℕ → System
leaving k n = record done { pool = shut new_pool; idle_workers = k; returned_workers = n }

leaving-Reach : (k n m : ℕ) → k + n ≡ m → Reach (leaving k n) → Reach (leaving 0 m)
unfolding take_task shut
leaving-Reach zero n m e r = subst (λ z. Reach (leaving 0 z)) (omega (arith, e)) r
leaving-Reach (suc k) n m e r =
    leaving-Reach k (suc n) m (omega (arith, e)) (next r (returns k (shut new_pool) refl refl))

returned-ended_example : count 7 done.ended ≡ count 7 done.accepted
returned-ended_example =
    returned-ended (leaving 0 16) (leaving-Reach 16 0 16 refl (next done-Reach shuts)) refl 7
