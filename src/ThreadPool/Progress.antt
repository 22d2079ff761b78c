-- ===== src/ThreadPool/Progress.antt =====
-- What wait() and the destructor may rely on, and what can go on while a task is queued.
use virus_detector.Base.{
  ℕ, zero, suc, ◌+◌, ◌≡◌, refl, sym, ap, ◌∙◌, ◌≢◌, ◌⊎◌, inl, inr, some, List, [], ◌∷◌, ◌++◌, length,
  arith, append-nil, List-cases,
}
use virus_detector.ThreadPool.{ThreadPool, System, Reach, take_task, wait, default_workers}
use virus_detector.ThreadPool.Invariant.{IsSound, Reach-IsSound, count}

all_ended :
    (s : System)
    → IsSound s
    → s.pool.tasks ≡ []
    → s.running ≡ []
    → (x : ℕ) → count x s.ended ≡ count x s.accepted
all_ended s v nothing none_run x =
    unfold count in
    omega (
      arith,
      v.balance x,
      ap (count x) none_run,
      ap (count x) (sym v.order ∙ ap (◌++◌ s.started) nothing ∙ append-nil s.started),
    )

wait_returned : (p q : ThreadPool) → wait p ≡ some q → (p.tasks ≡ []) × (p.active_tasks ≡ 0)
unfolding wait
wait_returned p q e = ground arith

nil_of_length : (xs : List ℕ) → length xs ≡ 0 → xs ≡ []
nil_of_length [] h = refl
nil_of_length (x ∷ xs) h = absurd (omega arith)

-- In a reachable state in which wait() returns, every accepted task has ended, as often as it was
-- accepted.
pub wait-ended :
    (s : System) (p : ThreadPool)
    → Reach s
    → wait s.pool ≡ some p
    → (x : ℕ) → count x s.ended ≡ count x s.accepted
wait-ended s p r e =
    let v = Reach-IsSound r in
    let (nothing, idle) = wait_returned s.pool p e in
    all_ended s v nothing (nil_of_length s.running (sym v.active ∙ idle))

-- In a reachable state in which all workers have returned, which the destructor waits for, every
-- accepted task has ended, as often as it was accepted.
pub returned-ended :
    (s : System)
    → Reach s
    → s.returned_workers ≡ default_workers
    → (x : ℕ) → count x s.ended ≡ count x s.accepted
returned-ended s r e =
    let v = Reach-IsSound r in
    let (stopped, nothing) = v.returned (λ z. omega (arith, e)) in
    all_ended s v nothing (nil_of_length s.running (omega (arith, v.workers, e)))

-- In a reachable state with a queued task, a worker waits and can take a task, or some task is
-- running.
pub tasks-Step :
    (s : System)
    → Reach s
    → s.pool.tasks ≢ []
    → ((k : ℕ) × (task : ℕ) × (p : ThreadPool) × (s.idle_workers ≡ suc k)
        × (take_task s.pool ≡ some (p, some task)))
      ⊎ ((task : ℕ) × (rest : List ℕ) × (s.running ≡ task ∷ rest))
tasks-Step s r busy =
    let v = Reach-IsSound r in
    elim (number_cases s.idle_workers) [
      | inr (k, e) ↦ let (task, p, taken) = can_take s.pool busy in inl (k, task, p, e, taken)
      | inl none_idle ↦ elim (number_cases s.returned_workers) [
        | inr (k, e) ↦ absurd (busy (v.returned (λ z. omega (arith, e))).1)
        | inl none_back ↦
            inr (some_running s.running (omega (arith, v.workers, none_idle, none_back)))
      ]
    ]
  where
    number_cases : (n : ℕ) → (n ≡ 0) ⊎ ((k : ℕ) × (n ≡ suc k))
    number_cases zero = inl refl
    number_cases (suc k) = inr (k, refl)

    can_take :
        (p : ThreadPool)
        → p.tasks ≢ []
        → (task : ℕ) × (q : ThreadPool) × (take_task p ≡ some (q, some task))
    can_take p h = elim (List-cases p.tasks) [
      | inl e ↦ absurd (h e)
      | inr (t, ts, e) ↦ (
        t,
        record p { tasks = ts; active_tasks = p.active_tasks + 1 },
        unfold take_task in ground arith,
      )
    ]

    some_running :
        (xs : List ℕ) → length xs ≡ 16 → (task : ℕ) × (rest : List ℕ) × (xs ≡ task ∷ rest)
    some_running [] h = absurd (omega arith)
    some_running (x ∷ xs) h = (x, xs, refl)
