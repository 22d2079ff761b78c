-- ===== src/ThreadPool/Invariant.antt =====
-- What holds in every state of the pool: bounds, no lost or repeated task, first in first out.
use virus_detector.Base.{
  ℕ, ◌+◌, ◌<◌, ◌≤◌, ◌≡◌, refl, sym, ap, ◌∙◌, ◌≢◌, true, false, none, some, List, [], ◌∷◌, ◌++◌,
  length, length-append, arith, ◌==◌, if◌then◌else◌, append_assoc,
}
use virus_detector.ThreadPool.{
  ThreadPool, System, Step, Reach, start, here, next, accepts, refuses, starts, returns, ends,
  shuts, enqueue, take_task, end_task, shut, default_workers, default_queue_capacity,
}

unfoldable pub count : ℕ → List ℕ → ℕ
count x [] = 0
count x (y ∷ ys) = (if x == y then 1 else 0) + count x ys

count-append : (x : ℕ) (xs ys : List ℕ) → count x (xs ++ ys) ≡ count x xs + count x ys
unfolding count
count-append x [] ys = omega arith
count-append x (y ∷ xs) ys = omega (arith, count-append x xs ys)

pub record IsSound (s : System) : Type 0 where
  pub capacity : s.pool.queue_capacity ≡ default_queue_capacity
  pub bounded : length s.pool.tasks ≤ default_queue_capacity
  pub active : s.pool.active_tasks ≡ length s.running
  pub workers : s.idle_workers + length s.running + s.returned_workers ≡ default_workers
  pub order : s.started ++ s.pool.tasks ≡ s.accepted
  pub balance : (x : ℕ) → count x s.started ≡ count x s.running + count x s.ended
  pub returned : s.returned_workers ≢ 0 → (s.pool.stop ≡ true) × (s.pool.tasks ≡ [])

start-IsSound : IsSound start
unfolding count
start-IsSound = record {
  capacity = refl;
  bounded = omega arith;
  active = refl;
  workers = omega arith;
  order = refl;
  balance = λ x. omega arith;
  returned = λ h. absurd (h refl);
}

enqueue_accepted :
    (task : ℕ) (p q : ThreadPool)
    → enqueue task p ≡ some (q, true)
    → (p.stop ≡ false)
      × (length p.tasks < p.queue_capacity)
      × (q ≡ record p { tasks = p.tasks ++ task ∷ [] })
unfolding enqueue
enqueue_accepted task p q e = ground arith

take_task_started :
    (task : ℕ) (p q : ThreadPool)
    → take_task p ≡ some (q, some task)
    → (p.tasks ≡ task ∷ q.tasks)
      × (q.active_tasks ≡ p.active_tasks + 1)
      × (q.stop ≡ p.stop)
      × (q.queue_capacity ≡ p.queue_capacity)
unfolding take_task
take_task_started task p q e = ground arith

take_task_returned :
    (p q : ThreadPool) → take_task p ≡ some (q, none) → (p.tasks ≡ []) × (p.stop ≡ true) × (q ≡ p)
unfolding take_task
take_task_returned p q e = ground arith

Step-IsSound : {s t : System} → Step s t → IsSound s → IsSound t
Step-IsSound {s} (accepts task p e) v =
    let (open_, room, same) = enqueue_accepted task s.pool p e in
    record {
      capacity = ap (λ q. q.queue_capacity) same ∙ v.capacity;
      bounded = omega (
        arith,
        ap (λ q. length q.tasks) same,
        length-append s.pool.tasks (task ∷ []),
        v.capacity,
      );
      active = ap (λ q. q.active_tasks) same ∙ v.active;
      workers = v.workers;
      order =
          ap (λ q. s.started ++ q.tasks) same
          ∙ sym (append_assoc s.started s.pool.tasks (task ∷ []))
          ∙ ap (λ l. l ++ task ∷ []) v.order;
      balance = v.balance;
      returned = λ h.
          let (stopped, nothing) = v.returned h in
          let bad : true ≡ false = sym stopped ∙ open_ in (cc, cc);
    }
Step-IsSound (refuses task p e) v = v
Step-IsSound {s} (starts k task p i e) v =
    let (front, more, stops, caps) = take_task_started task s.pool p e in
    record {
      capacity = caps ∙ v.capacity;
      bounded = omega (arith, v.bounded, ap length front);
      active = omega (arith, more, v.active);
      workers = omega (arith, v.workers, i);
      order =
          append_assoc s.started (task ∷ []) p.tasks ∙ ap (◌++◌ s.started) (sym front) ∙ v.order;
      balance =
          λ x. unfold count in omega (arith, count-append x s.started (task ∷ []), v.balance x);
      returned = λ h.
          let (stopped, nothing) = v.returned h in
          let bad : [] ≡ task ∷ p.tasks = sym nothing ∙ front in (cc, cc);
    }
Step-IsSound {s} (returns k p i e) v =
    let (nothing, stopped, same) = take_task_returned s.pool p e in
    record {
      capacity = ap (λ q. q.queue_capacity) same ∙ v.capacity;
      bounded = omega (arith, ap (λ q. length q.tasks) same, v.bounded);
      active = ap (λ q. q.active_tasks) same ∙ v.active;
      workers = omega (arith, v.workers, i);
      order = ap (λ q. s.started ++ q.tasks) same ∙ v.order;
      balance = v.balance;
      returned = λ h. (ap (λ q. q.stop) same ∙ stopped, ap (λ q. q.tasks) same ∙ nothing);
    }
Step-IsSound {s} (ends before after task e) v = record {
  capacity = unfold end_task in v.capacity;
  bounded = unfold end_task in v.bounded;
  active =
      unfold end_task in
      omega (
        arith,
        v.active,
        ap length e,
        length-append before (task ∷ after),
        length-append before after,
      );
  workers = omega (
    arith,
    v.workers,
    ap length e,
    length-append before (task ∷ after),
    length-append before after,
  );
  order = unfold end_task in v.order;
  balance = λ x.
      unfold count in
      omega (
        arith,
        v.balance x,
        ap (count x) e,
        count-append x before (task ∷ after),
        count-append x before after,
      );
  returned = λ h. unfold end_task in v.returned h;
}
Step-IsSound {s} shuts v =
    unfold shut in
    record {
      capacity = v.capacity;
      bounded = v.bounded;
      active = v.active;
      workers = v.workers;
      order = v.order;
      balance = v.balance;
      returned = λ h. (refl, (v.returned h).1);
    }

-- In every reachable state: the queue holds at most 1024 tasks; the counter of active tasks is right
-- and each of the 16 workers waits, runs one task or has returned; tasks start in the order in which
-- they were accepted, and those started are the running and the ended ones, each as often; a worker
-- has returned only if the pool is stopping and its queue is empty.
pub Reach-IsSound : {s : System} → Reach s → IsSound s
Reach-IsSound here = start-IsSound
Reach-IsSound (next r st) = Step-IsSound st (Reach-IsSound r)
