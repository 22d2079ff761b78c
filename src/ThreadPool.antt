-- ===== src/ThreadPool.antt =====
-- ThreadPool/ThreadPool.{h,cpp}. Each critical section is a function on the pool's fields, `none`
-- where its condition variable keeps it waiting; threads interleave between them as a step relation, in
-- which a waiting thread may go on whenever its condition holds: notifications are left aside.
-- A task is a number; one that throws ends like any other.
pub mod Invariant
pub mod Progress
pub mod Tests
use virus_detector.Base.{
  ℕ, zero, suc, ◌+◌, ◌-◌, ◌≡◌, Bool, true, false, ◌&&◌, ◌||◌, Option, none, some, List, [], ◌∷◌,
  ◌++◌, length, ltb, ◌==◌, if◌then◌else◌,
}

abbrev pub default_workers : ℕ
default_workers = 16

abbrev pub default_queue_capacity : ℕ
default_queue_capacity = 1024

pub record ThreadPool : Type 0 where
  pub tasks : List ℕ
  pub queue_capacity : ℕ
  pub active_tasks : ℕ
  pub stop : Bool

abbrev pub new_pool : ThreadPool
new_pool = record {
  tasks = [];
  queue_capacity = default_queue_capacity;
  active_tasks = 0;
  stop = false;
}

-- The pool and whether the task was taken.
unfoldable pub enqueue : ℕ → ThreadPool → Option (ThreadPool × Bool)
enqueue task p =
    if p.stop
    then some (p, false)
    else if ltb (length p.tasks) p.queue_capacity
    then some (record p { tasks = p.tasks ++ task ∷ [] }, true)
    else none

-- The first half of workerLoop's body: the task taken, or `none` where the worker returns.
unfoldable pub take_task : ThreadPool → Option (ThreadPool × Option ℕ)
take_task p = elim p.tasks [
  | [] ↦ if p.stop then some (p, none) else none
  | t ∷ ts ↦ some (record p { tasks = ts; active_tasks = p.active_tasks + 1 }, some t)
]

unfoldable pub is_done : ThreadPool → Bool
is_done p = elim p.tasks [ [] ↦ p.active_tasks == 0 | t ∷ ts ↦ false ]

-- The second half, and whether it wakes those that wait for all tasks.
unfoldable pub end_task : ThreadPool → ThreadPool × Bool
unfolding is_done
end_task p =
    let ended : ThreadPool = record p { active_tasks = p.active_tasks - 1 } in
    (ended, is_done ended)

-- wait() returns at once in such a pool.
unfoldable pub wait : ThreadPool → Option ThreadPool
unfolding is_done
wait p = if is_done p then some p else none

-- The first step of the destructor, which then joins the workers.
unfoldable pub shut : ThreadPool → ThreadPool
shut p = record p { stop = true }

-- The pool with its threads: the workers that wait, the tasks that run, the workers that returned;
-- and the tasks accepted, started and ended so far, in that order of events.
pub record System : Type 0 where
  pub pool : ThreadPool
  pub idle_workers : ℕ
  pub running : List ℕ
  pub returned_workers : ℕ
  pub accepted : List ℕ
  pub started : List ℕ
  pub ended : List ℕ

abbrev pub start : System
start = record {
  pool = new_pool;
  idle_workers = default_workers;
  running = [];
  returned_workers = 0;
  accepted = [];
  started = [];
  ended = [];
}

-- One critical section of some thread. A running task may end in any order.
pub data Step (s : System) : System → Type 0 where
  accepts :
      (task : ℕ) (p : ThreadPool)
      → enqueue task s.pool ≡ some (p, true)
      → Step s (record s { pool = p; accepted = s.accepted ++ task ∷ [] })
  refuses : (task : ℕ) (p : ThreadPool) → enqueue task s.pool ≡ some (p, false) → Step s s
  starts :
      (k task : ℕ) (p : ThreadPool)
      → s.idle_workers ≡ suc k
      → take_task s.pool ≡ some (p, some task)
      → Step s (record s {
        pool = p;
        idle_workers = k;
        running = task ∷ s.running;
        started = s.started ++ task ∷ [];
      })
  returns :
      (k : ℕ) (p : ThreadPool)
      → s.idle_workers ≡ suc k
      → take_task s.pool ≡ some (p, none)
      → Step s (record s { pool = p; idle_workers = k; returned_workers = suc s.returned_workers })
  ends :
      (before after : List ℕ) (task : ℕ)
      → s.running ≡ before ++ task ∷ after
      → Step s (record s {
        pool = (end_task s.pool).0;
        idle_workers = suc s.idle_workers;
        running = before ++ after;
        ended = task ∷ s.ended;
      })
  shuts : Step s (record s { pool = shut s.pool })

pub data Reach : System → Type 0 where
  here : Reach start
  next : {s t : System} → Reach s → Step s t → Reach t
