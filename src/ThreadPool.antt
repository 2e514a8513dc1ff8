-- ===== src/ThreadPool.antt =====
-- include/thread_pool.h, src/thread_pool.cpp: the pool as steps of its threads. A task is a number;
-- a region under the mutex, and a change of an atomic, is one step. The steps of `Shutdown` are the
-- exchange of the flag and the region that clears the queue, between which workers may run.
pub mod Order
use cpp_reactor_framework.Prelude.{
  ℕ, ◌+◌, ◌-◌, Bool, true, false, List, [], ◌∷◌, ◌++◌, ltb, ◌==◌, if◌then◌else◌,
}

-- `workers` is the size of `m_workers`, and `shutting_down` whether a `Shutdown` is between its two
-- steps. `started` are the tasks that workers took, oldest first, and `dropped` those that were
-- popped without being run.
pub record ThreadPool : Type 0 where
  pub is_running : Bool
  pub target_thread_num : ℕ
  pub workers : ℕ
  pub tasks : List ℕ
  pub shutting_down : Bool
  pub started : List ℕ
  pub dropped : List ℕ

abbrev pub new : ℕ → ThreadPool
new thread_num = record {
  is_running = true;
  target_thread_num = thread_num;
  workers = thread_num;
  tasks = [];
  shutting_down = false;
  started = [];
  dropped = [];
}

-- `Commit`: whether the task was taken; a pool that was stopped throws.
unfoldable pub commit : ℕ → ThreadPool → Bool × ThreadPool
commit task p =
    if p.is_running then (true, record p { tasks = p.tasks ++ (task ∷ []) }) else (false, p)

-- One turn of `WorkerLoop`.
pub data WorkerTurn : Type 0 where
  waits exits : WorkerTurn
  runs : ℕ → ThreadPool → WorkerTurn

unfoldable pub worker_turn : List ℕ → ThreadPool → WorkerTurn
worker_turn [] p = if p.is_running then waits else exits
worker_turn (task ∷ tasks) p =
    runs task (record p { tasks = tasks; started = p.started ++ (task ∷ []) })

unfoldable pub resize : ℕ → ThreadPool → ThreadPool
resize new_thread_num p =
    if p.is_running then (if new_thread_num == p.target_thread_num then p else resized) else p
  where
    added : ℕ
    added = new_thread_num - p.target_thread_num

    resized : ThreadPool
    resized = record p {
      target_thread_num = new_thread_num;
      workers = if ltb p.target_thread_num new_thread_num then p.workers + added else p.workers;
    }

-- `Shutdown`: the exchange of the flag; a second call returns there.
unfoldable pub stop : ThreadPool → ThreadPool
stop p = if p.is_running then record p { is_running = false; shutting_down = true } else p

-- `Shutdown`: the threads are moved out to be joined, and the queue is emptied.
unfoldable pub clear : ThreadPool → ThreadPool
clear p =
    if p.shutting_down
    then record p { workers = 0; tasks = []; shutting_down = false; dropped = p.dropped ++ p.tasks }
    else p
