-- ===== src/EventLoop.antt =====
-- include/eventloop.h, src/eventloop.cpp: the loop's queue of functors and its timers. A callback is
-- a number, and `script` is what it does with its loop. The mutex makes each locked region one step.
-- Times are nanoseconds of the steady clock.
pub mod Functors
pub mod Timers
pub mod Actions
pub mod Rounds
pub mod Cycle
pub mod Turns
pub mod Lifecycle
use cpp_reactor_framework.Prelude.{
  ℕ, suc, ◌+◌, ◌*◌, ◌-◌, ◌%◌, ◌/◌, Bool, true, false, not, ◌&&◌, ◌||◌, List, [], ◌∷◌, ◌++◌, ltb,
  leb, ◌==◌, if◌then◌else◌, ℤ, pos, negsuc, size_mod,
}

-- A task is shared by the map, the heap and the ready tasks; its flag `cancelled` is kept by its id
-- in the loop, and `expire_time` changes only while the task is in no heap.
pub record TimerTask : Type 0 where
  pub id : ℕ
  pub expire_time : ℕ
  pub interval : ℕ
  pub repeat : Bool
  pub cb : ℕ

-- What a callback does with its loop, on the loop's thread; times are those of `RunAt`, and of the
-- clock for `RunEvery`.
pub data Action : Type 0 where
  queues : ℕ → Action
  runs_at : ℕ → ℕ → Action
  runs_every : ℕ → ℕ → ℕ → Action
  cancels : ℕ → Action
  quits : Action

-- The callbacks that the loop has called.
pub data Call : Type 0 where
  functor_call : ℕ → Call
  timer_call : TimerTask → Call
  channel_call : ℕ → Call

-- `timers` are the keys of `m_timers`; `delayed_tasks` is the heap in the order in which it is
-- emptied, `calls` is newest first.
pub record EventLoop : Type 0 where
  pub quit : Bool
  pub calling_pending_functors : Bool
  pub pending_functors : List ℕ
  pub next_timer_id : ℕ
  pub delayed_tasks : List TimerTask
  pub timers : List ℕ
  pub cancelled : List ℕ
  pub wakeups : ℕ
  pub calls : List Call

abbrev pub new : EventLoop
new = record {
  quit = false;
  calling_pending_functors = false;
  pending_functors = [];
  next_timer_id = 1;
  delayed_tasks = [];
  timers = [];
  cancelled = [];
  wakeups = 0;
  calls = [];
}

unfoldable pub contains : List ℕ → ℕ → Bool
contains [] id = false
contains (x ∷ xs) id = x == id || contains xs id

unfoldable pub erase : List ℕ → ℕ → List ℕ
erase [] id = []
erase (x ∷ xs) id = let rest = erase xs id in if x == id then rest else x ∷ rest

abbrev pub wakeup : EventLoop → EventLoop
wakeup l = record l { wakeups = suc l.wakeups }

abbrev pub wake_if : Bool → EventLoop → EventLoop
wake_if needed l = if needed then wakeup l else l

unfoldable pub queue_in_loop : Bool → ℕ → EventLoop → EventLoop
queue_in_loop in_loop cb l =
    wake_if (not in_loop || l.calling_pending_functors)
      (record l { pending_functors = l.pending_functors ++ (cb ∷ []) })

-- `m_delayed_tasks.push`: the heap gives its earliest task first.
unfoldable pub push : TimerTask → List TimerTask → List TimerTask
push t [] = t ∷ []
push t (u ∷ us) =
    let rest = push t us in if leb u.expire_time t.expire_time then u ∷ rest else t ∷ u ∷ us

unfoldable pub add_timer : Bool → TimerTask → EventLoop → EventLoop
add_timer in_loop t l = wake_if (not in_loop || l.calling_pending_functors) (record l {
  next_timer_id = (l.next_timer_id + 1) % size_mod;
  timers = t.id ∷ erase l.timers t.id;
  delayed_tasks = push t l.delayed_tasks;
})

unfoldable pub run_at : Bool → ℕ → ℕ → EventLoop → EventLoop
unfolding add_timer
run_at in_loop when cb l =
    add_timer in_loop
      (record { id = l.next_timer_id; expire_time = when; interval = 0; repeat = false; cb = cb }) l

abbrev pub milliseconds : ℕ → ℕ
milliseconds n = n * 1000000

-- A negative delay is none.
abbrev pub at_least_zero : ℤ → ℕ
at_least_zero (pos n) = n
at_least_zero (negsuc n) = 0

unfoldable pub run_after : Bool → ℕ → ℤ → ℕ → EventLoop → EventLoop
run_after in_loop now delay_ms cb l =
    run_at in_loop (now + milliseconds (at_least_zero delay_ms)) cb l

-- An interval that is not positive is one millisecond.
abbrev pub at_least_one : ℤ → ℕ
at_least_one (pos n) = if n == 0 then 1 else n
at_least_one (negsuc n) = 1

unfoldable pub run_every : Bool → ℕ → ℤ → ℕ → EventLoop → EventLoop
unfolding add_timer
run_every in_loop now interval_ms cb l =
    let interval = milliseconds (at_least_one interval_ms) in
    add_timer in_loop
      (record {
        id = l.next_timer_id;
        expire_time = now + interval;
        interval = interval;
        repeat = true;
        cb = cb;
      })
      l

unfoldable pub cancel : Bool → ℕ → EventLoop → Bool × EventLoop
cancel in_loop id l =
    let found = record l { cancelled = id ∷ l.cancelled; timers = erase l.timers id } in
    if contains l.timers id then (true, wake_if (not in_loop) found) else (false, l)

-- The test of `task->cancelled || it == m_timers.end()`.
unfoldable pub is_dead : EventLoop → TimerTask → Bool
is_dead l t = contains l.cancelled t.id || not (contains l.timers t.id)

-- The loop of `ProcessDelayedTasks` on the heap: the ready tasks, and the heap that is left.
unfoldable pub take_ready : ℕ → EventLoop → List TimerTask → List TimerTask × List TimerTask
take_ready now l [] = ([], [])
take_ready now l (t ∷ ts) =
    let (ready, left) = take_ready now l ts in
    if leb t.expire_time now
    then ((if is_dead l t then ready else t ∷ ready), left)
    else ([], t ∷ ts)

-- The loop of `GetPollTimeoutMs`.
unfoldable pub poll_timeout : ℕ → EventLoop → List TimerTask → ℕ × List TimerTask
poll_timeout now l [] = (10000, [])
poll_timeout now l (t ∷ ts) =
    let rest = poll_timeout now l ts in
    let remain = (t.expire_time - now) / 1000000 in
    if is_dead l t
    then rest
    else if leb t.expire_time now
    then (0, t ∷ ts)
    else if ltb 10000 remain
    then (10000, t ∷ ts)
    else (remain, t ∷ ts)

unfoldable pub get_poll_timeout_ms : ℕ → EventLoop → ℕ × EventLoop
get_poll_timeout_ms now l =
    let (timeout, left) = poll_timeout now l l.delayed_tasks in
    (timeout, record l { delayed_tasks = left })

unfoldable pub do_action : Action → EventLoop → EventLoop
do_action (queues cb) l = queue_in_loop true cb l
do_action (runs_at when cb) l = run_at true when cb l
do_action (runs_every now interval_ms cb) l = run_every true now (pos interval_ms) cb l
do_action (cancels id) l = (cancel true id l).1
do_action quits l = record l { quit = true }

unfoldable pub do_actions : List Action → EventLoop → EventLoop
do_actions [] l = l
do_actions (a ∷ rest) l = do_actions rest (do_action a l)

-- What follows the callback of a task; `later` is the time at its end.
unfoldable pub reschedule : ℕ → TimerTask → EventLoop → EventLoop
reschedule later t l =
    if t.repeat
    then (if is_dead l t then l else again)
    else record l { timers = erase l.timers t.id }
  where
    again : EventLoop
    again = record l {
      delayed_tasks = push (record t { expire_time = later + t.interval }) l.delayed_tasks;
    }

module _ (script : ℕ → List Action) where
  abbrev pub call : Call → ℕ → EventLoop → EventLoop
  call made cb l = do_actions (script cb) (record l { calls = made ∷ l.calls })

  -- `RunInLoop`.
  unfoldable pub run_in_loop : Bool → ℕ → EventLoop → EventLoop
  run_in_loop in_loop cb l = if in_loop then do_actions (script cb) l else queue_in_loop false cb l

  unfoldable pub run_functors : List ℕ → EventLoop → EventLoop
  run_functors [] l = l
  run_functors (cb ∷ cbs) l = run_functors cbs (call (functor_call cb) cb l)

  unfoldable pub do_pending_functors : EventLoop → EventLoop
  do_pending_functors l =
      let done =
        run_functors l.pending_functors
          (record l { calling_pending_functors = true; pending_functors = [] }) in
      record done { calling_pending_functors = false }

  unfoldable pub fire : ℕ → TimerTask → EventLoop → EventLoop
  fire later t l =
      reschedule later t (if contains l.cancelled t.id then l else call (timer_call t) t.cb l)

  -- `clock` is what the clock says after a task's callback.
  unfoldable pub fire_all : (ℕ → ℕ) → List TimerTask → EventLoop → EventLoop
  fire_all clock [] l = l
  fire_all clock (t ∷ ts) l = fire_all clock ts (fire (clock t.id) t l)

  unfoldable pub process_delayed_tasks : ℕ → (ℕ → ℕ) → EventLoop → EventLoop
  process_delayed_tasks now clock l =
      let (ready, left) = take_ready now l l.delayed_tasks in
      fire_all clock ready (record l { delayed_tasks = left })
