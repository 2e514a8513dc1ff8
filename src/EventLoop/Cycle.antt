-- ===== src/EventLoop/Cycle.antt =====
-- src/eventloop.cpp: the turns of `Loop`.
use cpp_reactor_framework.Prelude.{ℕ, Bool, true, false, not, List, [], ◌∷◌, if◌then◌else◌}
use cpp_reactor_framework.EventLoop.{
  EventLoop, Action, channel_call, call, wake_if, queue_in_loop, get_poll_timeout_ms,
  do_pending_functors, process_delayed_tasks,
}

-- What one turn of `Loop` meets: the time at which it asks for its timeout, what other threads queue
-- and whether one of them calls `Quit` while it polls, the callbacks of the channels that are ready,
-- the time at which it looks at its timers, and the clock after each of their callbacks.
pub record Turn : Type 0 where
  pub now : ℕ
  pub remote : List ℕ
  pub remote_quit : Bool
  pub active : List ℕ
  pub later : ℕ
  pub clock : ℕ → ℕ

-- `QueueInLoop` of other threads.
unfoldable pub queue_all : List ℕ → EventLoop → EventLoop
queue_all [] l = l
queue_all (cb ∷ cbs) l = queue_all cbs (queue_in_loop false cb l)

-- `Quit`.
unfoldable pub request_quit : Bool → EventLoop → EventLoop
request_quit in_loop l = wake_if (not in_loop) (record l { quit = true })

-- `HandleWakeupRead` reads all wakeups.
unfoldable pub handle_wakeup_read : EventLoop → EventLoop
handle_wakeup_read l = record l { wakeups = 0 }

module _ (script : ℕ → List Action) where
  -- The ready channels' callbacks.
  unfoldable pub handle_events : List ℕ → EventLoop → EventLoop
  handle_events [] l = l
  handle_events (cb ∷ cbs) l = handle_events cbs (call script (channel_call cb) cb l)

  -- A turn up to `DoPendingFunctors`.
  unfoldable pub polled : Turn → EventLoop → EventLoop
  polled t l =
      let asked = (get_poll_timeout_ms t.now l).1 in
      let met = queue_all t.remote (if t.remote_quit then request_quit false asked else asked) in
      handle_events t.active (handle_wakeup_read met)

  -- The body of `Loop`.
  unfoldable pub turn : Turn → EventLoop → EventLoop
  turn t l = process_delayed_tasks script t.later t.clock (do_pending_functors script (polled t l))

  unfoldable pub turns : List Turn → EventLoop → EventLoop
  turns [] l = l
  turns (t ∷ ts) l = let rest = turns ts (turn t l) in if l.quit then l else rest

  -- `Loop`, over the turns that it makes at most.
  unfoldable pub loop : List Turn → EventLoop → EventLoop
  loop ts l = turns ts (record l { quit = false })
