-- ===== src/Examples/Loops.antt =====
-- The theorems on the event loop, the channels and the poller at concrete inputs.
use cpp_reactor_framework.Prelude.{ℕ, zero, suc, ◌≡◌, true, false, List, [], ◌∷◌, arith}
use cpp_reactor_framework.Channel.{
  Channel, handle_event, read_callback, write_callback, error_callback, close_callback,
}
use cpp_reactor_framework.Channel.Dispatch.{times, handle_event-times}
use cpp_reactor_framework.Poller.Epoll
use cpp_reactor_framework.Poller.Epoll.{
  EpollPoller, interest, count, IsValid, update_channel, watched, new-IsValid, update-IsValid,
  watched-update,
}
use cpp_reactor_framework.Poller.WsPoll
use cpp_reactor_framework.Poller.WsPoll.{WsPollPoller}
use cpp_reactor_framework.Poller.WsPoll.Watching
use cpp_reactor_framework.Poller.WsPoll.Ready.{WsaRevents}
use cpp_reactor_framework.Poller.Agreement.{updates, removes, run, pollers_agree}
use cpp_reactor_framework.EventLoop.Cycle.{Turn}
use cpp_reactor_framework.EventLoop
use cpp_reactor_framework.EventLoop.{
  EventLoop, TimerTask, Action, queues, cancels, queue_in_loop, cancel, contains, take_ready,
  poll_timeout, fire, process_delayed_tasks,
}
use cpp_reactor_framework.EventLoop.Timers.{filter, IsSorted, fires, IsSafe, poll_timeout-IsSafe}
use cpp_reactor_framework.EventLoop.Rounds.{Among, timer_calls, process_delayed_tasks-Among}

-- A channel that is readable and hung up.
abbrev hung_up : Channel
hung_up = record {
  fd = 3;
  events = record { reading = true; writing = false };
  revents = record { readable = true; writable = false; error = false; hang_up = true };
  added = true;
  has_read_callback = true;
  has_write_callback = true;
  has_error_callback = true;
  has_close_callback = true;
}

handle_event-times_example :
    (times error_callback (handle_event hung_up) ≡ 0)
    × (times close_callback (handle_event hung_up) ≡ 1)
    × (times read_callback (handle_event hung_up) ≡ 0)
    × (times write_callback (handle_event hung_up) ≡ 0)
handle_event-times_example = handle_event-times hung_up

abbrev watching : EpollPoller
watching = (update_channel Epoll.new hung_up).0

abbrev early_task : TimerTask
early_task = record { id = 1; expire_time = 50; interval = 0; repeat = false; cb = 0 }

abbrev cancelled_task : TimerTask
cancelled_task = record { id = 2; expire_time = 60; interval = 0; repeat = false; cb = 1 }

abbrev late_task : TimerTask
late_task = record { id = 3; expire_time = 5000000; interval = 20; repeat = true; cb = 1 }

abbrev tasks : List TimerTask
tasks = early_task ∷ cancelled_task ∷ late_task ∷ []

abbrev loop : EventLoop
loop = record EventLoop.new {
  pending_functors = 0 ∷ 1 ∷ [];
  delayed_tasks = tasks;
  timers = 1 ∷ 3 ∷ [];
  cancelled = 2 ∷ [];
  next_timer_id = 4;
}

tasks-IsSorted : IsSorted tasks
tasks-IsSorted = ((omega arith, (omega arith, tt)), ((omega arith, tt), (tt, tt)))

-- Callback 0 queues callback 1 and cancels timer 3.
abbrev script : ℕ → List Action
script zero = queues 1 ∷ cancels 3 ∷ []
script (suc n) = []

poll_timeout-IsSafe_example : IsSafe 10 loop tasks (poll_timeout 10 loop tasks)
poll_timeout-IsSafe_example = poll_timeout-IsSafe 10 loop tasks tasks-IsSorted

process_delayed_tasks-Among_example :
    (fired : List TimerTask) × Among fired (filter (fires 100 loop) tasks)
    × ((process_delayed_tasks script 100 (λ n. 200) loop).calls ≡ timer_calls fired [])
    × IsSorted (process_delayed_tasks script 100 (λ n. 200) loop).delayed_tasks
process_delayed_tasks-Among_example =
    process_delayed_tasks-Among script 100 (λ n. 200) loop tasks-IsSorted

-- The channel is registered and removed.
pollers_agree_example :
    watched (run Epoll.poller (updates hung_up ∷ removes hung_up ∷ []) Epoll.new) 3
    ≡ WsPoll.watched (run Watching.poller (updates hung_up ∷ removes hung_up ∷ []) WsPoll.new) 3
pollers_agree_example = pollers_agree (updates hung_up ∷ removes hung_up ∷ []) 3

abbrev polling : WsPollPoller
polling = (WsPoll.update_channel WsPoll.new hung_up).0

abbrev readable : WsaRevents
readable = record {
  pollin = true;
  pollout = false;
  pollerr = false;
  pollhup = false;
  other = false;
}

-- While the loop polls, another thread queues callback 1, and a channel calls callback 0.
abbrev busy_turn : Turn
busy_turn = record {
  now = 10;
  remote = 1 ∷ [];
  remote_quit = false;
  active = 0 ∷ [];
  later = 100;
  clock = λ n. 200;
}
