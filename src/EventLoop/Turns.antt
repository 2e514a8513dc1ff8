-- ===== src/EventLoop/Turns.antt =====
-- src/eventloop.cpp: a turn of `Loop`: its channels, its functors and its timers.
use cpp_reactor_framework.Prelude.{ℕ, ◌≡◌, List, [], ◌∷◌, ◌++◌}
use cpp_reactor_framework.EventLoop.{EventLoop, Action, Call, channel_call}
use cpp_reactor_framework.EventLoop.Timers.{IsSorted}

-- The calls of these channels' callbacks, newest first.
abbrev pub channel_calls : List ℕ → List Call → List Call
channel_calls [] calls = calls
channel_calls (cb ∷ cbs) calls = channel_calls cbs (channel_call cb ∷ calls)

module _ (script : ℕ → List Action) where
  -- What is called and queued, and that the heap stays in order.
  record Moved (cbs : List ℕ) (made_calls : List Call) (l l' : EventLoop) : Type 0 where
    pending : l'.pending_functors ≡ l.pending_functors ++ cbs
    calls : l'.calls ≡ made_calls
    sorted : IsSorted l.delayed_tasks → IsSorted l'.delayed_tasks
