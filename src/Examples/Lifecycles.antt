-- ===== src/Examples/Lifecycles.antt =====
-- The theorems on a loop and its thread at concrete inputs.
use cpp_reactor_framework.Prelude.{
  ℕ, ◌≡◌, refl, true, false, none, some, List, [], ◌∷◌, ok, arith, ◌==◌, if◌then◌else◌,
}
use cpp_reactor_framework.Channel
use cpp_reactor_framework.Channel.{Channel}
use cpp_reactor_framework.Poller.Epoll
use cpp_reactor_framework.Poller.Epoll.{poller, interest, new-IsValid}
use cpp_reactor_framework.EventLoop.{Action, queues}
use cpp_reactor_framework.EventLoop.Cycle.{Turn}
use cpp_reactor_framework.EventLoop.Lifecycle.{
  LoopThread, construct, quit, is_ended, happen, happen_all, advance, start_thread, advances,
  runs_by, destroy_begins, destroy_ends, updates, removes, release,
}
use cpp_reactor_framework.EventLoop.Lifecycle.Ending.{quit_ends, quit_forgotten}
use cpp_reactor_framework.EventLoop.Lifecycle.Wakeup.{use_on_threads, eventfd_watched}

abbrev script : ℕ → List Action
script cb = queues 7 ∷ []

abbrev quiet_turn : Turn
quiet_turn = record {
  now = 0;
  remote = 3 ∷ [];
  remote_quit = false;
  active = 4 ∷ [];
  later = 1;
  clock = λ id. 2;
}

-- The loop of thread 2, which thread 1 constructs; it has entered `Loop`.
abbrev going_round : LoopThread poller
going_round =
    happen_all poller script (advances quiet_turn ∷ advances quiet_turn ∷ advances quiet_turn ∷ [])
      (construct poller true 1 2 9 Epoll.new)

quit_ends_example :
    is_ended poller (
      happen_all poller script
        (advances quiet_turn ∷ runs_by 1 5 ∷ advances quiet_turn ∷ [])
        (quit poller 1 going_round))
    ≡ true
unfolding happen_all happen advance start_thread construct
quit_ends_example =
    quit_ends poller script 1 (advances quiet_turn ∷ runs_by 1 5 ∷ advances quiet_turn ∷ [])
      going_round refl (omega arith)

quit_forgotten_example :
    destroy_ends poller 1 (
      happen_all poller script
        (advances quiet_turn
          ∷ advances quiet_turn
          ∷ runs_by 1 5
          ∷ advances quiet_turn
          ∷ advances quiet_turn
          ∷ [])
        (destroy_begins poller 1 (construct poller true 1 2 9 Epoll.new)))
    ≡ ok none
quit_forgotten_example =
    quit_forgotten poller script 1 2 9 Epoll.new
      (advances quiet_turn
        ∷ advances quiet_turn
        ∷ runs_by 1 5
        ∷ advances quiet_turn
        ∷ advances quiet_turn
        ∷ [])
      refl (λ cb. tt) (refl, (refl, (refl, (refl, tt))))

abbrev other : Channel
other = record (Channel.new 4) { events = record { reading = true; writing = false } }

-- Thread 1 constructs the loop and brings a channel, and thread 2, which runs it, removes it.
eventfd_watched_example :
    (l : LoopThread poller) × (use_on_threads poller true 1 2
        (updates other ∷ [])
        (removes other ∷ [])
        (construct poller true 1 2 9 Epoll.new)
      ≡ ok l)
    × (poller.watched l.poller 9 ≡ some (record { reading = true; writing = false }))
    × ((release poller l).closed ≡ 9 ∷ [])
    × ((fd : ℕ)
        → poller.watched (release poller l).poller fd
          ≡ (if fd == 9 then none else poller.watched l.poller fd))
unfolding interest Channel.new
eventfd_watched_example =
    eventfd_watched poller true 1 2 9 Epoll.new (updates other ∷ []) (removes other ∷ [])
      new-IsValid refl (refl, tt) (refl, tt)
