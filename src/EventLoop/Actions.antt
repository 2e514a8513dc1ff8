-- ===== src/EventLoop/Actions.antt =====
-- src/eventloop.cpp: what a callback does to the timers of its loop.
use cpp_reactor_framework.Prelude.{
  ℕ, ◌≡◌, refl, ◌∙◌, inl, inr, Bool, true, false, not, ◌||◌, List, [], ◌∷◌, arith, Bool-cases,
  if_elim,
}
use cpp_reactor_framework.EventLoop.{
  EventLoop, TimerTask, Action, queues, runs_at, runs_every, cancels, quits, contains, erase,
  queue_in_loop, add_timer, run_at, run_every, cancel, do_action, do_actions,
}
use cpp_reactor_framework.EventLoop.Timers.{IsSorted, push-IsSorted}

-- A timer that was cancelled is cancelled for good: a second call finds nothing.
pub contains-erase : (ids : List ℕ) (id : ℕ) → contains (erase ids id) id ≡ false
unfolding contains erase
contains-erase [] id = refl
contains-erase (x ∷ xs) id = ground (arith, contains-erase xs id)

-- `Cancel` returns whether the timer was there, forgets it, and returns false for it when it is
-- called again.
pub cancel_lem :
    (in_loop : Bool) (id : ℕ) (l : EventLoop)
    → ((cancel in_loop id l).0 ≡ contains l.timers id)
      × (contains (cancel in_loop id l).1.timers id ≡ false)
      × ((cancel in_loop id (cancel in_loop id l).1).0 ≡ false)
unfolding cancel
cancel_lem in_loop id l = elim (Bool-cases (contains l.timers id)) [
  | inl found ↦ elim (Bool-cases in_loop) [
    | inl here ↦
        rw (found, here) (refl, contains-erase l.timers id, rw (contains-erase l.timers id) refl)
    | inr away ↦
        rw (found, away) (refl, contains-erase l.timers id, rw (contains-erase l.timers id) refl)
  ]
  | inr missing ↦ rw missing (refl, missing, rw missing refl)
]

add_timer-IsSorted :
    (in_loop : Bool) (t : TimerTask) (l : EventLoop)
    → IsSorted l.delayed_tasks
    → IsSorted (add_timer in_loop t l).delayed_tasks
unfolding add_timer
add_timer-IsSorted in_loop t l s =
    if_elim (λ (l : EventLoop). IsSorted l.delayed_tasks)
      (not in_loop || l.calling_pending_functors) (λ e. push-IsSorted t l.delayed_tasks s)
      (λ e. push-IsSorted t l.delayed_tasks s)

do_action-IsSorted :
    (a : Action) (l : EventLoop) → IsSorted l.delayed_tasks → IsSorted (do_action a l).delayed_tasks
unfolding do_action queue_in_loop run_at run_every cancel
do_action-IsSorted (queues cb) l s =
    if_elim (λ (l : EventLoop). IsSorted l.delayed_tasks) l.calling_pending_functors (λ e. s)
      (λ e. s)
do_action-IsSorted (runs_at when cb) l s = add_timer-IsSorted true _ l s
do_action-IsSorted (runs_every now interval cb) l s = add_timer-IsSorted true _ l s
do_action-IsSorted (cancels id) l s =
    if_elim (λ (r : Bool × EventLoop). IsSorted r.1.delayed_tasks) (contains l.timers id) (λ e. s)
      (λ e. s)
do_action-IsSorted quits l s = s

pub do_actions-IsSorted :
    (actions : List Action) (l : EventLoop)
    → IsSorted l.delayed_tasks
    → IsSorted (do_actions actions l).delayed_tasks
unfolding do_actions
do_actions-IsSorted [] l s = s
do_actions-IsSorted (a ∷ actions) l s =
    do_actions-IsSorted actions (do_action a l) (do_action-IsSorted a l s)

do_action-calls : (a : Action) (l : EventLoop) → (do_action a l).calls ≡ l.calls
unfolding do_action queue_in_loop run_at run_every add_timer cancel
do_action-calls (queues cb) l = ground arith
do_action-calls (runs_at when cb) l = ground arith
do_action-calls (runs_every now interval cb) l = ground arith
do_action-calls (cancels id) l = ground arith
do_action-calls quits l = refl

pub do_actions-calls :
    (actions : List Action) (l : EventLoop) → (do_actions actions l).calls ≡ l.calls
unfolding do_actions
do_actions-calls [] l = refl
do_actions-calls (a ∷ actions) l = do_actions-calls actions (do_action a l) ∙ do_action-calls a l

-- What was cancelled stays so.
abbrev pub Cancels : EventLoop → EventLoop → Type 0
Cancels l l' = (id : ℕ) → contains l.cancelled id ≡ true → contains l'.cancelled id ≡ true

do_action-Cancels : (a : Action) (l : EventLoop) → Cancels l (do_action a l)
unfolding do_action queue_in_loop run_at run_every add_timer cancel contains
do_action-Cancels (queues cb) l id h = ground (arith, h)
do_action-Cancels (runs_at when cb) l id h = ground (arith, h)
do_action-Cancels (runs_every now interval cb) l id h = ground (arith, h)
do_action-Cancels (cancels i) l id h = ground (arith, h)
do_action-Cancels quits l id h = h

pub do_actions-Cancels : (actions : List Action) (l : EventLoop) → Cancels l (do_actions actions l)
unfolding do_actions
do_actions-Cancels [] l id h = h
do_actions-Cancels (a ∷ actions) l id h =
    do_actions-Cancels actions (do_action a l) id (do_action-Cancels a l id h)
