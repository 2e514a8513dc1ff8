-- ===== src/EventLoop/Functors.antt =====
-- src/eventloop.cpp: the queue of functors.
use cpp_reactor_framework.Prelude.{
  ℕ, suc, ◌≡◌, refl, sym, ap, ◌∙◌, Bool, true, false, List, [], ◌∷◌, ◌++◌, append-nil, append_assoc,
  arith, if◌then◌else◌,
}
use cpp_reactor_framework.EventLoop.{
  EventLoop, Action, queues, runs_at, runs_every, cancels, quits, Call, functor_call, queue_in_loop,
  add_timer, run_at, run_every, cancel, do_action, do_actions, run_functors, do_pending_functors,
}

-- The functors that these actions queue, in their order.
abbrev pub queued : List Action → List ℕ
queued [] = []
queued (queues cb ∷ actions) = cb ∷ queued actions
queued (runs_at when cb ∷ actions) = queued actions
queued (runs_every now interval cb ∷ actions) = queued actions
queued (cancels id ∷ actions) = queued actions
queued (quits ∷ actions) = queued actions

-- What actions leave of the queue, and of the calls and the flag of the loop.
abbrev pub Queued : List ℕ → EventLoop → EventLoop → Type 0
Queued cbs l l' =
    (l'.pending_functors ≡ l.pending_functors ++ cbs)
    × (l'.calls ≡ l.calls)
    × (l'.calling_pending_functors ≡ l.calling_pending_functors)

do_action-Queued : (a : Action) (l : EventLoop) → Queued (queued (a ∷ [])) l (do_action a l)
unfolding do_action queue_in_loop run_at run_every add_timer cancel
do_action-Queued (queues cb) l = (ground arith, ground arith, ground arith)
do_action-Queued (runs_at when cb) l =
    (ground (arith, append-nil l.pending_functors), ground arith, ground arith)
do_action-Queued (runs_every now interval cb) l =
    (ground (arith, append-nil l.pending_functors), ground arith, ground arith)
do_action-Queued (cancels id) l =
    (ground (arith, append-nil l.pending_functors), ground arith, ground arith)
do_action-Queued quits l = (sym (append-nil l.pending_functors), refl, refl)

queued_cons :
    (a : Action) (actions : List Action) → queued (a ∷ actions) ≡ queued (a ∷ []) ++ queued actions
queued_cons (queues cb) actions = refl
queued_cons (runs_at when cb) actions = refl
queued_cons (runs_every now interval cb) actions = refl
queued_cons (cancels id) actions = refl
queued_cons quits actions = refl

pub do_actions-Queued :
    (actions : List Action) (l : EventLoop) → Queued (queued actions) l (do_actions actions l)
unfolding do_actions
do_actions-Queued [] l = (sym (append-nil l.pending_functors), refl, refl)
do_actions-Queued (a ∷ actions) l =
    let (pending, calls, flag) = do_action-Queued a l in
    let (pending', calls', flag') = do_actions-Queued actions (do_action a l) in
    (
      pending'
          ∙ (ap (λ cbs. cbs ++ queued actions) pending
              ∙ (append_assoc l.pending_functors (queued (a ∷ [])) (queued actions)
                  ∙ ap (λ cbs. l.pending_functors ++ cbs) (sym (queued_cons a actions)))),
      calls' ∙ calls,
      flag' ∙ flag,
    )

module _ (script : ℕ → List Action) where
  -- What the callbacks queue, one after the other.
  abbrev pub queued_by : List ℕ → List ℕ
  queued_by [] = []
  queued_by (cb ∷ cbs) = queued (script cb) ++ queued_by cbs

  -- The calls of these functors, newest first.
  abbrev pub made : List ℕ → List Call → List Call
  made [] calls = calls
  made (cb ∷ cbs) calls = made cbs (functor_call cb ∷ calls)

  run_functors_lem :
      (cbs : List ℕ) (l : EventLoop)
      → ((run_functors script cbs l).pending_functors ≡ l.pending_functors ++ queued_by cbs)
        × ((run_functors script cbs l).calls ≡ made cbs l.calls)
  unfolding run_functors
  run_functors_lem [] l = (sym (append-nil l.pending_functors), refl)
  run_functors_lem (cb ∷ cbs) l =
      let called = record l { calls = functor_call cb ∷ l.calls } in
      let (pending, calls, flag) = do_actions-Queued (script cb) called in
      let (pending', calls') = run_functors_lem cbs (do_actions (script cb) called) in
      (
        pending'
            ∙ (ap (λ l. l ++ queued_by cbs) pending
                ∙ append_assoc l.pending_functors (queued (script cb)) (queued_by cbs)),
        calls' ∙ ap (made cbs) calls,
      )

  -- A turn of `DoPendingFunctors` calls each functor that was queued before it once, in order.
  -- What they queue waits, in order, for the next turn.
  pub do_pending_functors_lem :
      (l : EventLoop)
      → ((do_pending_functors script l).calls ≡ made l.pending_functors l.calls)
        × ((do_pending_functors script l).pending_functors ≡ queued_by l.pending_functors)
        × ((do_pending_functors script l).calling_pending_functors ≡ false)
  unfolding do_pending_functors
  do_pending_functors_lem l =
      let (pending, calls) =
        run_functors_lem l.pending_functors
          (record l { calling_pending_functors = true; pending_functors = [] }) in
      (calls, pending, refl)

-- A functor is queued behind the others, and the loop is woken unless it queues the functor itself
-- while it does not run its functors.
pub queue_in_loop_lem :
    (in_loop : Bool) (cb : ℕ) (l : EventLoop)
    → ((queue_in_loop in_loop cb l).pending_functors ≡ l.pending_functors ++ (cb ∷ []))
      × ((queue_in_loop in_loop cb l).wakeups ≡ (
          if in_loop
          then (if l.calling_pending_functors then suc l.wakeups else l.wakeups)
          else suc l.wakeups))
unfolding queue_in_loop
queue_in_loop_lem in_loop cb l = (ground arith, ground arith)
