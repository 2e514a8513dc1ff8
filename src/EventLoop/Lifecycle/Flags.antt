-- ===== src/EventLoop/Lifecycle/Flags.antt =====
-- src/eventloop.cpp: what the parts of a turn do to `m_quit`.
use cpp_reactor_framework.Prelude.{
  ℕ, ◌≡◌, refl, ◌∙◌, Bool, true, false, List, [], ◌∷◌, arith, if_elim, if◌then◌else◌,
}
use cpp_reactor_framework.EventLoop.{
  EventLoop, TimerTask, Action, queues, runs_at, runs_every, cancels, quits, Call, call, do_action,
  do_actions, queue_in_loop, add_timer, run_at, run_every, cancel, run_functors,
  do_pending_functors, reschedule, fire, fire_all, take_ready, process_delayed_tasks,
  get_poll_timeout_ms, contains,
}
use cpp_reactor_framework.EventLoop.Cycle.{
  Turn, queue_all, request_quit, handle_wakeup_read, handle_events, polled, turn,
}

-- A callback that does not call `Quit`.
abbrev pub NoQuits : List Action → Type 0
NoQuits [] = Unit {0}
NoQuits (queues cb ∷ actions) = NoQuits actions
NoQuits (runs_at when cb ∷ actions) = NoQuits actions
NoQuits (runs_every now interval cb ∷ actions) = NoQuits actions
NoQuits (cancels id ∷ actions) = NoQuits actions
NoQuits (quits ∷ actions) = ⊥

-- What a part of a turn does to the flag: it never clears it, and sets it only if someone quits.
pub record Flagged (Quiet : Type 0) (l l' : EventLoop) : Type 0 where
  pub stays : l.quit ≡ true → l'.quit ≡ true
  pub idle : Quiet → l'.quit ≡ l.quit

Flagged-trans :
    {Quiet : Type 0} {l l1 l2 : EventLoop}
    → Flagged Quiet l l1
    → Flagged Quiet l1 l2
    → Flagged Quiet l l2
Flagged-trans a b = record { stays = λ h. b.stays (a.stays h); idle = λ q. b.idle q ∙ a.idle q }

same_flag : {Quiet : Type 0} {l l' : EventLoop} → l'.quit ≡ l.quit → Flagged Quiet l l'
same_flag e = record { stays = λ h. e ∙ h; idle = λ q. e }

pub queue_in_loop_flag :
    (in_loop : Bool) (cb : ℕ) (l : EventLoop) → (queue_in_loop in_loop cb l).quit ≡ l.quit
unfolding queue_in_loop
queue_in_loop_flag in_loop cb l = ground arith

do_action-Flagged : (a : Action) (l : EventLoop) → Flagged (NoQuits (a ∷ [])) l (do_action a l)
unfolding do_action run_at run_every add_timer cancel
do_action-Flagged (queues cb) l = same_flag (queue_in_loop_flag true cb l)
do_action-Flagged (runs_at when cb) l = same_flag (ground arith)
do_action-Flagged (runs_every now interval cb) l = same_flag (ground arith)
do_action-Flagged (cancels id) l = same_flag (ground arith)
do_action-Flagged quits l = record { stays = λ h. refl; idle = λ q. absurd q }

NoQuits-cons :
    (a : Action) (actions : List Action)
    → NoQuits (a ∷ actions)
    → NoQuits (a ∷ []) × NoQuits actions
NoQuits-cons (queues cb) actions h = (tt, h)
NoQuits-cons (runs_at when cb) actions h = (tt, h)
NoQuits-cons (runs_every now interval cb) actions h = (tt, h)
NoQuits-cons (cancels id) actions h = (tt, h)
NoQuits-cons quits actions h = absurd h

pub do_actions-Flagged :
    (actions : List Action) (l : EventLoop) → Flagged (NoQuits actions) l (do_actions actions l)
unfolding do_actions
do_actions-Flagged [] l = same_flag refl
do_actions-Flagged (a ∷ actions) l =
    let first = do_action-Flagged a l in
    let rest = do_actions-Flagged actions (do_action a l) in
    record {
      stays = λ h. rest.stays (first.stays h);
      idle = λ q. let (one, others) = NoQuits-cons a actions q in rest.idle others ∙ first.idle one;
    }

queue_all_flag : (cbs : List ℕ) (l : EventLoop) → (queue_all cbs l).quit ≡ l.quit
unfolding queue_all
queue_all_flag [] l = refl
queue_all_flag (cb ∷ cbs) l =
    queue_all_flag cbs (queue_in_loop false cb l) ∙ queue_in_loop_flag false cb l

module _ (script : ℕ → List Action) where
  -- No callback calls `Quit`.
  abbrev pub Quiet : Type 0
  Quiet = (cb : ℕ) → NoQuits (script cb)

  call-Flagged : (made : Call) (cb : ℕ) (l : EventLoop) → Flagged Quiet l (call script made cb l)
  call-Flagged made cb l =
      let done = do_actions-Flagged (script cb) (record l { calls = made ∷ l.calls }) in
      record { stays = done.stays; idle = λ q. done.idle (q cb) }

  handle_events-Flagged :
      (cbs : List ℕ) (l : EventLoop) → Flagged Quiet l (handle_events script cbs l)
  unfolding handle_events
  handle_events-Flagged [] l = same_flag refl
  handle_events-Flagged (cb ∷ cbs) l =
      Flagged-trans (call-Flagged _ cb l) (handle_events-Flagged cbs _)

  run_functors-Flagged :
      (cbs : List ℕ) (l : EventLoop) → Flagged Quiet l (run_functors script cbs l)
  unfolding run_functors
  run_functors-Flagged [] l = same_flag refl
  run_functors-Flagged (cb ∷ cbs) l =
      Flagged-trans (call-Flagged _ cb l) (run_functors-Flagged cbs _)

  do_pending_functors-Flagged : (l : EventLoop) → Flagged Quiet l (do_pending_functors script l)
  unfolding do_pending_functors
  do_pending_functors-Flagged l =
      let done =
        run_functors-Flagged l.pending_functors
          (record l { calling_pending_functors = true; pending_functors = [] }) in
      record { stays = done.stays; idle = done.idle }

  reschedule_flag :
      (later : ℕ) (t : TimerTask) (l : EventLoop) → (reschedule later t l).quit ≡ l.quit
  unfolding reschedule
  reschedule_flag later t l = ground arith

  fire-Flagged :
      (later : ℕ) (t : TimerTask) (l : EventLoop) → Flagged Quiet l (fire script later t l)
  unfolding fire
  fire-Flagged later t l =
      Flagged-trans
        (if_elim (Flagged Quiet l) (contains l.cancelled t.id) (λ dead. same_flag refl)
          (λ alive. call-Flagged _ t.cb l))
        (same_flag (reschedule_flag later t _))

  fire_all-Flagged :
      (clock : ℕ → ℕ) (ts : List TimerTask) (l : EventLoop)
      → Flagged Quiet l (fire_all script clock ts l)
  unfolding fire_all
  fire_all-Flagged clock [] l = same_flag refl
  fire_all-Flagged clock (t ∷ ts) l =
      Flagged-trans (fire-Flagged (clock t.id) t l) (fire_all-Flagged clock ts _)

  process_delayed_tasks-Flagged :
      (now : ℕ) (clock : ℕ → ℕ) (l : EventLoop)
      → Flagged Quiet l (process_delayed_tasks script now clock l)
  unfolding process_delayed_tasks
  process_delayed_tasks-Flagged now clock l =
      let done =
        fire_all-Flagged clock (take_ready now l l.delayed_tasks).0
          (record l { delayed_tasks = (take_ready now l l.delayed_tasks).1 }) in
      record { stays = done.stays; idle = done.idle }

  -- Nobody calls `Quit` in a turn.
  abbrev pub QuietTurn : Turn → Type 0
  QuietTurn t = Quiet × (t.remote_quit ≡ false)

  asked-Flagged :
      (t : Turn) (l : EventLoop)
      → Flagged (QuietTurn t) l (
          if t.remote_quit
          then request_quit false (get_poll_timeout_ms t.now l).1
          else (get_poll_timeout_ms t.now l).1)
  unfolding get_poll_timeout_ms request_quit
  asked-Flagged t l = record { stays = λ h. ground arith; idle = λ q. ground (arith, q.1) }

  pub turn-Flagged : (t : Turn) (l : EventLoop) → Flagged (QuietTurn t) l (turn script t l)
  unfolding turn polled handle_wakeup_read
  turn-Flagged t l =
      let asked = asked-Flagged t l in
      let queued = queue_all_flag t.remote _ in
      let handled = handle_events-Flagged t.active _ in
      let ran = do_pending_functors-Flagged _ in
      let fired = process_delayed_tasks-Flagged t.later t.clock _ in
      record {
        stays = λ h. fired.stays (ran.stays (handled.stays (queued ∙ asked.stays h)));
        idle = λ q. fired.idle q.0 ∙ (ran.idle q.0 ∙ (handled.idle q.0 ∙ (queued ∙ asked.idle q)));
      }
