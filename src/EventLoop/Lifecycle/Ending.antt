-- ===== src/EventLoop/Lifecycle/Ending.antt =====
-- src/eventloop.cpp: when the loop's thread leaves `Loop`.
use cpp_reactor_framework.Prelude.{
  ℕ, suc, ◌-◌, ◌≤◌, ◌≡◌, refl, ◌∙◌, Bool, true, false, not, List, [], ◌∷◌, arith, if_elim, none, ok,
  ◌==◌,
}
use cpp_reactor_framework.Poller.{Poller}
use cpp_reactor_framework.EventLoop.{EventLoop, Action, run_in_loop}
use cpp_reactor_framework.EventLoop.Cycle.{Turn, request_quit}
use cpp_reactor_framework.EventLoop.Lifecycle.{
  construct, destroy_begins, destroy_ends, LoopThread, Phase, unstarted, spawned, entered, testing,
  polling, ended, quit, is_in_loop_thread, run_in_loop_by, start_thread, advance, is_ended, Life,
  advances, quits_by, runs_by, happen, happen_all,
}
use cpp_reactor_framework.EventLoop.Lifecycle.Flags.{
  Flagged, Quiet, queue_in_loop_flag, do_actions-Flagged, turn-Flagged,
}

-- How many steps the thread makes.
abbrev pub thread_steps : List Life → ℕ
thread_steps [] = 0
thread_steps (advances t ∷ es) = suc (thread_steps es)
thread_steps (quits_by caller ∷ es) = thread_steps es
thread_steps (runs_by caller cb ∷ es) = thread_steps es

module _ (P : Poller) (script : ℕ → List Action) where
  -- The thread is in `Loop`, or has left it.
  abbrev pub has_begun : LoopThread P → Bool
  has_begun l = elim l.phase [ testing ↦ true | polling ↦ true | ended ↦ true | _ ↦ false ]

  abbrev steps_left : LoopThread P → ℕ
  steps_left l = elim l.phase [ ended ↦ 0 | testing ↦ 1 | polling ↦ 2 | _ ↦ 3 ]

  run_in_loop-Flagged :
      (in_loop : Bool) (cb : ℕ) (l : EventLoop)
      → Flagged (Quiet script) l (run_in_loop script in_loop cb l)
  unfolding run_in_loop
  run_in_loop-Flagged in_loop cb l =
      if_elim (Flagged (Quiet script) l) in_loop
        (λ inside.
          let done = do_actions-Flagged (script cb) l in
          record { stays = done.stays; idle = λ q. done.idle (q cb) })
        (λ outside. record {
          stays = λ h. queue_in_loop_flag false cb l ∙ h;
          idle = λ q. queue_in_loop_flag false cb l;
        })

  -- The flag stays set, and a step of the thread brings it nearer to its end.
  advance_nearer :
      (t : Turn) (l : LoopThread P)
      → l.loop.quit ≡ true
      → has_begun l ≡ true
      → ((advance P script t l).loop.quit ≡ true)
        × (has_begun (advance P script t l) ≡ true)
        × (steps_left (advance P script t l) ≤ steps_left l - 1)
  unfolding advance start_thread
  advance_nearer t l set begun = go l.phase refl
    where
      go :
          (p : Phase)
          → l.phase ≡ p
          → ((advance P script t l).loop.quit ≡ true)
            × (has_begun (advance P script t l) ≡ true)
            × (steps_left (advance P script t l) ≤ steps_left l - 1)
      go testing e = rw (e, set) (refl, refl, omega arith)
      go polling e = rw e ((turn-Flagged script t l.loop).stays set, refl, omega arith)
      go ended e = rw e (set, refl, omega arith)
      go unstarted e = absurd (ground arith)
      go spawned e = absurd (ground arith)
      go entered e = absurd (ground arith)

  quit_ends_in :
      (es : List Life) (l : LoopThread P)
      → l.loop.quit ≡ true
      → has_begun l ≡ true
      → steps_left l ≤ thread_steps es
      → is_ended P (happen_all P script es l) ≡ true
  unfolding happen_all happen quit run_in_loop_by request_quit
  quit_ends_in [] l set begun enough = ground arith
  quit_ends_in (advances t ∷ es) l set begun enough =
      let (set', begun', nearer) = advance_nearer t l set begun in
      quit_ends_in es (advance P script t l) set' begun' (omega arith)
  quit_ends_in (quits_by caller ∷ es) l set begun enough =
      quit_ends_in es (quit P caller l) (ground arith) begun enough
  quit_ends_in (runs_by caller cb ∷ es) l set begun enough =
      quit_ends_in es (run_in_loop_by P script caller cb l)
        ((run_in_loop-Flagged (is_in_loop_thread P caller l) cb l.loop).stays set) begun enough

  -- Once the loop's thread is in `Loop`, a `Quit` from any thread ends it: whatever the other
  -- threads do, and whatever its callbacks and timers are, two steps of the thread later, a turn
  -- and a test at most, it has left `Loop`.
  pub quit_ends :
      (caller : ℕ) (es : List Life) (l : LoopThread P)
      → has_begun l ≡ true
      → 2 ≤ thread_steps es
      → is_ended P (happen_all P script es (quit P caller l)) ≡ true
  unfolding quit request_quit
  quit_ends caller es l begun enough =
      quit_ends_in es (quit P caller l) (ground arith) begun (ground arith)

  -- Nobody calls `Quit`.
  abbrev pub NobodyQuits : List Life → Type 0
  NobodyQuits [] = Unit {0}
  NobodyQuits (advances t ∷ es) = (t.remote_quit ≡ false) × NobodyQuits es
  NobodyQuits (quits_by caller ∷ es) = ⊥
  NobodyQuits (runs_by caller cb ∷ es) = NobodyQuits es

  -- The thread has not begun, or goes round with the flag clear.
  abbrev goes_round : LoopThread P → Bool
  goes_round l = elim l.phase [
    | spawned ↦ true
    | entered ↦ true
    | testing ↦ not l.loop.quit
    | polling ↦ not l.loop.quit
    | _ ↦ false
  ]

  advance_round :
      (t : Turn) (l : LoopThread P)
      → Quiet script
      → t.remote_quit ≡ false
      → goes_round l ≡ true
      → goes_round (advance P script t l) ≡ true
  unfolding advance start_thread
  advance_round t l quiet alone round = go l.phase refl
    where
      go : (p : Phase) → l.phase ≡ p → goes_round (advance P script t l) ≡ true
      go unstarted e = absurd (ground arith)
      go spawned e = rw e refl
      go entered e = rw e refl
      go testing e = rw e (ground arith)
      go polling e = rw e (ground (arith, (turn-Flagged script t l.loop).idle (quiet, alone)))
      go ended e = absurd (ground arith)

  round_lem :
      (es : List Life) (l : LoopThread P)
      → Quiet script
      → NobodyQuits es
      → goes_round l ≡ true
      → is_ended P (happen_all P script es l) ≡ false
  unfolding happen_all happen run_in_loop_by
  round_lem [] l quiet alone round = ground arith
  round_lem (advances t ∷ es) l quiet alone round =
      round_lem es (advance P script t l) quiet alone.1 (advance_round t l quiet alone.0 round)
  round_lem (quits_by caller ∷ es) l quiet alone round = absurd alone
  round_lem (runs_by caller cb ∷ es) l quiet alone round =
      round_lem es (run_in_loop_by P script caller cb l) quiet alone
        (ground (arith, (run_in_loop-Flagged (is_in_loop_thread P caller l) cb l.loop).idle quiet))

  advance_keeps :
      (t : Turn) (l : LoopThread P)
      → ((advance P script t l).worker ≡ l.worker) × ((advance P script t l).joinable ≡ l.joinable)
  unfolding advance start_thread
  advance_keeps t l = (ground arith, ground arith)

  happen_all_keeps :
      (es : List Life) (l : LoopThread P)
      → ((happen_all P script es l).worker ≡ l.worker)
        × ((happen_all P script es l).joinable ≡ l.joinable)
  unfolding happen_all happen quit run_in_loop_by
  happen_all_keeps [] l = (refl, refl)
  happen_all_keeps (advances t ∷ es) l =
      let (worker, joinable) = happen_all_keeps es (advance P script t l) in
      let (worker', joinable') = advance_keeps t l in (worker ∙ worker', joinable ∙ joinable')
  happen_all_keeps (quits_by caller ∷ es) l = happen_all_keeps es (quit P caller l)
  happen_all_keeps (runs_by caller cb ∷ es) l =
      happen_all_keeps es (run_in_loop_by P script caller cb l)

  waits_for_thread :
      (caller : ℕ) (l : LoopThread P)
      → l.joinable ≡ true
      → (caller == l.worker) ≡ false
      → is_ended P l ≡ false
      → destroy_ends P caller l ≡ ok none
  unfolding destroy_ends
  waits_for_thread caller l joins other runs = rw (joins, other, runs) refl

  -- The destructor of a loop whose thread was only just created, on the thread that constructed
  -- it, never ends, if nobody else calls `Quit`: `Loop` clears the flag that the destructor set,
  -- and the join goes on waiting, however many steps the loop's thread makes.
  pub quit_forgotten :
      (creator worker efd : ℕ) (poller : P.State) (es : List Life)
      → (creator == worker) ≡ false
      → Quiet script
      → NobodyQuits es
      → destroy_ends P creator (
          happen_all P script es
            (destroy_begins P creator (construct P true creator worker efd poller)))
        ≡ ok none
  unfolding destroy_begins quit construct
  quit_forgotten creator worker efd poller es other quiet alone =
      let l = destroy_begins P creator (construct P true creator worker efd poller) in
      let (same, joinable) = happen_all_keeps es l in
      waits_for_thread creator (happen_all P script es l) joinable (rw same other)
        (round_lem es l quiet alone refl)
