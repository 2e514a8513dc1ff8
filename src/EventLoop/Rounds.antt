-- ===== src/EventLoop/Rounds.antt =====
-- src/eventloop.cpp: a round of timers, whatever their callbacks do.
use cpp_reactor_framework.Prelude.{
  ℕ, ◌≡◌, refl, ap, ◌∙◌, inl, inr, ◌⊎◌, Bool, true, false, List, [], ◌∷◌, arith, Bool-cases,
  if_elim, if◌then◌else◌,
}
use cpp_reactor_framework.EventLoop.{
  EventLoop, TimerTask, Action, Call, timer_call, contains, is_dead, do_actions, reschedule, fire,
  fire_all, process_delayed_tasks,
}
use cpp_reactor_framework.EventLoop.Timers.{
  filter, From, IsSorted, push-IsSorted, fires, waits, take_ready-filter,
}
use cpp_reactor_framework.EventLoop.Actions.{
  contains-erase, do_actions-IsSorted, do_actions-calls, Cancels, do_actions-Cancels,
}

-- Some of these tasks, each once and in this order.
abbrev pub Among : List TimerTask → List TimerTask → Type 0
Among fired [] = fired ≡ []
Among fired (t ∷ ts) =
    Among fired ts ⊎ ((rest : List TimerTask) × (fired ≡ t ∷ rest) × Among rest ts)

-- Of these tasks, each once and in this order, all but some that are cancelled in the end.
abbrev pub AllBut : EventLoop → List TimerTask → List TimerTask → Type 0
AllBut done fired [] = fired ≡ []
AllBut done fired (t ∷ ts) =
    ((contains done.cancelled t.id ≡ true) × AllBut done fired ts)
    ⊎ ((rest : List TimerTask) × (fired ≡ t ∷ rest) × AllBut done rest ts)

AllBut-Among :
    (done : EventLoop) (fired ts : List TimerTask) → AllBut done fired ts → Among fired ts
AllBut-Among done fired [] none_left = none_left
AllBut-Among done fired (t ∷ ts) (inl (cancelled, all)) = inl (AllBut-Among done fired ts all)
AllBut-Among done fired (t ∷ ts) (inr (rest, here, all)) =
    inr (rest, here, AllBut-Among done rest ts all)

abbrev pub timer_calls : List TimerTask → List Call → List Call
timer_calls [] calls = calls
timer_calls (t ∷ ts) calls = timer_calls ts (timer_call t ∷ calls)

module _ (script : ℕ → List Action) where
  abbrev Kept : EventLoop → EventLoop → Type 0
  Kept l l' = (l'.calls ≡ l.calls) × (IsSorted l.delayed_tasks → IsSorted l'.delayed_tasks)

  reschedule-Kept : (later : ℕ) (t : TimerTask) (l : EventLoop) → Kept l (reschedule later t l)
  unfolding reschedule
  reschedule-Kept later t l =
      if_elim (Kept l) t.repeat
        (λ again.
          if_elim (Kept l) (is_dead l t) (λ dead. (refl, λ s. s))
            (λ alive. (refl, λ s. push-IsSorted _ l.delayed_tasks s)))
        (λ once. (refl, λ s. s))

  -- The callback of a task is called unless the task was cancelled after it was taken.
  fire_lem :
      (later : ℕ) (t : TimerTask) (l : EventLoop)
      → IsSorted l.delayed_tasks
      → ((fire script later t l).calls
          ≡ (if contains l.cancelled t.id then l.calls else timer_call t ∷ l.calls))
        × IsSorted (fire script later t l).delayed_tasks
  unfolding fire
  fire_lem later t l s = elim (Bool-cases (contains l.cancelled t.id)) [
    | inl cancelled ↦ rw cancelled ((reschedule-Kept later t l).0, (reschedule-Kept later t l).1 s)
    | inr going ↦
        let called = record l { calls = timer_call t ∷ l.calls } in
        let after = do_actions (script t.cb) called in
        rw going (
          (reschedule-Kept later t after).0 ∙ do_actions-calls (script t.cb) called,
          (reschedule-Kept later t after).1 (do_actions-IsSorted (script t.cb) called s),
        )
  ]

  fire-Cancels : (later : ℕ) (t : TimerTask) (l : EventLoop) → Cancels l (fire script later t l)
  unfolding fire reschedule
  fire-Cancels later t l id h =
      let called =
        do_actions-Cancels (script t.cb) (record l { calls = timer_call t ∷ l.calls }) id h in
      ground (arith, h, called)

  fire_all-Cancels :
      (clock : ℕ → ℕ) (ts : List TimerTask) (l : EventLoop) → Cancels l (fire_all script clock ts l)
  unfolding fire_all
  fire_all-Cancels clock [] l id h = h
  fire_all-Cancels clock (t ∷ ts) l id h =
      fire_all-Cancels clock ts (fire script (clock t.id) t l) id
        (fire-Cancels (clock t.id) t l id h)

  fire_all_lem :
      (clock : ℕ → ℕ) (ts : List TimerTask) (l : EventLoop)
      → IsSorted l.delayed_tasks
      → (fired : List TimerTask) × AllBut (fire_all script clock ts l) fired ts
        × ((fire_all script clock ts l).calls ≡ timer_calls fired l.calls)
        × IsSorted (fire_all script clock ts l).delayed_tasks
  unfolding fire_all
  fire_all_lem clock [] l s = ([], refl, refl, s)
  fire_all_lem clock (t ∷ ts) l s =
      let (calls, sorted) = fire_lem (clock t.id) t l s in
      let (fired, all, made, sorted') =
        fire_all_lem clock ts (fire script (clock t.id) t l) sorted in
      elim (Bool-cases (contains l.cancelled t.id)) [
        | inl cancelled ↦ (
          fired,
          inl (fire_all-Cancels clock (t ∷ ts) l t.id cancelled, all),
          made
              ∙ ap (timer_calls fired)
                  (calls ∙ ap (λ b. if b then l.calls else timer_call t ∷ l.calls) cancelled),
          sorted',
        )
        | inr going ↦ (
          t ∷ fired,
          inr (fired, refl, all),
          made
              ∙ ap (timer_calls fired)
                  (calls ∙ ap (λ b. if b then l.calls else timer_call t ∷ l.calls) going),
          sorted',
        )
      ]

  -- A round calls the callbacks of the timers that had expired and were not cancelled when it
  -- began, each once and the earliest first, except those that are cancelled when it ends.
  pub process_delayed_tasks-AllBut :
      (now : ℕ) (clock : ℕ → ℕ) (l : EventLoop)
      → IsSorted l.delayed_tasks
      → (fired : List TimerTask) × AllBut
          (process_delayed_tasks script now clock l)
          fired
          (filter (fires now l) l.delayed_tasks)
        × ((process_delayed_tasks script now clock l).calls ≡ timer_calls fired l.calls)
        × IsSorted (process_delayed_tasks script now clock l).delayed_tasks
  unfolding process_delayed_tasks
  process_delayed_tasks-AllBut now clock l s = rw (take_ready-filter now l l.delayed_tasks s) (
      fire_all_lem clock (filter (fires now l) l.delayed_tasks)
        (record l { delayed_tasks = filter (waits now) l.delayed_tasks })
        (filter-IsSorted (waits now) l.delayed_tasks s))
    where
      filter-From :
          (n : ℕ) (p : TimerTask → Bool) (ts : List TimerTask) → From n ts → From n (filter p ts)
      filter-From n p [] f = tt
      filter-From n p (t ∷ ts) f =
          if_elim (From n) (p t) (λ e. (f.0, filter-From n p ts f.1)) (λ e. filter-From n p ts f.1)

      filter-IsSorted :
          (p : TimerTask → Bool) (ts : List TimerTask) → IsSorted ts → IsSorted (filter p ts)
      filter-IsSorted p [] s = tt
      filter-IsSorted p (t ∷ ts) s =
          if_elim IsSorted (p t)
            (λ e. (filter-From t.expire_time p ts s.0, filter-IsSorted p ts s.1))
            (λ e. filter-IsSorted p ts s.1)

  -- Whatever the callbacks do, a round calls only callbacks of timers that had expired and were
  -- not cancelled when it began, each once and the earliest first, and leaves the heap in order,
  -- if the heap was in order.
  pub process_delayed_tasks-Among :
      (now : ℕ) (clock : ℕ → ℕ) (l : EventLoop)
      → IsSorted l.delayed_tasks
      → (fired : List TimerTask) × Among fired (filter (fires now l) l.delayed_tasks)
        × ((process_delayed_tasks script now clock l).calls ≡ timer_calls fired l.calls)
        × IsSorted (process_delayed_tasks script now clock l).delayed_tasks
  process_delayed_tasks-Among now clock l s =
      let (fired, all, made, sorted) = process_delayed_tasks-AllBut now clock l s in
      (
        fired,
        AllBut-Among (process_delayed_tasks script now clock l) fired
            (filter (fires now l) l.delayed_tasks) all,
        made,
        sorted,
      )

  -- A timer that is not periodic is forgotten once its turn came, whatever its callback did.
  pub fire_once :
      (later : ℕ) (t : TimerTask) (l : EventLoop)
      → t.repeat ≡ false
      → contains (fire script later t l).timers t.id ≡ false
  unfolding fire reschedule
  fire_once later t l once = rw once (contains-erase _ t.id)
