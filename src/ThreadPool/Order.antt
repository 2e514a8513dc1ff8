-- ===== src/ThreadPool/Order.antt =====
-- src/thread_pool.cpp: which tasks run, over any interleaving of the threads.
use cpp_reactor_framework.Prelude.{
  ℕ, ◌≡◌, refl, sym, ap, ◌∙◌, inl, inr, ◌⊎◌, Bool, true, false, List, [], ◌∷◌, ◌++◌, append-nil,
  append_assoc, Bool-cases, subst, if_elim, ◌==◌, if◌then◌else◌,
}
use cpp_reactor_framework.ThreadPool.{
  ThreadPool, WorkerTurn, waits, exits, runs, commit, worker_turn, resize, stop, clear,
}

pub data Step : Type 0 where
  commits : ℕ → Step
  worker_turns : Step
  resizes : ℕ → Step
  stops clears : Step

-- The pool after the turn of a worker.
abbrev pub after_turn : WorkerTurn → ThreadPool → ThreadPool
after_turn waits p = p
after_turn exits p = p
after_turn (runs task p') p = p'

unfoldable pub step : Step → ThreadPool → ThreadPool
step (commits task) p = (commit task p).1
step worker_turns p = after_turn (worker_turn p.tasks p) p
step (resizes n) p = resize n p
step stops p = stop p
step clears p = clear p

unfoldable pub run : List Step → ThreadPool → ThreadPool
run [] p = p
run (s ∷ steps) p = run steps (step s p)

-- The tasks that `Commit` took, in order.
abbrev pub taken : Step → ThreadPool → List ℕ
taken (commits task) p = if p.is_running then task ∷ [] else []
taken s p = []

unfoldable pub all_taken : List Step → ThreadPool → List ℕ
all_taken [] p = []
all_taken (s ∷ steps) p = taken s p ++ all_taken steps (step s p)

-- Every task that was taken was started, was dropped or waits, in this order.
pub record IsOrderly (p : ThreadPool) (all : List ℕ) : Type 0 where
  pub order : all ≡ p.started ++ (p.dropped ++ p.tasks)
  pub none_dropped : p.is_running ≡ true → p.dropped ≡ []
  pub cleared : (p.dropped ≡ []) ⊎ (p.tasks ≡ [])
  pub stopped : p.shutting_down ≡ true → p.is_running ≡ false

kept-IsOrderly : (p : ThreadPool) (all : List ℕ) → IsOrderly p all → IsOrderly p (all ++ [])
kept-IsOrderly p all v = subst (IsOrderly p) (sym (append-nil all)) v

committed-IsOrderly :
    (task : ℕ) (p : ThreadPool) (all : List ℕ)
    → IsOrderly p all
    → p.is_running ≡ true
    → IsOrderly (record p { tasks = p.tasks ++ (task ∷ []) }) (all ++ (task ∷ []))
committed-IsOrderly task p all v going = record {
  order =
      ap (λ l. l ++ (task ∷ [])) v.order
      ∙ (append_assoc p.started (p.dropped ++ p.tasks) (task ∷ [])
          ∙ ap (λ l. p.started ++ l) (append_assoc p.dropped p.tasks (task ∷ [])));
  none_dropped = v.none_dropped;
  cleared = inl (v.none_dropped going);
  stopped = v.stopped;
}

started-IsOrderly :
    (task : ℕ) (tasks : List ℕ) (p : ThreadPool) (all : List ℕ)
    → IsOrderly p all
    → p.tasks ≡ task ∷ tasks
    → IsOrderly (record p { tasks = tasks; started = p.started ++ (task ∷ []) }) all
started-IsOrderly task tasks p all v e = record {
  order =
      v.order
      ∙ (ap (λ l. p.started ++ (l ++ p.tasks)) none_yet
          ∙ (ap (λ l. p.started ++ l) e
              ∙ (sym (append_assoc p.started (task ∷ []) tasks)
                  ∙ ap (λ l. (p.started ++ (task ∷ [])) ++ (l ++ tasks)) (sym none_yet))));
  none_dropped = v.none_dropped;
  cleared = inl none_yet;
  stopped = v.stopped;
}
  where
    none_yet : p.dropped ≡ []
    none_yet = elim v.cleared [ inl n ↦ n | inr n ↦ absurd (cc (sym n ∙ e)) ]

turned-IsOrderly :
    (tasks : List ℕ) (p : ThreadPool) (all : List ℕ)
    → IsOrderly p all
    → p.tasks ≡ tasks
    → IsOrderly (after_turn (worker_turn tasks p) p) all
unfolding worker_turn
turned-IsOrderly [] p all v e =
    if_elim (λ t. IsOrderly (after_turn t p) all) p.is_running (λ h. v) (λ h. v)
turned-IsOrderly (task ∷ tasks) p all v e = started-IsOrderly task tasks p all v e

-- `commit` with its test split off.
abbrev commit_if : Bool → ℕ → ThreadPool → Bool × ThreadPool
commit_if b task p = if b then (true, record p { tasks = p.tasks ++ (task ∷ []) }) else (false, p)

step-IsOrderly :
    (s : Step) (p : ThreadPool) (all : List ℕ)
    → IsOrderly p all
    → IsOrderly (step s p) (all ++ taken s p)
unfolding step commit resize stop clear
step-IsOrderly (commits task) p all v = elim (Bool-cases p.is_running) [
  | inl going ↦
      subst (λ b. IsOrderly (commit_if b task p).1 (all ++ (if b then task ∷ [] else [])))
        (sym going) (committed-IsOrderly task p all v going)
  | inr over ↦
      subst (λ b. IsOrderly (commit_if b task p).1 (all ++ (if b then task ∷ [] else [])))
        (sym over) (kept-IsOrderly p all v)
]
step-IsOrderly worker_turns p all v = kept-IsOrderly _ all (turned-IsOrderly p.tasks p all v refl)
step-IsOrderly (resizes n) p all v = kept-IsOrderly _ all (
    if_elim (λ q. IsOrderly q all) p.is_running
      (λ going.
        if_elim (λ q. IsOrderly q all) (n == p.target_thread_num) (λ same. v)
          (λ other. record {
            order = v.order;
            none_dropped = v.none_dropped;
            cleared = v.cleared;
            stopped = v.stopped;
          }))
      (λ over. v))
step-IsOrderly stops p all v = kept-IsOrderly _ all (
    if_elim (λ q. IsOrderly q all) p.is_running
      (λ going. record {
        order = v.order;
        none_dropped = λ h. cc;
        cleared = v.cleared;
        stopped = λ h. refl;
      })
      (λ over. v))
step-IsOrderly clears p all v = kept-IsOrderly _ all (
    if_elim (λ q. IsOrderly q all) p.shutting_down
      (λ ending. record {
        order = v.order ∙ ap (λ l. p.started ++ l) (sym (append-nil (p.dropped ++ p.tasks)));
        none_dropped = λ h. absurd (cc (sym h ∙ v.stopped ending));
        cleared = inr refl;
        stopped = λ h. cc;
      })
      (λ none_ends. v))

-- Over any interleaving of commits, workers, resizes and shutdowns, from a pool whose tasks are in
-- order, the tasks that were taken are those that were started, those that were dropped and those
-- that wait, in the order of the commits: each is in one of the three, once.
pub run-IsOrderly :
    (steps : List Step) (p : ThreadPool) (all : List ℕ)
    → IsOrderly p all
    → IsOrderly (run steps p) (all ++ all_taken steps p)
unfolding run all_taken
run-IsOrderly [] p all v = kept-IsOrderly p all v
run-IsOrderly (s ∷ steps) p all v =
    subst (IsOrderly (run steps (step s p)))
      (append_assoc all (taken s p) (all_taken steps (step s p)))
      (run-IsOrderly steps (step s p) (all ++ taken s p) (step-IsOrderly s p all v))

-- A pool that was shut down.
abbrev pub IsOver : ThreadPool → ThreadPool → Type 0
IsOver p q =
    (q.is_running ≡ false)
    × (q.tasks ≡ [])
    × (q.shutting_down ≡ false)
    × (q.started ≡ p.started)
    × (q.dropped ≡ p.dropped ++ p.tasks)

step-IsOver : (s : Step) (p q : ThreadPool) → IsOver p q → IsOver p (step s q)
unfolding step commit worker_turn resize stop clear
step-IsOver (commits task) p q o =
    if_elim (λ (r : Bool × ThreadPool). IsOver p r.1) q.is_running (λ h. absurd (cc (sym h ∙ o.0)))
      (λ h. o)
step-IsOver worker_turns p q o =
    subst (λ l. IsOver p (after_turn (worker_turn l q) q)) (sym o.1)
      (if_elim (λ t. IsOver p (after_turn t q)) q.is_running (λ h. o) (λ h. o))
step-IsOver (resizes n) p q o =
    if_elim (IsOver p) q.is_running (λ h. absurd (cc (sym h ∙ o.0))) (λ h. o)
step-IsOver stops p q o = if_elim (IsOver p) q.is_running (λ h. absurd (cc (sym h ∙ o.0))) (λ h. o)
step-IsOver clears p q o =
    if_elim (IsOver p) q.shutting_down (λ h. absurd (cc (sym h ∙ o.2))) (λ h. o)

run-IsOver : (steps : List Step) (p q : ThreadPool) → IsOver p q → IsOver p (run steps q)
unfolding run
run-IsOver [] p q o = o
run-IsOver (s ∷ steps) p q o = run-IsOver steps p (step s q) (step-IsOver s p q o)

-- When a running pool is shut down and no worker runs between the two steps of `Shutdown`, every
-- task that waits is dropped, and none is started by any later step.
pub shutdown_drops :
    (p : ThreadPool) (steps : List Step)
    → p.is_running ≡ true
    → ((run (stops ∷ clears ∷ steps) p).started ≡ p.started)
      × ((run (stops ∷ clears ∷ steps) p).dropped ≡ p.dropped ++ p.tasks)
unfolding run step stop clear
shutdown_drops p steps going =
    let (over, empty, still, started, dropped) =
      run-IsOver steps p (clear (stop p)) (rw going (refl, refl, refl, refl, refl)) in
    (started, dropped)
