-- ===== src/EventLoop/Timers.antt =====
-- src/eventloop.cpp: what the loop does with its timers.
use cpp_reactor_framework.Prelude.{
  ℕ, ◌+◌, ◌*◌, ◌-◌, ◌/◌, ◌≤◌, ◌<◌, ◌≡◌, refl, ap, inl, inr, Bool, false, not, ◌&&◌, List, [], ◌∷◌,
  arith, Bool-cases, if_elim, ◌⊎◌, leb→le, ltb→lt, ltb, leb, if◌then◌else◌,
}
use cpp_reactor_framework.EventLoop.{EventLoop, TimerTask, push, is_dead, take_ready, poll_timeout}

le_of_not_leb : (a b : ℕ) → leb a b ≡ false → b ≤ a
le_of_not_leb a b h = ground arith

lt_of_not_leb : (a b : ℕ) → leb a b ≡ false → b < a
lt_of_not_leb a b h = ground arith

leb-eq-false : (a b : ℕ) → b < a → leb a b ≡ false
leb-eq-false a b h = ground arith

abbrev pub filter {ℓ} : {A : Type ℓ} → (A → Bool) → List A → List A
filter p [] = []
filter p (x ∷ xs) = if p x then x ∷ filter p xs else filter p xs

-- Every task from `t` on expires no earlier.
abbrev pub From : ℕ → List TimerTask → Type 0
From n [] = Unit {0}
From n (t ∷ ts) = (n ≤ t.expire_time) × From n ts

abbrev pub IsSorted : List TimerTask → Type 0
IsSorted [] = Unit {0}
IsSorted (t ∷ ts) = From t.expire_time ts × IsSorted ts

From-weaken : (m n : ℕ) (ts : List TimerTask) → m ≤ n → From n ts → From m ts
From-weaken m n [] h f = tt
From-weaken m n (t ∷ ts) h f = (omega (arith, f.0), From-weaken m n ts h f.1)

push-From :
    (n : ℕ) (t : TimerTask) (ts : List TimerTask)
    → n ≤ t.expire_time
    → From n ts
    → From n (push t ts)
unfolding push
push-From n t [] h f = (h, tt)
push-From n t (u ∷ us) h f =
    if_elim (From n) (leb u.expire_time t.expire_time) (λ e. (f.0, push-From n t us h f.1))
      (λ e. (h, f))

-- The heap stays in order.
pub push-IsSorted : (t : TimerTask) (ts : List TimerTask) → IsSorted ts → IsSorted (push t ts)
unfolding push
push-IsSorted t [] s = (tt, tt)
push-IsSorted t (u ∷ us) s =
    if_elim IsSorted (leb u.expire_time t.expire_time)
      (λ e. (
        push-From u.expire_time t us (ground (arith, leb→le u.expire_time t.expire_time e)) s.0,
        push-IsSorted t us s.1,
      ))
      (λ e.
        let before = le_of_not_leb u.expire_time t.expire_time e in
        ((before, From-weaken t.expire_time u.expire_time us before s.0), s))

-- The tasks that a round fires, and those that wait.
abbrev pub is_due : ℕ → TimerTask → Bool
is_due now t = leb t.expire_time now

abbrev pub fires : ℕ → EventLoop → TimerTask → Bool
fires now l t = is_due now t && not (is_dead l t)

abbrev pub waits : ℕ → TimerTask → Bool
waits now t = not (is_due now t)

none_due :
    (now n : ℕ) (l : EventLoop) (ts : List TimerTask)
    → now < n
    → From n ts
    → (filter (fires now l) ts ≡ []) × (filter (waits now) ts ≡ ts)
none_due now n l [] h f = (refl, refl)
none_due now n l (t ∷ ts) h f =
    let (none_fires, all_wait) = none_due now n l ts h f.1 in
    let late = leb-eq-false t.expire_time now (omega (arith, f.0)) in
    (rw late none_fires, rw late (ap (λ us. t ∷ us) all_wait))

-- A round takes from a heap in order exactly the tasks that are due: those of them that were not
-- cancelled fire, in the order of the heap, and the others stay as they are.
pub take_ready-filter :
    (now : ℕ) (l : EventLoop) (ts : List TimerTask)
    → IsSorted ts
    → take_ready now l ts ≡ (filter (fires now l) ts, filter (waits now) ts)
unfolding take_ready
take_ready-filter now l [] s = refl
take_ready-filter now l (t ∷ ts) s = elim (Bool-cases (is_due now t)) [
  | inl due ↦ rw (due, take_ready-filter now l ts s.1) (ground arith)
  | inr late ↦
      let (none_fires, all_wait) =
        none_due now t.expire_time l ts (lt_of_not_leb t.expire_time now late) s.0 in
      rw (late, none_fires, all_wait) refl
]

-- No task that still runs is passed by while the loop waits: the wait is over when the task
-- expires, or there is no wait.
abbrev pub InTime : ℕ → EventLoop → ℕ → List TimerTask → Type 0
InTime now l timeout [] = Unit {0}
InTime now l timeout (t ∷ ts) =
    (is_dead l t ≡ false → (timeout ≡ 0) ⊎ (now + timeout * 1000000 ≤ t.expire_time))
    × InTime now l timeout ts

InTime-zero : (now : ℕ) (l : EventLoop) (ts : List TimerTask) → InTime now l 0 ts
InTime-zero now l [] = tt
InTime-zero now l (t ∷ ts) = (λ alive. inl refl, InTime-zero now l ts)

InTime-From :
    (now timeout n : ℕ) (l : EventLoop) (ts : List TimerTask)
    → now + timeout * 1000000 ≤ n
    → From n ts
    → InTime now l timeout ts
InTime-From now timeout n l [] h f = tt
InTime-From now timeout n l (t ∷ ts) h f =
    (λ alive. inr (omega (arith, f.0)), InTime-From now timeout n l ts h f.1)

early : (e n k : ℕ) → k ≤ (e - n) / 1000000 → leb e n ≡ false → n + k * 1000000 ≤ e
early e n k h late = omega (arith, lt_of_not_leb e n late)

abbrev pub is_alive : EventLoop → TimerTask → Bool
is_alive l t = not (is_dead l t)

-- A wait of ten seconds at most that misses no task, and the heap with no live task lost.
abbrev pub IsSafe : ℕ → EventLoop → List TimerTask → ℕ × List TimerTask → Type 0
IsSafe now l ts r =
    (r.0 ≤ 10000) × InTime now l r.0 ts × (filter (is_alive l) r.1 ≡ filter (is_alive l) ts)

-- How long the loop waits, with its heap in order: ten seconds at most, and never past the time of
-- a task that was not cancelled; only cancelled tasks leave the heap.
pub poll_timeout-IsSafe :
    (now : ℕ) (l : EventLoop) (ts : List TimerTask)
    → IsSorted ts
    → IsSafe now l ts (poll_timeout now l ts)
unfolding poll_timeout
poll_timeout-IsSafe now l [] s = (omega arith, tt, refl)
poll_timeout-IsSafe now l (t ∷ ts) s =
    if_elim (IsSafe now l (t ∷ ts)) (is_dead l t)
      (λ dead.
        let (small, in_time, same) = poll_timeout-IsSafe now l ts s.1 in
        (small, (λ alive. absurd (ground (arith, dead, alive)), in_time), rw dead same))
      (λ alive.
        if_elim (IsSafe now l (t ∷ ts)) (leb t.expire_time now)
          (λ due. (omega arith, (λ a. inl refl, InTime-zero now l ts), refl))
          (λ late.
            if_elim (IsSafe now l (t ∷ ts)) (ltb 10000 remain)
              (λ far.
                waits_for 10000 (omega arith)
                  (early t.expire_time now 10000 (omega (arith, ltb→lt 10000 remain far)) late))
              (λ near.
                waits_for remain (ground arith)
                  (early t.expire_time now remain (omega arith) late))))
  where
    remain : ℕ
    remain = (t.expire_time - now) / 1000000

    waits_for :
        (k : ℕ) → k ≤ 10000 → now + k * 1000000 ≤ t.expire_time → IsSafe now l (t ∷ ts) (k, t ∷ ts)
    waits_for k small enough =
        (small, (λ a. inr enough, InTime-From now k t.expire_time l ts enough s.0), refl)
