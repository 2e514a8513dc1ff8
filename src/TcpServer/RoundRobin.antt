-- ===== src/TcpServer/RoundRobin.antt =====
-- src/tcpserver.cpp: `NextLoop`, called again and again.
use cpp_reactor_framework.Prelude.{
  ℕ, zero, suc, ◌+◌, ◌*◌, ◌/◌, ◌%◌, ◌<◌, ◌≡◌, ◌≢◌, refl, sym, ap, ◌∙◌, size_mod, arith,
}
use native.Mathlib.Nat.{div-add-mod, mul-suc, lt_of_mul-lt-mul_left, mod-lt}
use cpp_reactor_framework.Poller.{Poller}
use cpp_reactor_framework.TcpServer.{Loop, main_loop, sub_loop, TcpServer, next_loop}

-- Numbers less than `n` apart have different remainders.
mod_apart : (n a b : ℕ) → a < b → b < a + n → a % n ≢ b % n
mod_apart n a b less near same =
    let qa = div-add-mod a n in
    let qb = div-add-mod b n in
    let above : n * (a / n) < n * (b / n) = omega (arith, qa, qb) in
    let below : n * (b / n) < n * suc (a / n) = omega (arith, qa, qb, mul-suc n (a / n)) in
    let lower = lt_of_mul-lt-mul_left n above in
    let upper = lt_of_mul-lt-mul_left n below in omega (arith, lower, upper)

module _ (P : Poller) where
  -- The server after `k` choices, and the choice that comes then.
  unfoldable pub after_choices : ℕ → TcpServer P → TcpServer P
  after_choices zero s = s
  after_choices (suc k) s = (next_loop P (after_choices k s)).1

  abbrev pub nth_choice : ℕ → TcpServer P → Loop
  nth_choice k s = (next_loop P (after_choices k s)).0

  index-after_choices :
      (k : ℕ) (s : TcpServer P)
      → 0 < s.thread_num
      → s.next_loop_idx + k < size_mod
      → ((after_choices k s).next_loop_idx ≡ s.next_loop_idx + k)
        × ((after_choices k s).thread_num ≡ s.thread_num)
  unfolding next_loop after_choices
  index-after_choices zero s some_loop small = (omega arith, refl)
  index-after_choices (suc k) s some_loop small =
      let h = index-after_choices k s some_loop (omega arith) in ground (arith, h)

  loop_index : Loop → ℕ
  loop_index main_loop = 0
  loop_index (sub_loop i) = i

  chosen :
      (k : ℕ) (s : TcpServer P)
      → 0 < s.thread_num
      → s.next_loop_idx + k < size_mod
      → nth_choice k s ≡ sub_loop ((s.next_loop_idx + k) % s.thread_num)
  unfolding next_loop
  chosen k s some_loop small = let h = index-after_choices k s some_loop small in ground (arith, h)

  -- With sub loops, and before the counter wraps, the choice number i of `NextLoop` is the loop
  -- that the counter and i give modulo the number of loops, which is one of the loops, and two
  -- choices less than that number apart are of different loops.
  pub next_loop_fair :
      (s : TcpServer P) (i j : ℕ)
      → 0 < s.thread_num
      → i < j
      → j < i + s.thread_num
      → s.next_loop_idx + j < size_mod
      → (nth_choice i s ≡ sub_loop ((s.next_loop_idx + i) % s.thread_num))
        × ((s.next_loop_idx + i) % s.thread_num < s.thread_num)
        × (nth_choice i s ≢ nth_choice j s)
  unfolding loop_index
  next_loop_fair s i j some_loop less near small =
      let ci = chosen i s some_loop (omega arith) in
      let cj = chosen j s some_loop small in
      (
        ci,
        mod-lt (s.next_loop_idx + i) some_loop,
        λ same.
            mod_apart s.thread_num (s.next_loop_idx + i) (s.next_loop_idx + j) (omega arith)
              (omega arith) (ap loop_index (sym ci ∙ same ∙ cj)),
      )
