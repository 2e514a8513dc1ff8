-- ===== src/Socket/Options.antt =====
-- src/socket.cpp: the calls of a socket to the system, by the descriptor that it owns.
use cpp_reactor_framework.Prelude.{
  ℕ, ◌≡◌, refl, Bool, true, false, not, ◌&&◌, ◌||◌, Option, none, some, List, [], ◌∷◌, ◌++◌, arith,
}
use cpp_reactor_framework.Poller.{is_some}
use cpp_reactor_framework.SocketUtils.{
  SystemCall, opens, listens, Answers, bound, carried_out, set_reuse_addr, set_reuse_port,
  set_non_blocking, create_tcp_socket, is_nonblocking,
}
use cpp_reactor_framework.SocketUtils.Flags.{with_nonblock_lem}
use cpp_reactor_framework.SocketUtils.Descriptors.{never_blocks}

-- `Socket()`; whether an option was set is only logged.
unfoldable pub create_socket : Answers → Option ℕ × List SystemCall
create_socket a =
    let (made, calls) = create_tcp_socket a in
    elim made [
      | none ↦ (none, calls)
      | some fd ↦ (some fd, calls ++ ((set_reuse_addr a fd true).1 ++ (set_reuse_port a fd true).1))
    ]

-- `CreateNonBlocking`.
unfoldable pub create_non_blocking : Answers → Option ℕ × List SystemCall
create_non_blocking a =
    let (made, calls) = create_tcp_socket a in
    elim made [
      | none ↦ (none, calls)
      | some fd ↦
          (some fd, calls ++ ((set_non_blocking a fd true).1 ++ (set_reuse_addr a fd true).1))
    ]

-- `Accept` of a listening socket, for the descriptor that `accept` returns.
unfoldable pub accept_socket : Option ℕ → Option ℕ → Answers → Option ℕ × List SystemCall
accept_socket none client a = (none, [])
accept_socket (some fd) none a = (none, [])
accept_socket (some fd) (some client_fd) a =
    (some client_fd, opens client_fd ∷ (set_non_blocking a client_fd true).1)

unfoldable pub bind : Option ℕ → Answers → Bool × List SystemCall
bind none a = (false, [])
bind (some fd) a = (not (is_some a.bind_error), bound a fd)

unfoldable pub listen : Option ℕ → ℕ → Answers → Bool × List SystemCall
listen none backlog a = (false, [])
listen (some fd) backlog a = carried_out (not (is_some a.listen_error)) (listens fd backlog)

-- `SetNonBlocking` took effect.
abbrev pub fcntl_succeeds : Answers → Bool
fcntl_succeeds a = is_some a.flags && a.flags_set

-- `Socket::CreateNonBlocking` returns a socket that blocks exactly if there is a socket, its flags
-- had it block, and one of the two calls of `fcntl` failed: the failure is not looked at.
pub create_non_blocking_lem :
    (a : Answers) (flags : ℕ)
    → never_blocks flags (create_non_blocking a)
      ≡ (not (is_some a.made) || fcntl_succeeds a || is_nonblocking flags)
unfolding create_non_blocking set_non_blocking set_reuse_addr create_tcp_socket
create_non_blocking_lem a flags = by_answers a.made a.flags a.flags_set a.reuse_addr_set
  where
    by_answers :
        (made asked : Option ℕ) (done reused : Bool)
        → never_blocks flags (
            create_non_blocking
              (record a { made = made; flags = asked; flags_set = done; reuse_addr_set = reused }))
          ≡ (not (is_some made) || (is_some asked && done) || is_nonblocking flags)
    by_answers none asked done reused = refl
    by_answers (some n) none done reused = ground arith
    by_answers (some n) (some old) true reused = ground (arith, (with_nonblock_lem true old).0)
    by_answers (some n) (some old) false reused = ground arith
