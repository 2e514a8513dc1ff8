-- ===== src/SocketUtils/Descriptors.antt =====
-- src/socket_utils.cpp: what becomes of the descriptors that it opens.
use cpp_reactor_framework.Prelude.{
  ℕ, suc, ◌+◌, ◌≡◌, refl, Bool, true, not, ◌&&◌, Option, none, some, List, [], ◌∷◌, arith, ◌==◌,
  if◌then◌else◌,
}
use cpp_reactor_framework.SocketUtils.{
  SystemCall, opens, closes, sets_flags, sets_reuse_addr, sets_reuse_port, binds, listens, Answers,
  is_nonblocking, set_non_blocking, create_tcp_socket, create_non_blocking_socket,
  is_port_available,
}
use cpp_reactor_framework.SocketUtils.Flags.{with_nonblock_lem}
use cpp_reactor_framework.Poller.{is_some}
use cpp_reactor_framework.Socket.Ownership.{owns}

-- How often these calls opened a descriptor, and closed it.
abbrev pub times_opened : ℕ → List SystemCall → ℕ
times_opened fd [] = 0
times_opened fd (opens n ∷ calls) =
    let rest = times_opened fd calls in if fd == n then suc rest else rest
times_opened fd (closes n ∷ calls) = times_opened fd calls
times_opened fd (sets_flags n flags ∷ calls) = times_opened fd calls
times_opened fd (sets_reuse_addr n enable ∷ calls) = times_opened fd calls
times_opened fd (sets_reuse_port n enable ∷ calls) = times_opened fd calls
times_opened fd (binds n ∷ calls) = times_opened fd calls
times_opened fd (listens n backlog ∷ calls) = times_opened fd calls

abbrev pub times_closed : ℕ → List SystemCall → ℕ
times_closed fd [] = 0
times_closed fd (closes n ∷ calls) =
    let rest = times_closed fd calls in if fd == n then suc rest else rest
times_closed fd (opens n ∷ calls) = times_closed fd calls
times_closed fd (sets_flags n flags ∷ calls) = times_closed fd calls
times_closed fd (sets_reuse_addr n enable ∷ calls) = times_closed fd calls
times_closed fd (sets_reuse_port n enable ∷ calls) = times_closed fd calls
times_closed fd (binds n ∷ calls) = times_closed fd calls
times_closed fd (listens n backlog ∷ calls) = times_closed fd calls

-- The flags of a descriptor that had `flags` before these calls.
abbrev pub flags_after : ℕ → ℕ → List SystemCall → ℕ
flags_after fd flags [] = flags
flags_after fd flags (sets_flags n new_flags ∷ calls) =
    flags_after fd (if fd == n then new_flags else flags) calls
flags_after fd flags (opens n ∷ calls) = flags_after fd flags calls
flags_after fd flags (closes n ∷ calls) = flags_after fd flags calls
flags_after fd flags (sets_reuse_addr n enable ∷ calls) = flags_after fd flags calls
flags_after fd flags (sets_reuse_port n enable ∷ calls) = flags_after fd flags calls
flags_after fd flags (binds n ∷ calls) = flags_after fd flags calls
flags_after fd flags (listens n backlog ∷ calls) = flags_after fd flags calls

-- Whether a result is no descriptor, or one that does not block after the calls.
abbrev pub never_blocks : ℕ → Option ℕ × List SystemCall → Bool
never_blocks flags (none, calls) = true
never_blocks flags (some fd, calls) = is_nonblocking (flags_after fd flags calls)

-- Whatever the system answers, `CreateNonBlockingSocket` loses no descriptor: what it opened it
-- returns or closes, and what it returns does not block.
pub create_non_blocking_socket_lem :
    (a : Answers) (fd flags : ℕ)
    → (times_opened fd (create_non_blocking_socket a).1
        ≡ times_closed fd (create_non_blocking_socket a).1
          + owns fd (create_non_blocking_socket a).0)
      × (never_blocks flags (create_non_blocking_socket a) ≡ true)
unfolding create_non_blocking_socket set_non_blocking create_tcp_socket
create_non_blocking_socket_lem a fd flags = (ground arith, by_socket a.made a.flags)
  where
    by_socket :
        (made asked : Option ℕ)
        → never_blocks flags (create_non_blocking_socket (record a { made = made; flags = asked }))
          ≡ true
    by_socket none asked = refl
    by_socket (some n) none = refl
    by_socket (some n) (some old) = ground (arith, (with_nonblock_lem true old).0)

-- `IsPortAvailable` closes what it opened, and says whether there was a socket and `bind` took it.
pub is_port_available_lem :
    (a : Answers) (fd : ℕ)
    → (times_opened fd (is_port_available a).1 ≡ times_closed fd (is_port_available a).1)
      × ((is_port_available a).0 ≡ (is_some a.made && not (is_some a.bind_error)))
unfolding is_port_available create_tcp_socket
is_port_available_lem a fd = (ground arith, ground arith)
