-- ===== src/SocketUtils.antt =====
-- include/socket_utils.h, src/socket_utils.cpp: the wrappers of system calls, on Linux. What the
-- system answers is an argument; a function returns its result and the calls that changed the
-- system, in their order.
pub mod Flags
pub mod Descriptors
use cpp_reactor_framework.Prelude.{
  ℕ, suc, ◌+◌, ◌-◌, ◌*◌, ◌/◌, ◌%◌, Bool, true, false, Option, none, some, List, [], ◌∷◌, ◌++◌, ◌==◌,
  if◌then◌else◌,
}

-- Calls that the system carried out.
pub data SystemCall : Type 0 where
  opens closes : ℕ → SystemCall
  sets_flags : ℕ → ℕ → SystemCall
  sets_reuse_addr sets_reuse_port : ℕ → Bool → SystemCall
  binds : ℕ → SystemCall
  listens : ℕ → ℕ → SystemCall

-- What the system answers: the descriptor of `socket`, the flags of `F_GETFL`, whether `F_SETFL` and
-- `setsockopt` succeed, and the error of `bind` and of `listen`.
pub record Answers : Type 0 where
  pub made : Option ℕ
  pub flags : Option ℕ
  pub flags_set : Bool
  pub reuse_addr_set : Bool
  pub reuse_port_set : Bool
  pub bind_error : Option ℕ
  pub listen_error : Option ℕ

abbrev pub eaddrinuse : ℕ
eaddrinuse = 98

-- O_NONBLOCK, which is one bit.
abbrev pub o_nonblock : ℕ
o_nonblock = 2048

abbrev pub is_nonblocking : ℕ → Bool
is_nonblocking flags = flags / o_nonblock % 2 == 1

-- `flags |= O_NONBLOCK` and `flags &= ~O_NONBLOCK`.
unfoldable pub with_nonblock : Bool → ℕ → ℕ
with_nonblock true flags = if is_nonblocking flags then flags else flags + o_nonblock
with_nonblock false flags = if is_nonblocking flags then flags - o_nonblock else flags

abbrev pub carried_out : Bool → SystemCall → Bool × List SystemCall
carried_out done call = if done then (true, call ∷ []) else (false, [])

unfoldable pub set_reuse_addr : Answers → ℕ → Bool → Bool × List SystemCall
set_reuse_addr a fd enable = carried_out a.reuse_addr_set (sets_reuse_addr fd enable)

unfoldable pub set_reuse_port : Answers → ℕ → Bool → Bool × List SystemCall
set_reuse_port a fd enable = carried_out a.reuse_port_set (sets_reuse_port fd enable)

unfoldable pub set_non_blocking : Answers → ℕ → Bool → Bool × List SystemCall
set_non_blocking a fd enable = elim a.flags [
  | none ↦ (false, [])
  | some flags ↦ carried_out a.flags_set (sets_flags fd (with_nonblock enable flags))
]

unfoldable pub create_tcp_socket : Answers → Option ℕ × List SystemCall
create_tcp_socket a = elim a.made [ none ↦ (none, []) | some fd ↦ (some fd, opens fd ∷ []) ]

-- A socket that cannot be made non-blocking is closed again.
unfoldable pub create_non_blocking_socket : Answers → Option ℕ × List SystemCall
create_non_blocking_socket a =
    let (made, calls) = create_tcp_socket a in
    elim made [
      | none ↦ (none, calls)
      | some fd ↦
          let (done, more) = set_non_blocking a fd true in
          if done then (some fd, calls ++ more) else (none, calls ++ (more ++ (closes fd ∷ [])))
    ]

abbrev pub bound : Answers → ℕ → List SystemCall
bound a fd = elim a.bind_error [ none ↦ binds fd ∷ [] | some error ↦ [] ]

-- The error is looked at only for the log.
unfoldable pub is_port_available : Answers → Bool × List SystemCall
is_port_available a =
    let (made, calls) = create_tcp_socket a in
    elim made [
      | none ↦ (false, calls)
      | some fd ↦
          let after = calls ++ (bound a fd ++ (closes fd ∷ [])) in
          elim a.bind_error [
            | none ↦ (true, after)
            | some error ↦ (if error == eaddrinuse then false else false, after)
          ]
    ]

-- The 16 bits of a port in network order, on a machine that is little-endian.
unfoldable pub host_to_net_short : ℕ → ℕ
host_to_net_short host16 = host16 % 256 * 256 + host16 / 256 % 256

unfoldable pub net_to_host_short : ℕ → ℕ
net_to_host_short net16 = net16 % 256 * 256 + net16 / 256 % 256
