-- ===== src/TcpConnection/Closing.antt =====
-- src/tcpconnection.cpp: the three ways in which a connection ends: `HandleClose`,
-- `ForceCloseInLoop` and `ConnectDestroyed`.
use cpp_reactor_framework.Prelude.{
  ℕ, ◌≤◌, ◌≡◌, refl, inl, inr, true, false, Option, none, some, List, ◌∷◌, arith, Bool-cases,
  if◌then◌else◌,
}
use cpp_reactor_framework.Channel.{none_event}
use cpp_reactor_framework.Poller.{Poller}
use cpp_reactor_framework.TcpConnection.{
  TcpConnection, disconnected, Notice, close_callback, closed_socket, is_disconnected, is_open,
  set_events, remove_if_added, close_socket,
}
use cpp_reactor_framework.TcpConnection.Handlers.{set_disconnected, handle_close}
use cpp_reactor_framework.TcpConnection.Calls.{connect_destroyed, force_close_in_loop}
use cpp_reactor_framework.TcpConnection.Invariant.{
  closes, socket_closes, IsValid, retuned, Link-retuned, set_events_lem,
}

module _ (P : Poller) where
  -- A connection that has ended, with what it did outwards.
  abbrev pub ended : TcpConnection P → List Notice → TcpConnection P
  ended c ns = record (retuned P none_event c) {
    state = disconnected;
    pending_write_bytes = 0;
    socket = none;
    notices = ns;
  }

  abbrev pub close_notice : TcpConnection P → Option ℕ → List Notice → List Notice
  close_notice c fd ns = if c.callbacks.close then close_callback fd ∷ ns else ns

  pub ended-IsValid :
      (c : TcpConnection P) (ns : List Notice)
      → IsValid P c
      → closes ns ≤ 1
      → socket_closes ns ≡ 1
      → IsValid P (ended c ns)
  ended-IsValid c ns v once shut = record {
    input = v.input;
    output = v.output;
    link = Link-retuned P c.poller c.channel none_event v.link;
    has_socket = λ h. cc;
    no_socket = λ h. refl;
    reads = λ h. cc;
    writes = λ h. cc;
    pending = λ h. cc;
    idle = λ h. (refl, refl);
    fresh = λ h. cc;
    closes_once = once;
    not_yet_closed = λ h. cc;
    closes_socket = shut;
  }

  disabled :
      (c : TcpConnection P)
      → IsValid P c
      → set_events P none_event (set_disconnected P c) ≡ retuned P none_event (set_disconnected P c)
  disabled c v = set_events_lem P none_event (set_disconnected P c) v.link

  pub handle_close_lem :
      (c : TcpConnection P)
      → IsValid P c
      → is_disconnected P c ≡ false
      → handle_close P c ≡ ended c (closed_socket ∷ close_notice c (some c.channel.fd) c.notices)
  unfolding handle_close remove_if_added close_socket
  handle_close_lem c v h = rw (h, disabled c v) (ground (arith, v.has_socket h))

  pub connect_destroyed_lem :
      (c : TcpConnection P)
      → IsValid P c
      → is_open P c ≡ true
      → connect_destroyed P c ≡ ended c (closed_socket ∷ c.notices)
  unfolding connect_destroyed remove_if_added close_socket
  connect_destroyed_lem c v h = rw (h, disabled c v) (ground (arith, v.has_socket))

  pub force_close_in_loop_lem :
      (c : TcpConnection P)
      → IsValid P c
      → is_open P c ≡ true
      → force_close_in_loop P c ≡ ended c (close_notice c none (closed_socket ∷ c.notices))
  unfolding force_close_in_loop close_socket
  force_close_in_loop_lem c v h = rw (h, disabled c v) (ground (arith, v.has_socket))

  -- Each of them leaves a connection in order, and does nothing to one that has ended.
  pub handle_close-IsValid : (c : TcpConnection P) → IsValid P c → IsValid P (handle_close P c)
  unfolding handle_close
  handle_close-IsValid c v = elim (Bool-cases (is_disconnected P c)) [
    | inl over ↦ rw over v
    | inr going ↦ rw (handle_close_lem c v going) (
        ended-IsValid c _ v (ground (arith, v.not_yet_closed going))
          (ground (arith, v.closes_socket)))
  ]

  pub connect_destroyed-IsValid :
      (c : TcpConnection P) → IsValid P c → IsValid P (connect_destroyed P c)
  unfolding connect_destroyed
  connect_destroyed-IsValid c v = elim (Bool-cases (is_open P c)) [
    | inl going ↦
        rw (connect_destroyed_lem c v going)
          (ended-IsValid c _ v v.closes_once (ground (arith, v.closes_socket)))
    | inr over ↦ rw over v
  ]

  pub force_close_in_loop-IsValid :
      (c : TcpConnection P) → IsValid P c → IsValid P (force_close_in_loop P c)
  unfolding force_close_in_loop
  force_close_in_loop-IsValid c v = elim (Bool-cases (is_open P c)) [
    | inl going ↦
        rw (force_close_in_loop_lem c v going)
          (ended-IsValid c _ v (ground (arith, v.not_yet_closed)) (ground (arith, v.closes_socket)))
    | inr over ↦ rw over v
  ]
