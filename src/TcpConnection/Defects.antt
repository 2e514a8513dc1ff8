-- ===== src/TcpConnection/Defects.antt =====
-- src/tcpconnection.cpp: what the connection does where its comments or its server expect more.
use cpp_reactor_framework.Prelude.{
  ℕ, ◌<◌, ◌≡◌, refl, sym, ap, ◌∙◌, true, false, none, some, [], ◌∷◌, arith, ok, ltb, ◌==◌, if_elim,
  subst, length,
}
use cpp_reactor_framework.Buffer.{readable_bytes}
use cpp_reactor_framework.Buffer.Io.{WriteOutcome}
use cpp_reactor_framework.Buffer.View.{content, readable_bytes-content}
use cpp_reactor_framework.Channel.{Events}
use cpp_reactor_framework.Poller.{Poller}
use cpp_reactor_framework.TcpConnection.{
  TcpConnection, close_callback, closed_socket, is_connected, is_disconnected, is_open,
}
use cpp_reactor_framework.TcpConnection.Handlers.{handle_close, handle_write, is_disconnecting}
use cpp_reactor_framework.TcpConnection.Calls.{shutdown, shutdown_in_loop, force_close_in_loop}
use cpp_reactor_framework.TcpConnection.Invariant.{IsValid, set_events_lem}
use cpp_reactor_framework.TcpConnection.Closing.{handle_close_lem, force_close_in_loop_lem}

module _ (P : Poller) where
  -- The bytes that wait when a connected connection in order is shut down on its loop are not
  -- written by the next writable event: the connection stays open with all of them, and whatever
  -- the system would take, its descriptor's being writable changes nothing.
  pub shutdown_unsent :
      (c : TcpConnection P) (now : ℕ) (outcome : WriteOutcome)
      → IsValid P c
      → is_connected P c ≡ true
      → 0 < length (content c.output_buffer)
      → (handle_write P now outcome (shutdown P true c) ≡ ok (shutdown P true c))
        × (is_disconnecting P (shutdown P true c) ≡ true)
        × ((shutdown P true c).output_buffer ≡ c.output_buffer)
  unfolding shutdown shutdown_in_loop handle_write
  shutdown_unsent c now outcome v going unsent =
      let waits = ltb_readable c v unsent in
      let w = v.writes (ground arith) unsent in rw (going, waits, w) (refl, refl, refl)
    where
      ltb_readable :
          (c : TcpConnection P)
          → IsValid P c
          → 0 < length (content c.output_buffer)
          → ltb 0 (readable_bytes c.output_buffer) ≡ true
      ltb_readable c v unsent = ground (arith, readable_bytes-content c.output_buffer v.output)

  -- The two ways to close an open connection in order that has a close callback end in the same
  -- state but for what they tell: `HandleClose` calls the close callback while the connection has
  -- its descriptor and closes the socket then, and `ForceCloseInLoop` closes the socket first, so
  -- that the callback finds none.
  pub force_close-handle_close :
      (c : TcpConnection P)
      → IsValid P c
      → is_open P c ≡ true
      → c.callbacks.close ≡ true
      → ((handle_close P c).notices
          ≡ closed_socket ∷ close_callback (some c.channel.fd) ∷ c.notices)
        × ((force_close_in_loop P c).notices ≡ close_callback none ∷ closed_socket ∷ c.notices)
        × (record (force_close_in_loop P c) { notices = [] }
            ≡ record (handle_close P c) { notices = [] })
  force_close-handle_close c v going told =
      rw (handle_close_lem P c v (ground arith), force_close_in_loop_lem P c v going, told)
        (refl, refl, refl)

  -- A `ShutdownInLoop` that runs after its connection, in order, has ended with bytes unsent makes
  -- the poller watch the descriptor that the connection had, though the socket is closed.
  pub shutdown_in_loop_ended :
      (c : TcpConnection P)
      → IsValid P c
      → is_disconnected P c ≡ true
      → 0 < length (content c.output_buffer)
      → (P.watched (shutdown_in_loop P c).poller c.channel.fd
          ≡ some (record { reading = false; writing = true }))
        × ((shutdown_in_loop P c).socket ≡ none)
  unfolding shutdown_in_loop
  shutdown_in_loop_ended c v over unsent =
      if_elim Rearmed (ltb 0 (readable_bytes c.output_buffer))
        (λ some_left.
          if_elim Rearmed c.channel.events.writing (λ w. absurd (ground (arith, none_written, w)))
            (λ idle.
              subst Rearmed (sym (set_events_lem P asked c v.link)) (watched, v.no_socket over)))
        (λ none_left. absurd (ground (arith, readable_bytes-content c.output_buffer v.output)))
    where
      asked : Events
      asked = record { reading = c.channel.events.reading; writing = true }

      Rearmed : TcpConnection P → Type 0
      Rearmed d =
          (P.watched d.poller c.channel.fd ≡ some (record { reading = false; writing = true }))
          × (d.socket ≡ none)

      none_written : c.channel.events.writing ≡ false
      none_written = ap (λ e. e.writing) (v.idle (ground arith)).0

      none_read : c.channel.events.reading ≡ false
      none_read = ap (λ e. e.reading) (v.idle (ground arith)).0

      same : (n : ℕ) → (n == n) ≡ true
      same n = ground arith

      watched :
          P.watched
            (P.update_channel c.poller (record (c.channel) { events = asked })).0
            c.channel.fd
          ≡ some (record { reading = false; writing = true })
      watched =
          P.watched-update c.poller _ c.channel.fd v.link.valid
          ∙ rw (same c.channel.fd, none_read) refl
