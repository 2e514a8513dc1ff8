-- ===== src/TcpClient/Connecting.antt =====
-- src/tcpclient.cpp: how an attempt to connect ends.
use cpp_reactor_framework.Prelude.{
  ℕ, suc, ◌≡◌, refl, sym, ap, ◌∙◌, inl, inr, Bool, true, false, ◌&&◌, none, some, arith, ok,
  Bool-cases, ◌==◌, if◌then◌else◌,
}
use cpp_reactor_framework.Channel
use cpp_reactor_framework.Channel.{Channel, Events, set_added}
use cpp_reactor_framework.Poller.{Poller, is_some, wanted}
use cpp_reactor_framework.TcpConnection
use cpp_reactor_framework.TcpConnection.{TcpConnection, Notice, is_connected, set_events}
use cpp_reactor_framework.TcpConnection.Calls.{connect_established}
use cpp_reactor_framework.TcpClient.{
  TcpClient, ConnectOutcome, connected_now, in_progress, handle_connect, wait_for_connect,
  set_poller, attempt, connect, connect_completed, remove_temp, handle_remove_connection,
  do_reconnect, client_is_connected,
}

module _ (P : Poller) where
  -- A reconnection that its timer starts does nothing to any client: it needs a client that was
  -- started, and `Connect` ignores such a client.
  pub do_reconnect_ignored :
      (c : TcpClient P) (now fd : ℕ) (outcome : ConnectOutcome)
      → do_reconnect P now fd outcome c ≡ ok c
  unfolding do_reconnect connect
  do_reconnect_ignored c now fd outcome = elim (Bool-cases c.started) [
    | inl running ↦ rw running (ground arith)
    | inr stopped ↦ rw stopped refl
  ]

  same_fd : (n : ℕ) → (n == n) ≡ true
  same_fd n = ground arith

  removed :
      (s : P.State) (ch : Channel) → P.IsValid s → P.watched (P.remove_channel s ch).0 ch.fd ≡ none
  removed s ch valid = P.watched-remove s ch ch.fd valid ∙ rw (same_fd ch.fd) refl

  updated :
      (s : P.State) (ch : Channel)
      → P.IsValid s
      → P.watched (P.update_channel s ch).0 ch.fd ≡ wanted ch.events
  updated s ch valid = P.watched-update s ch ch.fd valid ∙ rw (same_fd ch.fd) refl

  notified :
      (b : Bool) (n : Notice) (conn : TcpConnection P)
      → (TcpConnection.notify_if P b n conn).poller ≡ conn.poller
  notified true n conn = refl
  notified false n conn = refl

  -- The temporary channel, once it is registered.
  abbrev pub temporary : ℕ → Channel
  temporary fd = record (Channel.new fd) {
    has_write_callback = true;
    events = record { reading = false; writing = true };
    added = true;
  }

  -- The client while it waits for the socket.
  module _ (c : TcpClient P) (fd : ℕ) (valid : P.IsValid c.poller)
      (unwatched : P.watched c.poller fd ≡ none) where
    first : P.State × Channel
    first = P.update_channel c.poller (record (temporary fd) { added = false })

    second : P.State × Channel
    second = P.update_channel first.0 (temporary fd)

    first_channel : first.1 ≡ temporary fd
    unfolding first Channel.new
    first_channel =
        P.channel-update c.poller (record (temporary fd) { added = false }) valid
          (sym (ap is_some unwatched))

    first_watched : P.watched first.0 fd ≡ some (record { reading = false; writing = true })
    unfolding first Channel.new
    first_watched =
        P.watched-update c.poller (record (temporary fd) { added = false }) fd valid
        ∙ rw (same_fd fd) refl

    first_valid : P.IsValid first.0
    unfolding first
    first_valid = P.update-IsValid c.poller _ valid

    second_channel : second.1 ≡ temporary fd
    unfolding second Channel.new
    second_channel =
        P.channel-update first.0 (temporary fd) first_valid (sym (ap is_some first_watched))

    second_valid : P.IsValid second.0
    unfolding second
    second_valid = P.update-IsValid first.0 (temporary fd) first_valid

    waiting_lem :
        wait_for_connect P fd c
        ≡ record (set_poller P second.0 c) { temp_channel = some (temporary fd) }
    unfolding wait_for_connect first second Channel.new
    waiting_lem = rw (first_channel, second_channel) refl

    completed_lem :
        (now : ℕ) (d : TcpClient P)
        → (d' : TcpClient P) × (connect_completed P now 0
              (temporary fd)
              (record d { socket = some fd; poller = second.0 })
            ≡ ok d')
          × (client_is_connected P d' ≡ true)
          × (P.watched d'.poller fd ≡ none)
    unfolding connect_completed handle_connect connect_established TcpConnection.new set_events
        remove_temp Channel.new
    completed_lem now d = (
      _,
      refl,
      ground arith,
      ap (λ p. P.watched (P.remove_channel p (temporary fd)).0 fd)
            (notified d.callbacks.connection _ _)
          ∙ removed _ (temporary fd) (P.update-IsValid second.0 _ second_valid),
    )

  -- A client that was not started and has to wait for its socket, on a poller in order that does
  -- not watch the descriptor: the connection that it makes when the socket is ready is connected,
  -- and its descriptor is not watched, since the temporary channel is removed behind it.
  pub connect_completed_unwatched :
      (c : TcpClient P) (now later fd : ℕ)
      → P.IsValid c.poller
      → P.watched c.poller fd ≡ none
      → c.started ≡ false
      → (waiting d : TcpClient P) × (connect P now fd in_progress c ≡ ok waiting)
        × (waiting.temp_channel ≡ some (temporary fd))
        × (connect_completed P later 0 (temporary fd) waiting ≡ ok d)
        × (client_is_connected P d ≡ true)
        × (P.watched d.poller fd ≡ none)
  unfolding connect attempt
  connect_completed_unwatched c now later fd valid unwatched stopped =
      let begun = record c { started = true; connecting = true; socket = some fd } in
      let waiting = record (set_poller P (second begun fd valid unwatched).0 begun) {
        temp_channel = some (temporary fd);
      } in
      let (d, ran, up, deaf) = completed_lem begun fd valid unwatched later waiting in
      (waiting, d, rw (stopped, waiting_lem begun fd valid unwatched) refl, refl, ran, up, deaf)

  -- A client that was not started and whose socket connects at once, on a poller in order that
  -- does not watch the descriptor: the connection is connected, and its descriptor is watched for
  -- input.
  pub connect_watched :
      (c : TcpClient P) (now fd : ℕ)
      → P.IsValid c.poller
      → P.watched c.poller fd ≡ none
      → c.started ≡ false
      → (d : TcpClient P) × (connect P now fd connected_now c ≡ ok d)
        × (client_is_connected P d ≡ true)
        × (P.watched d.poller fd ≡ some (record { reading = true; writing = false }))
  unfolding connect attempt handle_connect connect_established TcpConnection.new set_events
      Channel.new
  connect_watched c now fd valid unwatched stopped = (
    _,
    ap
        (λ b.
          if b
          then ok c
          else attempt P now fd connected_now
              (record c { started = true; connecting = true; socket = some fd }))
        stopped,
    ground arith,
    ap (λ p. P.watched p fd) (notified c.callbacks.connection _ _) ∙ updated c.poller _ valid,
  )

  -- After the close of its connection, a client waits for one timer more if it reconnects by
  -- itself and is started, and has stopped otherwise; it has no connection in both cases.
  pub handle_remove_connection_lem :
      (c : TcpClient P)
      → handle_remove_connection P c ≡ record c {
        connection = none;
        close_calls = if c.callbacks.close then suc c.close_calls else c.close_calls;
        connecting = if c.auto_reconnect && c.started then false else c.connecting;
        started = c.auto_reconnect && c.started;
        retries = if c.auto_reconnect && c.started then suc c.retries else c.retries;
      }
  unfolding handle_remove_connection
  handle_remove_connection_lem c = ground arith
