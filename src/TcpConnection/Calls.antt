-- ===== src/TcpConnection/Calls.antt =====
-- src/tcpconnection.cpp: the calls of the server and of the user. `in_loop` is what
-- `IsInLoopThread()` returns: `RunInLoop` runs its functor at once on the loop thread, and queues
-- it behind the others elsewhere.
use cpp_reactor_framework.Prelude.{
  ℕ, Bool, true, false, ◌&&◌, List, [], ◌∷◌, ◌++◌, Result, ok, ◌>>=◌, ◌>>◌, assert, ltb, leb,
  if◌then◌else◌,
}
use cpp_reactor_framework.Buffer.{readable_bytes, append_string}
use cpp_reactor_framework.Poller.{Poller}
use cpp_reactor_framework.TcpConnection.{
  TcpConnection, connecting, connected, disconnecting, Functor, send_functor, shutdown_functor,
  force_close_functor, connection_callback, close_callback, high_water_mark_callback, is_connected,
  is_open, notify_if, refresh_active_time, enable_reading, enable_writing, disable_all,
  remove_if_added, close_socket,
}
use cpp_reactor_framework.TcpConnection.Handlers.{set_disconnected, handle_close}

module _ (P : Poller) where
  abbrev pub is_connecting : TcpConnection P → Bool
  is_connecting c = elim c.state [ connecting ↦ true | _ ↦ false ]

  unfoldable pub connect_established : ℕ → TcpConnection P → Result (TcpConnection P)
  connect_established now c = do
    assert (is_connecting c)
    let c1 = refresh_active_time P now (record c { state = connected })
    let c2 = enable_reading P c1
    ok (notify_if P c2.callbacks.connection connection_callback c2)

  unfoldable pub connect_destroyed : TcpConnection P → TcpConnection P
  connect_destroyed c =
      if is_open P c
      then close_socket P (remove_if_added P (disable_all P (set_disconnected P c)))
      else c

  unfoldable pub shutdown_in_loop : TcpConnection P → TcpConnection P
  shutdown_in_loop c =
      if ltb 0 (readable_bytes c.output_buffer)
      then (if c.channel.events.writing then c else enable_writing P c)
      else handle_close P c

  -- The socket is closed before the close callback is called.
  unfoldable pub force_close_in_loop : TcpConnection P → TcpConnection P
  force_close_in_loop c = if is_open P c then closed else c
    where
      shut : TcpConnection P
      shut = close_socket P (disable_all P (set_disconnected P c))

      closed : TcpConnection P
      closed = notify_if P shut.callbacks.close (close_callback shut.socket) shut

  -- `m_high_water_mark_callback && old_pending < mark && new_pending >= mark`.
  abbrev pub crosses : TcpConnection P → ℕ → ℕ → Bool
  crosses c old_pending new_pending =
      c.callbacks.high_water_mark
      && ltb old_pending c.high_water_mark
      && leb c.high_water_mark new_pending

  -- `SendInLoop` behind its guard and the append.
  unfoldable pub after_append : ℕ → TcpConnection P → TcpConnection P
  after_append old_pending c =
      let new_pending = readable_bytes c.output_buffer in
      let c1 = record c { pending_write_bytes = new_pending } in
      let c2 =
        notify_if P (crosses c1 old_pending new_pending) (high_water_mark_callback new_pending)
          c1 in
      if c2.channel.events.writing then c2 else enable_writing P c2

  unfoldable pub send_in_loop : List ℕ → TcpConnection P → Result (TcpConnection P)
  send_in_loop message c = if is_connected P c then appended else ok c
    where
      appended : Result (TcpConnection P)
      appended = do
        output ← append_string c.output_buffer message
        ok (after_append (readable_bytes c.output_buffer) (record c { output_buffer = output }))

  abbrev pub queue_in_loop : Functor → TcpConnection P → TcpConnection P
  queue_in_loop f c = record c { pending_functors = c.pending_functors ++ (f ∷ []) }

  -- `Send`: `QueueInLoop` copies the message.
  unfoldable pub send : Bool → List ℕ → TcpConnection P → Result (TcpConnection P)
  send in_loop message c =
      if is_connected P c
      then (if in_loop then send_in_loop message c else ok (queue_in_loop (send_functor message) c))
      else ok c

  unfoldable pub shutdown : Bool → TcpConnection P → TcpConnection P
  shutdown in_loop c = if is_connected P c then run else c
    where
      stopping : TcpConnection P
      stopping = record c { state = disconnecting }

      run : TcpConnection P
      run = if in_loop then shutdown_in_loop stopping else queue_in_loop shutdown_functor stopping

  unfoldable pub force_close : Bool → TcpConnection P → TcpConnection P
  force_close in_loop c = if is_open P c then run else c
    where
      stopping : TcpConnection P
      stopping = record c { state = disconnecting }

      run : TcpConnection P
      run =
          if in_loop
          then force_close_in_loop stopping
          else queue_in_loop force_close_functor stopping

  abbrev pub run_functor : Functor → TcpConnection P → Result (TcpConnection P)
  run_functor (send_functor message) c = send_in_loop message c
  run_functor shutdown_functor c = ok (shutdown_in_loop c)
  run_functor force_close_functor c = ok (force_close_in_loop c)

  abbrev pub run_first : List Functor → TcpConnection P → Result (TcpConnection P)
  run_first [] c = ok c
  run_first (f ∷ fs) c = run_functor f (record c { pending_functors = fs })

  -- The loop runs the oldest functor of this connection.
  unfoldable pub run_pending : TcpConnection P → Result (TcpConnection P)
  run_pending c = run_first c.pending_functors c
