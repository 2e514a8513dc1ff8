-- ===== src/TcpClient.antt =====
-- include/tcpclient.h, src/tcpclient.cpp: a client with at most one connection. The loop's poller is
-- a state that the connection, when there is one, holds as well; `set_poller` writes both. A call
-- of `RunAfter` for `DoReconnect` is one more of the `retries` that wait for their timer.
pub mod Connecting
use cpp_reactor_framework.Prelude.{
  ℕ, suc, Bool, true, false, not, ◌&&◌, Option, none, some, List, Result, ok, fault,
  assertion_failed, ◌>>=◌, ◌==◌, if◌then◌else◌,
}
use cpp_reactor_framework.Channel
use cpp_reactor_framework.Channel.{Channel}
use cpp_reactor_framework.Poller.{Poller}
use cpp_reactor_framework.TcpConnection
use cpp_reactor_framework.TcpConnection.{TcpConnection, Callbacks, is_connected, is_disconnected}
use cpp_reactor_framework.TcpConnection.Calls
use cpp_reactor_framework.TcpConnection.Calls.{connect_established}

-- What `Socket::Connect` returns: 0, `kConnectInProgress` or an error.
pub data ConnectOutcome : Type 0 where
  connected_now in_progress failed : ConnectOutcome

module _ (P : Poller) where
  pub record TcpClient : Type 0 where
    pub started : Bool
    pub connecting : Bool
    pub auto_reconnect : Bool
    pub socket : Option ℕ
    pub temp_channel : Option Channel
    pub connection : Option (TcpConnection P)
    pub poller : P.State
    pub callbacks : Callbacks
    pub retries : ℕ
    pub close_calls : ℕ

  unfoldable pub new : P.State → Callbacks → TcpClient
  new poller callbacks = record {
    started = false;
    connecting = false;
    auto_reconnect = false;
    socket = none;
    temp_channel = none;
    connection = none;
    poller = poller;
    callbacks = callbacks;
    retries = 0;
    close_calls = 0;
  }

  abbrev pub connection_is_connected : Option (TcpConnection P) → Bool
  connection_is_connected none = false
  connection_is_connected (some conn) = is_connected P conn

  abbrev pub client_is_connected : TcpClient → Bool
  client_is_connected c = connection_is_connected c.connection

  abbrev pub with_poller : P.State → Option (TcpConnection P) → Option (TcpConnection P)
  with_poller p none = none
  with_poller p (some conn) = some (record conn { poller = p })

  abbrev pub set_poller : P.State → TcpClient → TcpClient
  set_poller p c = record c { poller = p; connection = with_poller p c.connection }

  -- The callbacks of a new connection: those of the user, and `HandleRemoveConnection`.
  abbrev pub connection_callbacks : Callbacks → Callbacks
  connection_callbacks cb = record cb { close = true; high_water_mark = false }

  unfoldable pub handle_connect : ℕ → ℕ → TcpClient → Result TcpClient
  handle_connect now fd c = do
    conn ←
        connect_established P now
          (TcpConnection.new P c.poller fd (connection_callbacks c.callbacks) now)
    ok (record c { connecting = false; connection = some conn; poller = conn.poller })

  -- A temporary channel waits until the socket can be written; it is registered twice, by
  -- `EnableWriting` and by `UpdateChannel`.
  unfoldable pub wait_for_connect : ℕ → TcpClient → TcpClient
  unfolding Channel.new
  wait_for_connect fd c =
      let fresh = record (Channel.new fd) {
        has_write_callback = true;
        events = record { reading = false; writing = true };
      } in
      let (p1, ch1) = P.update_channel c.poller fresh in
      let (p2, ch2) = P.update_channel p1 ch1 in
      record (set_poller p2 c) { temp_channel = some ch2 }

  -- What `Connect` does with the result of `Socket::Connect`.
  unfoldable pub attempt : ℕ → ℕ → ConnectOutcome → TcpClient → Result TcpClient
  attempt now fd connected_now c = handle_connect now fd c >>= λ d. ok (record d { socket = none })
  attempt now fd in_progress c = ok (wait_for_connect fd c)
  attempt now fd failed c = ok (record c { started = false; connecting = false; socket = none })

  -- `Connect`, for the descriptor that the system gives to the new socket.
  unfoldable pub connect : ℕ → ℕ → ConnectOutcome → TcpClient → Result TcpClient
  connect now fd outcome c =
      if c.started
      then ok c
      else attempt now fd outcome (record c { started = true; connecting = true; socket = some fd })

  abbrev pub retry : TcpClient → TcpClient
  retry c = record c { retries = suc c.retries }

  -- `std::move(*m_socket)`, which needs a socket.
  abbrev pub take_socket : ℕ → Option ℕ → TcpClient → Result TcpClient
  take_socket now none c = fault assertion_failed
  take_socket now (some fd) c = handle_connect now fd c >>= λ d. ok (record d { socket = none })

  unfoldable pub remove_temp : Channel → TcpClient → TcpClient
  remove_temp ch c =
      let (p, off) = P.remove_channel c.poller ch in
      if ch.added then record (set_poller p c) { temp_channel = some off } else c

  -- The write callback of the temporary channel; `err` is what `GetSocketError` returns.
  unfoldable pub connect_completed : ℕ → ℕ → Channel → TcpClient → Result TcpClient
  connect_completed now err ch c = do
    done ← if err == 0 then take_socket now c.socket c else ok refused
    ok (remove_temp ch done)
    where
      stopped : TcpClient
      stopped = record c { connecting = false }

      refused : TcpClient
      refused = if c.auto_reconnect && c.started then retry stopped else stopped

  unfoldable pub handle_remove_connection : TcpClient → TcpClient
  handle_remove_connection c =
      if told.auto_reconnect && told.started
      then retry (record told { connecting = false })
      else record told { started = false }
    where
      told : TcpClient
      told = record c {
        connection = none;
        close_calls = if c.callbacks.close then suc c.close_calls else c.close_calls;
      }

  unfoldable pub do_reconnect : ℕ → ℕ → ConnectOutcome → TcpClient → Result TcpClient
  do_reconnect now fd outcome c =
      if c.started && not c.connecting && not (client_is_connected c)
      then connect now fd outcome c
      else ok c

  -- `m_connection->Shutdown()`; if it closes the connection, its close callback runs.
  abbrev pub shutdown_connection : Bool → Option (TcpConnection P) → TcpClient → TcpClient
  shutdown_connection in_loop none c = c
  shutdown_connection in_loop (some conn) c =
      let conn' = Calls.shutdown P in_loop conn in
      let told = record c { connection = some conn'; poller = conn'.poller } in
      if not (is_disconnected P conn) && is_disconnected P conn'
      then handle_remove_connection told
      else told

  unfoldable pub disconnect : Bool → TcpClient → TcpClient
  disconnect in_loop c =
      shutdown_connection in_loop c.connection
        (record c { auto_reconnect = false; started = false })

  abbrev pub send_on : Bool → List ℕ → Option (TcpConnection P) → TcpClient → Result TcpClient
  send_on in_loop message none c = ok c
  send_on in_loop message (some conn) c = Calls.send P in_loop message conn >>= λ conn'.
      ok (record c { connection = some conn'; poller = conn'.poller })

  unfoldable pub send : Bool → List ℕ → TcpClient → Result TcpClient
  send in_loop message c =
      if client_is_connected c then send_on in_loop message c.connection c else ok c

  abbrev pub set_auto_reconnect : Bool → TcpClient → TcpClient
  set_auto_reconnect enable c = record c { auto_reconnect = enable }
