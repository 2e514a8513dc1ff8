-- ===== src/TcpServer/Calls.antt =====
-- src/tcpserver.cpp: the server's calls, and what its loops' functors and timers run.
use cpp_reactor_framework.Prelude.{
  ℕ, suc, ◌+◌, ◌*◌, ◌%◌, Bool, true, false, not, ◌&&◌, Option, none, some, List, [], ◌∷◌, Result,
  ok, fault, invalid_iterator, ◌>>=◌, ltb, leb, ◌==◌, if◌then◌else◌, size_mod,
}
use cpp_reactor_framework.Poller.{Poller}
use cpp_reactor_framework.Acceptor
use cpp_reactor_framework.TcpConnection
use cpp_reactor_framework.TcpConnection.{TcpConnection, is_connected}
use cpp_reactor_framework.TcpConnection.Calls
use cpp_reactor_framework.TcpConnection.Calls.{connect_established, connect_destroyed}
use cpp_reactor_framework.TcpServer.{
  Loop, main_loop, same_loop, LoopFunctor, establishes, destroys, removes, stops, no_timers, Served,
  TcpServer, next_loop, queue_in_loop, set_cell, touch, with_acceptor,
}
use cpp_reactor_framework.TcpServer.Removal.{
  has_key, is_empty, purge, finish, finalize_unforced, remove, conn_call, cell_loop, cell_socket,
}

-- `m_connections[fd] = conn`.
unfoldable pub enter : ℕ → ℕ → List (ℕ × ℕ) → List (ℕ × ℕ)
enter fd id [] = (fd, id) ∷ []
enter fd id (entry ∷ table) =
    let rest = enter fd id table in if fd == entry.0 then (fd, id) ∷ table else entry ∷ rest

module _ (P : Poller) where
  -- A range-based loop over `m_connections`: a call that erases the entry at which the loop stands
  -- invalidates its iterator.
  unfoldable pub for_each_connection :
      (ℕ → TcpServer P → Result (TcpServer P)) → List (ℕ × ℕ) → TcpServer P → Result (TcpServer P)
  for_each_connection call [] s = ok s
  for_each_connection call (entry ∷ table) s = call (entry.1) s >>= λ t.
      if has_key (some (entry.0)) t.connections
      then for_each_connection call table t
      else fault invalid_iterator

  -- `conn->Shutdown()` and `conn->ForceClose()` on the main loop's thread.
  unfoldable pub shutdown_connection : ℕ → TcpServer P → Result (TcpServer P)
  shutdown_connection id s =
      let in_loop = same_loop main_loop (cell_loop P (s.cells id)) in
      conn_call P main_loop (λ c. ok (Calls.shutdown P in_loop c)) id s

  unfoldable pub force_close_connection : ℕ → TcpServer P → Result (TcpServer P)
  force_close_connection id s =
      let in_loop = same_loop main_loop (cell_loop P (s.cells id)) in
      conn_call P main_loop (λ c. ok (Calls.force_close P in_loop c)) id s

  unfoldable pub start : TcpServer P → TcpServer P
  start s = if s.started then s else listening
    where
      listening : TcpServer P
      listening = with_acceptor P (Acceptor.listen P) (record s {
        started = true;
        timers = record (s.timers) {
          idle_scan = if ltb 0 s.idle_timeout_seconds then true else s.timers.idle_scan;
          metrics_export = if s.exports_metrics then true else s.timers.metrics_export;
        };
      })

  unfoldable pub finalize_graceful_stop : Bool → TcpServer P → Result (TcpServer P)
  finalize_graceful_stop false s = ok (finalize_unforced P s)
  finalize_graceful_stop true s = if s.stopping then forced else ok s
    where
      forced : Result (TcpServer P)
      forced = do
        closed ← for_each_connection force_close_connection (purge P s).connections (purge P s)
        ok (if is_empty closed.connections then finish P closed else closed)

  -- The timers of `StopGracefully`.
  abbrev pub arm_shutdown_timers : TcpServer P → TcpServer P
  arm_shutdown_timers s = record s {
    timers = record (s.timers) {
      shutdown_check_timer = true;
      shutdown_deadline_timer = true;
      deadline_armed = true;
    };
  }

  -- `StopGracefully` up to its loop: no more connections are accepted.
  unfoldable pub begin_stop : Bool → TcpServer P → TcpServer P
  begin_stop has_callback s =
      with_acceptor P (Acceptor.stop P)
        (record s { stopping = true; has_shutdown_callback = has_callback })

  -- The loop of `StopGracefully`, and what comes after it.
  unfoldable pub stop_connections : TcpServer P → Result (TcpServer P)
  stop_connections s = do
    shut ← for_each_connection shutdown_connection s.connections s
    ok (if is_empty shut.connections then finalize_unforced P shut else arm_shutdown_timers shut)

  -- `StopGracefully` on the main loop's thread, for whether it was given a callback.
  unfoldable pub stop_gracefully : Bool → TcpServer P → Result (TcpServer P)
  stop_gracefully has_callback s =
      if not s.started
      then ok (record s { completions = if has_callback then suc s.completions else s.completions })
      else if s.stopping
      then ok (if has_callback then record s { has_shutdown_callback = true } else s)
      else stop_connections (begin_stop has_callback s)

  -- `StopGracefully` of any thread: elsewhere it is queued for the main loop.
  unfoldable pub stop_gracefully_by : Bool → Bool → TcpServer P → Result (TcpServer P)
  stop_gracefully_by in_loop has_callback s =
      if in_loop
      then stop_gracefully has_callback s
      else ok (queue_in_loop P main_loop (stops has_callback) s)

  -- A new connection of a loop, in the table.
  unfoldable pub enter_connection : ℕ → ℕ → TcpServer P → TcpServer P
  enter_connection now fd s =
      let (io_loop, chosen) = next_loop P s in
      let fresh = TcpConnection.new P (s.pollers io_loop) fd s.callbacks now in
      let conn = record fresh { high_water_mark = s.high_water_mark_bytes } in
      set_cell P s.next_cell (record { conn = conn; io_loop = io_loop })
        (record chosen {
          next_cell = suc s.next_cell;
          total_connections = (s.total_connections + 1) % size_mod;
          connections = enter fd s.next_cell s.connections;
        })

  -- `HandleNewConnection` behind its guard, for the socket's descriptor.
  unfoldable pub accept_connection : ℕ → ℕ → TcpServer P → Result (TcpServer P)
  accept_connection now fd s =
      let io_loop = (next_loop P s).0 in
      if same_loop main_loop io_loop
      then conn_call P main_loop (connect_established P now) s.next_cell (enter_connection now fd s)
      else ok (queue_in_loop P io_loop (establishes s.next_cell) (enter_connection now fd s))

  unfoldable pub handle_new_connection : ℕ → ℕ → TcpServer P → Result (TcpServer P)
  unfolding accept_connection
  handle_new_connection now fd s =
      if s.stopping
      then ok (record s { rejected = fd ∷ s.rejected })
      else accept_connection now fd s

  -- `IsConnected()`, and `now_ms - GetLastActiveMs() >= timeout_ms`.
  abbrev pub is_idle : ℕ → TcpServer P → Option (Served P) → Bool
  is_idle now s none = false
  is_idle now s (some e) =
      is_connected P e.conn && leb (e.conn.last_active_ms + s.idle_timeout_seconds * 1000) now

  -- The vector `to_close`.
  unfoldable pub idle_cells : ℕ → TcpServer P → List (ℕ × ℕ) → List ℕ
  idle_cells now s [] = []
  idle_cells now s (entry ∷ table) =
      let rest = idle_cells now s table in
      if is_idle now s (s.cells (entry.1)) then entry.1 ∷ rest else rest

  unfoldable pub force_close_all : List ℕ → TcpServer P → Result (TcpServer P)
  force_close_all [] s = ok s
  force_close_all (id ∷ ids) s = force_close_connection id s >>= force_close_all ids

  unfoldable pub scan_idle_connections : ℕ → TcpServer P → Result (TcpServer P)
  scan_idle_connections now s =
      if s.idle_timeout_seconds == 0
      then ok s
      else force_close_all (idle_cells now s s.connections) s

  -- The destructor: it does not wait for what it left in the queues.
  unfoldable pub destroy : TcpServer P → Result (TcpServer P)
  destroy s = do
    let stopped =
        with_acceptor P (Acceptor.stop P) (record s { timers = no_timers; stopping = true })
    closed ← for_each_connection force_close_connection stopped.connections stopped
    ok (record closed { connections = []; loops_quit = true })

  -- A functor of a loop's queue, on that loop's thread. `overtakes` is whether the functor of
  -- `HandleRemoveConnection` runs before the thread that queued it has gone on: it finds the
  -- descriptor that the connection had then.
  unfoldable pub run_functor : Bool → ℕ → Loop → LoopFunctor → TcpServer P → Result (TcpServer P)
  run_functor overtakes now at (establishes id) s = conn_call P at (connect_established P now) id s
  run_functor overtakes now at (destroys id) s = ok (touch P (connect_destroyed P) id s)
  run_functor overtakes now at (removes id fd) s =
      ok (remove P id (if overtakes then fd else cell_socket P (s.cells id)) s)
  run_functor overtakes now at (stops has_callback) s = stop_gracefully has_callback s

  -- A loop runs the oldest functor of its queue.
  unfoldable pub run_queue : Bool → ℕ → Loop → List LoopFunctor → TcpServer P → Result (TcpServer P)
  run_queue overtakes now at [] s = ok s
  run_queue overtakes now at (f ∷ fs) s =
      run_functor overtakes now at f
        (record s { queues = λ l. if same_loop l at then fs else s.queues l })

  -- The timers of a graceful stop: the check every tenth of a second, and the deadline.
  unfoldable pub shutdown_check : TcpServer P → TcpServer P
  shutdown_check s =
      if s.timers.shutdown_check_timer && is_empty s.connections then finalize_unforced P s else s

  unfoldable pub shutdown_deadline : TcpServer P → Result (TcpServer P)
  shutdown_deadline s =
      if s.timers.deadline_armed
      then finalize_graceful_stop true
          (record s { timers = record (s.timers) { deadline_armed = false } })
      else ok s
