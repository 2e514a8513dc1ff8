-- ===== src/TcpServer/Counters.antt =====
-- src/tcpserver.cpp: `m_total_connections`, `m_closed_connections` and the size of the table.
use cpp_reactor_framework.Prelude.{
  ℕ, suc, ◌+◌, ◌%◌, ◌≤◌, ◌<◌, ◌≡◌, List, [], ◌∷◌, Result, ok, fault, size_mod, arith, length,
  if_elim, Ends, subst,
}
use cpp_reactor_framework.Poller.{Poller}
use cpp_reactor_framework.TcpConnection.{Callbacks}
use cpp_reactor_framework.TcpConnection.Runs
use cpp_reactor_framework.TcpConnection.Calls.{connect_established}
use cpp_reactor_framework.TcpServer.{
  Loop, main_loop, same_loop, TcpServer, new, next_loop, set_idle_timeout_seconds,
  set_high_water_mark_bytes, enable_metrics_export,
}
use cpp_reactor_framework.TcpServer.Removal.{conn_call}
use cpp_reactor_framework.TcpServer.Calls.{
  enter, enter_connection, accept_connection, handle_new_connection,
}
use cpp_reactor_framework.TcpServer.Runs.{
  Event, starts, stops_gracefully, sets_idle_timeout, sets_high_water_mark, enables_metrics_export,
  accepts, connection_event, runs_queue, scans_idle, checks_shutdown, reaches_deadline,
  destroys_server, server_step, Reach, here, next, Shrinks, conn_call-Shrinks,
}
use cpp_reactor_framework.TcpServer.Counting.{
  start-Shrinks, stop_gracefully_by-Shrinks, destroy-Shrinks, run_queue-Shrinks,
  scan_idle_connections-Shrinks, shutdown_check-Shrinks, shutdown_deadline-Shrinks,
}

length-enter : (fd id : ℕ) (es : List (ℕ × ℕ)) → length (enter fd id es) ≤ suc (length es)
unfolding enter
length-enter fd id [] = omega arith
length-enter fd id (e ∷ es) = ground (arith, length-enter fd id es)

module _ (P : Poller) where
  -- Every connection that the server made has a cell, and was counted; an entry of the table or a
  -- counted removal is of such a connection.
  record Counted (s : TcpServer P) : Type 0 where
    total : s.total_connections ≡ s.next_cell % size_mod
    accounted : length s.connections + s.closed_connections ≤ s.next_cell

  new-Counted :
      (n fd : ℕ) (pollers : Loop → P.State) (user : Callbacks) → Counted (new P n fd pollers user)
  unfolding new
  new-Counted n fd pollers user = record { total = omega arith; accounted = omega arith }

  Shrinks-Counted : {s t : TcpServer P} → Counted s → Shrinks P s t → Counted t
  Shrinks-Counted c f = record {
    total = omega (arith, c.total, f.total, f.cells);
    accounted = omega (arith, c.accounted, f.fewer, f.cells);
  }

  shrunk :
      {s : TcpServer P} (r : Result (TcpServer P))
      → Counted s
      → Ends (Shrinks P s) r
      → Ends Counted r
  shrunk (fault why) c f = tt
  shrunk (ok t) c f = Shrinks-Counted c f

  closed-next_loop : (s : TcpServer P) → (next_loop P s).1.closed_connections ≡ s.closed_connections
  unfolding next_loop
  closed-next_loop s = ground arith

  enter_connection-Counted :
      (now fd : ℕ) (s : TcpServer P) → Counted s → Counted (enter_connection P now fd s)
  unfolding enter_connection
  enter_connection-Counted now fd s c = record {
    total = omega (arith, c.total);
    accounted =
        omega (arith, c.accounted, length-enter fd s.next_cell s.connections, closed-next_loop s);
  }

  accept_connection-Counted :
      (now fd : ℕ) (s : TcpServer P) → Counted s → Ends Counted (accept_connection P now fd s)
  unfolding accept_connection
  accept_connection-Counted now fd s c =
      let entered = enter_connection-Counted now fd s c in
      if_elim (Ends Counted) (same_loop main_loop (next_loop P s).0)
        (λ h.
          shrunk
            (conn_call P main_loop (connect_established P now) s.next_cell
              (enter_connection P now fd s))
            entered
            (conn_call-Shrinks P main_loop (connect_established P now) s.next_cell
              (enter_connection P now fd s)))
        (λ h. record { total = entered.total; accounted = entered.accounted })

  handle_new_connection-Counted :
      (now fd : ℕ) (s : TcpServer P) → Counted s → Ends Counted (handle_new_connection P now fd s)
  unfolding handle_new_connection
  handle_new_connection-Counted now fd s c =
      if_elim (Ends Counted) s.stopping (λ h. record { total = c.total; accounted = c.accounted })
        (λ h. accept_connection-Counted now fd s c)

  server_step-Counted : (e : Event) (s : TcpServer P) → Counted s → Ends Counted (server_step P e s)
  unfolding server_step set_idle_timeout_seconds set_high_water_mark_bytes enable_metrics_export
  server_step-Counted starts s c = Shrinks-Counted c (start-Shrinks P s)
  server_step-Counted (stops_gracefully in_loop has_callback) s c =
      shrunk _ c (stop_gracefully_by-Shrinks P in_loop has_callback s)
  server_step-Counted (sets_idle_timeout seconds) s c = record {
    total = c.total;
    accounted = c.accounted;
  }
  server_step-Counted (sets_high_water_mark bytes) s c = record {
    total = c.total;
    accounted = c.accounted;
  }
  server_step-Counted (enables_metrics_export has_path) s c = record {
    total = c.total;
    accounted = c.accounted;
  }
  server_step-Counted (accepts now fd) s c = handle_new_connection-Counted now fd s c
  server_step-Counted (connection_event at id e) s c =
      shrunk _ c (conn_call-Shrinks P at (Runs.step P e) id s)
  server_step-Counted (runs_queue overtakes now at) s c =
      shrunk _ c (run_queue-Shrinks P overtakes now at (s.queues at) s)
  server_step-Counted (scans_idle now) s c = shrunk _ c (scan_idle_connections-Shrinks P now s)
  server_step-Counted checks_shutdown s c = Shrinks-Counted c (shutdown_check-Shrinks P s)
  server_step-Counted reaches_deadline s c = shrunk _ c (shutdown_deadline-Shrinks P s)
  server_step-Counted destroys_server s c = shrunk _ c (destroy-Shrinks P s)

  Reach-Counted : {s t : TcpServer P} → Counted s → Reach P s t → Counted t
  Reach-Counted c here = c
  Reach-Counted c (next {t = t} e r stepped) =
      subst (Ends Counted) stepped (server_step-Counted e t (Reach-Counted c r))

  -- Over every history of a new server with the callbacks that it was given (its user's settings
  -- of the idle timeout, the high water mark and the export, Start, StopGracefully on the main
  -- loop's thread or elsewhere, new sockets, events of its connections, queued functors, its
  -- timers and its destructor, in any order), as long as it made less than 2 ^ 64 connections,
  -- `m_total_connections` is the number of connections that it made, and the entries of the table
  -- together with `m_closed_connections` are no more than that: no removal is counted twice, and
  -- none without its entry.
  pub counters_balanced :
      (n fd : ℕ) (pollers : Loop → P.State) (user : Callbacks) {t : TcpServer P}
      → Reach P (new P n fd pollers user) t
      → t.next_cell < size_mod
      → (t.total_connections ≡ t.next_cell)
        × (length t.connections + t.closed_connections ≤ t.total_connections)
  counters_balanced n fd pollers user r few =
      let c = Reach-Counted (new-Counted n fd pollers user) r in omega (arith, c.total, c.accounted)
