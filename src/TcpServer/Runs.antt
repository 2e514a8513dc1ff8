-- ===== src/TcpServer/Runs.antt =====
-- src/tcpserver.cpp: a server over any sequence of events.
use cpp_reactor_framework.Prelude.{
  ℕ, suc, ◌+◌, ◌%◌, ◌≤◌, ◌≡◌, refl, ◌∙◌, Bool, true, ◌&&◌, Option, none, some, List, [], ◌∷◌,
  Result, ok, fault, ◌>>=◌, if◌then◌else◌, size_mod, ℤ, arith, length, if_elim, Ends, Ends-bind,
}
use cpp_reactor_framework.Poller.{Poller}
use cpp_reactor_framework.TcpConnection.{TcpConnection, Notice}
use cpp_reactor_framework.TcpConnection.Calls.{connect_destroyed}
use cpp_reactor_framework.TcpConnection.Runs
use cpp_reactor_framework.TcpServer.{
  Loop, Served, TcpServer, touch, put_back, fetch, set_idle_timeout_seconds,
  set_high_water_mark_bytes, enable_metrics_export,
}
use cpp_reactor_framework.TcpServer.Removal.{
  has_key, erase, is_empty, destroy_in_loop, connected_entries, destroy_all, purge, finish,
  finalize_unforced, remove, handle_remove_connection, after_call, conn_call, stale_entries,
  called_close, called_high_water_mark,
}
use cpp_reactor_framework.TcpServer.Calls.{
  start, destroy, stop_gracefully_by, handle_new_connection, scan_idle_connections, run_queue,
  shutdown_check, shutdown_deadline,
}

-- What can happen to a server: its user's calls (`StopGracefully` on the main loop's thread or
-- elsewhere), a new socket, an event or a call of the connection in a cell on the thread of a loop,
-- the oldest functor of a loop, its timers, and its destructor.
pub data Event : Type 0 where
  starts : Event
  stops_gracefully : Bool → Bool → Event
  sets_idle_timeout : ℤ → Event
  sets_high_water_mark : ℕ → Event
  enables_metrics_export : Bool → Event
  accepts : ℕ → ℕ → Event
  connection_event : Loop → ℕ → Runs.Event → Event
  runs_queue : Bool → ℕ → Loop → Event
  scans_idle : ℕ → Event
  checks_shutdown reaches_deadline destroys_server : Event

module _ (P : Poller) where
  unfoldable pub server_step : Event → TcpServer P → Result (TcpServer P)
  server_step starts s = ok (start P s)
  server_step (stops_gracefully in_loop has_callback) s =
      stop_gracefully_by P in_loop has_callback s
  server_step (sets_idle_timeout seconds) s = ok (set_idle_timeout_seconds P seconds s)
  server_step (sets_high_water_mark bytes) s = ok (set_high_water_mark_bytes P bytes s)
  server_step (enables_metrics_export has_path) s = ok (enable_metrics_export P has_path s)
  server_step (accepts now fd) s = handle_new_connection P now fd s
  server_step (connection_event at id e) s = conn_call P at (Runs.step P e) id s
  server_step (runs_queue overtakes now at) s = run_queue P overtakes now at (s.queues at) s
  server_step (scans_idle now) s = scan_idle_connections P now s
  server_step checks_shutdown s = ok (shutdown_check P s)
  server_step reaches_deadline s = shutdown_deadline P s
  server_step destroys_server s = destroy P s

  -- The states that the server may be in.
  pub data Reach (s : TcpServer P) : TcpServer P → Type 0 where
    here : Reach s s
    next : {t u : TcpServer P} (e : Event) → Reach s t → server_step e t ≡ ok u → Reach s u

  -- Connections were only removed, and at most as many were counted as were removed.
  pub record Shrinks (s t : TcpServer P) : Type 0 where
    pub total : t.total_connections ≡ s.total_connections
    pub cells : t.next_cell ≡ s.next_cell
    pub fewer :
        length t.connections + t.closed_connections ≤ length s.connections + s.closed_connections

  pub Shrinks-refl : (s : TcpServer P) → Shrinks s s
  Shrinks-refl s = record { total = refl; cells = refl; fewer = omega arith }

  pub Shrinks-trans : {s t u : TcpServer P} → Shrinks s t → Shrinks t u → Shrinks s u
  Shrinks-trans f g = record {
    total = g.total ∙ f.total;
    cells = g.cells ∙ f.cells;
    fewer = omega (arith, f.fewer, g.fewer);
  }

  pub touch-Shrinks :
      (call : TcpConnection P → TcpConnection P) (id : ℕ) (s : TcpServer P)
      → Shrinks s (touch P call id s)
  unfolding touch put_back
  touch-Shrinks call id s = record {
    total = ground arith;
    cells = ground arith;
    fewer = ground arith;
  }

  destroy_in_loop-Shrinks : (id : ℕ) (s : TcpServer P) → Shrinks s (destroy_in_loop P id s)
  unfolding destroy_in_loop
  destroy_in_loop-Shrinks id s =
      let t = touch-Shrinks (connect_destroyed P) id s in
      record {
        total = ground (arith, t.total);
        cells = ground (arith, t.cells);
        fewer = ground (arith, t.fewer);
      }

  destroy_all-Shrinks : (es : List (ℕ × ℕ)) (s : TcpServer P) → Shrinks s (destroy_all P es s)
  unfolding destroy_all
  destroy_all-Shrinks [] s = Shrinks-refl s
  destroy_all-Shrinks (e ∷ es) s =
      Shrinks-trans (destroy_in_loop-Shrinks (e.1) s) (destroy_all-Shrinks es _)

  length-connected_entries :
      (s : TcpServer P) (es : List (ℕ × ℕ)) → length (connected_entries P s es) ≤ length es
  unfolding connected_entries
  length-connected_entries s [] = omega arith
  length-connected_entries s (e ∷ es) = ground (arith, length-connected_entries s es)

  pub purge-Shrinks : (s : TcpServer P) → Shrinks s (purge P s)
  unfolding purge
  purge-Shrinks s =
      Shrinks-trans
        (record {
          total = refl;
          cells = refl;
          fewer = omega (arith, length-connected_entries s s.connections);
        })
        (destroy_all-Shrinks (stale_entries P s s.connections) _)

  pub finalize_unforced-Shrinks : (s : TcpServer P) → Shrinks s (finalize_unforced P s)
  unfolding finalize_unforced finish
  finalize_unforced-Shrinks s =
      let t = purge-Shrinks s in
      record {
        total = ground (arith, t.total);
        cells = ground (arith, t.cells);
        fewer = ground (arith, t.fewer);
      }

  length-erase :
      (fd : Option ℕ) (es : List (ℕ × ℕ))
      → has_key fd es ≡ true
      → suc (length (erase fd es)) ≡ length es
  unfolding erase
  length-erase none es h = cc
  length-erase (some fd) [] h = cc
  length-erase (some fd) (e ∷ es) h = ground (arith, length-erase (some fd) es)

  pub remove-Shrinks : (id : ℕ) (fd : Option ℕ) (s : TcpServer P) → Shrinks s (remove P id fd s)
  unfolding remove
  remove-Shrinks id fd s =
      if_elim (Shrinks s) (has_key fd s.connections)
        (λ h. Shrinks-trans (erased-Shrinks h) (ended-Shrinks _)) (λ h. Shrinks-refl s)
    where
      erased-Shrinks :
          has_key fd s.connections ≡ true
          → Shrinks s (
              destroy_in_loop P id (record s {
                connections = erase fd s.connections;
                closed_connections = (s.closed_connections + 1) % size_mod;
              }))
      erased-Shrinks h =
          Shrinks-trans
            (record {
              total = refl;
              cells = refl;
              fewer = omega (arith, length-erase fd s.connections h);
            })
            (destroy_in_loop-Shrinks id _)

      ended-Shrinks :
          (t : TcpServer P)
          → Shrinks t (if t.stopping && is_empty t.connections then finalize_unforced P t else t)
      ended-Shrinks t =
          if_elim (Shrinks t) (t.stopping && is_empty t.connections)
            (λ h. finalize_unforced-Shrinks t) (λ h. Shrinks-refl t)

  handle_remove_connection-Shrinks :
      (at : Loop) (id : ℕ) (fd : Option ℕ) (s : TcpServer P)
      → Shrinks s (handle_remove_connection P at id fd s)
  unfolding handle_remove_connection
  handle_remove_connection-Shrinks at id fd s =
      let t = remove-Shrinks id fd s in
      record {
        total = ground (arith, t.total);
        cells = ground (arith, t.cells);
        fewer = ground (arith, t.fewer);
      }

  after_call-Shrinks :
      (at : Loop) (id : ℕ) (ns : List Notice) (s : TcpServer P)
      → Shrinks s (after_call P at id ns s)
  unfolding after_call
  after_call-Shrinks at id ns s =
      elim (called_close ns)
        as (λ o.
          Shrinks s
            (elim o [ none ↦ counted | some fd ↦ handle_remove_connection P at id fd counted ])) [
              | none ↦ record { total = refl; cells = refl; fewer = omega arith }
              | some fd ↦
                  let t = handle_remove_connection-Shrinks at id fd counted in
                  record { total = t.total; cells = t.cells; fewer = t.fewer }
            ]
    where
      counted : TcpServer P
      counted = record s {
        high_water_mark_triggered =
            (s.high_water_mark_triggered + called_high_water_mark ns) % size_mod;
      }

  pub conn_call-Shrinks :
      (at : Loop) (call : TcpConnection P → Result (TcpConnection P)) (id : ℕ) (s : TcpServer P)
      → Ends (Shrinks s) (conn_call P at call id s)
  unfolding conn_call put_back
  conn_call-Shrinks at call id s =
      elim (s.cells id)
        as (λ o. Ends (Shrinks s) (elim o [
          | none ↦ ok s
          | some e ↦
              call (fetch P e s) >>= λ c. ok (after_call P at id c.notices (put_back P id e c s))
        ])) [
          | none ↦ Shrinks-refl s
          | some e ↦
              Ends-bind {Q = λ c. Unit} (Shrinks s) (call (fetch P e s)) _ (trivial _)
                (λ c h. Shrinks-trans (kept e c) (after_call-Shrinks at id c.notices _))
        ]
    where
      trivial : (r : Result (TcpConnection P)) → Ends (λ c. Unit) r
      trivial (fault why) = tt
      trivial (ok c) = tt

      kept : (e : Served P) (c : TcpConnection P) → Shrinks s (put_back P id e c s)
      kept e c = record { total = refl; cells = refl; fewer = omega arith }
