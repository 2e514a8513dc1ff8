-- ===== src/TcpServer/Defects.antt =====
-- src/tcpserver.cpp: `StopGracefully` on a connection of its own loop with nothing to write.
use cpp_reactor_framework.Prelude.{
  ℕ, ◌+◌, ◌%◌, ◌≡◌, refl, ap, ◌∙◌, Bool, true, false, not, ◌&&◌, Option, some, List, [], ◌∷◌,
  Result, ok, fault, invalid_iterator, ◌>>=◌, if◌then◌else◌, arith, if_elim, if_true, if_false,
  size_mod,
}
use cpp_reactor_framework.Buffer.{readable_bytes}
use cpp_reactor_framework.Poller.{Poller}
use cpp_reactor_framework.TcpConnection.{
  TcpConnection, is_connected, set_events, remove_if_added, close_socket,
}
use cpp_reactor_framework.TcpConnection.Handlers.{close, handle_close}
use cpp_reactor_framework.TcpConnection.Calls.{shutdown, shutdown_in_loop}
use cpp_reactor_framework.TcpServer.{
  Loop, main_loop, same_loop, Served, TcpServer, put_back, fetch, with_acceptor,
}
use cpp_reactor_framework.TcpServer.Removal.{
  has_key, erase, is_empty, cell_loop, remove, handle_remove_connection, called_close,
  called_high_water_mark, after_call, conn_call, destroy_in_loop, finalize_unforced,
}
use cpp_reactor_framework.TcpServer.Calls.{
  for_each_connection, shutdown_connection, stop_connections, arm_shutdown_timers, begin_stop,
  stop_gracefully,
}
use cpp_reactor_framework.TcpServer.Stopping.{
  visible, visible-destroy_in_loop, remaining, finalize_unforced_lem,
}
use cpp_reactor_framework.TcpServer.Forcing.{conn_call_cell}

module _ (P : Poller) where
  shutdown_seen :
      (c : TcpConnection P)
      → is_connected P c ≡ true
      → c.callbacks.close ≡ true
      → readable_bytes c.output_buffer ≡ 0
      → called_close (shutdown P true c).notices ≡ some c.socket
  unfolding shutdown shutdown_in_loop handle_close close remove_if_added set_events close_socket
      called_close
  shutdown_seen c going told written = ground arith

  closing_call :
      (at : Loop) (id : ℕ) (e : Served P) (s : TcpServer P) (o : Option ℕ)
      (call : TcpConnection P → TcpConnection P)
      → s.cells id ≡ some e
      → called_close (call (fetch P e s)).notices ≡ some o
      → (t : TcpServer P) × (conn_call P at (λ c. ok (call c)) id s
          ≡ ok (handle_remove_connection P at id o t))
        × (visible P t ≡ visible P s)
  unfolding put_back after_call
  closing_call at id e s o call h seen =
      let c = call (fetch P e s) in
      (
        record (put_back P id e c s) {
          high_water_mark_triggered =
              (s.high_water_mark_triggered + called_high_water_mark c.notices) % size_mod;
        },
        conn_call_cell P at (λ c. ok (call c)) id s e h ∙ rw (after_call, seen) refl,
        refl,
      )

  -- A table without the key keeps none under it, if the stop ends.
  finalize_unforced-key :
      (fd : ℕ) (t : TcpServer P) (rest : List (ℕ × ℕ))
      → t.stopping ≡ true
      → t.connections ≡ rest
      → has_key (some fd) rest ≡ false
      → has_key
          (some fd)
          (if t.stopping && is_empty t.connections then finalize_unforced P t else t).connections
        ≡ false
  finalize_unforced-key fd t rest on table once =
      if_elim (λ (u : TcpServer P). has_key (some fd) u.connections ≡ false)
        (t.stopping && is_empty t.connections)
        (λ last.
          let ended = finalize_unforced_lem P t on in
          ap (λ v. has_key (some fd) v.connections) (ended.0)
          ∙ none_left t.connections (ground (arith, last)))
        (λ some_left. ap (has_key (some fd)) table ∙ once)
    where
      none_left :
          (es : List (ℕ × ℕ)) → is_empty es ≡ true → has_key (some fd) (remaining P t es) ≡ false
      none_left [] h = refl
      none_left (e ∷ es) h = cc

  -- After a removal in a graceful stop, the entry is not in the table.
  remove-stopping :
      (id fd : ℕ) (s : TcpServer P) (rest : List (ℕ × ℕ))
      → s.stopping ≡ true
      → s.connections ≡ (fd, id) ∷ rest
      → has_key (some fd) rest ≡ false
      → has_key (some fd) (remove P id (some fd) s).connections ≡ false
  unfolding remove erase
  remove-stopping id fd s rest on table once =
      let found : has_key (some fd) s.connections ≡ true =
        ap (has_key (some fd)) table ∙ ground arith in
      let smaller = record s {
        connections = erase (some fd) s.connections;
        closed_connections = (s.closed_connections + 1) % size_mod;
      } in
      let same = visible-destroy_in_loop P id smaller in
      let tail : erase (some fd) s.connections ≡ rest = ap (erase (some fd)) table ∙ ground arith in
      ap (λ (u : TcpServer P). has_key (some fd) u.connections)
        (if_true _ _ (has_key (some fd) s.connections) found)
      ∙ finalize_unforced-key fd (destroy_in_loop P id smaller) rest
          (ap (λ v. v.stopping) same ∙ on) (ap (λ v. v.connections) same ∙ tail) once

  -- A loop whose first call erased the first entry.
  for_each_connection-erased :
      (call : ℕ → TcpServer P → Result (TcpServer P)) (fd id : ℕ) (rest : List (ℕ × ℕ))
      (s t : TcpServer P)
      → call id s ≡ ok t
      → has_key (some fd) t.connections ≡ false
      → for_each_connection P call ((fd, id) ∷ rest) s ≡ fault invalid_iterator
  unfolding for_each_connection
  for_each_connection-erased call fd id rest s t ran gone =
      ap
        (λ r. r >>= λ t.
          if has_key (some fd) t.connections
          then for_each_connection P call rest t
          else fault invalid_iterator)
        ran
      ∙ if_false _ _ (has_key (some fd) t.connections) gone

  -- `StopGracefully` on a started server whose first entry is the only one under its descriptor,
  -- and is of a connected connection of the main loop with a close callback and nothing to write,
  -- ends with an invalid iterator: the shutdown closes the connection at once, and the entry is
  -- erased under the loop that stands on it.
  pub stop_gracefully_faults :
      (has_callback : Bool) (s : TcpServer P) (fd id : ℕ) (rest : List (ℕ × ℕ)) (e : Served P)
      → s.started ≡ true
      → s.stopping ≡ false
      → s.connections ≡ (fd, id) ∷ rest
      → has_key (some fd) rest ≡ false
      → s.cells id ≡ some e
      → e.io_loop ≡ main_loop
      → e.conn.socket ≡ some fd
      → e.conn.callbacks.close ≡ true
      → is_connected P e.conn ≡ true
      → readable_bytes e.conn.output_buffer ≡ 0
      → stop_gracefully P has_callback s ≡ fault invalid_iterator
  unfolding stop_gracefully stop_connections begin_stop with_acceptor shutdown_connection
      handle_remove_connection
  stop_gracefully_faults has_callback s fd id rest e up on table once h here socket told going
        written =
      let s1 = begin_stop P has_callback s in
      let in_loop : same_loop main_loop (cell_loop P (s.cells id)) ≡ true =
        ap (λ o. same_loop main_loop (cell_loop P o)) h ∙ ap (same_loop main_loop) here in
      let seen = shutdown_seen (fetch P e s1) going told written ∙ ap some socket in
      let (t, ran, same) = closing_call main_loop id e s1 (some fd) (shutdown P true) h seen in
      let gone =
        remove-stopping id fd t rest (ap (λ v. v.stopping) same)
          (ap (λ v. v.connections) same ∙ table) once in
      let first : shutdown_connection P id s1 ≡ ok (remove P id (some fd) t) =
        ap (λ b. conn_call P main_loop (λ c. ok (shutdown P b c)) id s1) in_loop ∙ ran in
      let loop =
        ap (λ es. for_each_connection P (shutdown_connection P) es s1) table
        ∙ for_each_connection-erased (shutdown_connection P) fd id rest s1 (remove P id (some fd) t)
            first gone in
      if_false _ _ (not s.started) (ap not up)
      ∙ if_false _ _ s.stopping on
      ∙ ap
          (λ r. r >>= λ shut. ok (
            if is_empty shut.connections
            then finalize_unforced P shut
            else arm_shutdown_timers P shut))
          loop
