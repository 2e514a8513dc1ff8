-- ===== src/TcpServer/Ending.antt =====
-- src/tcpserver.cpp: what becomes of the entry of a connection that its peer closes.
use cpp_reactor_framework.Prelude.{
  ℕ, ◌+◌, ◌%◌, ◌≡◌, refl, ap, ◌∙◌, true, false, ◌&&◌, none, some, [], ◌∷◌, ◌++◌, ok, ◌==◌,
  if◌then◌else◌, arith, if_true, if_false, size_mod,
}
use cpp_reactor_framework.Poller.{Poller}
use cpp_reactor_framework.TcpConnection.{is_disconnected}
use cpp_reactor_framework.TcpConnection.Handlers.{handle_close}
use cpp_reactor_framework.TcpServer.{
  Loop, main_loop, sub_loop, same_loop, removes, Served, TcpServer, put_back, fetch, queue_in_loop,
}
use cpp_reactor_framework.TcpServer.Removal.{
  has_key, erase, is_empty, remove, handle_remove_connection, called_high_water_mark, after_call,
  conn_call, destroy_in_loop, cell_socket,
}
use cpp_reactor_framework.TcpServer.Calls.{run_functor, run_queue}
use cpp_reactor_framework.TcpServer.Closing.{handle_close_seen}
use cpp_reactor_framework.TcpServer.Stopping.{Visible, visible, visible-destroy_in_loop}
use cpp_reactor_framework.TcpServer.Forcing.{conn_call_cell}

module _ (P : Poller) where
  -- The table without an entry, and one more removal.
  abbrev pub removed : ℕ → Visible P → Visible P
  removed fd v = record v {
    connections = erase (some fd) v.connections;
    closed_connections = (v.closed_connections + 1) % size_mod;
  }

  -- The removal of an entry.
  pub remove_going :
      (id fd : ℕ) (s : TcpServer P)
      → has_key (some fd) s.connections ≡ true
      → s.stopping ≡ false
      → remove P id (some fd) s
        ≡ destroy_in_loop P id (record s {
          connections = erase (some fd) s.connections;
          closed_connections = (s.closed_connections + 1) % size_mod;
        })
  unfolding remove
  remove_going id fd s found going =
      let smaller = record s {
        connections = erase (some fd) s.connections;
        closed_connections = (s.closed_connections + 1) % size_mod;
      } in
      let erased = destroy_in_loop P id smaller in
      let on : erased.stopping ≡ false =
        ap (λ v. v.stopping) (visible-destroy_in_loop P id smaller) ∙ going in
      if_true _ _ (has_key (some fd) s.connections) found
      ∙ if_false _ _ (erased.stopping && is_empty erased.connections) (ground (arith, on))

  -- The functor of a removal: the table loses the entry, and the removal is counted.
  pub remove-visible :
      (id fd : ℕ) (s : TcpServer P)
      → has_key (some fd) s.connections ≡ true
      → s.stopping ≡ false
      → visible P (remove P id (some fd) s) ≡ removed fd (visible P s)
  remove-visible id fd s found going =
      ap (visible P) (remove_going id fd s found going) ∙ visible-destroy_in_loop P id _

  -- `HandleClose` of the connection in a cell, on the thread of the loop `at`.
  pub after_close :
      (at : Loop) (id : ℕ) (e : Served P) (s : TcpServer P)
      → s.cells id ≡ some e
      → is_disconnected P e.conn ≡ false
      → e.conn.callbacks.close ≡ true
      → (t : TcpServer P) × (gone : Served P) × (conn_call P at (λ c. ok (handle_close P c)) id s
          ≡ ok (handle_remove_connection P at id e.conn.socket t))
        × (visible P t ≡ visible P s)
        × (t.queues ≡ s.queues)
        × (t.cells id ≡ some gone)
        × (gone.conn.socket ≡ none)
        × (is_disconnected P gone.conn ≡ true)
  unfolding put_back after_call
  after_close at id e s h going told =
      let c = handle_close P (fetch P e s) in
      let seen = handle_close_seen P (fetch P e s) going told in
      let left = put_back P id e c s in
      (
        record left {
          high_water_mark_triggered =
              (s.high_water_mark_triggered + called_high_water_mark c.notices) % size_mod;
        },
        record e { conn = record c { notices = c.notices ++ e.conn.notices } },
        conn_call_cell P at (λ c. ok (handle_close P c)) id s e h ∙ rw (after_call, seen.0) refl,
        refl,
        refl,
        if_true _ _ (id == id) (ground arith),
        seen.1,
        seen.2,
      )

  -- When `HandleClose` ends a connection of the main loop that has a close callback and an entry
  -- under its descriptor, on a server that is not stopping, the table loses that entry, one more
  -- removal is counted, and the rest of the server's table, flags and counters stays.
  pub main_loop_close :
      (id fd : ℕ) (e : Served P) (s : TcpServer P)
      → s.cells id ≡ some e
      → is_disconnected P e.conn ≡ false
      → e.conn.callbacks.close ≡ true
      → e.conn.socket ≡ some fd
      → has_key (some fd) s.connections ≡ true
      → s.stopping ≡ false
      → (t : TcpServer P) × (conn_call P main_loop (λ c. ok (handle_close P c)) id s ≡ ok t)
        × (visible P t ≡ removed fd (visible P s))
  unfolding handle_remove_connection
  main_loop_close id fd e s h going told socket found on =
      let (t, gone, ran, same, queues, cell, closed, over) =
        after_close main_loop id e s h going told in
      (
        remove P id (some fd) t,
        ran ∙ ap (λ o. ok (remove P id o t)) socket,
        remove-visible id fd t (ap (λ v. has_key (some fd) v.connections) same ∙ found)
              (ap (λ v. v.stopping) same ∙ on)
            ∙ ap (removed fd) same,
      )

  -- When `HandleClose` ends a connection of a sub loop that has a close callback, and the main
  -- loop, whose queue was empty, runs the queued removal after the socket was closed, the removal
  -- finds no descriptor: the connection is disconnected, and the server's table and counters are
  -- what they were.
  pub sub_loop_close :
      (i id now : ℕ) (e : Served P) (s : TcpServer P)
      → s.cells id ≡ some e
      → is_disconnected P e.conn ≡ false
      → e.conn.callbacks.close ≡ true
      → s.queues main_loop ≡ []
      → (t u : TcpServer P) × (conn_call P (sub_loop i) (λ c. ok (handle_close P c)) id s ≡ ok t)
        × (run_queue P false now main_loop (t.queues main_loop) t ≡ ok u)
        × (u.queues main_loop ≡ [])
        × (visible P u ≡ visible P s)
        × (gone : Served P) × (u.cells id ≡ some gone)
        × (is_disconnected P gone.conn ≡ true)
  unfolding handle_remove_connection run_queue run_functor remove
  sub_loop_close i id now e s h going told idle =
      let (t, gone, ran, same, queues, cell, closed, over) =
        after_close (sub_loop i) id e s h going told in
      let queued = queue_in_loop P main_loop (removes id e.conn.socket) t in
      let emptied = record queued {
        queues = λ l. if same_loop l main_loop then [] else queued.queues l;
      } in
      let waiting : queued.queues main_loop ≡ removes id e.conn.socket ∷ [] =
        ap (λ q. q main_loop ++ (removes id e.conn.socket ∷ [])) queues
        ∙ ap (λ fs. fs ++ (removes id e.conn.socket ∷ [])) idle in
      let no_socket : cell_socket P (t.cells id) ≡ none = ap (cell_socket P) cell ∙ closed in
      (
        queued,
        emptied,
        ran,
        ap (λ fs. run_queue P false now main_loop fs queued) waiting
            ∙ ap (λ o. ok (remove P id o emptied)) no_socket,
        refl,
        same,
        gone,
        cell,
        over,
      )
