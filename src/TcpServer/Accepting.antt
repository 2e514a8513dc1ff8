-- ===== src/TcpServer/Accepting.antt =====
-- src/tcpserver.cpp: a new connection, from the acceptor to its loop.
use cpp_reactor_framework.Prelude.{
  ℕ, ◌+◌, ◌%◌, ◌<◌, ◌≡◌, refl, sym, ap, ◌∙◌, true, false, Option, none, some, List, [], ◌∷◌, ◌++◌,
  ok, ◌>>=◌, ◌==◌, if◌then◌else◌, arith, if_elim, if_true, if_false, size_mod, subst,
}
use cpp_reactor_framework.Channel
use cpp_reactor_framework.Channel.{Channel}
use cpp_reactor_framework.Poller.{Poller, wanted}
use cpp_reactor_framework.TcpConnection
use cpp_reactor_framework.TcpConnection.{
  TcpConnection, connected, connection_callback, is_connected, notify_if, enable_reading,
  set_events,
}
use cpp_reactor_framework.TcpConnection.Calls.{is_connecting, connect_established}
use cpp_reactor_framework.TcpServer.{
  Loop, main_loop, sub_loop, same_loop, establishes, Served, TcpServer, next_loop, put_back, fetch,
  queue_in_loop,
}
use cpp_reactor_framework.TcpServer.Removal.{called_close, called_high_water_mark, after_call}
use cpp_reactor_framework.TcpServer.Calls.{
  enter, enter_connection, accept_connection, handle_new_connection, run_functor, run_queue,
}
use cpp_reactor_framework.TcpServer.Forcing.{conn_call_cell}

-- The number of the cell that a table has for a descriptor.
abbrev pub find : ℕ → List (ℕ × ℕ) → Option ℕ
find fd [] = none
find fd (entry ∷ table) = if fd == entry.0 then some (entry.1) else find fd table

find-enter : (fd id : ℕ) (es : List (ℕ × ℕ)) → find fd (enter fd id es) ≡ some id
unfolding enter
find-enter fd id [] = ground arith
find-enter fd id (e ∷ es) = ground (arith, find-enter fd id es)

same_loop_self : (at : Loop) → same_loop at at ≡ true
same_loop_self main_loop = refl
same_loop_self (sub_loop i) = ground arith

module _ (P : Poller) where
  -- What `ConnectEstablished` does for the server.
  established_new :
      (now : ℕ) (c : TcpConnection P)
      → is_connecting P c ≡ true
      → P.IsValid c.poller
      → (d : TcpConnection P) × (connect_established P now c ≡ ok d)
        × (is_connected P d ≡ true)
        × (P.watched d.poller c.channel.fd
            ≡ wanted (record { reading = true; writing = c.channel.events.writing }))
        × (called_close d.notices ≡ called_close c.notices)
  unfolding connect_established set_events called_close
  established_new now c fresh valid =
      let open_now = enable_reading P (record c { state = connected; last_active_ms = now }) in
      (
        notify_if P c.callbacks.connection connection_callback open_now,
        rw fresh refl,
        ground arith,
        if_elim
            (λ (d : TcpConnection P).
              P.watched d.poller c.channel.fd
              ≡ wanted (record { reading = true; writing = c.channel.events.writing }))
            c.callbacks.connection (λ h. watched) (λ h. watched),
        ground arith,
      )
    where
      asked : Channel
      asked = record (c.channel) {
        events = record { reading = true; writing = c.channel.events.writing };
      }

      watched :
          P.watched (P.update_channel c.poller asked).0 c.channel.fd
          ≡ wanted (record { reading = true; writing = c.channel.events.writing })
      watched =
          P.watched-update c.poller asked c.channel.fd valid
          ∙ if_true _ _ (c.channel.fd == c.channel.fd) (ground arith)

  pollers-next_loop : (s : TcpServer P) → (next_loop P s).1.pollers ≡ s.pollers
  unfolding next_loop
  pollers-next_loop s =
      if_elim (λ (r : Loop × TcpServer P). r.1.pollers ≡ s.pollers) (s.thread_num == 0) (λ h. refl)
        (λ h. refl)

  queues-next_loop : (s : TcpServer P) → (next_loop P s).1.queues ≡ s.queues
  unfolding next_loop
  queues-next_loop s =
      if_elim (λ (r : Loop × TcpServer P). r.1.queues ≡ s.queues) (s.thread_num == 0) (λ h. refl)
        (λ h. refl)

  is_sub_loop : (s : TcpServer P) → 0 < s.thread_num → same_loop main_loop (next_loop P s).0 ≡ false
  unfolding next_loop
  is_sub_loop s some_loop = ground arith

  -- The functor that establishes a connection, on the connection's loop.
  run_establishes :
      (at : Loop) (now id : ℕ) (e : Served P) (s : TcpServer P)
      → s.cells id ≡ some e
      → e.io_loop ≡ at
      → is_connecting P e.conn ≡ true
      → P.IsValid (s.pollers at)
      → (t : TcpServer P) × (served : Served P) × (run_functor P false now at (establishes id) s
          ≡ ok t)
        × (t.cells id ≡ some served)
        × (served.io_loop ≡ at)
        × (is_connected P served.conn ≡ true)
        × (P.watched (t.pollers at) e.conn.channel.fd
            ≡ wanted (record { reading = true; writing = e.conn.channel.events.writing }))
        × (t.connections ≡ s.connections)
  unfolding run_functor put_back after_call called_close
  run_establishes at now id e s h here fresh valid =
      let (d, ran, going, watched, quiet) =
        established_new now (fetch P e s) fresh
          (subst (λ l. P.IsValid (s.pollers l)) (sym here) valid) in
      (
        record (put_back P id e d s) {
          high_water_mark_triggered =
              (s.high_water_mark_triggered + called_high_water_mark d.notices) % size_mod;
        },
        record e { conn = record d { notices = d.notices ++ e.conn.notices } },
        conn_call_cell P at (connect_established P now) id s e h
            ∙ ap (λ r. r >>= λ c. ok (after_call P at id c.notices (put_back P id e c s))) ran
            ∙ rw (after_call, quiet) refl,
        if_true _ _ (id == id) (ground arith),
        here,
        going,
        ap (λ p. P.watched p e.conn.channel.fd)
              (if_true _ _ (same_loop at e.io_loop) (ap (same_loop at) here ∙ same_loop_self at))
            ∙ watched,
        refl,
      )

  -- A server that has sub loops and is not stopping gives a new socket to the next loop, whose
  -- queue is empty and whose poller is in order: once that loop has run its queue, the table has
  -- the new connection under its descriptor, the connection is connected, and the loop's poller
  -- watches the descriptor for input.
  pub accept_lem :
      (now later fd : ℕ) (s : TcpServer P)
      → s.stopping ≡ false
      → 0 < s.thread_num
      → s.queues (next_loop P s).0 ≡ []
      → P.IsValid (s.pollers (next_loop P s).0)
      → (t u : TcpServer P) × (served : Served P) × (handle_new_connection P now fd s ≡ ok t)
        × (run_queue P false later (next_loop P s).0 (t.queues (next_loop P s).0) t ≡ ok u)
        × (find fd u.connections ≡ some s.next_cell)
        × (u.cells s.next_cell ≡ some served)
        × (served.io_loop ≡ (next_loop P s).0)
        × (is_connected P served.conn ≡ true)
        × (P.watched (u.pollers (next_loop P s).0) fd
            ≡ some (record { reading = true; writing = false }))
  unfolding handle_new_connection accept_connection enter_connection run_queue TcpConnection.new
      Channel.new
  accept_lem now later fd s on some_loop idle valid =
      let at = (next_loop P s).0 in
      let entered = enter_connection P now fd s in
      let t = queue_in_loop P at (establishes s.next_cell) entered in
      let taken = record t { queues = λ l. if same_loop l at then [] else t.queues l } in
      let waiting : t.queues at ≡ establishes s.next_cell ∷ [] =
        if_true _ _ (same_loop at at) (same_loop_self at)
        ∙ ap (λ q. q at ++ (establishes s.next_cell ∷ [])) (queues-next_loop s)
        ∙ ap (λ fs. fs ++ (establishes s.next_cell ∷ [])) idle in
      let there = if_true _ _ (s.next_cell == s.next_cell) (ground arith) in
      let good = subst (λ ps. P.IsValid (ps at)) (sym (pollers-next_loop s)) valid in
      let (u, served, ran, cell, here, going, watched, table) =
        run_establishes at later s.next_cell _ taken there refl refl good in
      (
        t,
        u,
        served,
        if_false _ _ s.stopping on
            ∙ if_false _ _ (same_loop main_loop at) (is_sub_loop s some_loop),
        ap (λ fs. run_queue P false later at fs t) waiting ∙ ran,
        ap (find fd) table ∙ find-enter fd s.next_cell s.connections,
        cell,
        here,
        going,
        watched,
      )
