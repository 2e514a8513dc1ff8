-- ===== src/Program/Interrupt.antt =====
-- src/main.cpp: what an interrupt does to a server without connections.
use cpp_reactor_framework.Prelude.{
  ℕ, suc, ◌≡◌, refl, ap, ◌∙◌, Bool, true, false, ◌||◌, [], ok, ltb, arith,
}
use cpp_reactor_framework.Poller.{Poller}
use cpp_reactor_framework.TcpServer.{TcpServer, no_timers, with_acceptor}
use cpp_reactor_framework.TcpServer.Removal.{finalize_unforced}
use cpp_reactor_framework.TcpServer.Calls.{
  stop_gracefully, begin_stop, stop_connections, for_each_connection,
}
use cpp_reactor_framework.TcpServer.Stopping.{visible, finalize_unforced_lem}
use cpp_reactor_framework.Program.Stopping.{
  Program, sigint, handle_signal, with_server, stop_server, check_stop,
}

module _ (P : Poller) where
  -- The server after `StopGracefully` found no connection.
  emptied : (s : TcpServer P) → TcpServer P
  emptied s = finalize_unforced P (begin_stop P true s)

  stop_empty :
      (s : TcpServer P)
      → s.started ≡ true
      → s.stopping ≡ false
      → s.connections ≡ []
      → stop_gracefully P true s ≡ ok (emptied s)
  unfolding stop_gracefully stop_connections begin_stop with_acceptor emptied for_each_connection
  stop_empty s on going none_left = rw (on, going, none_left) refl

  emptied-visible :
      (s : TcpServer P)
      → s.connections ≡ []
      → visible P (emptied s) ≡ record (visible P s) {
        started = false;
        stopping = false;
        connections = [];
        timers = no_timers;
        has_shutdown_callback = false;
        completions = suc s.completions;
      }
  unfolding begin_stop with_acceptor emptied
  emptied-visible s none_left =
      (finalize_unforced_lem P (begin_stop P true s) refl).0 ∙ rw none_left refl

  checked :
      (p : Program P) (s : TcpServer P)
      → p.stop_requested ≡ true
      → stop_gracefully P true p.server ≡ ok s
      → check_stop P p ≡ ok (with_server P s (record p { stop_requested = false }))
  unfolding check_stop stop_server
  checked p s asked ran = rw (asked, ran) refl

  asked_by_signal :
      (p : Program P)
      → p.has_main_loop ≡ true
      → handle_signal P sigint p ≡ record p { stop_requested = true }
  unfolding handle_signal
  asked_by_signal p set = rw set refl

  grown : (a : Bool) (n m : ℕ) → m ≡ suc n → (a || ltb n m) ≡ true
  grown a n m e = ground (arith, e)

  -- An interrupt ends the program where no client is connected: on a server that is started and
  -- not stopping, with an empty table, the next look at the flag takes it back, stops the server,
  -- whose timers are all cancelled, and calls `Quit` of the main loop.
  pub interrupt_lem :
      (p : Program P)
      → p.has_main_loop ≡ true
      → p.server.started ≡ true
      → p.server.stopping ≡ false
      → p.server.connections ≡ []
      → (p' : Program P) × (check_stop P (handle_signal P sigint p) ≡ ok p')
        × (p'.quits ≡ true)
        × (p'.stop_requested ≡ false)
        × (visible P p'.server ≡ record (visible P p.server) {
          started = false;
          stopping = false;
          connections = [];
          timers = no_timers;
          has_shutdown_callback = false;
          completions = suc p.server.completions;
        })
  interrupt_lem p set on going none_left =
      let seen = emptied-visible p.server none_left in
      (
        with_server P (emptied p.server) (record p { stop_requested = false }),
        ap (check_stop P) (asked_by_signal p set)
            ∙ checked (record p { stop_requested = true }) (emptied p.server) refl
                (stop_empty p.server on going none_left),
        grown p.quits p.server.completions (emptied p.server).completions
            (ap (λ v. v.completions) seen),
        refl,
        seen,
      )
