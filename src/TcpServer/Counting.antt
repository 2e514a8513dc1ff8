-- ===== src/TcpServer/Counting.antt =====
-- src/tcpserver.cpp: the counters of a server over any sequence of events.
use cpp_reactor_framework.Prelude.{
  ℕ, refl, Bool, true, false, not, ◌&&◌, some, List, [], ◌∷◌, Result, ok, fault, ◌==◌,
  if◌then◌else◌, arith, if_elim, Ends, Ends-bind,
}
use cpp_reactor_framework.Poller.{Poller}
use cpp_reactor_framework.Acceptor.{Acceptor}
use cpp_reactor_framework.TcpConnection.Calls.{connect_established, connect_destroyed}
use cpp_reactor_framework.TcpServer.{
  Loop, main_loop, LoopFunctor, establishes, destroys, removes, stops, TcpServer, with_acceptor,
}
use cpp_reactor_framework.TcpServer.Removal.{has_key, is_empty, purge, finish, finalize_unforced}
use cpp_reactor_framework.TcpServer.Calls.{
  for_each_connection, shutdown_connection, force_close_connection, start, finalize_graceful_stop,
  stop_gracefully, stop_gracefully_by, destroy, begin_stop, stop_connections, arm_shutdown_timers,
  force_close_all, scan_idle_connections, run_functor, run_queue, shutdown_check, shutdown_deadline,
  idle_cells,
}
use cpp_reactor_framework.TcpServer.Runs.{
  Shrinks, Shrinks-refl, Shrinks-trans, touch-Shrinks, purge-Shrinks, finalize_unforced-Shrinks,
  remove-Shrinks, conn_call-Shrinks,
}

module _ (P : Poller) where
  with_acceptor-Shrinks :
      (call : Acceptor P → Acceptor P) (s : TcpServer P) → Shrinks P s (with_acceptor P call s)
  unfolding with_acceptor
  with_acceptor-Shrinks call s = record { total = refl; cells = refl; fewer = omega arith }

  weaken :
      {s t : TcpServer P}
      → Shrinks P s t
      → (r : Result (TcpServer P)) → Ends (Shrinks P t) r
      → Ends (Shrinks P s) r
  weaken f (fault why) g = tt
  weaken f (ok u) g = Shrinks-trans P f g

  for_each_connection-Shrinks :
      (call : ℕ → TcpServer P → Result (TcpServer P))
      → ((id : ℕ) (s : TcpServer P) → Ends (Shrinks P s) (call id s))
      → (es : List (ℕ × ℕ)) (s : TcpServer P) → Ends (Shrinks P s) (for_each_connection P call es s)
  unfolding for_each_connection
  for_each_connection-Shrinks call h [] s = Shrinks-refl P s
  for_each_connection-Shrinks call h (e ∷ es) s =
      Ends-bind (Shrinks P s) (call (e.1) s) _ (h (e.1) s) (λ t f.
        if_elim (Ends (Shrinks P s)) (has_key (some (e.0)) t.connections)
          (λ k.
            weaken f (for_each_connection P call es t) (for_each_connection-Shrinks call h es t))
          (λ k. tt))

  shutdown_connection-Shrinks :
      (id : ℕ) (s : TcpServer P) → Ends (Shrinks P s) (shutdown_connection P id s)
  unfolding shutdown_connection
  shutdown_connection-Shrinks id s = conn_call-Shrinks P main_loop _ id s

  force_close_connection-Shrinks :
      (id : ℕ) (s : TcpServer P) → Ends (Shrinks P s) (force_close_connection P id s)
  unfolding force_close_connection
  force_close_connection-Shrinks id s = conn_call-Shrinks P main_loop _ id s

  force_close_all-Shrinks :
      (ids : List ℕ) (s : TcpServer P) → Ends (Shrinks P s) (force_close_all P ids s)
  unfolding force_close_all
  force_close_all-Shrinks [] s = Shrinks-refl P s
  force_close_all-Shrinks (id ∷ ids) s =
      Ends-bind (Shrinks P s) (force_close_connection P id s) _
        (force_close_connection-Shrinks id s)
        (λ t f. weaken f (force_close_all P ids t) (force_close_all-Shrinks ids t))

  pub start-Shrinks : (s : TcpServer P) → Shrinks P s (start P s)
  unfolding start with_acceptor
  start-Shrinks s = record { total = ground arith; cells = ground arith; fewer = ground arith }

  finalize_graceful_stop-Shrinks :
      (force : Bool) (s : TcpServer P) → Ends (Shrinks P s) (finalize_graceful_stop P force s)
  unfolding finalize_graceful_stop finish
  finalize_graceful_stop-Shrinks false s = finalize_unforced-Shrinks P s
  finalize_graceful_stop-Shrinks true s =
      if_elim (Ends (Shrinks P s)) s.stopping
        (λ h.
          Ends-bind (Shrinks P s)
            (for_each_connection P (force_close_connection P) (purge P s).connections (purge P s)) _
            (for_each_connection-Shrinks (force_close_connection P) force_close_connection-Shrinks
              (purge P s).connections (purge P s))
            (λ t f. Shrinks-trans P (Shrinks-trans P (purge-Shrinks P s) f) (finish_if t)))
        (λ h. Shrinks-refl P s)
    where
      finish_if : (t : TcpServer P) → Shrinks P t (if is_empty t.connections then finish P t else t)
      finish_if t =
          if_elim (Shrinks P t) (is_empty t.connections)
            (λ h. record { total = refl; cells = refl; fewer = omega arith })
            (λ h. Shrinks-refl P t)

  begin_stop-Shrinks :
      (has_callback : Bool) (s : TcpServer P) → Shrinks P s (begin_stop P has_callback s)
  unfolding begin_stop with_acceptor
  begin_stop-Shrinks has_callback s = record { total = refl; cells = refl; fewer = omega arith }

  stop_connections-Shrinks : (s : TcpServer P) → Ends (Shrinks P s) (stop_connections P s)
  unfolding stop_connections
  stop_connections-Shrinks s =
      Ends-bind (Shrinks P s) (for_each_connection P (shutdown_connection P) s.connections s) _
        (for_each_connection-Shrinks (shutdown_connection P) shutdown_connection-Shrinks
          s.connections s)
        (λ t f. Shrinks-trans P f (finalized t))
    where
      finalized :
          (t : TcpServer P)
          → Shrinks P t
              (if is_empty t.connections then finalize_unforced P t else arm_shutdown_timers P t)
      finalized t =
          if_elim (Shrinks P t) (is_empty t.connections) (λ k. finalize_unforced-Shrinks P t)
            (λ k. record { total = refl; cells = refl; fewer = omega arith })

  stop_gracefully-Shrinks :
      (has_callback : Bool) (s : TcpServer P)
      → Ends (Shrinks P s) (stop_gracefully P has_callback s)
  unfolding stop_gracefully
  stop_gracefully-Shrinks has_callback s =
      if_elim (Ends (Shrinks P s)) (not s.started)
        (λ h. record { total = refl; cells = refl; fewer = omega arith })
        (λ h.
          if_elim (Ends (Shrinks P s)) s.stopping
            (λ k.
              if_elim (Shrinks P s) has_callback
                (λ c. record { total = refl; cells = refl; fewer = omega arith })
                (λ c. Shrinks-refl P s))
            (λ k.
              weaken (begin_stop-Shrinks has_callback s)
                (stop_connections P (begin_stop P has_callback s))
                (stop_connections-Shrinks (begin_stop P has_callback s))))

  pub stop_gracefully_by-Shrinks :
      (in_loop has_callback : Bool) (s : TcpServer P)
      → Ends (Shrinks P s) (stop_gracefully_by P in_loop has_callback s)
  unfolding stop_gracefully_by
  stop_gracefully_by-Shrinks in_loop has_callback s =
      if_elim (Ends (Shrinks P s)) in_loop (λ h. stop_gracefully-Shrinks has_callback s)
        (λ h. record { total = refl; cells = refl; fewer = omega arith })

  pub destroy-Shrinks : (s : TcpServer P) → Ends (Shrinks P s) (destroy P s)
  unfolding destroy with_acceptor
  destroy-Shrinks s =
      Ends-bind (Shrinks P s) (for_each_connection P (force_close_connection P) s.connections _) _
        (weaken (record { total = refl; cells = refl; fewer = omega arith })
          (for_each_connection P (force_close_connection P) s.connections _)
          (for_each_connection-Shrinks (force_close_connection P) force_close_connection-Shrinks
            s.connections _))
        (λ t f. Shrinks-trans P f (record { total = refl; cells = refl; fewer = omega arith }))

  pub scan_idle_connections-Shrinks :
      (now : ℕ) (s : TcpServer P) → Ends (Shrinks P s) (scan_idle_connections P now s)
  unfolding scan_idle_connections
  scan_idle_connections-Shrinks now s =
      if_elim (Ends (Shrinks P s)) (s.idle_timeout_seconds == 0) (λ h. Shrinks-refl P s)
        (λ h. force_close_all-Shrinks (idle_cells P now s s.connections) s)

  run_functor-Shrinks :
      (overtakes : Bool) (now : ℕ) (at : Loop) (f : LoopFunctor) (s : TcpServer P)
      → Ends (Shrinks P s) (run_functor P overtakes now at f s)
  unfolding run_functor
  run_functor-Shrinks overtakes now at (establishes id) s =
      conn_call-Shrinks P at (connect_established P now) id s
  run_functor-Shrinks overtakes now at (destroys id) s = touch-Shrinks P (connect_destroyed P) id s
  run_functor-Shrinks overtakes now at (removes id fd) s = remove-Shrinks P id _ s
  run_functor-Shrinks overtakes now at (stops has_callback) s =
      stop_gracefully-Shrinks has_callback s

  pub run_queue-Shrinks :
      (overtakes : Bool) (now : ℕ) (at : Loop) (fs : List LoopFunctor) (s : TcpServer P)
      → Ends (Shrinks P s) (run_queue P overtakes now at fs s)
  unfolding run_queue
  run_queue-Shrinks overtakes now at [] s = Shrinks-refl P s
  run_queue-Shrinks overtakes now at (f ∷ fs) s =
      weaken (record { total = refl; cells = refl; fewer = omega arith })
        (run_functor P overtakes now at f _) (run_functor-Shrinks overtakes now at f _)

  pub shutdown_check-Shrinks : (s : TcpServer P) → Shrinks P s (shutdown_check P s)
  unfolding shutdown_check
  shutdown_check-Shrinks s =
      if_elim (Shrinks P s) (s.timers.shutdown_check_timer && is_empty s.connections)
        (λ h. finalize_unforced-Shrinks P s) (λ h. Shrinks-refl P s)

  pub shutdown_deadline-Shrinks : (s : TcpServer P) → Ends (Shrinks P s) (shutdown_deadline P s)
  unfolding shutdown_deadline
  shutdown_deadline-Shrinks s =
      if_elim (Ends (Shrinks P s)) s.timers.deadline_armed
        (λ h.
          weaken (record { total = refl; cells = refl; fewer = omega arith })
            (finalize_graceful_stop P true _) (finalize_graceful_stop-Shrinks true _))
        (λ h. Shrinks-refl P s)
