-- ===== src/TcpConnection/Delivery.antt =====
-- src/tcpconnection.cpp: over any history, no byte of a message is lost, doubled or reordered.
use cpp_reactor_framework.Prelude.{
  ℕ, ◌≡◌, refl, sym, ap, ◌∙◌, inl, inr, Bool, true, false, List, [], ◌∷◌, ◌++◌, append-nil,
  append_assoc, arith, same_end, Bool-cases, if◌then◌else◌, if_elim, subst,
}
use cpp_reactor_framework.Poller.{Poller}
use cpp_reactor_framework.TcpConnection.{
  TcpConnection, Functor, send_functor, shutdown_functor, force_close_functor, is_connected,
  is_open,
}
use cpp_reactor_framework.TcpConnection.Handlers.{handle_error}
use cpp_reactor_framework.TcpConnection.Calls.{
  send, send_in_loop, shutdown, force_close, run_first, run_pending,
}
use cpp_reactor_framework.TcpConnection.Invariant.{IsValid}
use cpp_reactor_framework.TcpConnection.Sending.{
  queued-IsValid, stopping-IsValid, connect_established_lem, established,
}
use cpp_reactor_framework.TcpConnection.Bytes.{
  stream, handle_close-stream, connect_destroyed-stream, force_close_in_loop-stream,
  shutdown_in_loop-stream, Adds, Adds-nothing, send_in_loop-Adds, handle_read-Adds,
  handle_write-Adds,
}
use cpp_reactor_framework.TcpConnection.Runs.{
  Event, establishes, destroys, is_readable, is_writable, hangs_up, errs, sends, shuts_down,
  force_closes, runs_functor, step, Allowed, PendingAllowed, accepts_first, accepted, Reach, here,
  next, Reach-IsValid,
}

module _ (P : Poller) where
  established-stream : (c : TcpConnection P) (now : ℕ) → stream P (established P c now) ≡ stream P c
  established-stream c now = ground arith

  shutdown-stream :
      (c : TcpConnection P) (in_loop : Bool)
      → IsValid P c
      → stream P (shutdown P in_loop c) ≡ stream P c
  unfolding shutdown
  shutdown-stream c in_loop v =
      if_elim (λ d. stream P d ≡ stream P c) (is_connected P c)
        (λ going.
          if_elim (λ d. stream P d ≡ stream P c) in_loop
            (λ inside. shutdown_in_loop-stream P _ (stopping-IsValid P c v (ground arith)))
            (λ outside. refl))
        (λ not_going. refl)

  pub force_close-stream :
      (c : TcpConnection P) (in_loop : Bool)
      → IsValid P c
      → stream P (force_close P in_loop c) ≡ stream P c
  unfolding force_close
  force_close-stream c in_loop v =
      if_elim (λ d. stream P d ≡ stream P c) (is_open P c)
        (λ going.
          if_elim (λ d. stream P d ≡ stream P c) in_loop
            (λ inside. force_close_in_loop-stream P _ (stopping-IsValid P c v going))
            (λ outside. refl))
        (λ over. refl)

  send-Adds :
      (in_loop : Bool) (message : List ℕ) (c : TcpConnection P)
      → IsValid P c
      → Allowed P c (sends in_loop message)
      → Adds P c (send P in_loop message c) (accepted P (sends in_loop message) c)
  unfolding send
  send-Adds true message c v room = elim (Bool-cases (is_connected P c)) [
    | inl going ↦ rw going (
        subst (λ b. Adds P c (send_in_loop P message c) (if b then message else [])) going
          (send_in_loop-Adds P c message v room))
    | inr not_going ↦ rw not_going (Adds-nothing P c c refl)
  ]
  send-Adds false message c v room =
      if_elim (λ r. Adds P c r []) (is_connected P c) (λ going. Adds-nothing P c _ refl)
        (λ not_going. Adds-nothing P c c refl)

  run_first-Adds :
      (fs : List Functor) (c : TcpConnection P)
      → IsValid P c
      → PendingAllowed P c fs
      → Adds P c (run_first P fs c) (accepts_first P c fs)
  run_first-Adds [] c v a = Adds-nothing P c c refl
  run_first-Adds (send_functor message ∷ fs) c v room =
      send_in_loop-Adds P _ message (queued-IsValid P c fs v) room
  run_first-Adds (shutdown_functor ∷ fs) c v a =
      Adds-nothing P c _ (shutdown_in_loop-stream P _ (queued-IsValid P c fs v))
  run_first-Adds (force_close_functor ∷ fs) c v a =
      Adds-nothing P c _ (force_close_in_loop-stream P _ (queued-IsValid P c fs v))

  step-Adds :
      (e : Event) (c : TcpConnection P)
      → IsValid P c
      → Allowed P c e
      → Adds P c (step P e c) (accepted P e c)
  unfolding step handle_error run_pending
  step-Adds (establishes now) c v a =
      subst (λ r. Adds P c r []) (sym (connect_established_lem P c now v a))
        (Adds-nothing P c _ (established-stream c now))
  step-Adds destroys c v a = Adds-nothing P c _ (connect_destroyed-stream P c v)
  step-Adds (is_readable now bytes) c v a = handle_read-Adds P c bytes now v a.0 a.1
  step-Adds (is_writable now outcome) c v a = handle_write-Adds P c outcome now v a
  step-Adds hangs_up c v a = Adds-nothing P c _ (handle_close-stream P c v)
  step-Adds errs c v a = Adds-nothing P c _ (handle_close-stream P c v)
  step-Adds (sends in_loop message) c v a = send-Adds in_loop message c v a
  step-Adds (shuts_down in_loop) c v a = Adds-nothing P c _ (shutdown-stream c in_loop v)
  step-Adds (force_closes in_loop) c v a = Adds-nothing P c _ (force_close-stream c in_loop v)
  step-Adds runs_functor c v a = run_first-Adds c.pending_functors c v a

  -- Over every history of allowed events of a connection in order, what the system was given,
  -- followed by what waits in the output buffer, is what there was at the start followed by the
  -- messages that the connection accepted, in their order: no byte is lost, doubled or reordered.
  pub Reach-stream :
      {start c : TcpConnection P} {all : List ℕ}
      → IsValid P start
      → Reach P start c all
      → stream P c ≡ stream P start ++ all
  Reach-stream {start} v (here e) = rw e (sym (append-nil (stream P start)))
  Reach-stream {start} v (next {c} {c'} {all} e r a s f) =
      let (d, ran, added) = step-Adds e c (Reach-IsValid P v r) a in
      ap (stream P) (same_end s ran)
      ∙ (added
          ∙ (ap (λ l. l ++ accepted P e c) (Reach-stream v r)
              ∙ (append_assoc (stream P start) all (accepted P e c)
                  ∙ ap (λ l. stream P start ++ l) (sym f))))
