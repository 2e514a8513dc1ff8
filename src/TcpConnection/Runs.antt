-- ===== src/TcpConnection/Runs.antt =====
-- src/tcpconnection.cpp: a connection over any sequence of events.
use cpp_reactor_framework.Prelude.{
  ℕ, ◌+◌, ◌≤◌, ◌≡◌, refl, sym, ap, Bool, true, none, List, [], ◌∷◌, ◌++◌, subst, if◌then◌else◌,
  arith, Result, ok, same_end, inl, inr, Bool-cases, length,
}
use cpp_reactor_framework.Buffer.{max_size, initial_size}
use cpp_reactor_framework.Buffer.Io.{got, WriteOutcome, read_capacity, extrabuf_size}
use cpp_reactor_framework.Buffer.Refine.{new-IsValid}
use cpp_reactor_framework.Channel
use cpp_reactor_framework.Poller.{Poller, is_some}
use cpp_reactor_framework.TcpConnection.{
  TcpConnection, Callbacks, Functor, send_functor, shutdown_functor, force_close_functor, new,
  is_connected, is_open,
}
use cpp_reactor_framework.TcpConnection.Handlers.{
  handle_close, handle_error, handle_read, handle_write,
}
use cpp_reactor_framework.TcpConnection.Calls.{
  is_connecting, connect_established, connect_destroyed, send, shutdown, force_close, run_first,
  run_pending,
}
use cpp_reactor_framework.TcpConnection.Invariant.{IsValid}
use cpp_reactor_framework.TcpConnection.Closing.{
  handle_close-IsValid, connect_destroyed-IsValid, force_close_in_loop-IsValid,
}
use cpp_reactor_framework.TcpConnection.Sending.{
  HasRoom, queued-IsValid, send_in_loop-IsValid, shutdown_in_loop-IsValid, send-IsValid,
  shutdown-IsValid, force_close-IsValid, connect_established_lem, established-IsValid,
}
use cpp_reactor_framework.TcpConnection.Ready.{handle_read-IsValid}
use cpp_reactor_framework.TcpConnection.Writing.{Offered, handle_write_connected}

-- What can happen to a connection: the calls of its owner, the events of its channel, and a turn of
-- the loop that runs a functor. Times and what the system does are part of the event.
pub data Event : Type 0 where
  establishes : ℕ → Event
  destroys : Event
  is_readable : ℕ → List ℕ → Event
  is_writable : ℕ → WriteOutcome → Event
  hangs_up errs : Event
  sends : Bool → List ℕ → Event
  shuts_down force_closes : Bool → Event
  runs_functor : Event

module _ (P : Poller) where
  unfoldable pub step : Event → TcpConnection P → Result (TcpConnection P)
  step (establishes now) c = connect_established P now c
  step destroys c = ok (connect_destroyed P c)
  step (is_readable now bytes) c = handle_read P now (got bytes) c
  step (is_writable now outcome) c = handle_write P now outcome c
  step hangs_up c = ok (handle_close P c)
  step errs c = ok (handle_error P c)
  step (sends in_loop message) c = send P in_loop message c
  step (shuts_down in_loop) c = ok (shutdown P in_loop c)
  step (force_closes in_loop) c = ok (force_close P in_loop c)
  step runs_functor c = run_pending P c

  -- A functor that may run: a send has room, and a shutdown finds the connection open.
  abbrev pub FunctorAllowed : TcpConnection P → Functor → Type 0
  FunctorAllowed c (send_functor message) = HasRoom P c message
  FunctorAllowed c shutdown_functor = is_open P c ≡ true
  FunctorAllowed c force_close_functor = Unit {0}

  abbrev pub PendingAllowed : TcpConnection P → List Functor → Type 0
  PendingAllowed c [] = Unit {0}
  PendingAllowed c (f ∷ fs) = FunctorAllowed c f

  -- What is assumed of an event: the server establishes a connection once, the system moves no
  -- more bytes than it was offered, and the buffers stay below the largest vector. A failed read is
  -- no event here.
  abbrev pub Allowed : TcpConnection P → Event → Type 0
  Allowed c (establishes now) = is_connecting P c ≡ true
  Allowed c destroys = Unit {0}
  Allowed c (is_readable now bytes) =
      (length bytes ≤ read_capacity c.input_buffer)
      × (length c.input_buffer.buf + extrabuf_size ≤ max_size)
  Allowed c (is_writable now outcome) = Offered P c outcome
  Allowed c hangs_up = Unit {0}
  Allowed c errs = Unit {0}
  Allowed c (sends in_loop message) = HasRoom P c message
  Allowed c (shuts_down in_loop) = Unit {0}
  Allowed c (force_closes in_loop) = Unit {0}
  Allowed c runs_functor = PendingAllowed c c.pending_functors

  run_first-IsValid :
      (fs : List Functor) (c : TcpConnection P)
      → IsValid P c
      → PendingAllowed c fs
      → (c' : TcpConnection P) × (run_first P fs c ≡ ok c') × IsValid P c'
  run_first-IsValid [] c v a = (c, refl, v)
  run_first-IsValid (send_functor message ∷ fs) c v room =
      send_in_loop-IsValid P _ message (queued-IsValid P c fs v) room
  run_first-IsValid (shutdown_functor ∷ fs) c v going =
      (_, refl, shutdown_in_loop-IsValid P _ (queued-IsValid P c fs v) going)
  run_first-IsValid (force_close_functor ∷ fs) c v a =
      (_, refl, force_close_in_loop-IsValid P _ (queued-IsValid P c fs v))

  -- Every event that is allowed is served to its end, and keeps in order a connection that is in
  -- order: its buffers, the agreement of its channel with the poller, its socket, its counter of
  -- pending bytes, and at most one call of the close callback.
  pub step-IsValid :
      (e : Event) (c : TcpConnection P)
      → IsValid P c
      → Allowed c e
      → (c' : TcpConnection P) × (step e c ≡ ok c') × IsValid P c'
  unfolding step handle_error handle_write run_pending
  step-IsValid (establishes now) c v a =
      (_, connect_established_lem P c now v a, established-IsValid P c now v a)
  step-IsValid destroys c v a = (_, refl, connect_destroyed-IsValid P c v)
  step-IsValid (is_readable now bytes) c v a = handle_read-IsValid P c bytes now v a.0 a.1
  step-IsValid (is_writable now outcome) c v a = elim (Bool-cases (is_connected P c)) [
    | inl going ↦ handle_write_connected P c now v going outcome a
    | inr not_going ↦ (c, rw not_going, v)
  ]
  step-IsValid hangs_up c v a = (_, refl, handle_close-IsValid P c v)
  step-IsValid errs c v a = (_, refl, handle_close-IsValid P c v)
  step-IsValid (sends in_loop message) c v a = send-IsValid P c in_loop message v a
  step-IsValid (shuts_down in_loop) c v a = (_, refl, shutdown-IsValid P c in_loop v)
  step-IsValid (force_closes in_loop) c v a = (_, refl, force_close-IsValid P c in_loop v)
  step-IsValid runs_functor c v a = run_first-IsValid c.pending_functors c v a

  -- A new connection is in order, if the poller is and does not watch its descriptor yet.
  pub new_connection-IsValid :
      (poller : P.State) (fd : ℕ) (callbacks : Callbacks) (now : ℕ)
      → P.IsValid poller
      → P.watched poller fd ≡ none
      → IsValid P (new P poller fd callbacks now)
  unfolding new Channel.new
  new_connection-IsValid poller fd callbacks now valid unwatched =
      let (empty, no_bytes) = new-IsValid initial_size (omega arith) in
      record {
        input = empty;
        output = empty;
        link = record { valid = valid; added = sym (ap is_some unwatched); watching = unwatched };
        has_socket = λ h. refl;
        no_socket = λ h. cc;
        reads = λ h. cc;
        writes = λ h. cc;
        pending = λ h. cc;
        idle = λ h. (refl, refl);
        fresh = λ h. ap length no_bytes;
        closes_once = omega arith;
        not_yet_closed = λ h. refl;
        closes_socket = refl;
      }

  -- What a new connection and a history of allowed events can lead to, with the messages that a
  -- connected connection accepted.
  abbrev pub accepts : Bool → List ℕ → List ℕ
  accepts going message = if going then message else []

  abbrev pub accepts_first : TcpConnection P → List Functor → List ℕ
  accepts_first c [] = []
  accepts_first c (send_functor message ∷ fs) = accepts (is_connected P c) message
  accepts_first c (shutdown_functor ∷ fs) = []
  accepts_first c (force_close_functor ∷ fs) = []

  -- The bytes that an event puts behind the others: those of a send that runs on the loop.
  abbrev pub accepted : Event → TcpConnection P → List ℕ
  accepted (sends true message) c = accepts (is_connected P c) message
  accepted runs_functor c = accepts_first c c.pending_functors
  accepted e c = []

  pub data Reach (start : TcpConnection P) : TcpConnection P → List ℕ → Type 0 where
    here : {all : List ℕ} → all ≡ [] → Reach start start all
    next :
        {c c' : TcpConnection P} {all all' : List ℕ} (e : Event)
        → Reach start c all
        → Allowed c e
        → step e c ≡ ok c'
        → all' ≡ all ++ accepted e c
        → Reach start c' all'

  -- A connection in order stays in order over every history of allowed events.
  pub Reach-IsValid :
      {start c : TcpConnection P} {all : List ℕ} → IsValid P start → Reach start c all → IsValid P c
  Reach-IsValid v (here e) = v
  Reach-IsValid v (next e r a s f) =
      let (c', ran, v') = step-IsValid e _ (Reach-IsValid v r) a in
      subst (IsValid P) (same_end ran s) v'
