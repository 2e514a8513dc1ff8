-- ===== src/TcpConnection/Sending.antt =====
-- src/tcpconnection.cpp: sends and shutdowns keep a connection in order.
use cpp_reactor_framework.Prelude.{
  ℕ, ◌+◌, ◌≤◌, ◌≡◌, refl, inl, inr, Bool, true, List, ◌∷◌, arith, ok, Bool-cases, ltb,
  if◌then◌else◌, if_elim, length,
}
use cpp_reactor_framework.Buffer.{Buffer, max_size, readable_bytes}
use cpp_reactor_framework.Buffer.View
use cpp_reactor_framework.Buffer.View.{content, readable_bytes-content}
use cpp_reactor_framework.Buffer.Refine.{append-Yields}
use cpp_reactor_framework.Poller.{Poller}
use cpp_reactor_framework.TcpConnection.{
  TcpConnection, connected, disconnecting, Functor, Notice, connection_callback,
  high_water_mark_callback, is_connected, is_open, enable_writing,
}
use cpp_reactor_framework.TcpConnection.Calls.{
  is_connecting, connect_established, after_append, crosses, send_in_loop, send, shutdown_in_loop,
  shutdown, force_close,
}
use cpp_reactor_framework.TcpConnection.Invariant.{IsValid, retuned, Link-retuned, set_events_lem}
use cpp_reactor_framework.TcpConnection.Closing.{handle_close-IsValid, force_close_in_loop-IsValid}

module _ (P : Poller) where
  -- Watching for writes as well keeps an open connection in order.
  enable_writing-IsValid :
      (c : TcpConnection P) → IsValid P c → is_open P c ≡ true → IsValid P (enable_writing P c)
  enable_writing-IsValid c v h = rw (set_events_lem P _ c v.link) (record {
    input = v.input;
    output = v.output;
    link = Link-retuned P c.poller c.channel _ v.link;
    has_socket = v.has_socket;
    no_socket = v.no_socket;
    reads = v.reads;
    writes = λ o n. refl;
    pending = v.pending;
    idle = λ o. cc;
    fresh = v.fresh;
    closes_once = v.closes_once;
    not_yet_closed = v.not_yet_closed;
    closes_socket = v.closes_socket;
  })

  -- The connection with another output buffer, and what it has told of it.
  abbrev pub armed : TcpConnection P → Buffer → List Notice → TcpConnection P
  armed c out ns = record c {
    output_buffer = out;
    pending_write_bytes = readable_bytes out;
    notices = ns;
  }

  abbrev pub mark_notice : TcpConnection P → Buffer → List Notice
  mark_notice c out =
      if crosses P c (readable_bytes c.output_buffer) (readable_bytes out)
      then high_water_mark_callback (readable_bytes out) ∷ c.notices
      else c.notices

  after_append_lem :
      (c : TcpConnection P) (out : Buffer)
      → after_append P (readable_bytes c.output_buffer) (record c { output_buffer = out }) ≡ (
          if c.channel.events.writing
          then armed c out (mark_notice c out)
          else enable_writing P (armed c out (mark_notice c out)))
  unfolding after_append
  after_append_lem c out = ground arith

  module _ (c : TcpConnection P) (out : Buffer) (v : IsValid P c) (going : is_open P c ≡ true)
      (held : View.IsValid out) where
    -- Only the output buffer has changed, and writes are watched for.
    armed-IsValid : c.channel.events.writing ≡ true → IsValid P (armed c out (mark_notice c out))
    armed-IsValid w = record {
      input = v.input;
      output = held;
      link = v.link;
      has_socket = v.has_socket;
      no_socket = v.no_socket;
      reads = v.reads;
      writes = λ o n. w;
      pending = λ o. readable_bytes-content out held;
      idle = λ o. absurd (ground arith);
      fresh = λ o. absurd (ground arith);
      closes_once = ground (arith, v.closes_once);
      not_yet_closed = λ h. ground (arith, v.not_yet_closed h);
      closes_socket = ground (arith, v.closes_socket);
    }

    armed_enabled-IsValid : IsValid P (enable_writing P (armed c out (mark_notice c out)))
    armed_enabled-IsValid =
        rw (set_events_lem P _ (armed c out (mark_notice c out)) v.link) (record {
          input = v.input;
          output = held;
          link = Link-retuned P c.poller c.channel _ v.link;
          has_socket = v.has_socket;
          no_socket = v.no_socket;
          reads = v.reads;
          writes = λ o n. refl;
          pending = λ o. readable_bytes-content out held;
          idle = λ o. absurd (ground arith);
          fresh = λ o. absurd (ground arith);
          closes_once = ground (arith, v.closes_once);
          not_yet_closed = λ h. ground (arith, v.not_yet_closed h);
          closes_socket = ground (arith, v.closes_socket);
        })

    after_append-IsValid :
        IsValid P
          (after_append P (readable_bytes c.output_buffer) (record c { output_buffer = out }))
    after_append-IsValid =
        rw (after_append_lem c out)
          (if_elim (IsValid P) c.channel.events.writing armed-IsValid (λ h. armed_enabled-IsValid))

  -- The room that a send needs.
  abbrev pub HasRoom : TcpConnection P → List ℕ → Type 0
  HasRoom c message = c.output_buffer.write_idx + length message ≤ max_size

  -- What a send leaves: it runs to its end, and a connected connection holds the message behind what
  -- it held before.
  pub send_in_loop-IsValid :
      (c : TcpConnection P) (message : List ℕ)
      → IsValid P c
      → HasRoom c message
      → (c' : TcpConnection P) × (send_in_loop P message c ≡ ok c') × IsValid P c'
  unfolding send_in_loop
  send_in_loop-IsValid c message v room = elim (Bool-cases (is_connected P c)) [
    | inl going ↦
        let (out, appended, held, same, size) =
          append-Yields c.output_buffer message v.output room in
        (
          after_append P (readable_bytes c.output_buffer) (record c { output_buffer = out }),
          rw (going, appended),
          after_append-IsValid c out v (ground arith) held,
        )
    | inr not_going ↦ (c, rw not_going, v)
  ]

  pub shutdown_in_loop-IsValid :
      (c : TcpConnection P) → IsValid P c → is_open P c ≡ true → IsValid P (shutdown_in_loop P c)
  unfolding shutdown_in_loop
  shutdown_in_loop-IsValid c v going =
      if_elim (IsValid P) (ltb 0 (readable_bytes c.output_buffer))
        (λ unsent.
          if_elim (IsValid P) c.channel.events.writing (λ w. v)
            (λ idle. enable_writing-IsValid c v going))
        (λ sent_all. handle_close-IsValid P c v)

  pub stopping-IsValid :
      (c : TcpConnection P)
      → IsValid P c
      → is_open P c ≡ true
      → IsValid P (record c { state = disconnecting })
  stopping-IsValid c v going = record {
    input = v.input;
    output = v.output;
    link = v.link;
    has_socket = λ h. v.has_socket (ground arith);
    no_socket = λ h. cc;
    reads = λ h. v.reads going;
    writes = λ h. v.writes going;
    pending = λ h. v.pending going;
    idle = λ h. cc;
    fresh = λ h. cc;
    closes_once = v.closes_once;
    not_yet_closed = λ h. v.not_yet_closed (ground arith);
    closes_socket = ground (arith, v.closes_socket);
  }

  pub queued-IsValid :
      (c : TcpConnection P) (fs : List Functor)
      → IsValid P c
      → IsValid P (record c { pending_functors = fs })
  queued-IsValid c fs v = record {
    input = v.input;
    output = v.output;
    link = v.link;
    has_socket = v.has_socket;
    no_socket = v.no_socket;
    reads = v.reads;
    writes = v.writes;
    pending = v.pending;
    idle = v.idle;
    fresh = v.fresh;
    closes_once = v.closes_once;
    not_yet_closed = v.not_yet_closed;
    closes_socket = v.closes_socket;
  }

  pub shutdown-IsValid :
      (c : TcpConnection P) (in_loop : Bool) → IsValid P c → IsValid P (shutdown P in_loop c)
  unfolding shutdown
  shutdown-IsValid c in_loop v =
      if_elim (IsValid P) (is_connected P c)
        (λ going.
          let w = stopping-IsValid c v (ground arith) in
          if_elim (IsValid P) in_loop (λ here. shutdown_in_loop-IsValid _ w refl)
            (λ there. queued-IsValid _ _ w))
        (λ not_going. v)

  pub force_close-IsValid :
      (c : TcpConnection P) (in_loop : Bool) → IsValid P c → IsValid P (force_close P in_loop c)
  unfolding force_close
  force_close-IsValid c in_loop v =
      if_elim (IsValid P) (is_open P c)
        (λ going.
          let w = stopping-IsValid c v going in
          if_elim (IsValid P) in_loop (λ here. force_close_in_loop-IsValid P _ w)
            (λ there. queued-IsValid _ _ w))
        (λ over. v)

  pub send-IsValid :
      (c : TcpConnection P) (in_loop : Bool) (message : List ℕ)
      → IsValid P c
      → HasRoom c message
      → (c' : TcpConnection P) × (send P in_loop message c ≡ ok c') × IsValid P c'
  unfolding send
  send-IsValid c in_loop message v room =
      if_elim (λ r. (c' : TcpConnection P) × (r ≡ ok c') × IsValid P c') (is_connected P c)
        (λ going.
          if_elim (λ r. (c' : TcpConnection P) × (r ≡ ok c') × IsValid P c') in_loop
            (λ here. send_in_loop-IsValid c message v room)
            (λ there. (_, refl, queued-IsValid c _ v)))
        (λ not_going. (c, refl, v))

  -- The connection after `ConnectEstablished`.
  abbrev pub established : TcpConnection P → ℕ → TcpConnection P
  established c now =
      record (retuned P (record { reading = true; writing = c.channel.events.writing })
        (record c { state = connected; last_active_ms = now })) {
          notices = if c.callbacks.connection then connection_callback ∷ c.notices else c.notices;
        }

  pub connect_established_lem :
      (c : TcpConnection P) (now : ℕ)
      → IsValid P c
      → is_connecting P c ≡ true
      → connect_established P now c ≡ ok (established c now)
  unfolding connect_established
  connect_established_lem c now v fresh =
      rw (fresh, set_events_lem P _ (record c { state = connected; last_active_ms = now }) v.link)
        (ground arith)

  pub established-IsValid :
      (c : TcpConnection P) (now : ℕ)
      → IsValid P c
      → is_connecting P c ≡ true
      → IsValid P (established c now)
  established-IsValid c now v fresh = record {
    input = v.input;
    output = v.output;
    link = Link-retuned P c.poller c.channel _ v.link;
    has_socket = λ h. v.has_socket (ground arith);
    no_socket = λ h. cc;
    reads = λ h. refl;
    writes = λ h some_left. absurd (omega (arith, v.fresh fresh));
    pending = λ h. ground (arith, v.fresh fresh, v.idle);
    idle = λ h. cc;
    fresh = λ h. cc;
    closes_once = ground (arith, v.closes_once);
    not_yet_closed = λ h. ground (arith, v.not_yet_closed);
    closes_socket = ground (arith, v.closes_socket);
  }
