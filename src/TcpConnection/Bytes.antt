-- ===== src/TcpConnection/Bytes.antt =====
-- src/tcpconnection.cpp: the bytes of the messages, from `Send` to the system.
use cpp_reactor_framework.Prelude.{
  ℕ, zero, suc, ◌+◌, ◌≤◌, ◌≡◌, ◌≢◌, inl, inr, refl, sym, ap, ◌∙◌, true, List, [], ◌∷◌, ◌++◌,
  append-nil, append_assoc, arith, Result, ok, if◌then◌else◌, if_elim, Bool-cases, length, take,
  drop, take-append-drop, ltb, ◌==◌, subst,
}
use cpp_reactor_framework.Buffer.{Buffer, readable_bytes}
use cpp_reactor_framework.Buffer.Io.{got, WriteOutcome, took, write_failed}
use cpp_reactor_framework.Buffer.View.{content}
use cpp_reactor_framework.Buffer.Refine.{append-Yields}
use cpp_reactor_framework.Poller.{Poller}
use cpp_reactor_framework.TcpConnection.{
  TcpConnection, Notice, connection_callback, message_callback, write_complete_callback,
  close_callback, high_water_mark_callback, sent, closed_socket, is_connected, is_disconnected,
  is_open, enable_writing, is_normal_would_block, set_events,
}
use cpp_reactor_framework.TcpConnection.Handlers.{handle_close, handle_read, handle_write}
use cpp_reactor_framework.TcpConnection.Calls.{
  connect_destroyed, send_in_loop, after_append, shutdown_in_loop, force_close_in_loop,
}
use cpp_reactor_framework.TcpConnection.Invariant.{IsValid}
use cpp_reactor_framework.Buffer.{max_size}
use cpp_reactor_framework.Buffer.Io.{read_capacity, extrabuf_size}
use cpp_reactor_framework.TcpConnection.Sending.{HasRoom}
use cpp_reactor_framework.TcpConnection.Ready.{handle_read_lem, refilled-IsValid}
use cpp_reactor_framework.TcpConnection.Writing.{
  empty_or_not, Offered, wrote, finished, untaken, handle_write_took, handle_write_nothing,
  handle_write_empty, handle_write_failed,
}
use cpp_reactor_framework.TcpConnection.Closing.{
  handle_close_lem, connect_destroyed_lem, force_close_in_loop_lem,
}

-- What the system was given, oldest first.
abbrev pub wire : List Notice → List ℕ
wire [] = []
wire (sent bytes ∷ ns) = wire ns ++ bytes
wire (close_callback fd ∷ ns) = wire ns
wire (connection_callback ∷ ns) = wire ns
wire (message_callback ∷ ns) = wire ns
wire (write_complete_callback ∷ ns) = wire ns
wire (high_water_mark_callback n ∷ ns) = wire ns
wire (closed_socket ∷ ns) = wire ns

module _ (P : Poller) where
  -- What the system was given and what still waits for it.
  abbrev pub stream : TcpConnection P → List ℕ
  stream c = wire c.notices ++ content c.output_buffer

  pub handle_close-stream :
      (c : TcpConnection P) → IsValid P c → stream (handle_close P c) ≡ stream c
  unfolding handle_close
  handle_close-stream c v = elim (Bool-cases (is_disconnected P c)) [
    | inl over ↦ rw over
    | inr going ↦ rw (handle_close_lem P c v going) (ground arith)
  ]

  pub connect_destroyed-stream :
      (c : TcpConnection P) → IsValid P c → stream (connect_destroyed P c) ≡ stream c
  unfolding connect_destroyed
  connect_destroyed-stream c v = elim (Bool-cases (is_open P c)) [
    | inl going ↦ rw (connect_destroyed_lem P c v going)
    | inr over ↦ rw over
  ]

  pub force_close_in_loop-stream :
      (c : TcpConnection P) → IsValid P c → stream (force_close_in_loop P c) ≡ stream c
  unfolding force_close_in_loop
  force_close_in_loop-stream c v = elim (Bool-cases (is_open P c)) [
    | inl going ↦ rw (force_close_in_loop_lem P c v going) (ground arith)
    | inr over ↦ rw over
  ]

  enable_writing-stream : (c : TcpConnection P) → stream (enable_writing P c) ≡ stream c
  unfolding set_events
  enable_writing-stream c = refl

  after_append-stream :
      (c : TcpConnection P) (old_pending : ℕ) → stream (after_append P old_pending c) ≡ stream c
  unfolding after_append
  after_append-stream c old_pending = unfold set_events in ground arith

  pub shutdown_in_loop-stream :
      (c : TcpConnection P) → IsValid P c → stream (shutdown_in_loop P c) ≡ stream c
  unfolding shutdown_in_loop
  shutdown_in_loop-stream c v =
      if_elim (λ d. stream d ≡ stream c) (ltb 0 (readable_bytes c.output_buffer))
        (λ unsent.
          if_elim (λ d. stream d ≡ stream c) c.channel.events.writing (λ w. refl)
            (λ idle. enable_writing-stream c))
        (λ sent_all. handle_close-stream c v)

  -- What a call that returns adds to the stream.
  abbrev pub Adds : TcpConnection P → Result (TcpConnection P) → List ℕ → Type 0
  Adds c r bytes = (c' : TcpConnection P) × (r ≡ ok c') × (stream c' ≡ stream c ++ bytes)

  pub Adds-nothing : (c d : TcpConnection P) → stream d ≡ stream c → Adds c (ok d) []
  Adds-nothing c d same = (d, refl, same ∙ sym (append-nil (stream c)))

  -- A send puts its message behind the others, if the connection is connected.
  pub send_in_loop-Adds :
      (c : TcpConnection P) (message : List ℕ)
      → IsValid P c
      → HasRoom P c message
      → Adds c (send_in_loop P message c) (if is_connected P c then message else [])
  unfolding send_in_loop
  send_in_loop-Adds c message v room = elim (Bool-cases (is_connected P c)) [
    | inl going ↦
        let (out, appended, held, same, size) =
          append-Yields c.output_buffer message v.output room in
        (
          after_append P (readable_bytes c.output_buffer) (record c { output_buffer = out }),
          rw (going, appended),
          after_append-stream (record c { output_buffer = out }) (readable_bytes c.output_buffer)
              ∙ (ap (λ l. wire c.notices ++ l) same
                  ∙ rw going
                      (sym (append_assoc (wire c.notices) (content c.output_buffer) message))),
        )
    | inr not_going ↦ (c, rw not_going, rw not_going (sym (append-nil (stream c))))
  ]

  pub handle_read-Adds :
      (c : TcpConnection P) (bytes : List ℕ) (now : ℕ)
      → IsValid P c
      → length bytes ≤ read_capacity c.input_buffer
      → length c.input_buffer.buf + extrabuf_size ≤ max_size
      → Adds c (handle_read P now (got bytes) c) []
  handle_read-Adds c bytes now v fits room =
      let (input, ran, same, held) = handle_read_lem P c bytes now v fits room in
      (
        _,
        ran,
        if_elim (λ d. stream d ≡ stream c ++ []) (ltb 0 (length bytes))
            (λ some_read. ground (arith, append-nil (stream c)))
            (λ none_read.
              handle_close-stream _ (refilled-IsValid P c input v held)
              ∙ sym (append-nil (stream c))),
      )

  -- A write moves bytes from the buffer to the system.
  wrote-stream :
      (c : TcpConnection P) (out : Buffer) (k now : ℕ)
      → content out ≡ drop k (content c.output_buffer)
      → stream (wrote P c out k now) ≡ stream c
  wrote-stream c out k now same =
      ap (λ l. (wire c.notices ++ take k (content c.output_buffer)) ++ l) same
      ∙ (append_assoc (wire c.notices) (take k (content c.output_buffer))
            (drop k (content c.output_buffer))
          ∙ ap (λ l. wire c.notices ++ l) (take-append-drop k (content c.output_buffer)))

  finished-stream : (c : TcpConnection P) → stream (finished P c) ≡ stream c
  finished-stream c = ground arith

  untaken-stream :
      (c : TcpConnection P) (out : Buffer) (now : ℕ) (v : IsValid P c)
      → (going : is_connected P c ≡ true) → content out ≡ content c.output_buffer
      → stream (untaken P c now v going out) ≡ stream c
  untaken-stream c out now v going same =
      ap (λ l. (wire c.notices ++ []) ++ l) same
      ∙ ap (λ l. l ++ content c.output_buffer) (append-nil (wire c.notices))

  pub handle_write-Adds :
      (c : TcpConnection P) (outcome : WriteOutcome) (now : ℕ)
      → IsValid P c
      → Offered P c outcome
      → Adds c (handle_write P now outcome c) []
  unfolding handle_write
  handle_write-Adds c outcome now v offered = elim (Bool-cases (is_connected P c)) [
    | inl going ↦ elim (empty_or_not (content c.output_buffer)) [
      | inl none_left ↦
          subst (λ r. Adds c r []) (sym (handle_write_empty P c now v going outcome none_left))
            (Adds-nothing c _ (handle_close-stream c v))
      | inr some_left ↦ by_outcome going outcome offered some_left
    ]
    | inr not_going ↦ (c, rw not_going, sym (append-nil (stream c)))
  ]
    where
      by_outcome :
          is_connected P c ≡ true
          → (outcome : WriteOutcome) → Offered P c outcome
          → content c.output_buffer ≢ []
          → Adds c (handle_write P now outcome c) []
      by_outcome going (took zero) offered some_left =
          let (out, ran, same, held) = handle_write_nothing P c now v going some_left in
          (
            _,
            ran,
            handle_close-stream _ held
                ∙ (untaken-stream c out now v going same ∙ sym (append-nil (stream c))),
          )
      by_outcome going (took (suc k)) offered some_left =
          let (out, ran, same, held) =
            handle_write_took P c now v going (suc k) (omega arith) offered in
          (
            _,
            ran,
            if_elim (λ d. stream d ≡ stream c ++ []) (readable_bytes out == 0)
                (λ e.
                  finished-stream (wrote P c out (suc k) now)
                  ∙ (wrote-stream c out (suc k) now same ∙ sym (append-nil (stream c))))
                (λ e. wrote-stream c out (suc k) now same ∙ sym (append-nil (stream c))),
          )
      by_outcome going (write_failed errno) offered some_left = (
        _,
        handle_write_failed P c now v going errno some_left,
        if_elim (λ d. stream d ≡ stream c ++ []) (is_normal_would_block errno)
            (λ e. sym (append-nil (stream c)))
            (λ e. handle_close-stream c v ∙ sym (append-nil (stream c))),
      )
