-- ===== src/TcpConnection/Writing.antt =====
-- src/tcpconnection.cpp: `HandleWrite`, on every outcome of the system call.
use cpp_reactor_framework.Prelude.{
  ℕ, zero, suc, ◌⊎◌, ◌+◌, ◌%◌, ◌≤◌, ◌<◌, ◌≡◌, ◌≢◌, refl, sym, ap, ◌∙◌, inl, inr, true, false, List,
  [], ◌∷◌, arith, ok, ◌==◌, if◌then◌else◌, if_elim, length, take, drop, length-drop, size_mod,
}
use cpp_reactor_framework.Buffer.{Buffer, readable_bytes}
use cpp_reactor_framework.Buffer.Io.{WriteOutcome, took, write_failed, count}
use cpp_reactor_framework.Buffer.View
use cpp_reactor_framework.Buffer.View.{content, readable_bytes-content}
use cpp_reactor_framework.Buffer.Refine.{peek_valid}
use cpp_reactor_framework.Buffer.ReadWrite.{write_to_fd_empty, write_to_fd_failed, write_to_fd-took}
use cpp_reactor_framework.Poller.{Poller}
use cpp_reactor_framework.TcpConnection.{
  TcpConnection, write_complete_callback, sent, is_connected, is_normal_would_block,
}
use cpp_reactor_framework.TcpConnection.Handlers.{
  handle_close, complete, drained, progressed, note_sent, after_write, write_out, handle_write,
}
use cpp_reactor_framework.TcpConnection.Invariant.{IsValid, retuned, Link-retuned, set_events_lem}
use cpp_reactor_framework.TcpConnection.Closing.{handle_close-IsValid}

no_bytes : (l : List ℕ) → (length l == 0) ≡ true → l ≡ []
no_bytes [] e = refl
no_bytes (x ∷ xs) e = absurd (ground arith)

pub empty_or_not : (l : List ℕ) → (l ≡ []) ⊎ (l ≢ [])
empty_or_not [] = inl refl
empty_or_not (x ∷ xs) = inr (λ e. cc)

emptied : (out : Buffer) → View.IsValid out → (readable_bytes out == 0) ≡ true → content out ≡ []
emptied out held e = no_bytes (content out) (rw (← readable_bytes-content out held) e)

module _ (P : Poller) where
  -- The system takes at most what it is offered.
  abbrev pub Offered : TcpConnection P → WriteOutcome → Type 0
  Offered c (took k) = k ≤ length (content c.output_buffer)
  Offered c (write_failed errno) = Unit {0}

  -- The system took the first `k` bytes.
  abbrev pub wrote : TcpConnection P → Buffer → ℕ → ℕ → TcpConnection P
  wrote c out k now = record c {
    output_buffer = out;
    total_bytes_written = (c.total_bytes_written + k) % size_mod;
    pending_write_bytes = readable_bytes out;
    last_active_ms = now;
    notices = sent (take k (content c.output_buffer)) ∷ c.notices;
  }

  -- Nothing is left: writes are watched for no longer, and the user is told.
  abbrev pub finished : TcpConnection P → TcpConnection P
  finished c =
      record (retuned P (record { reading = c.channel.events.reading; writing = false }) c) {
        notices =
            if c.callbacks.write_complete then write_complete_callback ∷ c.notices else c.notices;
      }

  module _ (c : TcpConnection P) (now : ℕ) (v : IsValid P c) (going : is_connected P c ≡ true) where
    drained_lem :
        (out : Buffer) (k : ℕ) → drained P (wrote c out k now) ≡ finished (wrote c out k now)
    unfolding drained complete
    drained_lem out k =
        rw
          (set_events_lem P (record { reading = c.channel.events.reading; writing = false })
            (wrote c out k now) v.link)
          (ground arith)

    progressed_lem :
        (out : Buffer) (k : ℕ)
        → progressed P now k 0 (record c {
          output_buffer = out;
          notices = sent (take k (content c.output_buffer)) ∷ c.notices;
        })
          ≡ (if readable_bytes out == 0 then finished (wrote c out k now) else wrote c out k now)
    unfolding progressed
    progressed_lem out k = ground (arith, drained_lem out k)

    write_out_took :
        (k : ℕ)
        → content c.output_buffer ≢ []
        → k ≤ length (content c.output_buffer)
        → (out : Buffer) × (write_out P (took k) c
            ≡ ok (
              record { n = count k; errno = 0 },
              record c {
                output_buffer = out;
                notices = sent (take k (content c.output_buffer)) ∷ c.notices;
              },
            ))
          × (content out ≡ drop k (content c.output_buffer))
          × View.IsValid out
    unfolding write_out note_sent
    write_out_took k some_left fits =
        let (out, ran, held, same) = write_to_fd-took c.output_buffer k v.output some_left fits in
        (
          out,
          rw (ran, peek_valid c.output_buffer k v.output fits)
              (ground (
                arith,
                readable_bytes-content c.output_buffer v.output,
                nonempty (content c.output_buffer) some_left,
              )),
          same,
          held,
        )
      where
        nonempty : (l : List ℕ) → l ≢ [] → 0 < length l
        nonempty [] n = absurd (n refl)
        nonempty (x ∷ xs) n = omega arith

    pub handle_write_took :
        (k : ℕ)
        → 0 < k
        → k ≤ length (content c.output_buffer)
        → (out : Buffer) × (handle_write P now (took k) c
            ≡ ok (
                if readable_bytes out == 0
                then finished (wrote c out k now)
                else wrote c out k now))
          × (content out ≡ drop k (content c.output_buffer))
          × View.IsValid out
    unfolding handle_write after_write
    handle_write_took k some_taken fits =
        let (out, ran, same, held) =
          write_out_took k (λ e. absurd (omega (arith, ap length e))) fits in
        (out, rw (going, ran) (ground (arith, progressed_lem out k)), same, held)

    pub finished-IsValid :
        (out : Buffer) (k : ℕ)
        → View.IsValid out
        → content out ≡ []
        → IsValid P (finished (wrote c out k now))
    finished-IsValid out k held none_left = record {
      input = v.input;
      output = held;
      link = Link-retuned P c.poller c.channel _ v.link;
      has_socket = v.has_socket;
      no_socket = v.no_socket;
      reads = v.reads;
      writes = λ o some_left. absurd (omega (arith, ap length none_left));
      pending = λ o. readable_bytes-content out held;
      idle = λ o. absurd (ground arith);
      fresh = λ o. absurd (ground arith);
      closes_once = ground (arith, v.closes_once);
      not_yet_closed = λ h. ground (arith, v.not_yet_closed h);
      closes_socket = ground (arith, v.closes_socket);
    }

    pub wrote-IsValid :
        (out : Buffer) (k : ℕ)
        → View.IsValid out
        → content out ≡ drop k (content c.output_buffer)
        → IsValid P (wrote c out k now)
    wrote-IsValid out k held same = record {
      input = v.input;
      output = held;
      link = v.link;
      has_socket = v.has_socket;
      no_socket = v.no_socket;
      reads = v.reads;
      writes = λ o some_left.
          v.writes o (omega (arith, ap length same, length-drop k (content c.output_buffer)));
      pending = λ o. readable_bytes-content out held;
      idle = λ o. absurd (ground arith);
      fresh = λ o. absurd (ground arith);
      closes_once = ground (arith, v.closes_once);
      not_yet_closed = λ h. ground (arith, v.not_yet_closed h);
      closes_socket = ground (arith, v.closes_socket);
    }

    -- A write that took nothing closes the connection.
    abbrev pub untaken : Buffer → TcpConnection P
    untaken out = record c { output_buffer = out; notices = sent [] ∷ c.notices }

    untaken-IsValid :
        (out : Buffer)
        → View.IsValid out
        → content out ≡ content c.output_buffer
        → IsValid P (untaken out)
    untaken-IsValid out held same = record {
      input = v.input;
      output = held;
      link = v.link;
      has_socket = v.has_socket;
      no_socket = v.no_socket;
      reads = v.reads;
      writes = λ o some_left. v.writes o (omega (arith, ap length same));
      pending = λ o. v.pending o ∙ sym (ap length same);
      idle = v.idle;
      fresh = λ o. ap length same ∙ v.fresh o;
      closes_once = v.closes_once;
      not_yet_closed = v.not_yet_closed;
      closes_socket = v.closes_socket;
    }

    pub handle_write_nothing :
        content c.output_buffer ≢ []
        → (out : Buffer) × (handle_write P now (took 0) c ≡ ok (handle_close P (untaken out)))
          × (content out ≡ content c.output_buffer)
          × IsValid P (untaken out)
    unfolding handle_write after_write
    handle_write_nothing some_left =
        let (out, ran, same, held) = write_out_took 0 some_left (omega arith) in
        (out, rw (going, ran) (ground arith), same, untaken-IsValid out held same)

    -- A failed write closes the connection, unless it would only block.
    pub handle_write_failed :
        (errno : ℕ)
        → content c.output_buffer ≢ []
        → handle_write P now (write_failed errno) c
          ≡ ok (if is_normal_would_block errno then c else handle_close P c)
    unfolding handle_write after_write write_out note_sent
    handle_write_failed errno some_left =
        rw (going, write_to_fd_failed c.output_buffer errno v.output some_left) (ground arith)

    -- A ready descriptor with nothing to write closes the connection, whatever the system would do.
    pub handle_write_empty :
        (outcome : WriteOutcome)
        → content c.output_buffer ≡ []
        → handle_write P now outcome c ≡ ok (handle_close P c)
    unfolding handle_write after_write write_out
    handle_write_empty outcome none_left =
        rw
          (
            going,
            write_to_fd_empty c.output_buffer outcome v.output none_left,
            readable_bytes-content c.output_buffer v.output,
            none_left,
          )
          (ground arith)

    -- Whatever the system does with the bytes it is offered, the handler runs to its end.
    pub handle_write_connected :
        (outcome : WriteOutcome)
        → Offered c outcome
        → (c' : TcpConnection P) × (handle_write P now outcome c ≡ ok c') × IsValid P c'
    handle_write_connected outcome offered = elim (empty_or_not (content c.output_buffer)) [
      | inl none_left ↦ (_, handle_write_empty outcome none_left, handle_close-IsValid P c v)
      | inr some_left ↦ by_outcome outcome offered some_left
    ]
      where
        by_outcome :
            (outcome : WriteOutcome)
            → Offered c outcome
            → content c.output_buffer ≢ []
            → (c' : TcpConnection P) × (handle_write P now outcome c ≡ ok c') × IsValid P c'
        by_outcome (took zero) offered some_left =
            let (out, ran, same, held) = handle_write_nothing some_left in
            (_, ran, handle_close-IsValid P (untaken out) held)
        by_outcome (took (suc k)) offered some_left =
            let (out, ran, same, held) = handle_write_took (suc k) (omega arith) offered in
            (
              _,
              ran,
              if_elim (IsValid P) (readable_bytes out == 0)
                  (λ e. finished-IsValid out (suc k) held (emptied out held e))
                  (λ e. wrote-IsValid out (suc k) held same),
            )
        by_outcome (write_failed errno) offered some_left = (
          _,
          handle_write_failed errno some_left,
          if_elim (IsValid P) (is_normal_would_block errno) (λ e. v)
              (λ e. handle_close-IsValid P c v),
        )
