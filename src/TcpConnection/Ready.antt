-- ===== src/TcpConnection/Ready.antt =====
-- src/tcpconnection.cpp: the handlers of a ready descriptor keep a connection in order.
use cpp_reactor_framework.Prelude.{
  ℕ, ◌+◌, ◌%◌, ◌≤◌, ◌≡◌, List, ◌∷◌, ◌++◌, arith, ok, fault, length_error, out_of_range, ◌==◌, ltb,
  if◌then◌else◌, if_elim, length, size_mod,
}
use cpp_reactor_framework.Buffer.{Buffer, max_size}
use cpp_reactor_framework.Buffer.Io.{got, read_failed, read_capacity, extrabuf_size}
use cpp_reactor_framework.Buffer.View
use cpp_reactor_framework.Buffer.View.{content, readable_bytes-content}
use cpp_reactor_framework.Buffer.ReadWrite.{read_from_fd-got, read_from_fd_failed}
use cpp_reactor_framework.Poller.{Poller}
use cpp_reactor_framework.TcpConnection.{TcpConnection, message_callback}
use cpp_reactor_framework.TcpConnection.Handlers.{handle_close, after_read, handle_read}
use cpp_reactor_framework.TcpConnection.Invariant.{IsValid}
use cpp_reactor_framework.TcpConnection.Closing.{handle_close-IsValid}

module _ (P : Poller) where
  -- The connection after bytes were read: the user is told.
  abbrev pub received : TcpConnection P → Buffer → ℕ → ℕ → TcpConnection P
  received c input n now = record c {
    input_buffer = input;
    total_bytes_read = (c.total_bytes_read + n) % size_mod;
    last_active_ms = now;
    notices = if c.callbacks.message then message_callback ∷ c.notices else c.notices;
  }

  pub received-IsValid :
      (c : TcpConnection P) (input : Buffer) (n now : ℕ)
      → IsValid P c
      → View.IsValid input
      → IsValid P (received c input n now)
  received-IsValid c input n now v held = record {
    input = held;
    output = v.output;
    link = v.link;
    has_socket = v.has_socket;
    no_socket = v.no_socket;
    reads = v.reads;
    writes = v.writes;
    pending = v.pending;
    idle = v.idle;
    fresh = v.fresh;
    closes_once = ground (arith, v.closes_once);
    not_yet_closed = λ h. ground (arith, v.not_yet_closed h);
    closes_socket = ground (arith, v.closes_socket);
  }

  pub refilled-IsValid :
      (c : TcpConnection P) (input : Buffer)
      → IsValid P c
      → View.IsValid input
      → IsValid P (record c { input_buffer = input })
  refilled-IsValid c input v held = record {
    input = held;
    output = v.output;
    link = v.link;
    has_socket = v.has_socket;
    no_socket = v.no_socket;
    reads = v.reads;
    writes = v.writes;
    pending = v.pending;
    idle = v.idle;
    fresh = v.fresh;
    closes_once = v.closes_once;
    not_yet_closed = v.not_yet_closed;
    closes_socket = v.closes_socket;
  }

  -- A read that returned bytes runs to its end, and puts them behind the others; one that returned
  -- none closes the connection.
  pub handle_read_lem :
      (c : TcpConnection P) (bytes : List ℕ) (now : ℕ)
      → IsValid P c
      → length bytes ≤ read_capacity c.input_buffer
      → length c.input_buffer.buf + extrabuf_size ≤ max_size
      → (input : Buffer) × (handle_read P now (got bytes) c
          ≡ ok (
              if ltb 0 (length bytes)
              then received c input (length bytes) now
              else handle_close P (record c { input_buffer = input })))
        × (content input ≡ content c.input_buffer ++ bytes)
        × View.IsValid input
  unfolding handle_read after_read
  handle_read_lem c bytes now v fits room =
      let (input, ran, held, same) = read_from_fd-got c.input_buffer bytes v.input fits room in
      (input, rw ran (ground arith), same, held)

  pub handle_read-IsValid :
      (c : TcpConnection P) (bytes : List ℕ) (now : ℕ)
      → IsValid P c
      → length bytes ≤ read_capacity c.input_buffer
      → length c.input_buffer.buf + extrabuf_size ≤ max_size
      → (c' : TcpConnection P) × (handle_read P now (got bytes) c ≡ ok c') × IsValid P c'
  handle_read-IsValid c bytes now v fits room =
      let (input, ran, same, held) = handle_read_lem c bytes now v fits room in
      (
        _,
        ran,
        if_elim (IsValid P) (ltb 0 (length bytes))
            (λ some_read. received-IsValid c input (length bytes) now v held)
            (λ none_read. handle_close-IsValid P _ (refilled-IsValid c input v held)),
      )

  -- A failed read ends the program, whatever the error was.
  pub handle_read_failed :
      (c : TcpConnection P) (errno now : ℕ)
      → IsValid P c
      → handle_read P now (read_failed errno) c
        ≡ fault (if c.input_buffer.write_idx == 0 then length_error else out_of_range)
  unfolding handle_read
  handle_read_failed c errno now v = rw (read_from_fd_failed c.input_buffer errno v.input)
