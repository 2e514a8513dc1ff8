-- ===== src/TcpConnection/Handlers.antt =====
-- src/tcpconnection.cpp: the handlers that the channel calls when its descriptor is ready.
use cpp_reactor_framework.Prelude.{
  ℕ, ◌+◌, ◌%◌, Bool, true, false, not, ◌&&◌, Result, ok, ◌>>=◌, ltb, ◌==◌, if◌then◌else◌, size_mod,
}
use cpp_reactor_framework.Buffer.{Buffer, readable_bytes, peek}
use cpp_reactor_framework.Buffer.Io.{
  ReadOutcome, WriteOutcome, took, write_failed, count, minus_one, IoResult, read_from_fd,
  write_to_fd,
}
use cpp_reactor_framework.Poller.{Poller}
use cpp_reactor_framework.TcpConnection.{
  TcpConnection, disconnecting, disconnected, message_callback, write_complete_callback,
  close_callback, sent, is_normal_would_block, is_connected, is_disconnected, notify, notify_if,
  refresh_active_time, disable_writing, disable_all, remove_if_added, close_socket,
}

module _ (P : Poller) where
  abbrev pub set_disconnected : TcpConnection P → TcpConnection P
  set_disconnected c = record c { state = disconnected; pending_write_bytes = 0 }

  -- The steps of `HandleClose` behind its guard.
  unfoldable pub close : TcpConnection P → TcpConnection P
  close c =
      let off = remove_if_added P (disable_all P (set_disconnected c)) in
      close_socket P (notify_if P off.callbacks.close (close_callback off.socket) off)

  unfoldable pub handle_close : TcpConnection P → TcpConnection P
  unfolding close
  handle_close c = if is_disconnected P c then c else close c

  -- `HandleError` logs, and closes.
  unfoldable pub handle_error : TcpConnection P → TcpConnection P
  handle_error c = handle_close c

  -- `HandleRead` behind the call of `ReadFromFd`.
  unfoldable pub after_read : ℕ → IoResult → TcpConnection P → TcpConnection P
  after_read now io c = elim io.n [
    | count n ↦
        if ltb 0 n
        then notify_if P c.callbacks.message message_callback (
            refresh_active_time P now
              (record c { total_bytes_read = (c.total_bytes_read + n) % size_mod }))
        else handle_close c
    | minus_one ↦ if is_normal_would_block io.errno then c else handle_close c
  ]

  unfoldable pub handle_read : ℕ → ReadOutcome → TcpConnection P → Result (TcpConnection P)
  handle_read now outcome c = do
    (io, input) ← read_from_fd c.input_buffer outcome
    ok (after_read now io (record c { input_buffer = input }))

  abbrev pub is_disconnecting : TcpConnection P → Bool
  is_disconnecting c = elim c.state [ disconnecting ↦ true | _ ↦ false ]

  -- Everything was written, and writes are no longer watched for.
  unfoldable pub complete : TcpConnection P → TcpConnection P
  complete c =
      if is_disconnecting c
      then handle_close c
      else notify_if P c.callbacks.write_complete write_complete_callback c

  unfoldable pub drained : TcpConnection P → TcpConnection P
  unfolding complete
  drained c = complete (disable_writing P c)

  -- Bytes were written; `errno` is 0 unless the call failed, so the last test of the branch, on a
  -- partial error, is not taken.
  unfoldable pub progressed : ℕ → ℕ → ℕ → TcpConnection P → TcpConnection P
  progressed now n errno c =
      let left = readable_bytes c.output_buffer in
      let c1 = refresh_active_time P now (record c {
        total_bytes_written = (c.total_bytes_written + n) % size_mod;
        pending_write_bytes = left;
      }) in
      let c2 = if left == 0 then drained c1 else c1 in
      if left == 0 && is_disconnecting c1
      then c2
      else if not (errno == 0) && not (is_normal_would_block errno)
      then handle_close c2
      else c2

  -- The bytes that the system took: the first ones of the output buffer.
  unfoldable pub note_sent : Buffer → WriteOutcome → TcpConnection P → Result (TcpConnection P)
  note_sent out (took n) c = peek out n >>= λ bytes. ok (notify P (sent bytes) c)
  note_sent out (write_failed e) c = ok c

  unfoldable pub after_write : ℕ → IoResult → TcpConnection P → TcpConnection P
  after_write now io c = elim io.n [
    | count n ↦
        if ltb 0 n
        then progressed now n io.errno c
        else if is_normal_would_block io.errno
        then c
        else handle_close c
    | minus_one ↦ if is_normal_would_block io.errno then c else handle_close c
  ]

  -- The system call, which is made only if there is something to write.
  unfoldable pub write_out : WriteOutcome → TcpConnection P → Result (IoResult × TcpConnection P)
  write_out outcome c = do
    (io, out) ← write_to_fd c.output_buffer outcome
    let c' = record c { output_buffer = out }
    noted ←
        if readable_bytes c.output_buffer == 0 then ok c' else note_sent c.output_buffer outcome c'
    ok (io, noted)

  unfoldable pub handle_write : ℕ → WriteOutcome → TcpConnection P → Result (TcpConnection P)
  handle_write now outcome c =
      let written = write_out outcome c >>= λ r. ok (after_write now r.0 r.1) in
      if is_connected P c then written else ok c
