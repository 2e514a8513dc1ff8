-- ===== src/Program.antt =====
-- src/main.cpp: the echo server that is put together from the library: its arguments, and what
-- happens to a connection of its own that has become readable.
pub mod Replies
pub mod Echo
pub mod Serving
pub mod Writing
pub mod History
pub mod Stopping
pub mod Interrupt
use cpp_reactor_framework.Prelude.{
  ℕ, zero, suc, Bool, true, false, ◌&&◌, ◌||◌, Option, none, some, List, [], ◌∷◌, Result, ok, fault,
  out_of_fuel, ◌>>=◌, ltb, ◌==◌, if◌then◌else◌, ℤ, pos, negsuc,
}
use cpp_reactor_framework.Buffer.{Buffer, readable_bytes}
use cpp_reactor_framework.Buffer.Io.{ReadOutcome, IoResult, count, minus_one, read_from_fd}
use cpp_reactor_framework.Codec
use cpp_reactor_framework.Codec.{LengthFieldCodec, wait, invalid, message, turn, handle_heartbeat}
use cpp_reactor_framework.Poller.{Poller}
use cpp_reactor_framework.TcpConnection.{TcpConnection, is_connected}
use cpp_reactor_framework.TcpConnection.Handlers.{after_read}
use cpp_reactor_framework.TcpConnection.Calls.{send, force_close}

-- An argument is none if it was not given, or else what `std::atoi` returns for it.
unfoldable pub parse_port : Option ℤ → ℕ
parse_port none = 9000
parse_port (some (negsuc n)) = 9000
parse_port (some (pos n)) = if n == 0 || ltb 65535 n then 9000 else n

unfoldable pub parse_threads : Option ℤ → ℕ
parse_threads none = 4
parse_threads (some (negsuc n)) = 4
parse_threads (some (pos n)) = n

module _ (P : Poller) where
  -- The calls of `conn->Send`, on the loop of the connection.
  abbrev pub send_all : List (List ℕ) → TcpConnection P → Result (TcpConnection P)
  send_all [] c = ok c
  send_all (m ∷ ms) c = send P true m c >>= send_all ms

  -- The callback of the codec: a heartbeat is answered, any other message is sent back.
  unfoldable pub codec_callback : List ℕ → TcpConnection P → Result (TcpConnection P)
  codec_callback m c = do
    answered ← send_all (handle_heartbeat m).1 c
    if (handle_heartbeat m).0
        then ok answered
        else send_all (Codec.send (is_connected P answered) m) answered

  -- `OnMessage` on the connection's input buffer: the callback runs, and sends, within the loop.
  unfoldable pub on_message_turns :
      LengthFieldCodec → ℕ → TcpConnection P → Result (TcpConnection P)
  on_message_turns codec zero c = fault out_of_fuel
  on_message_turns codec (suc fuel) c = turn codec c.input_buffer >>= λ t. elim t [
    | wait ↦ ok c
    | invalid ↦ ok (force_close P true c)
    | message m b ↦
        (if codec.has_message_callback
          then codec_callback m (record c { input_buffer = b })
          else ok (record c { input_buffer = b }))
        >>= on_message_turns codec fuel
  ]

  -- The message callback of the server, with enough fuel for each readable byte.
  unfoldable pub on_connection_message :
      LengthFieldCodec → TcpConnection P → Result (TcpConnection P)
  on_connection_message codec c = on_message_turns codec (suc (readable_bytes c.input_buffer)) c

  -- Whether `HandleRead` calls the message callback.
  abbrev pub some_read : IoResult → Bool
  some_read io = elim io.n [ count n ↦ ltb 0 n | minus_one ↦ false ]

  -- `HandleRead` with that callback, which it calls last.
  unfoldable pub serve_read :
      LengthFieldCodec → ℕ → ReadOutcome → TcpConnection P → Result (TcpConnection P)
  serve_read codec now outcome c = do
    (io, input) ← read_from_fd c.input_buffer outcome
    let c1 = after_read P now io (record c { input_buffer = input })
    if some_read io && c.callbacks.message then on_connection_message codec c1 else ok c1
