-- ===== src/Examples/Connections.antt =====
-- The theorems on connections and clients at concrete inputs.
use cpp_reactor_framework.Prelude.{◌≡◌, refl, true, none, some, [], ◌∷◌, ◌++◌, arith, ok}
use cpp_reactor_framework.Buffer
use cpp_reactor_framework.Buffer.{Buffer}
use cpp_reactor_framework.Buffer.Io.{took}
use cpp_reactor_framework.Buffer.View
use cpp_reactor_framework.Buffer.View.{content}
use cpp_reactor_framework.Poller.Epoll
use cpp_reactor_framework.Poller.Epoll.{interest, poller, new-IsValid}
use cpp_reactor_framework.TcpConnection
use cpp_reactor_framework.TcpConnection.{
  TcpConnection, connected, Callbacks, Notice, close_callback, closed_socket, is_disconnected,
}
use cpp_reactor_framework.TcpConnection.Handlers.{handle_write, is_disconnecting}
use cpp_reactor_framework.TcpConnection.Calls.{shutdown}
use cpp_reactor_framework.TcpConnection.Invariant.{IsValid, retuned, Link-retuned}
use cpp_reactor_framework.TcpConnection.Sending.{
  established, connect_established_lem, established-IsValid,
}
use cpp_reactor_framework.TcpConnection.Runs.{
  establishes, sends, step, step-IsValid, Reach, here, next, new_connection-IsValid,
}
use cpp_reactor_framework.TcpConnection.Bytes.{stream}
use cpp_reactor_framework.TcpConnection.Delivery.{Reach-stream}
use cpp_reactor_framework.TcpConnection.Defects.{shutdown_unsent}
use cpp_reactor_framework.TcpClient
use cpp_reactor_framework.TcpClient.{
  TcpClient, connected_now, in_progress, connect, connect_completed, do_reconnect,
  handle_remove_connection, client_is_connected,
}
use cpp_reactor_framework.TcpClient.Connecting.{
  temporary, do_reconnect_ignored, connect_completed_unwatched,
}

abbrev pub callbacks : Callbacks
callbacks = record {
  connection = true;
  message = true;
  write_complete = true;
  close = true;
  high_water_mark = true;
}

abbrev pub start : TcpConnection poller
start = TcpConnection.new poller Epoll.new 5 callbacks 0

start-IsValid : IsValid poller start
unfolding interest
start-IsValid = new_connection-IsValid poller Epoll.new 5 callbacks 0 new-IsValid refl

abbrev pub running : TcpConnection poller
running = established poller start 1

pub running-IsValid : IsValid poller running
unfolding TcpConnection.new
running-IsValid = established-IsValid poller start 1 start-IsValid refl

step-IsValid_example :
    (c : TcpConnection poller) × (step poller (sends true (1 ∷ 2 ∷ [])) running ≡ ok c)
    × IsValid poller c
unfolding TcpConnection.new Buffer.new
step-IsValid_example =
    step-IsValid poller (sends true (1 ∷ 2 ∷ [])) running running-IsValid (omega arith)

sent_run :
    (c : TcpConnection poller) × (step poller (sends true (1 ∷ 2 ∷ [])) running ≡ ok c)
    × IsValid poller c
unfolding TcpConnection.new Buffer.new
sent_run = step-IsValid poller (sends true (1 ∷ 2 ∷ [])) running running-IsValid (omega arith)

-- A connection is established, and sends.
history : Reach poller start sent_run.0 (1 ∷ 2 ∷ [])
unfolding step TcpConnection.new Buffer.new
history =
    next (sends true (1 ∷ 2 ∷ []))
      (next {all' = []} (establishes 1) (here refl) refl
        (connect_established_lem poller start 1 start-IsValid refl) refl)
      (omega arith) sent_run.1 refl

Reach-stream_example : stream poller sent_run.0 ≡ stream poller start ++ (1 ∷ 2 ∷ [])
Reach-stream_example = Reach-stream poller start-IsValid history

-- A connection with one byte to write.
abbrev one_byte : Buffer
one_byte = record { buf = 7 ∷ []; read_idx = 0; write_idx = 1 }

one_byte-IsValid : View.IsValid one_byte
one_byte-IsValid = record { ordered = omega arith; inside = omega arith; small = omega arith }

abbrev busy : TcpConnection poller
busy =
    retuned poller (record { reading = true; writing = true })
      (record running { output_buffer = one_byte; pending_write_bytes = 1 })

busy-IsValid : IsValid poller busy
unfolding TcpConnection.new
busy-IsValid = record {
  input = running-IsValid.input;
  output = one_byte-IsValid;
  link = Link-retuned poller running.poller running.channel _ running-IsValid.link;
  has_socket = λ h. refl;
  no_socket = λ h. cc;
  reads = λ h. refl;
  writes = λ h k. refl;
  pending = λ h. refl;
  idle = λ h. cc;
  fresh = λ h. cc;
  closes_once = omega arith;
  not_yet_closed = λ h. refl;
  closes_socket = refl;
}

shutdown_unsent_example :
    (handle_write poller 3 (took 1) (shutdown poller true busy) ≡ ok (shutdown poller true busy))
    × (is_disconnecting poller (shutdown poller true busy) ≡ true)
    × ((shutdown poller true busy).output_buffer ≡ one_byte)
shutdown_unsent_example = shutdown_unsent poller busy 3 (took 1) busy-IsValid refl (omega arith)

abbrev client : TcpClient poller
client = TcpClient.new poller Epoll.new callbacks

do_reconnect_ignored_example :
    do_reconnect poller 9 6 in_progress (record client { started = true; auto_reconnect = true })
    ≡ ok (record client { started = true; auto_reconnect = true })
do_reconnect_ignored_example =
    do_reconnect_ignored poller (record client { started = true; auto_reconnect = true }) 9 6
      in_progress

connect_completed_unwatched_example :
    (waiting d : TcpClient poller) × (connect poller 1 6 in_progress client ≡ ok waiting)
    × (waiting.temp_channel ≡ some (temporary poller 6))
    × (connect_completed poller 2 0 (temporary poller 6) waiting ≡ ok d)
    × (client_is_connected poller d ≡ true)
    × (poller.watched d.poller 6 ≡ none)
unfolding TcpClient.new interest
connect_completed_unwatched_example =
    connect_completed_unwatched poller client 1 2 6 new-IsValid refl refl
