-- ===== src/Examples/Servers.antt =====
-- The theorems on sockets, acceptors and servers at concrete inputs.
use cpp_reactor_framework.Prelude.{
  ℕ, ◌+◌, ◌<◌, ◌≤◌, ◌≡◌, ◌≢◌, refl, true, false, none, some, List, [], ◌∷◌, arith, ok, fault,
  invalid_iterator, length, ◌==◌, if◌then◌else◌, pos,
}
use cpp_reactor_framework.Buffer
use cpp_reactor_framework.Poller.Epoll
use cpp_reactor_framework.Poller.Epoll.{interest, poller, new-IsValid}
use cpp_reactor_framework.TcpConnection
use cpp_reactor_framework.TcpConnection.{
  TcpConnection, Callbacks, connected, is_connected, is_disconnected,
}
use cpp_reactor_framework.TcpConnection.Handlers.{handle_close}
use cpp_reactor_framework.TcpClient.{in_progress}
use cpp_reactor_framework.Acceptor
use cpp_reactor_framework.Acceptor.{Acceptor, listen, stop}
use cpp_reactor_framework.Socket.{no_sockets, connect, connect_outcome}
use cpp_reactor_framework.Socket.Ownership.{
  owners, count, creates, moves, closes, SocketEvent, socket_run, socket_run_owned,
}
use cpp_reactor_framework.Socket.Connecting.{connect-outcome}
use cpp_reactor_framework.TcpServer
use cpp_reactor_framework.TcpServer.{
  Loop, main_loop, sub_loop, Served, TcpServer, next_loop, queue_in_loop, establishes, stops,
  set_idle_timeout_seconds,
}
use cpp_reactor_framework.TcpServer.Removal.{cell_is_connected, conn_call, finalize_unforced}
use cpp_reactor_framework.TcpServer.Calls.{
  enter_connection, accept_connection, handle_new_connection, run_queue, stop_gracefully,
  stop_gracefully_by, finalize_graceful_stop, scan_idle_connections,
}
use cpp_reactor_framework.TcpServer.Runs.{
  accepts, sets_idle_timeout, stops_gracefully, server_step, Reach, here, next,
}
use cpp_reactor_framework.TcpServer.Counters.{counters_balanced}
use cpp_reactor_framework.TcpServer.RoundRobin.{nth_choice, next_loop_fair}
use cpp_reactor_framework.TcpServer.Stopping.{visible, remaining, stopped, finalize_unforced_lem}
use cpp_reactor_framework.TcpServer.Forcing.{has_cell}
use cpp_reactor_framework.TcpServer.Deadline.{at_deadline, deadline_lem}
use cpp_reactor_framework.TcpServer.Ending.{sub_loop_close}
use cpp_reactor_framework.TcpServer.Defects.{stop_gracefully_faults}
use cpp_reactor_framework.TcpServer.Accepting.{find, accept_lem}
use cpp_reactor_framework.TcpServer.Idle.{is_overdue, scan_idle_connections_lem}

-- A socket is made, moved, and closed.
abbrev history : List SocketEvent
history = creates (some 5) ∷ moves 0 ∷ closes 1 ∷ []

socket_run_owned_example :
    owners 5 (socket_run history no_sockets).sockets
      + count 5 (socket_run history no_sockets).closed
    ≡ count 5 (socket_run history no_sockets).opened
socket_run_owned_example = socket_run_owned 5 history

connect-outcome_example : connect_outcome (connect true (some 1)) ≡ in_progress
connect-outcome_example = connect-outcome true 1 (omega arith)

abbrev callbacks : Callbacks
callbacks = record {
  connection = true;
  message = true;
  write_complete = true;
  close = true;
  high_water_mark = true;
}

abbrev pub pollers : Loop → Epoll.EpollPoller
pollers l = Epoll.new

abbrev pub idle_server : TcpServer poller
idle_server = TcpServer.new poller 2 3 pollers callbacks

-- With an idle timeout, as main sets it, a connection is accepted.
abbrev timed_server : TcpServer poller
timed_server = record idle_server { idle_timeout_seconds = 120 }

abbrev after_accept : TcpServer poller
after_accept =
    queue_in_loop poller (sub_loop 0) (establishes 0) (enter_connection poller 10 7 timed_server)

-- Another thread asks for the stop.
abbrev after_call : TcpServer poller
after_call = queue_in_loop poller main_loop (stops true) after_accept

called_after_accept : Reach poller idle_server after_call
unfolding server_step handle_new_connection accept_connection next_loop TcpServer.new
    set_idle_timeout_seconds stop_gracefully_by
called_after_accept =
    next (stops_gracefully false true)
      (next (accepts 10 7) (next (sets_idle_timeout (pos 120)) here refl) refl) refl

counters_balanced_example :
    (after_call.total_connections ≡ after_call.next_cell)
    × (length after_call.connections + after_call.closed_connections ≤ after_call.total_connections)
unfolding enter_connection TcpServer.new
counters_balanced_example =
    counters_balanced poller 2 3 pollers callbacks called_after_accept (omega arith)

next_loop_fair_example :
    (nth_choice poller 0 idle_server ≡ sub_loop 0)
    × (0 < 2)
    × (nth_choice poller 0 idle_server ≢ nth_choice poller 1 idle_server)
unfolding TcpServer.new
next_loop_fair_example =
    next_loop_fair poller idle_server 0 1 (omega arith) (omega arith) (omega arith) (omega arith)

accept_lem_example :
    (t u : TcpServer poller) × (served : Served poller) × (handle_new_connection poller 10 7
        idle_server
      ≡ ok t)
    × (run_queue poller false 11 (sub_loop 0) (t.queues (sub_loop 0)) t ≡ ok u)
    × (find 7 u.connections ≡ some 0)
    × (u.cells 0 ≡ some served)
    × (served.io_loop ≡ sub_loop 0)
    × (is_connected poller served.conn ≡ true)
    × (Epoll.watched (u.pollers (sub_loop 0)) 7 ≡ some (record { reading = true; writing = false }))
unfolding TcpServer.new next_loop
accept_lem_example = accept_lem poller 10 11 7 idle_server refl (omega arith) refl new-IsValid

-- One connection, connected and with nothing to write, of this loop.
abbrev pub cell : Loop → Served poller
cell io_loop = record {
  conn = record (TcpConnection.new poller Epoll.new 5 callbacks 0) { state = connected };
  io_loop = io_loop;
}

abbrev pub serving : Loop → TcpServer poller
serving io_loop = record idle_server {
  started = true;
  cells = λ i. if i == 0 then some (cell io_loop) else none;
  next_cell = 1;
  total_connections = 1;
  connections = (5, 0) ∷ [];
  idle_timeout_seconds = 60;
}

sub_loop_close_example :
    (t u : TcpServer poller) × (conn_call poller
        (sub_loop 0)
        (λ c. ok (handle_close poller c))
        0
        (serving (sub_loop 0))
      ≡ ok t)
    × (run_queue poller false 20 main_loop (t.queues main_loop) t ≡ ok u)
    × (u.queues main_loop ≡ [])
    × (visible poller u ≡ visible poller (serving (sub_loop 0)))
    × (gone : Served poller) × (u.cells 0 ≡ some gone)
    × (is_disconnected poller gone.conn ≡ true)
unfolding TcpServer.new TcpConnection.new
sub_loop_close_example =
    sub_loop_close poller 0 0 20 (cell (sub_loop 0)) (serving (sub_loop 0)) refl refl refl refl

stop_gracefully_faults_example :
    stop_gracefully poller true (serving main_loop) ≡ fault invalid_iterator
unfolding TcpServer.new TcpConnection.new Buffer.new Buffer.readable_bytes
stop_gracefully_faults_example =
    stop_gracefully_faults poller true (serving main_loop) 5 0 [] (cell main_loop) refl refl refl
      refl refl refl refl refl refl (omega arith)

abbrev stopping : TcpServer poller
stopping = record (serving (sub_loop 0)) { stopping = true; has_shutdown_callback = true }

finalize_unforced_lem_example :
    (visible poller (finalize_unforced poller stopping)
      ≡ stopped poller (remaining poller stopping ((5, 0) ∷ [])) (visible poller stopping))
    × (finalize_unforced poller (finalize_unforced poller stopping)
        ≡ finalize_unforced poller stopping)
finalize_unforced_lem_example = finalize_unforced_lem poller stopping refl

deadline_lem_example :
    (t : TcpServer poller) × (finalize_graceful_stop poller true stopping ≡ ok t)
    × (visible poller t ≡ at_deadline poller (remaining poller stopping ((5, 0) ∷ [])) stopping)
    × ((id : ℕ)
        → has_cell id (remaining poller stopping ((5, 0) ∷ [])) ≡ true
        → cell_is_connected poller (t.cells id) ≡ false)
    × ((id : ℕ) → has_cell id ((5, 0) ∷ []) ≡ false → t.cells id ≡ stopping.cells id)
deadline_lem_example = deadline_lem poller stopping refl

scan_idle_connections_lem_example :
    (t : TcpServer poller) × (scan_idle_connections poller 90000 (serving main_loop) ≡ ok t)
    × (visible poller t ≡ visible poller (serving main_loop))
    × (cell_is_connected poller (t.cells 0) ≡ false)
    × ((if is_overdue poller 90000 (serving main_loop) 0
          then (serving main_loop).cells 0
          else t.cells 0)
        ≡ (serving main_loop).cells 0)
unfolding TcpServer.new TcpConnection.new
scan_idle_connections_lem_example = scan_idle_connections_lem poller 90000 0 (serving main_loop)

abbrev acceptor : Acceptor poller
acceptor = Acceptor.new poller Epoll.new 3 true
