-- ===== src/Examples/Programs.antt =====
-- The theorems on the program at concrete inputs.
use cpp_reactor_framework.Prelude.{
  ℕ, suc, ◌≡◌, refl, Bool, true, false, ◌||◌, List, [], ◌∷◌, ◌++◌, arith, ok, if◌then◌else◌,
}
use cpp_reactor_framework.Buffer
use cpp_reactor_framework.Buffer.{writable_bytes}
use cpp_reactor_framework.Buffer.Io.{read_capacity, host_to_net_long}
use cpp_reactor_framework.Buffer.View.{content}
use cpp_reactor_framework.Codec.{LengthFieldCodec, default_max_frame_len, framed}
use cpp_reactor_framework.Codec.Frames.{Decodes}
use cpp_reactor_framework.Poller.Epoll.{poller}
use cpp_reactor_framework.TcpConnection
use cpp_reactor_framework.TcpConnection.{TcpConnection, is_connected, is_disconnected}
use cpp_reactor_framework.TcpConnection.Bytes.{stream}
use cpp_reactor_framework.Program.Replies.{replies}
use cpp_reactor_framework.Program.History.{
  Traffic, arrives, arrived, serve, Serves, begins, Fresh, serve_goes_on, echo_lem, echo-frames,
}
use cpp_reactor_framework.TcpServer
use cpp_reactor_framework.TcpServer.{no_timers}
use cpp_reactor_framework.TcpServer.Stopping.{visible}
use cpp_reactor_framework.Program.Stopping.{Program, sigint, handle_signal, check_stop}
use cpp_reactor_framework.Program.Interrupt.{interrupt_lem}
use cpp_reactor_framework.Examples.Servers.{idle_server}
use cpp_reactor_framework.Examples.Connections.{running, running-IsValid}

abbrev codec : LengthFieldCodec
codec = record { has_message_callback = true; max_frame_len = default_max_frame_len }

running-Fresh : Fresh poller codec running
unfolding TcpConnection.new Buffer.new
running-Fresh = record {
  set = refl;
  told = refl;
  valid = running-IsValid;
  going = refl;
  empty = refl;
}

-- A frame of one byte, of which five bytes arrive at once.
abbrev frame : Traffic
frame = arrives 2 (0 ∷ 0 ∷ 0 ∷ 1 ∷ 9 ∷ [])

serve_goes_on_example :
    (c : TcpConnection poller) × (serve poller codec frame running ≡ ok c)
    × Serves poller codec running c ([] ++ arrived frame) false
unfolding TcpConnection.new Buffer.new read_capacity writable_bytes
serve_goes_on_example =
    serve_goes_on poller codec frame running-Fresh (begins refl refl) refl
      (omega arith, ground arith, omega arith, omega arith)

served :
    (c : TcpConnection poller) × (serve poller codec frame running ≡ ok c)
    × Serves poller codec running c ([] ++ arrived frame) false
unfolding TcpConnection.new Buffer.new read_capacity writable_bytes
served =
    serve_goes_on poller codec frame running-Fresh (begins refl refl) refl
      (omega arith, ground arith, omega arith, omega arith)

echo_lem_example :
    (ms : List (List ℕ)) × (closed : Bool) × Decodes default_max_frame_len
      (0 ∷ 0 ∷ 0 ∷ 1 ∷ 9 ∷ [])
      ms
      closed
      (content served.0.input_buffer)
    × (stream poller served.0 ≡ stream poller running ++ replies ms)
    × ((if closed || false then is_disconnected poller served.0 else is_connected poller served.0)
        ≡ true)
echo_lem_example = echo_lem poller codec running-Fresh served.2

echo-frames_example :
    (stream poller served.0 ≡ stream poller running ++ replies ((9 ∷ []) ∷ []))
    × (is_connected poller served.0 ≡ true)
    × (content served.0.input_buffer ≡ [])
unfolding framed host_to_net_long
echo-frames_example =
    echo-frames poller codec ((9 ∷ []) ∷ []) running-Fresh served.2 ((omega arith, omega arith), tt)
      refl

-- The server has started, and no client has come.
abbrev waiting : Program poller
waiting = record {
  stop_requested = false;
  has_main_loop = true;
  server = record idle_server { started = true };
  quits = false;
}

interrupt_lem_example :
    (p : Program poller) × (check_stop poller (handle_signal poller sigint waiting) ≡ ok p)
    × (p.quits ≡ true)
    × (p.stop_requested ≡ false)
    × (visible poller p.server ≡ record (visible poller waiting.server) {
      started = false;
      stopping = false;
      connections = [];
      timers = no_timers;
      has_shutdown_callback = false;
      completions = suc waiting.server.completions;
    })
unfolding TcpServer.new
interrupt_lem_example = interrupt_lem poller waiting refl refl refl refl
