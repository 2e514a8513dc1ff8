-- ===== src/TcpConnection.antt =====
-- include/tcpconnection.h, src/tcpconnection.cpp: one connection, with its socket, its channel and
-- the poller of its loop. The calls that the code makes outwards are the list of `notices`, newest
-- first. A callback of the user is whether it was set; a callback that runs in the middle of a
-- function (high water mark, close) does not call the connection back. Functions that begin with
-- `AssertInLoopThread` are called on the loop thread.
pub mod Handlers
pub mod Calls
pub mod Invariant
pub mod Closing
pub mod Sending
pub mod Ready
pub mod Writing
pub mod Runs
pub mod Bytes
pub mod Delivery
pub mod Defects
use cpp_reactor_framework.Prelude.{
  ℕ, ◌+◌, ◌*◌, ◌%◌, Bool, true, false, Option, none, some, List, [], ◌∷◌, ◌==◌, if◌then◌else◌,
}
use cpp_reactor_framework.Buffer
use cpp_reactor_framework.Buffer.{Buffer, initial_size}
use cpp_reactor_framework.Channel
use cpp_reactor_framework.Channel.{Channel, Events, none_event}
use cpp_reactor_framework.Poller.{Poller}

pub data ConnectionState : Type 0 where
  connecting connected disconnecting disconnected : ConnectionState

-- What the connection does outwards: its callbacks (the close callback with what `GetFd()` returns
-- at that moment), the bytes that the system took, and the close of the socket.
pub data Notice : Type 0 where
  connection_callback message_callback write_complete_callback : Notice
  close_callback : Option ℕ → Notice
  high_water_mark_callback : ℕ → Notice
  sent : List ℕ → Notice
  closed_socket : Notice

-- A functor that `QueueInLoop` holds for this connection.
pub data Functor : Type 0 where
  send_functor : List ℕ → Functor
  shutdown_functor force_close_functor : Functor

pub record Callbacks : Type 0 where
  pub connection : Bool
  pub message : Bool
  pub write_complete : Bool
  pub close : Bool
  pub high_water_mark : Bool

abbrev pub eagain : ℕ
eagain = 11

-- `IsNormalWouldBlock`: EAGAIN and EWOULDBLOCK are one number on Linux.
abbrev pub is_normal_would_block : ℕ → Bool
is_normal_would_block err = err == eagain

module _ (P : Poller) where
  -- `socket` is none where the source has INVALID_SOCKET_VALUE.
  pub record TcpConnection : Type 0 where
    pub state : ConnectionState
    pub socket : Option ℕ
    pub channel : Channel
    pub poller : P.State
    pub last_active_ms : ℕ
    pub input_buffer : Buffer
    pub output_buffer : Buffer
    pub pending_write_bytes : ℕ
    pub total_bytes_read : ℕ
    pub total_bytes_written : ℕ
    pub high_water_mark : ℕ
    pub callbacks : Callbacks
    pub pending_functors : List Functor
    pub notices : List Notice

  -- The constructor, for an accepted socket; its loop's poller does not know the descriptor yet.
  unfoldable pub new : P.State → ℕ → Callbacks → ℕ → TcpConnection
  unfolding Channel.new
  new poller fd callbacks now = record {
    state = connecting;
    socket = some fd;
    channel = record (Channel.new fd) {
      has_read_callback = true;
      has_write_callback = true;
      has_error_callback = true;
      has_close_callback = true;
    };
    poller = poller;
    last_active_ms = now;
    input_buffer = Buffer.new initial_size;
    output_buffer = Buffer.new initial_size;
    pending_write_bytes = 0;
    total_bytes_read = 0;
    total_bytes_written = 0;
    high_water_mark = 1024 * 1024;
    callbacks = callbacks;
    pending_functors = [];
    notices = [];
  }

  abbrev pub is_connected : TcpConnection → Bool
  is_connected c = elim c.state [ connected ↦ true | _ ↦ false ]

  abbrev pub is_disconnected : TcpConnection → Bool
  is_disconnected c = elim c.state [ disconnected ↦ true | _ ↦ false ]

  -- `Connected` or `Disconnecting`.
  abbrev pub is_open : TcpConnection → Bool
  is_open c = elim c.state [ connected ↦ true | disconnecting ↦ true | _ ↦ false ]

  abbrev pub notify : Notice → TcpConnection → TcpConnection
  notify n c = record c { notices = n ∷ c.notices }

  -- `if (m_..._callback) m_..._callback(...)`.
  abbrev pub notify_if : Bool → Notice → TcpConnection → TcpConnection
  notify_if is_set n c = if is_set then notify n c else c

  abbrev pub refresh_active_time : ℕ → TcpConnection → TcpConnection
  refresh_active_time now c = record c { last_active_ms = now }

  -- The channel's events become `e`, and the loop's poller is told.
  unfoldable pub set_events : Events → TcpConnection → TcpConnection
  set_events e c =
      let (p, ch) = P.update_channel c.poller (record channel { events = e }) in
      record c { poller = p; channel = ch }
    where
      open c use {channel}

  abbrev pub enable_reading : TcpConnection → TcpConnection
  enable_reading c = set_events (record { reading = true; writing = c.channel.events.writing }) c

  abbrev pub disable_reading : TcpConnection → TcpConnection
  disable_reading c = set_events (record { reading = false; writing = c.channel.events.writing }) c

  abbrev pub enable_writing : TcpConnection → TcpConnection
  enable_writing c = set_events (record { reading = c.channel.events.reading; writing = true }) c

  abbrev pub disable_writing : TcpConnection → TcpConnection
  disable_writing c = set_events (record { reading = c.channel.events.reading; writing = false }) c

  abbrev pub disable_all : TcpConnection → TcpConnection
  disable_all c = set_events none_event c

  -- `if (m_channel->IsAdded()) m_loop->RemoveChannel(...)`.
  unfoldable pub remove_if_added : TcpConnection → TcpConnection
  remove_if_added c =
      let (p, ch) = P.remove_channel c.poller c.channel in
      if c.channel.added then record c { poller = p; channel = ch } else c

  -- `Socket::Close`.
  unfoldable pub close_socket : TcpConnection → TcpConnection
  close_socket c = elim c.socket [
    | none ↦ c
    | some fd ↦ record c { socket = none; notices = closed_socket ∷ c.notices }
  ]
