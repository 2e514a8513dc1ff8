-- ===== src/TcpServer.antt =====
-- include/tcpserver.h, src/tcpserver.cpp: the server, its main loop and its sub loops. The shared
-- connections are the cells of a store, by a number that is never used again, and `connections` is
-- `m_connections`: the descriptor that a connection was entered under, and the number of its cell, in
-- the order of an iteration. Each loop has one poller and one queue; a call brings its loop's
-- poller to the connection and takes it back. A functor of `RunInLoop` runs at once on its own
-- loop, and waits in the loop's queue elsewhere.
pub mod Removal
pub mod Calls
pub mod Runs
pub mod Counting
pub mod Counters
pub mod RoundRobin
pub mod Closing
pub mod Stopping
pub mod Forcing
pub mod Deadline
pub mod Ending
pub mod Defects
pub mod Accepting
pub mod Idle
pub mod Metrics
use cpp_reactor_framework.Prelude.{
  ℕ, suc, ◌+◌, ◌*◌, ◌%◌, Bool, true, false, Option, none, some, List, [], ◌∷◌, ◌++◌, Result, ok,
  ◌>>=◌, ltb, ◌==◌, if◌then◌else◌, size_mod, ℤ,
}
use cpp_reactor_framework.EventLoop.{at_least_zero}
use cpp_reactor_framework.Poller.{Poller}
use cpp_reactor_framework.TcpConnection
use cpp_reactor_framework.TcpConnection.{TcpConnection, Callbacks, Notice}
use cpp_reactor_framework.Acceptor
use cpp_reactor_framework.Acceptor.{Acceptor}

-- A loop: the one that accepts, or one of `m_sub_loops`.
pub data Loop : Type 0 where
  main_loop : Loop
  sub_loop : ℕ → Loop

-- Whether code that runs on the first loop is on the thread of the second.
abbrev pub same_loop : Loop → Loop → Bool
same_loop main_loop main_loop = true
same_loop (sub_loop i) (sub_loop j) = i == j
same_loop main_loop (sub_loop j) = false
same_loop (sub_loop i) main_loop = false

-- What waits in a loop's queue: `ConnectEstablished` or `ConnectDestroyed` of a connection, the
-- functor of `HandleRemoveConnection` with the descriptor that the connection had at the call, and
-- a call of `StopGracefully` with whether it has a callback.
pub data LoopFunctor : Type 0 where
  establishes destroys : ℕ → LoopFunctor
  removes : ℕ → Option ℕ → LoopFunctor
  stops : Bool → LoopFunctor

-- Whether the id of a timer is not 0. The deadline runs once: `deadline_armed` is whether the loop
-- still has it.
pub record Timers : Type 0 where
  pub idle_scan : Bool
  pub shutdown_check_timer : Bool
  pub shutdown_deadline_timer : Bool
  pub metrics_export : Bool
  pub deadline_armed : Bool

abbrev pub no_timers : Timers
no_timers = record {
  idle_scan = false;
  shutdown_check_timer = false;
  shutdown_deadline_timer = false;
  metrics_export = false;
  deadline_armed = false;
}

module _ (P : Poller) where
  -- A cell: a connection, and its `m_loop`.
  pub record Served : Type 0 where
    pub conn : TcpConnection P
    pub io_loop : Loop

  -- `completions` counts the calls of the callback of `StopGracefully`, `rejected` are the sockets
  -- that were closed as soon as they were accepted.
  pub record TcpServer : Type 0 where
    pub thread_num : ℕ
    pub next_loop_idx : ℕ
    pub started : Bool
    pub stopping : Bool
    pub acceptor : Acceptor P
    pub pollers : Loop → P.State
    pub cells : ℕ → Option Served
    pub next_cell : ℕ
    pub connections : List (ℕ × ℕ)
    pub queues : Loop → List LoopFunctor
    pub idle_timeout_seconds : ℕ
    pub timers : Timers
    pub exports_metrics : Bool
    pub total_connections : ℕ
    pub closed_connections : ℕ
    pub high_water_mark_triggered : ℕ
    pub high_water_mark_bytes : ℕ
    pub callbacks : Callbacks
    pub has_shutdown_callback : Bool
    pub completions : ℕ
    pub rejected : List ℕ
    pub loops_quit : Bool

  -- The constructor, for a socket that was created and bound. The callbacks of a connection are the
  -- user's, and the server's own for a close and for the high water mark.
  unfoldable pub new : ℕ → ℕ → (Loop → P.State) → Callbacks → TcpServer
  new thread_num listen_fd pollers user = record {
    thread_num = thread_num;
    next_loop_idx = 0;
    started = false;
    stopping = false;
    acceptor = Acceptor.new P (pollers main_loop) listen_fd true;
    pollers = pollers;
    cells = λ i. none;
    next_cell = 0;
    connections = [];
    queues = λ l. [];
    idle_timeout_seconds = 0;
    timers = no_timers;
    exports_metrics = false;
    total_connections = 0;
    closed_connections = 0;
    high_water_mark_triggered = 0;
    high_water_mark_bytes = 1024 * 1024;
    callbacks = record user { close = true; high_water_mark = true };
    has_shutdown_callback = false;
    completions = 0;
    rejected = [];
    loops_quit = false;
  }

  -- `std::max<size_t>(bytes, 1)`.
  unfoldable pub set_high_water_mark_bytes : ℕ → TcpServer → TcpServer
  set_high_water_mark_bytes bytes s = record s {
    high_water_mark_bytes = if ltb bytes 1 then 1 else bytes;
  }

  -- `std::max(seconds, 0)`.
  unfoldable pub set_idle_timeout_seconds : ℤ → TcpServer → TcpServer
  set_idle_timeout_seconds seconds s = record s { idle_timeout_seconds = at_least_zero seconds }

  -- `EnablePrometheusMetricsExport`, for whether the path is not empty.
  unfoldable pub enable_metrics_export : Bool → TcpServer → TcpServer
  enable_metrics_export has_path s = record s { exports_metrics = has_path }

  -- `m_next_loop_idx.fetch_add(1) % m_thread_num`, where there are sub loops.
  unfoldable pub next_loop : TcpServer → Loop × TcpServer
  next_loop s = if s.thread_num == 0 then (main_loop, s) else (
    sub_loop (s.next_loop_idx % s.thread_num),
    record s { next_loop_idx = (s.next_loop_idx + 1) % size_mod },
  )

  abbrev pub set_poller : Loop → P.State → TcpServer → TcpServer
  set_poller at p s = record s { pollers = λ l. if same_loop l at then p else s.pollers l }

  abbrev pub queue_in_loop : Loop → LoopFunctor → TcpServer → TcpServer
  queue_in_loop at f s = record s {
    queues = λ l. if same_loop l at then s.queues l ++ (f ∷ []) else s.queues l;
  }

  abbrev pub set_cell : ℕ → Served → TcpServer → TcpServer
  set_cell id e s = record s { cells = λ i. if i == id then some e else s.cells i }

  -- The connection as a call finds it: with its loop's poller, and nothing done yet.
  abbrev pub fetch : Served → TcpServer → TcpConnection P
  fetch e s = record (e.conn) { poller = s.pollers e.io_loop; notices = [] }

  -- What the call left: the poller is the loop's, and what was done comes before the earlier
  -- notices.
  unfoldable pub put_back : ℕ → Served → TcpConnection P → TcpServer → TcpServer
  put_back id e c s =
      set_cell id (record e { conn = record c { notices = c.notices ++ e.conn.notices } })
        (set_poller e.io_loop c.poller s)

  -- A call of a connection by the number of its cell.
  unfoldable pub touch : (TcpConnection P → TcpConnection P) → ℕ → TcpServer → TcpServer
  touch call id s = elim (s.cells id) [ none ↦ s | some e ↦ put_back id e (call (fetch e s)) s ]

  -- The acceptor's calls are on the main loop's thread.
  unfoldable pub with_acceptor : (Acceptor P → Acceptor P) → TcpServer → TcpServer
  with_acceptor call s =
      let a = call (record (s.acceptor) { poller = s.pollers main_loop }) in
      set_poller main_loop a.poller (record s { acceptor = a })
