-- ===== src/TcpServer/Removal.antt =====
-- src/tcpserver.cpp: the removal of connections from the table, the end of a graceful stop, and
-- the calls of a connection, which may call `HandleRemoveConnection` back.
use cpp_reactor_framework.Prelude.{
  ℕ, suc, ◌+◌, ◌%◌, Bool, true, false, ◌&&◌, ◌||◌, Option, none, some, List, [], ◌∷◌, Result, ok,
  ◌>>=◌, ◌==◌, if◌then◌else◌, size_mod,
}
use cpp_reactor_framework.Poller.{Poller}
use cpp_reactor_framework.TcpConnection.{
  TcpConnection, Notice, close_callback, high_water_mark_callback, is_connected,
}
use cpp_reactor_framework.TcpConnection.Calls.{connect_destroyed}
use cpp_reactor_framework.TcpServer.{
  Loop, main_loop, same_loop, destroys, removes, no_timers, Served, TcpServer, queue_in_loop, touch,
  fetch, put_back,
}

-- `m_connections` as a table; a socket that is not open has no entry.
abbrev pub has_key : Option ℕ → List (ℕ × ℕ) → Bool
has_key none table = false
has_key (some fd) [] = false
has_key (some fd) (entry ∷ table) = fd == entry.0 || has_key (some fd) table

unfoldable pub erase : Option ℕ → List (ℕ × ℕ) → List (ℕ × ℕ)
erase none table = table
erase (some fd) [] = []
erase (some fd) (entry ∷ table) = if fd == entry.0 then table else entry ∷ erase (some fd) table

abbrev pub is_empty : List (ℕ × ℕ) → Bool
is_empty [] = true
is_empty (entry ∷ table) = false

-- The close callback that a call made, with the descriptor the connection had then.
unfoldable pub called_close : List Notice → Option (Option ℕ)
called_close [] = none
called_close (close_callback fd ∷ ns) = some fd
called_close (n ∷ ns) = called_close ns

-- How often a call made the high water mark callback.
unfoldable pub called_high_water_mark : List Notice → ℕ
called_high_water_mark [] = 0
called_high_water_mark (high_water_mark_callback bytes ∷ ns) = suc (called_high_water_mark ns)
called_high_water_mark (n ∷ ns) = called_high_water_mark ns

module _ (P : Poller) where
  -- The cell's connection is connected.
  abbrev pub cell_is_connected : Option (Served P) → Bool
  cell_is_connected none = false
  cell_is_connected (some e) = is_connected P e.conn

  abbrev pub cell_loop : Option (Served P) → Loop
  cell_loop none = main_loop
  cell_loop (some e) = e.io_loop

  -- `conn->GetFd()`.
  abbrev pub cell_socket : Option (Served P) → Option ℕ
  cell_socket none = none
  cell_socket (some e) = e.conn.socket

  -- `io_loop->RunInLoop([conn]() { conn->ConnectDestroyed(); })`, from the main loop.
  unfoldable pub destroy_in_loop : ℕ → TcpServer P → TcpServer P
  destroy_in_loop id s =
      let io_loop = cell_loop (s.cells id) in
      if same_loop main_loop io_loop
      then touch P (connect_destroyed P) id s
      else queue_in_loop P io_loop (destroys id) s

  -- The first loop of `FinalizeGracefulStop`: the entries that stay, and those that do not.
  unfoldable pub connected_entries : TcpServer P → List (ℕ × ℕ) → List (ℕ × ℕ)
  connected_entries s [] = []
  connected_entries s (entry ∷ table) =
      let rest = connected_entries s table in
      if cell_is_connected (s.cells (entry.1)) then entry ∷ rest else rest

  unfoldable pub stale_entries : TcpServer P → List (ℕ × ℕ) → List (ℕ × ℕ)
  stale_entries s [] = []
  stale_entries s (entry ∷ table) =
      let rest = stale_entries s table in
      if cell_is_connected (s.cells (entry.1)) then rest else entry ∷ rest

  unfoldable pub destroy_all : List (ℕ × ℕ) → TcpServer P → TcpServer P
  destroy_all [] s = s
  destroy_all (entry ∷ table) s = destroy_all table (destroy_in_loop (entry.1) s)

  -- Both loops of `FinalizeGracefulStop`.
  unfoldable pub purge : TcpServer P → TcpServer P
  purge s =
      destroy_all (stale_entries s s.connections)
        (record s { connections = connected_entries s s.connections })

  -- The end of `FinalizeGracefulStop`: the timers, the flags and the callback.
  unfoldable pub finish : TcpServer P → TcpServer P
  finish s = record s {
    timers = no_timers;
    started = false;
    stopping = false;
    has_shutdown_callback = false;
    completions = if s.has_shutdown_callback then suc s.completions else s.completions;
  }

  -- `FinalizeGracefulStop(false)`.
  unfoldable pub finalize_unforced : TcpServer P → TcpServer P
  finalize_unforced s = if s.stopping then finish (purge s) else s

  -- The functor of `HandleRemoveConnection`, where `GetFd()` returns `fd`.
  unfoldable pub remove : ℕ → Option ℕ → TcpServer P → TcpServer P
  remove id fd s = if has_key fd s.connections then completed else s
    where
      erased : TcpServer P
      erased = destroy_in_loop id (record s {
        connections = erase fd s.connections;
        closed_connections = (s.closed_connections + 1) % size_mod;
      })

      completed : TcpServer P
      completed =
          if erased.stopping && is_empty erased.connections
          then finalize_unforced erased
          else erased

  -- The close callback, called on the thread of the loop `at`.
  unfoldable pub handle_remove_connection : Loop → ℕ → Option ℕ → TcpServer P → TcpServer P
  handle_remove_connection at id fd s =
      if same_loop at main_loop then remove id fd s else queue_in_loop P main_loop (removes id fd) s

  -- The callbacks into the server that a call of a connection made.
  unfoldable pub after_call : Loop → ℕ → List Notice → TcpServer P → TcpServer P
  after_call at id ns s = elim (called_close ns) [
    | none ↦ counted
    | some fd ↦ handle_remove_connection at id fd counted
  ]
    where
      counted : TcpServer P
      counted = record s {
        high_water_mark_triggered =
            (s.high_water_mark_triggered + called_high_water_mark ns) % size_mod;
      }

  -- A call of a connection on the thread of the loop `at`.
  unfoldable pub conn_call :
      Loop → (TcpConnection P → Result (TcpConnection P)) → ℕ → TcpServer P → Result (TcpServer P)
  conn_call at call id s = elim (s.cells id) [
    | none ↦ ok s
    | some e ↦ call (fetch P e s) >>= λ c. ok (after_call at id c.notices (put_back P id e c s))
  ]
