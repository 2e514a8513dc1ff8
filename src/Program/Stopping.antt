-- ===== src/Program/Stopping.antt =====
-- src/main.cpp: how a signal ends the program: the handler sets a flag, a timer of the main loop looks
-- at it, and the callback of the graceful stop ends the main loop. The steps come in any order.
use cpp_reactor_framework.Prelude.{
  ℕ, Bool, true, false, ◌&&◌, ◌||◌, Result, ok, ◌>>=◌, ltb, ◌==◌, if◌then◌else◌,
}
use cpp_reactor_framework.Poller.{Poller}
use cpp_reactor_framework.TcpServer.{TcpServer}
use cpp_reactor_framework.TcpServer.Calls.{stop_gracefully}

abbrev pub sigint : ℕ
sigint = 2

module _ (P : Poller) where
  -- `has_main_loop` is whether `g_main_loop` is set, `quits` whether `Quit` of the main loop was
  -- called.
  pub record Program : Type 0 where
    pub stop_requested : Bool
    pub has_main_loop : Bool
    pub server : TcpServer P
    pub quits : Bool

  unfoldable pub handle_signal : ℕ → Program → Program
  handle_signal signo p =
      if signo == sigint && p.has_main_loop then record p { stop_requested = true } else p

  -- The callback of `StopGracefully` calls `Quit`.
  abbrev pub with_server : TcpServer P → Program → Program
  with_server s p = record p {
    server = s;
    quits = p.quits || ltb p.server.completions s.completions;
  }

  -- The timer of a fifth of a second: `g_stop_requested.exchange(false)`, and `StopGracefully`.
  unfoldable pub stop_server : Program → Result Program
  stop_server p = do
    s ← stop_gracefully P true p.server
    ok (with_server s (record p { stop_requested = false }))

  unfoldable pub check_stop : Program → Result Program
  check_stop p = if p.stop_requested then stop_server p else ok p
