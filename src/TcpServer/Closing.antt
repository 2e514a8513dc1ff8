-- ===== src/TcpServer/Closing.antt =====
-- src/tcpserver.cpp: what the server sees of a connection that ends.
use cpp_reactor_framework.Prelude.{◌≡◌, ◌⊎◌, Bool, true, false, none, some, [], arith}
use cpp_reactor_framework.Poller.{Poller}
use cpp_reactor_framework.TcpConnection.{
  TcpConnection, is_connected, is_disconnected, set_events, remove_if_added, close_socket,
}
use cpp_reactor_framework.TcpConnection.Handlers.{close, handle_close}
use cpp_reactor_framework.TcpConnection.Calls.{force_close_in_loop, force_close}
use cpp_reactor_framework.TcpServer.Removal.{called_close}

module _ (P : Poller) where
  -- The close callback of `HandleClose` finds the socket, which is closed afterwards.
  pub handle_close_seen :
      (c : TcpConnection P)
      → is_disconnected P c ≡ false
      → c.callbacks.close ≡ true
      → (called_close (handle_close P c).notices ≡ some c.socket)
        × ((handle_close P c).socket ≡ none)
        × (is_disconnected P (handle_close P c) ≡ true)
  unfolding handle_close close remove_if_added set_events close_socket called_close
  handle_close_seen c going told = ground arith

  -- The close callback of `ForceClose` finds no socket.
  pub force_close_seen :
      (in_loop : Bool) (c : TcpConnection P)
      → c.notices ≡ []
      → ((called_close (force_close P in_loop c).notices ≡ none)
          ⊎ (called_close (force_close P in_loop c).notices ≡ some none))
        × (is_connected P (force_close P in_loop c) ≡ false)
  unfolding force_close force_close_in_loop set_events close_socket called_close
  force_close_seen in_loop c fresh = ground arith
