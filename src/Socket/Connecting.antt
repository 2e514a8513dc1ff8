-- ===== src/Socket/Connecting.antt =====
-- src/socket.cpp, src/tcpclient.cpp: what the client makes of the result of `Socket::Connect`.
use cpp_reactor_framework.Prelude.{
  ℕ, ◌≡◌, ◌<◌, refl, Bool, true, false, ◌||◌, not, some, ◌==◌, if◌then◌else◌, arith,
}
use cpp_reactor_framework.TcpConnection.{is_normal_would_block}
use cpp_reactor_framework.TcpClient.{in_progress, failed}
use cpp_reactor_framework.Socket.{connect, connect_outcome, einprogress}

-- The error number of a connection that a local rule forbids.
abbrev pub eperm : ℕ
eperm = 1

-- What the caller should wait for: a connection that the system goes on with.
abbrev pub is_pending : ℕ → Bool
is_pending error = error == einprogress || is_normal_would_block error

-- How a client reads a failed `Socket::Connect`: it waits for the connection if the socket is
-- invalid, if the system goes on connecting, or if the error is 1 (EPERM); every other error is a
-- failure.
pub connect-outcome :
    (valid : Bool) (error : ℕ)
    → 0 < error
    → connect_outcome (connect valid (some error))
      ≡ (if not valid || is_pending error || error == eperm then in_progress else failed)
unfolding connect connect_outcome
connect-outcome false error some_error = refl
connect-outcome true error some_error = ground arith
