-- ===== src/Socket.antt =====
-- include/socket.h, src/socket.cpp: the sockets that are alive, by their numbers, and which
-- descriptor each one owns: none where the source has INVALID_SOCKET_VALUE, as a socket that was
-- moved from or destroyed has. What a system call returns is an argument: none where it failed.
pub mod Ownership
pub mod Connecting
pub mod Options
use cpp_reactor_framework.Prelude.{
  ℕ, zero, suc, Bool, true, false, Option, none, some, List, [], ◌∷◌, ◌++◌, ◌==◌, ◌||◌,
  if◌then◌else◌, ℤ, pos, negsuc, set_at, get_elem?,
}
use cpp_reactor_framework.TcpConnection.{is_normal_would_block}
use cpp_reactor_framework.TcpClient.{ConnectOutcome, connected_now, in_progress, failed}

-- `opened` are the descriptors that the system gave out, and `closed` those that were given to
-- `CloseSocket`, newest first.
pub record Sockets : Type 0 where
  pub sockets : List (Option ℕ)
  pub opened : List ℕ
  pub closed : List ℕ

abbrev pub no_sockets : Sockets
no_sockets = record { sockets = []; opened = []; closed = [] }

-- The descriptor of a socket; one that does not exist has none.
abbrev pub joined : Option (Option ℕ) → Option ℕ
joined none = none
joined (some o) = o

unfoldable pub get_fd : ℕ → Sockets → Option ℕ
get_fd i w = joined (get_elem? w.sockets i)

-- A new socket that owns what the system gave out.
unfoldable pub adopt : Option ℕ → Sockets → Sockets
adopt none w = record w { sockets = w.sockets ++ (none ∷ []) }
adopt (some fd) w = record w { sockets = w.sockets ++ (some fd ∷ []); opened = fd ∷ w.opened }

-- `Socket()` and `CreateNonBlocking`, for what `socket` returns.
unfoldable pub create : Option ℕ → Sockets → Sockets
unfolding adopt
create fd w = adopt fd w

-- `Accept`, for what `accept` returns: there is a new socket only if it is a descriptor.
unfoldable pub accept : ℕ → Option ℕ → Sockets → Sockets
accept i client w = elim (get_fd i w) [
  | none ↦ w
  | some fd ↦ elim client [ none ↦ w | some client_fd ↦ adopt (some client_fd) w ]
]

-- `Socket(Socket&& other)`.
unfoldable pub move_construct : ℕ → Sockets → Sockets
move_construct other w = record w { sockets = set_at other none w.sockets ++ (get_fd other w ∷ []) }

unfoldable pub close : ℕ → Sockets → Sockets
close i w = elim (get_fd i w) [
  | none ↦ w
  | some fd ↦ record w { sockets = set_at i none w.sockets; closed = fd ∷ w.closed }
]

-- `operator=(Socket&& other)`.
unfoldable pub move_assign : ℕ → ℕ → Sockets → Sockets
unfolding close
move_assign i other w = if i == other then w else swapped (close i w)
  where
    swapped : Sockets → Sockets
    swapped v = record v {
      sockets = set_at i (get_fd other v) (set_at other (get_fd i v) v.sockets);
    }

-- The destructor.
unfoldable pub destroy : ℕ → Sockets → Sockets
destroy i w = close i w

-- `kConnectInProgress`.
abbrev pub connect_in_progress : ℤ
connect_in_progress = negsuc 0

abbrev pub einprogress : ℕ
einprogress = 115

-- `Connect`, for whether the socket is valid, and the error of `connect`, if it failed. An error
-- number is not 0.
unfoldable pub connect : Bool → Option ℕ → ℤ
connect false error = negsuc 0
connect true none = pos 0
connect true (some error) =
    if error == einprogress || is_normal_would_block error then connect_in_progress else minus error
  where
    minus : ℕ → ℤ
    minus zero = pos 0
    minus (suc n) = negsuc n

-- How `TcpClient::Connect` reads the result.
unfoldable pub connect_outcome : ℤ → ConnectOutcome
connect_outcome (pos zero) = connected_now
connect_outcome (negsuc zero) = in_progress
connect_outcome (pos (suc n)) = failed
connect_outcome (negsuc (suc n)) = failed
