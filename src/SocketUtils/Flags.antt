-- ===== src/SocketUtils/Flags.antt =====
-- src/socket_utils.cpp: `SetNonBlocking` on the flags of a descriptor.
use cpp_reactor_framework.Prelude.{ℕ, ◌*◌, ◌/◌, ◌%◌, ◌≡◌, Bool, true, false, arith}
use cpp_reactor_framework.SocketUtils.{o_nonblock, is_nonblocking, with_nonblock}

-- The bit is as asked for, and every other bit as it was.
pub with_nonblock_lem :
    (enable : Bool) (flags : ℕ)
    → (is_nonblocking (with_nonblock enable flags) ≡ enable)
      × (with_nonblock enable flags % o_nonblock ≡ flags % o_nonblock)
      × (with_nonblock enable flags / (2 * o_nonblock) ≡ flags / (2 * o_nonblock))
unfolding with_nonblock
with_nonblock_lem true flags = (ground arith, ground arith, ground arith)
with_nonblock_lem false flags = (ground arith, ground arith, ground arith)
