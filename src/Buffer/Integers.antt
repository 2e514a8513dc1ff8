-- ===== src/Buffer/Integers.antt =====
-- src/buffer.cpp: `PeekInt32` and `AppendInt32`, 32-bit integers in network byte order.
use cpp_reactor_framework.Prelude.{
  ℕ, ◌+◌, ◌^◌, ◌≤◌, ◌<◌, ◌≡◌, ap, ◌∙◌, [], ◌++◌, arith, ok, length, take, to_int32, ◌>>=◌,
}
use cpp_reactor_framework.Buffer.{Buffer, max_size, append_string}
use cpp_reactor_framework.Buffer.Io.{net_to_host_long, host_to_net_long, peek_int32, append_int32}
use cpp_reactor_framework.Buffer.View.{IsValid, content}
use cpp_reactor_framework.Buffer.Refine.{append-Yields, peek_valid}

-- The four bytes of a word give the word back.
pub net_to_host_long-host_to_net_long :
    (w : ℕ) → w < 2 ^ 32 → net_to_host_long (host_to_net_long w) ≡ ok w
unfolding net_to_host_long host_to_net_long
net_to_host_long-host_to_net_long w h = ap ok (omega arith)

-- `PeekInt32` reads the first four bytes.
pub peek_int32_lem :
    (b : Buffer)
    → IsValid b
    → 4 ≤ length (content b)
    → peek_int32 b ≡ (net_to_host_long (take 4 (content b)) >>= λ w. ok (to_int32 w))
unfolding peek_int32
peek_int32_lem b v h = rw (peek_valid b 4 v h)

-- A 32-bit word appended to an empty buffer in order with room for it is the integer that
-- `PeekInt32` then reads.
pub peek_int32-append_int32 :
    (b : Buffer) (w : ℕ)
    → IsValid b
    → content b ≡ []
    → b.write_idx + 4 ≤ max_size
    → w < 2 ^ 32
    → (append_int32 b w >>= peek_int32) ≡ ok (to_int32 w)
unfolding append_int32 append_string host_to_net_long
peek_int32-append_int32 b w v e room h =
    let (b', appended, valid, same, size) = append-Yields b (host_to_net_long w) v room in
    let bytes : content b' ≡ host_to_net_long w = same ∙ ap (λ l. l ++ host_to_net_long w) e in
    rw appended (
      peek_int32_lem b' valid (rw bytes (omega arith))
      ∙ ap (λ l. net_to_host_long (take 4 l) >>= λ x. ok (to_int32 x)) bytes
      ∙ ap (λ r. r >>= λ x. ok (to_int32 x)) (net_to_host_long-host_to_net_long w h))
