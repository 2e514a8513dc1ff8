-- ===== src/Buffer/Io.antt =====
-- src/buffer.cpp: `ReadFromFd` and `WriteToFd` (the Linux branches), and the 32-bit integers in
-- network byte order. What a system call returns is an argument.
use cpp_reactor_framework.Prelude.{
  ℕ, ◌+◌, ◌-◌, ◌*◌, ◌/◌, ◌%◌, ◌^◌, List, [], ◌∷◌, Result, ok, fault, out_of_range, ◌>>=◌, ltb, leb,
  ◌==◌, if◌then◌else◌, length, take, drop, add_size, sub_size, size_mod, to_int32, ℤ,
}
use cpp_reactor_framework.Buffer.{
  Buffer, readable_bytes, writable_bytes, peek, retrieve, copy_to, append,
}

-- What `readv` does: it moves the bytes given, or it returns -1 and sets `errno`.
pub data ReadOutcome : Type 0 where
  got : List ℕ → ReadOutcome
  read_failed : ℕ → ReadOutcome

-- What `write` does: it takes that many bytes, or it returns -1 and sets `errno`.
pub data WriteOutcome : Type 0 where
  took : ℕ → WriteOutcome
  write_failed : ℕ → WriteOutcome

-- The value of `n`: a count, or -1.
pub data Count : Type 0 where
  count : ℕ → Count
  minus_one : Count

-- `static_cast<size_t>(n)`.
abbrev pub to_size : Count → ℕ
to_size (count n) = n
to_size minus_one = size_mod - 1

-- The result of a call: `n`, and what `*saved_errno` holds (0 is the caller's initial value).
pub record IoResult : Type 0 where
  pub n : Count
  pub errno : ℕ

abbrev pub extrabuf_size : ℕ
extrabuf_size = 65536

-- What the vectors offered to `readv` hold together: `extrabuf` is offered below 64K only.
unfoldable pub read_capacity : Buffer → ℕ
read_capacity b =
    if ltb (writable_bytes b) extrabuf_size
    then writable_bytes b + extrabuf_size
    else writable_bytes b

abbrev pub read_result : ReadOutcome → IoResult
read_result (got bytes) = record { n = count (length bytes); errno = 0 }
read_result (read_failed e) = record { n = minus_one; errno = e }

abbrev pub read_bytes : ReadOutcome → List ℕ
read_bytes (got bytes) = bytes
read_bytes (read_failed e) = []

-- The bytes fill the writable part first and then `extrabuf`. After a failure `n` is -1, which the
-- cast turns into the largest `size_t`.
unfoldable pub read_from_fd : Buffer → ReadOutcome → Result (IoResult × Buffer)
read_from_fd b outcome = do
  let writable : ℕ = writable_bytes b
  let n : ℕ = to_size (read_result outcome).n
  let extrabuf : List ℕ = drop writable (read_bytes outcome)
  filled ← copy_to b.buf b.write_idx (take writable (read_bytes outcome))
  b' ←
      if leb n writable
      then ok (record b { buf = filled; write_idx = add_size b.write_idx n })
      else append (record b { buf = filled; write_idx = length b.buf }) extrabuf
          (sub_size n writable)
  ok (read_result outcome, b')

abbrev pub write_result : WriteOutcome → IoResult
write_result (took k) = record { n = count k; errno = 0 }
write_result (write_failed e) = record { n = minus_one; errno = e }

-- `if (n > 0) Retrieve(n)`.
abbrev pub retrieve_taken : Buffer → WriteOutcome → Result Buffer
retrieve_taken b (took k) = if ltb 0 k then retrieve b k else ok b
retrieve_taken b (write_failed e) = ok b

-- With nothing to write the system call is not made.
unfoldable pub write_to_fd : Buffer → WriteOutcome → Result (IoResult × Buffer)
write_to_fd b outcome =
    if readable_bytes b == 0 then ok (record { n = count 0; errno = 0 }, b) else written
  where
    written : Result (IoResult × Buffer)
    written = do b' ← retrieve_taken b outcome; ok (write_result outcome, b')

-- The `uint32_t` whose bytes in network order these are: `ntohl` after `memcpy`.
unfoldable pub net_to_host_long : List ℕ → Result ℕ
net_to_host_long (b3 ∷ b2 ∷ b1 ∷ b0 ∷ []) = ok (((b3 * 256 + b2) * 256 + b1) * 256 + b0)
net_to_host_long bytes = fault out_of_range

-- The bytes in network order of a `uint32_t`: `memcpy` after `htonl`.
unfoldable pub host_to_net_long : ℕ → List ℕ
host_to_net_long w = (w / 2 ^ 24 % 256) ∷ (w / 2 ^ 16 % 256) ∷ (w / 2 ^ 8 % 256) ∷ (w % 256) ∷ []

unfoldable pub peek_int32 : Buffer → Result ℤ
peek_int32 b = do bytes ← peek b 4; w ← net_to_host_long bytes; ok (to_int32 w)

-- `x` is the bit pattern of the integer.
unfoldable pub append_int32 : Buffer → ℕ → Result Buffer
append_int32 b x = append b (host_to_net_long x) 4
