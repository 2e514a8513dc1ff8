-- ===== src/Buffer.antt =====
-- include/buffer.h, src/buffer.cpp: the read and write buffer of a connection. Bytes are numbers below 256; `m_buf.size()` is the length of
-- `buf`. A pointer into the buffer is an index of `buf`. An `assert`, an exception of the
-- container and an access outside a block end a call with a fault. The Linux branches are modelled.
pub mod Io
pub mod Search
pub mod View
pub mod Space
pub mod Refine
pub mod Sequences
pub mod ReadWrite
pub mod Integers
pub mod FirstMatch
use cpp_reactor_framework.Prelude.{
  ℕ, ◌+◌, ◌-◌, ◌^◌, List, ◌++◌, Result, ok, fault, length_error, ◌>>=◌, ◌>>◌, assert, in_range, ltb,
  leb, ◌==◌, if◌then◌else◌, length, take, drop, replicate, add_size, sub_size,
}

pub record Buffer : Type 0 where
  pub buf : List ℕ
  pub read_idx : ℕ
  pub write_idx : ℕ

-- `kInitialSize`.
abbrev pub initial_size : ℕ
initial_size = 1024

-- `std::vector<char>::max_size()` on a 64-bit system.
abbrev pub max_size : ℕ
max_size = 2 ^ 63 - 1

-- The constructor: `size` zero bytes.
unfoldable pub new : ℕ → Buffer
new size = record { buf = replicate size 0; read_idx = 0; write_idx = 0 }

unfoldable pub readable_bytes : Buffer → ℕ
readable_bytes b = sub_size b.write_idx b.read_idx

unfoldable pub writable_bytes : Buffer → ℕ
writable_bytes b = sub_size (length b.buf) b.write_idx

abbrev pub prependable_bytes : Buffer → ℕ
prependable_bytes b = b.read_idx

-- The bytes of `[Peek(), Peek() + len)`.
unfoldable pub peek : Buffer → ℕ → Result (List ℕ)
peek b len = do
  in_range (leb (b.read_idx + len) (length b.buf))
  ok (take len (drop b.read_idx b.buf))

unfoldable pub retrieve : Buffer → ℕ → Result Buffer
retrieve b len = do
  assert (leb len (readable_bytes b))
  ok (record b { read_idx = add_size b.read_idx len })

-- `end` is an index of the buffer.
unfoldable pub retrieve_until : Buffer → ℕ → Result Buffer
retrieve_until b end = do assert (leb b.read_idx end); retrieve b (end - b.read_idx)

unfoldable pub retrieve_all : Buffer → Buffer
retrieve_all b = record b { read_idx = 0; write_idx = 0 }

unfoldable pub retrieve_as_string : Buffer → ℕ → Result (List ℕ × Buffer)
retrieve_as_string b len = do
  assert (leb len (readable_bytes b))
  result ← peek b len
  b' ← retrieve b len
  ok (result, b')

unfoldable pub retrieve_all_as_string : Buffer → Result (List ℕ × Buffer)
retrieve_all_as_string b = retrieve_as_string b (readable_bytes b)

-- `std::copy` of `bytes` to the index `i`.
unfoldable pub copy_to : List ℕ → ℕ → List ℕ → Result (List ℕ)
copy_to buf i bytes = do
  in_range (leb (i + length bytes) (length buf))
  ok (take i buf ++ (bytes ++ drop (i + length bytes) buf))

-- `std::vector::resize`.
unfoldable pub resize : List ℕ → ℕ → Result (List ℕ)
resize buf n =
    if ltb max_size n then fault length_error else ok (take n buf ++ replicate (n - length buf) 0)

unfoldable pub make_space : Buffer → ℕ → Result Buffer
make_space b len =
    if leb len (add_size (prependable_bytes b) (writable_bytes b)) then move else grow
  where
    readable : ℕ
    readable = readable_bytes b

    move : Result Buffer
    move = do
      buf ← copy_to b.buf 0 (take (b.write_idx - b.read_idx) (drop b.read_idx b.buf))
      let moved : Buffer = record { buf = buf; read_idx = 0; write_idx = readable }
      assert (readable == readable_bytes moved)
      ok moved

    grow : Result Buffer
    grow = do buf ← resize b.buf (add_size b.write_idx len); ok (record b { buf = buf })

unfoldable pub ensure_writable_bytes : Buffer → ℕ → Result Buffer
ensure_writable_bytes b len = if leb len (writable_bytes b) then ok b else made
  where
    made : Result Buffer
    made = do b' ← make_space b len; assert (leb len (writable_bytes b')); ok b'

unfoldable pub has_written : Buffer → ℕ → Result Buffer
has_written b len = do
  assert (leb len (writable_bytes b))
  ok (record b { write_idx = add_size b.write_idx len })

-- `Append(data, len)`: `data` is the block behind the pointer, of which `len` bytes are read.
unfoldable pub append : Buffer → List ℕ → ℕ → Result Buffer
append b block len = do
  b' ← ensure_writable_bytes b len
  in_range (leb len (length block))
  buf ← copy_to b'.buf b'.write_idx (take len block)
  ok (record b' { buf = buf; write_idx = add_size b'.write_idx len })

unfoldable pub append_string : Buffer → List ℕ → Result Buffer
append_string b str = append b str (length str)

unfoldable pub prepend : Buffer → List ℕ → Result Buffer
prepend b block = do
  assert (leb (length block) (prependable_bytes b))
  let start : ℕ = sub_size b.read_idx (length block)
  buf ← copy_to b.buf start block
  ok (record b { buf = buf; read_idx = start })
