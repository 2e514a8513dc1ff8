-- ===== src/Buffer/Refine.antt =====
-- src/buffer.cpp: each operation on a buffer in order is the operation of a byte queue.
use cpp_reactor_framework.Prelude.{
  ℕ, ◌+◌, ◌-◌, ◌≤◌, ◌<◌, ◌≡◌, refl, sym, ap, ◌∙◌, List, [], ◌++◌, arith, Result, ok, fault, length,
  take, drop, length-take, length-replicate, take_all, drop-append_right, take-append_right,
  assertion_failed, drop_all, sub_size, ap₂,
}
use cpp_reactor_framework.Buffer.{
  Buffer, max_size, new, peek, retrieve, retrieve_all, retrieve_as_string, retrieve_all_as_string,
  append, append_string, prepend, ensure_writable_bytes,
}
use cpp_reactor_framework.Buffer.View.{
  IsValid, content, length-content, readable_bytes_lem, readable_bytes-content, take-content,
  drop-content, slice-splice,
}
use cpp_reactor_framework.Buffer.Space.{
  Fits, copy_to_lem, length-splice, ensure_writable_bytes-Fits,
}

-- A call that returns a buffer in order, which holds `bytes`.
abbrev pub Yields : Result Buffer → List ℕ → Type 0
Yields r bytes = (b : Buffer) × (r ≡ ok b) × IsValid b × (content b ≡ bytes)

pub new-IsValid : (size : ℕ) → size ≤ max_size → IsValid (new size) × (content (new size) ≡ [])
unfolding new
new-IsValid size h = (
  record {
    ordered = omega arith;
    inside = omega arith;
    small = omega (arith, length-replicate {A = ℕ} size 0);
  },
  refl,
)

-- The buffer that `Append` leaves, from the buffer that was made to fit.
abbrev pub written : Buffer → List ℕ → Buffer
written b bytes = record b {
  buf = take b.write_idx b.buf ++ (bytes ++ drop (b.write_idx + length bytes) b.buf);
  write_idx = b.write_idx + length bytes;
}

-- Behind room for `bytes`, writing them adds them at the end.
pub written-content :
    (b : Buffer) (bytes : List ℕ)
    → IsValid b
    → b.write_idx + length bytes ≤ length b.buf
    → IsValid (written b bytes) × (content (written b bytes) ≡ content b ++ bytes)
written-content b bytes v h = (
  record {
    ordered = omega (arith, v.ordered);
    inside = omega (arith, length-splice b.buf b.write_idx bytes h);
    small = omega (arith, length-splice b.buf b.write_idx bytes h, v.small);
  },
  slice-splice b.read_idx b.write_idx b.buf bytes _ v.ordered v.inside,
)

append-written :
    (b b1 : Buffer) (bytes : List ℕ)
    → ensure_writable_bytes b (length bytes) ≡ ok b1
    → Fits b (length bytes) b1
    → append_string b bytes ≡ ok (written b1 bytes)
unfolding append append_string
append-written b b1 bytes made f =
    rw
      (
        made,
        take_all (length bytes) bytes (omega arith),
        copy_to_lem b1.buf b1.write_idx bytes f.room,
      )
      (ground (arith, f.room, f.valid))

-- `Append` adds the bytes at the end; the storage grows by no more than they need.
pub append-Yields :
    (b : Buffer) (bytes : List ℕ)
    → IsValid b
    → b.write_idx + length bytes ≤ max_size
    → (b' : Buffer) × (append_string b bytes ≡ ok b')
      × IsValid b'
      × (content b' ≡ content b ++ bytes)
      × (length b'.buf ≤ length b.buf + length bytes)
append-Yields b bytes v k =
    let (b1, made, f) = ensure_writable_bytes-Fits b (length bytes) v k in
    let (valid, same) = written-content b1 bytes f.valid f.room in
    (
      written b1 bytes,
      append-written b b1 bytes made f,
      valid,
      same ∙ ap (λ l. l ++ bytes) f.same,
      omega (arith, length-splice b1.buf b1.write_idx bytes f.room, f.bounded),
    )

retrieve_valid :
    (b : Buffer) (n : ℕ)
    → IsValid b
    → n ≤ length (content b)
    → retrieve b n ≡ ok (record b { read_idx = b.read_idx + n })
unfolding retrieve
retrieve_valid b n v h = ground (arith, readable_bytes_lem b v, length-content b v)

-- The buffer after the first `n` bytes were read.
abbrev advanced : Buffer → ℕ → Buffer
advanced b n = record b { read_idx = b.read_idx + n }

advanced-content :
    (b : Buffer) (n : ℕ)
    → IsValid b
    → n ≤ length (content b)
    → IsValid (advanced b n) × (content (advanced b n) ≡ drop n (content b))
advanced-content b n v h = (
  record { ordered = omega (arith, length-content b v); inside = v.inside; small = v.small },
  sym (drop-content b n (omega (arith, length-content b v))),
)

-- `Retrieve` drops bytes at the front.
pub retrieve-Yields :
    (b : Buffer) (n : ℕ)
    → IsValid b
    → n ≤ length (content b)
    → (b' : Buffer) × (retrieve b n ≡ ok b')
      × IsValid b'
      × (content b' ≡ drop n (content b))
      × (b'.buf ≡ b.buf)
retrieve-Yields b n v h =
    let (valid, same) = advanced-content b n v h in
    (advanced b n, retrieve_valid b n v h, valid, same, refl)

pub retrieve_refuses :
    (b : Buffer) (n : ℕ)
    → IsValid b
    → length (content b) < n
    → retrieve b n ≡ fault assertion_failed
unfolding retrieve
retrieve_refuses b n v h = ground (arith, readable_bytes_lem b v, length-content b v)

pub peek_valid :
    (b : Buffer) (n : ℕ) → IsValid b → n ≤ length (content b) → peek b n ≡ ok (take n (content b))
unfolding peek
peek_valid b n v h =
    rw (take-content b n (omega (arith, length-content b v))) (ground (arith, length-content b v))

-- `RetrieveAsString` splits the bytes off at the front.
pub retrieve_as_string-Yields :
    (b : Buffer) (n : ℕ)
    → IsValid b
    → n ≤ length (content b)
    → (b' : Buffer) × (retrieve_as_string b n ≡ ok (take n (content b), b'))
      × IsValid b'
      × (content b' ≡ drop n (content b))
      × (b'.buf ≡ b.buf)
unfolding retrieve_as_string
retrieve_as_string-Yields b n v h =
    let (valid, same) = advanced-content b n v h in
    (
      advanced b n,
      rw (peek_valid b n v h, retrieve_valid b n v h)
          (ground (arith, readable_bytes_lem b v, length-content b v)),
      valid,
      same,
      refl,
    )

pub retrieve_all_as_string-Yields :
    (b : Buffer)
    → IsValid b
    → (b' : Buffer) × (retrieve_all_as_string b ≡ ok (content b, b'))
      × IsValid b'
      × (content b' ≡ [])
      × (b'.buf ≡ b.buf)
unfolding retrieve_all_as_string
retrieve_all_as_string-Yields b v =
    let (b', e, valid, same, storage) =
      retrieve_as_string-Yields b (length (content b)) v (omega arith) in
    (
      b',
      rw (readable_bytes-content b v)
          (rw e (rw (take_all (length (content b)) (content b) (omega arith)))),
      valid,
      same ∙ drop_all (length (content b)) (content b) (omega arith),
      storage,
    )

pub retrieve_all-IsValid :
    (b : Buffer) → IsValid b → IsValid (retrieve_all b) × (content (retrieve_all b) ≡ [])
unfolding retrieve_all
retrieve_all-IsValid b v =
    (record { ordered = omega arith; inside = omega arith; small = v.small }, refl)

pub retrieve_as_string_refuses :
    (b : Buffer) (n : ℕ)
    → IsValid b
    → length (content b) < n
    → retrieve_as_string b n ≡ fault assertion_failed
unfolding retrieve_as_string
retrieve_as_string_refuses b n v h = ground (arith, readable_bytes_lem b v, length-content b v)

-- `Prepend` puts bytes in front of the unread ones, into space that was read before.
pub prepend-Yields :
    (b : Buffer) (bytes : List ℕ)
    → IsValid b
    → length bytes ≤ b.read_idx
    → Yields (prepend b bytes) (bytes ++ content b)
unfolding prepend
prepend-Yields b bytes v h = (
  record b { buf = spliced; read_idx = start },
  rw (before, copy_to_lem b.buf start bytes (omega arith)) (ground arith),
  record { ordered = omega arith; inside = omega (arith, size); small = omega (arith, size) },
  ap (take (b.write_idx - start)) front
      ∙ take-append_right (b.write_idx - start) bytes _ (omega arith)
      ∙ ap₂ (λ n l. bytes ++ take n l) unread back,
)
  where
    start : ℕ
    start = b.read_idx - length bytes

    before : sub_size b.read_idx (length bytes) ≡ start
    before = omega arith

    spliced : List ℕ
    spliced = take start b.buf ++ (bytes ++ drop (start + length bytes) b.buf)

    size : length spliced ≡ length b.buf
    size = length-splice b.buf start bytes (omega arith)

    none_left : start - length (take start b.buf) ≡ 0
    none_left = omega (arith, length-take start b.buf)

    front : drop start spliced ≡ bytes ++ drop (start + length bytes) b.buf
    front =
        drop-append_right start (take start b.buf) _ (omega (arith, length-take start b.buf))
        ∙ ap (λ n. drop n (bytes ++ drop (start + length bytes) b.buf)) none_left

    at_read : start + length bytes ≡ b.read_idx
    at_read = omega arith

    back : drop (start + length bytes) b.buf ≡ drop b.read_idx b.buf
    back = ap (λ n. drop n b.buf) at_read

    unread : b.write_idx - start - length bytes ≡ b.write_idx - b.read_idx
    unread = omega arith
