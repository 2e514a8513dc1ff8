-- ===== src/Buffer/ReadWrite.antt =====
-- src/buffer.cpp: what `ReadFromFd`, `WriteToFd` and the 32-bit integers do to the bytes held.
use cpp_reactor_framework.Prelude.{
  ℕ, min, ◌+◌, ◌-◌, ◌≤◌, ◌<◌, ◌≡◌, ◌≢◌, refl, ap, ◌∙◌, inl, inr, true, false, List, [], ◌∷◌, ◌++◌,
  append_assoc, arith, ok, fault, length_error, out_of_range, Bool-cases, leb, ltb, ◌==◌,
  if◌then◌else◌, length, take, drop, replicate, length-append, length-take, length-drop, take_all,
  drop_all, take-append-drop, add_size, sub_size, size_mod, ◌>>=◌,
}
use cpp_reactor_framework.Buffer.{
  Buffer, max_size, writable_bytes, copy_to, resize, append, append_string, make_space,
  ensure_writable_bytes,
}
use cpp_reactor_framework.Buffer.Io.{
  got, read_failed, WriteOutcome, took, write_failed, count, minus_one, read_capacity,
  extrabuf_size, read_from_fd, write_to_fd,
}
use cpp_reactor_framework.Buffer.View.{IsValid, content, readable_bytes-content, writable_bytes_lem}
use cpp_reactor_framework.Buffer.Space.{copy_to_lem}
use cpp_reactor_framework.Buffer.Refine.{written, written-content, append-Yields, retrieve-Yields}

-- All bytes fit behind the unread ones.
read_short :
    (b : Buffer) (bytes : List ℕ)
    → IsValid b
    → length bytes ≤ writable_bytes b
    → read_from_fd b (got bytes)
      ≡ ok (record { n = count (length bytes); errno = 0 }, written b bytes)
unfolding read_from_fd
read_short b bytes v h =
    rw
      (
        take_all (writable_bytes b) bytes h,
        copy_to_lem b.buf b.write_idx bytes (omega (arith, writable_bytes_lem b v)),
      )
      (ground (arith, writable_bytes_lem b v))

-- The writable part takes the first bytes; the others are appended.
read_long :
    (b : Buffer) (bytes : List ℕ)
    → IsValid b
    → writable_bytes b < length bytes
    → length bytes < size_mod
    → read_from_fd b (got bytes) ≡ (
        append_string (written b (take (writable_bytes b) bytes)) (drop (writable_bytes b) bytes)
        >>= λ b'. ok (record { n = count (length bytes); errno = 0 }, b'))
unfolding read_from_fd append_string
read_long b bytes v h k =
    rw
      (
        copy_to_lem b.buf b.write_idx (take (writable_bytes b) bytes)
            (omega (arith, writable_bytes_lem b v, length-take (writable_bytes b) bytes)),
        length-drop (writable_bytes b) bytes,
      )
      (ground (arith, writable_bytes_lem b v, length-take (writable_bytes b) bytes))

copy_nothing : (buf : List ℕ) (i : ℕ) → i ≤ length buf → copy_to buf i [] ≡ ok buf
copy_nothing buf i h =
    let same : i + 0 ≡ i = omega arith in
    copy_to_lem buf i [] (omega arith)
    ∙ ap (λ n. ok (take i buf ++ drop n buf)) same
    ∙ ap ok (take-append-drop i buf)

-- `EnsureWritableBytes` in a full buffer, for one byte less than the free space below zero: the
-- wrapped size shrinks the storage.
ensure_shrinks :
    (b : Buffer) (writable : ℕ)
    → IsValid b
    → writable ≡ length b.buf - b.write_idx
    → 0 < b.write_idx
    → ensure_writable_bytes (record b { write_idx = length b.buf }) (size_mod - 1 - writable)
      ≡ ok (record b { buf = take (b.write_idx - 1) b.buf ++ []; write_idx = length b.buf })
unfolding ensure_writable_bytes make_space writable_bytes resize
ensure_shrinks b writable v e p = rw (full, no_move, wrapped, small, nothing_new) (rw shrunk)
  where
    len : ℕ
    len = size_mod - 1 - writable

    full : leb len (sub_size (length b.buf) (length b.buf)) ≡ false
    full = ground (arith, v)

    no_move : leb len (add_size b.read_idx (sub_size (length b.buf) (length b.buf))) ≡ false
    no_move = ground (arith, v)

    wrapped : add_size (length b.buf) len ≡ b.write_idx - 1
    wrapped = ground (arith, v)

    small : ltb max_size (b.write_idx - 1) ≡ false
    small = ground (arith, v)

    none_new : b.write_idx - 1 - length b.buf ≡ 0
    none_new = omega (arith, v.inside)

    nothing_new : replicate {A = ℕ} (b.write_idx - 1 - length b.buf) 0 ≡ []
    nothing_new = ap (λ n. replicate {A = ℕ} n 0) none_new

    shrunk : leb len (sub_size (length (take (b.write_idx - 1) b.buf ++ [])) (length b.buf)) ≡ true
    shrunk = ground (
      arith,
      v,
      length-append (take (b.write_idx - 1) b.buf) [],
      length-take (b.write_idx - 1) b.buf,
    )

-- With nothing written yet the wrapped size is the largest there is.
ensure_throws :
    (b : Buffer) (writable : ℕ)
    → IsValid b
    → writable ≡ length b.buf - b.write_idx
    → b.write_idx ≡ 0
    → ensure_writable_bytes (record b { write_idx = length b.buf }) (size_mod - 1 - writable)
      ≡ fault length_error
unfolding ensure_writable_bytes make_space writable_bytes resize
ensure_throws b writable v e z = ground (arith, v)

failed_append :
    (b : Buffer) (writable : ℕ)
    → IsValid b
    → writable ≡ length b.buf - b.write_idx
    → append (record b { write_idx = length b.buf }) [] (size_mod - 1 - writable)
      ≡ fault (if b.write_idx == 0 then length_error else out_of_range)
unfolding append
failed_append b writable v e = elim (Bool-cases (b.write_idx == 0)) [
  | inl z ↦ rw (ensure_throws b writable v e (ground arith), z)
  | inr nz ↦ rw (ensure_shrinks b writable v e (ground arith), nz) (ground (arith, v))
]

-- A failed read into a buffer in order, whatever the error, `EAGAIN` included: -1 is taken for the
-- largest count, and the append that follows ends the call with a fault.
pub read_from_fd_failed :
    (b : Buffer) (errno : ℕ)
    → IsValid b
    → read_from_fd b (read_failed errno)
      ≡ fault (if b.write_idx == 0 then length_error else out_of_range)
unfolding read_from_fd
read_from_fd_failed b errno v =
    rw
      (
        take_all {A = ℕ} (writable_bytes b) [] (omega arith),
        copy_nothing b.buf b.write_idx v.inside,
      )
      (rw (passed, wrapped, drop_all {A = ℕ} (writable_bytes b) [] (omega arith))
        (rw (failed_append b (writable_bytes b) v (writable_bytes_lem b v))))
  where
    passed : leb (size_mod - 1) (writable_bytes b) ≡ false
    passed = ground (arith, v, writable_bytes_lem b v)

    wrapped : sub_size (size_mod - 1) (writable_bytes b) ≡ size_mod - 1 - writable_bytes b
    wrapped = omega (arith, v.small, writable_bytes_lem b v)

-- A read that returned bytes adds them at the end of a buffer in order, through `extrabuf` where
-- they do not fit, if they are no more than was offered and the storage may grow by `extrabuf`.
pub read_from_fd-got :
    (b : Buffer) (bytes : List ℕ)
    → IsValid b
    → length bytes ≤ read_capacity b
    → length b.buf + extrabuf_size ≤ max_size
    → (b' : Buffer) × (read_from_fd b (got bytes)
        ≡ ok (record { n = count (length bytes); errno = 0 }, b'))
      × IsValid b'
      × (content b' ≡ content b ++ bytes)
unfolding read_capacity
read_from_fd-got b bytes v h k = elim (Bool-cases (leb (length bytes) (writable_bytes b))) [
  | inl fits ↦
      let (valid, same) = written-content b bytes v (ground (arith, writable_bytes_lem b v)) in
      (written b bytes, read_short b bytes v (ground arith), valid, same)
  | inr over ↦
      let room : b.write_idx + length front ≤ length b.buf =
        omega (arith, writable_bytes_lem b v, front_length) in
      let (valid, same) = written-content b front v room in
      let (b', e, valid', same', size) =
        append-Yields (written b front) back valid
          (ground (arith, writable_bytes_lem b v, front_length, back_length)) in
      (
        b',
        read_long b bytes v (ground arith) (ground (arith, writable_bytes_lem b v)) ∙ rw e,
        valid',
        same'
            ∙ ap (λ l. l ++ back) same
            ∙ append_assoc (content b) front back
            ∙ ap (◌++◌ (content b)) (take-append-drop (writable_bytes b) bytes),
      )
]
  where
    front : List ℕ
    front = take (writable_bytes b) bytes

    back : List ℕ
    back = drop (writable_bytes b) bytes

    front_length : length front ≡ min (writable_bytes b) (length bytes)
    front_length = length-take (writable_bytes b) bytes

    back_length : length back ≡ length bytes - writable_bytes b
    back_length = length-drop (writable_bytes b) bytes

-- `WriteToFd`: what the system call took leaves the buffer, and a failure leaves it as it was.
pub write_to_fd_empty :
    (b : Buffer) (outcome : WriteOutcome)
    → IsValid b
    → content b ≡ []
    → write_to_fd b outcome ≡ ok (record { n = count 0; errno = 0 }, b)
unfolding write_to_fd
write_to_fd_empty b outcome v e = rw (readable_bytes-content b v, e)

pub write_to_fd_failed :
    (b : Buffer) (errno : ℕ)
    → IsValid b
    → content b ≢ []
    → write_to_fd b (write_failed errno) ≡ ok (record { n = minus_one; errno = errno }, b)
unfolding write_to_fd
write_to_fd_failed b errno v h =
    rw (readable_bytes-content b v) (ground (arith, nonempty (content b) h))
  where
    nonempty : (l : List ℕ) → l ≢ [] → 0 < length l
    nonempty [] n = absurd (n refl)
    nonempty (x ∷ xs) n = omega arith

-- A write of which the system took some bytes removes these from the front of a buffer in order
-- that is not empty, and no others.
pub write_to_fd-took :
    (b : Buffer) (k : ℕ)
    → IsValid b
    → content b ≢ []
    → k ≤ length (content b)
    → (b' : Buffer) × (write_to_fd b (took k) ≡ ok (record { n = count k; errno = 0 }, b'))
      × IsValid b'
      × (content b' ≡ drop k (content b))
unfolding write_to_fd
write_to_fd-took b k v h fits = elim (Bool-cases (ltb 0 k)) [
  | inl some_taken ↦
      let (b', e, valid, same, storage) = retrieve-Yields b k v fits in
      (b', rw (readable_bytes-content b v, busy) (rw (some_taken, e)), valid, same)
  | inr none_taken ↦
      let zero_taken : 0 ≡ k = ground arith in
      (
        b,
        rw (readable_bytes-content b v, busy) (rw none_taken),
        v,
        ap (λ n. drop n (content b)) zero_taken,
      )
]
  where
    nonempty : (l : List ℕ) → l ≢ [] → (length l == 0) ≡ false
    nonempty [] n = absurd (n refl)
    nonempty (x ∷ xs) n = ground arith

    busy : (length (content b) == 0) ≡ false
    busy = nonempty (content b) h
