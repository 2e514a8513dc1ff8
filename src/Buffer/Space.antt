-- ===== src/Buffer/Space.antt =====
-- src/buffer.cpp: what `EnsureWritableBytes` and `MakeSpace` leave behind.
use cpp_reactor_framework.Prelude.{
  ℕ, ◌+◌, ◌-◌, ◌≤◌, ◌<◌, ◌≡◌, refl, ap, ◌∙◌, inl, inr, true, false, List, ◌++◌, arith, ok,
  Bool-cases, leb, length, take, drop, replicate, length-append, length-take, length-drop,
  length-replicate, take-append_left, drop-append_left, take_all, add_size,
}
use cpp_reactor_framework.Buffer.{
  Buffer, max_size, readable_bytes, writable_bytes, copy_to, resize, make_space,
  ensure_writable_bytes,
}
use cpp_reactor_framework.Buffer.View.{
  IsValid, content, length-content, readable_bytes_lem, writable_bytes_lem,
}

pub copy_to_lem :
    (buf : List ℕ) (i : ℕ) (bytes : List ℕ)
    → i + length bytes ≤ length buf
    → copy_to buf i bytes ≡ ok (take i buf ++ (bytes ++ drop (i + length bytes) buf))
unfolding copy_to
copy_to_lem buf i bytes h = ground arith

pub length-splice :
    (buf : List ℕ) (i : ℕ) (bytes : List ℕ)
    → i + length bytes ≤ length buf
    → length (take i buf ++ (bytes ++ drop (i + length bytes) buf)) ≡ length buf
length-splice buf i bytes h = omega (
  arith,
  length-append (take i buf) (bytes ++ drop (i + length bytes) buf),
  length-append bytes (drop (i + length bytes) buf),
  length-take i buf,
  length-drop (i + length bytes) buf,
)

-- `b'` holds what `b` does and has room for `len` more bytes.
pub record Fits (b : Buffer) (len : ℕ) (b' : Buffer) : Type 0 where
  pub valid : IsValid b'
  pub same : content b' ≡ content b
  pub room : b'.write_idx + len ≤ length b'.buf
  pub bounded : length b'.buf ≤ length b.buf + len

-- The buffer after the unread bytes were moved to the front.
moved : Buffer → Buffer
moved b = record {
  buf = content b ++ drop (length (content b)) b.buf;
  read_idx = 0;
  write_idx = readable_bytes b;
}

moved-buf_length : (b : Buffer) → IsValid b → length (moved b).buf ≡ length b.buf
unfolding moved
moved-buf_length b v = omega (
  arith,
  length-append (content b) (drop (length (content b)) b.buf),
  length-drop (length (content b)) b.buf,
  length-content b v,
)

moved-Fits :
    (b : Buffer) (len : ℕ)
    → IsValid b
    → len ≤ b.read_idx + (length b.buf - b.write_idx)
    → Fits b len (moved b)
unfolding moved
moved-Fits b len v h = record {
  valid = record {
    ordered = omega arith;
    inside = omega (arith, readable_bytes_lem b v, moved-buf_length b v);
    small = omega (arith, moved-buf_length b v);
  };
  same = same;
  room = omega (arith, readable_bytes_lem b v, moved-buf_length b v);
  bounded = omega (arith, moved-buf_length b v);
}
  where
    whole : readable_bytes b - 0 ≡ length (content b)
    whole = omega (arith, readable_bytes_lem b v, length-content b v)

    same : take (readable_bytes b - 0) (content b ++ drop (length (content b)) b.buf) ≡ content b
    same =
        ap (λ n. take n (content b ++ drop (length (content b)) b.buf)) whole
        ∙ take-append_left (length (content b)) (content b) _ (omega arith)
        ∙ take_all (length (content b)) (content b) (omega arith)

-- The buffer after the storage was extended.
grown : Buffer → ℕ → Buffer
grown b len = record b {
  buf = take (b.write_idx + len) b.buf ++ replicate (b.write_idx + len - length b.buf) 0;
}

-- `b'` is `b` with zeros at the end: nothing that `b` holds is lost.
grown-Fits :
    (b : Buffer) (len : ℕ)
    → IsValid b
    → length b.buf < b.write_idx + len
    → b.write_idx + len ≤ max_size
    → Fits b len (grown b len)
unfolding grown
grown-Fits b len v h k = record {
  valid = record { ordered = v.ordered; inside = omega (arith, size); small = omega (arith, size) };
  same =
      ap (λ l. take (b.write_idx - b.read_idx) (drop b.read_idx (l ++ zeros)))
        (take_all (b.write_idx + len) b.buf (omega arith))
      ∙ ap (take (b.write_idx - b.read_idx)) (drop-append_left b.read_idx b.buf zeros (omega arith))
      ∙ take-append_left (b.write_idx - b.read_idx) (drop b.read_idx b.buf) zeros
          (omega (arith, length-drop b.read_idx b.buf));
  room = omega (arith, size);
  bounded = omega (arith, size);
}
  where
    zeros : List ℕ
    zeros = replicate (b.write_idx + len - length b.buf) 0

    size : length (take (b.write_idx + len) b.buf ++ zeros) ≡ b.write_idx + len
    size = omega (
      arith,
      length-append (take (b.write_idx + len) b.buf) zeros,
      length-take (b.write_idx + len) b.buf,
      length-replicate {A = ℕ} (b.write_idx + len - length b.buf) 0,
    )

make_space-moved :
    (b : Buffer) (len : ℕ)
    → IsValid b
    → leb len (add_size b.read_idx (writable_bytes b)) ≡ true
    → make_space b len ≡ ok (moved b)
unfolding make_space moved readable_bytes
make_space-moved b len v h = ground (arith, copy_to_lem b.buf 0 (content b), length-content b v)

make_space-grown :
    (b : Buffer) (len : ℕ)
    → b.write_idx + len ≤ max_size
    → leb len (add_size b.read_idx (writable_bytes b)) ≡ false
    → make_space b len ≡ ok (grown b len)
unfolding make_space grown resize
make_space-grown b len k h = ground arith

make_space-Fits :
    (b : Buffer) (len : ℕ)
    → IsValid b
    → length b.buf < b.write_idx + len
    → b.write_idx + len ≤ max_size
    → (b' : Buffer) × (make_space b len ≡ ok b') × Fits b len b'
make_space-Fits b len v h k = elim (Bool-cases (leb len (add_size b.read_idx (writable_bytes b)))) [
  | inl e ↦ (
    moved b,
    make_space-moved b len v e,
    moved-Fits b len v (ground (arith, writable_bytes_lem b v)),
  )
  | inr e ↦ (grown b len, make_space-grown b len k e, grown-Fits b len v h k)
]

-- A buffer that does not outgrow its limit always makes room, and keeps what it holds.
pub ensure_writable_bytes-Fits :
    (b : Buffer) (len : ℕ)
    → IsValid b
    → b.write_idx + len ≤ max_size
    → (b' : Buffer) × (ensure_writable_bytes b len ≡ ok b') × Fits b len b'
unfolding ensure_writable_bytes
ensure_writable_bytes-Fits b len v k = elim (Bool-cases (leb len (writable_bytes b))) [
  | inl e ↦ (
    b,
    rw e,
    record {
      valid = v;
      same = refl;
      room = ground (arith, writable_bytes_lem b v);
      bounded = omega arith;
    },
  )
  | inr e ↦
      let (b', made, f) = make_space-Fits b len v (ground (arith, writable_bytes_lem b v)) k in
      (b', rw (e, made) (rw (room b' f)), f)
]
  where
    room : (b' : Buffer) → Fits b len b' → leb len (writable_bytes b') ≡ true
    room b' f = ground (arith, writable_bytes_lem b' f.valid, f.room)
