-- ===== src/Buffer/View.antt =====
-- What a buffer holds, and when its indices are in order.
use cpp_reactor_framework.Prelude.{
  ℕ, ◌+◌, ◌-◌, ◌≤◌, ◌≡◌, sym, ap, ◌∙◌, List, ◌++◌, arith, length, take, drop, length-take,
  length-drop, take-append_left, drop-append_left, take-append_right, take_all, drop-drop,
  drop-take, take-take_of_le,
}
use cpp_reactor_framework.Buffer.{Buffer, max_size, readable_bytes, writable_bytes}

-- 0 ≤ read_idx ≤ write_idx ≤ m_buf.size().
pub record IsValid (b : Buffer) : Type 0 where
  pub ordered : b.read_idx ≤ b.write_idx
  pub inside : b.write_idx ≤ length b.buf
  pub small : length b.buf ≤ max_size

-- The unread bytes, oldest first: what the buffer is for its clients.
abbrev pub content : Buffer → List ℕ
content b = take (b.write_idx - b.read_idx) (drop b.read_idx b.buf)

pub length-content : (b : Buffer) → IsValid b → length (content b) ≡ b.write_idx - b.read_idx
length-content b v = omega (
  arith,
  length-take (b.write_idx - b.read_idx) (drop b.read_idx b.buf),
  length-drop b.read_idx b.buf,
)

pub readable_bytes_lem : (b : Buffer) → IsValid b → readable_bytes b ≡ b.write_idx - b.read_idx
unfolding readable_bytes
readable_bytes_lem b v = omega arith

pub writable_bytes_lem : (b : Buffer) → IsValid b → writable_bytes b ≡ length b.buf - b.write_idx
unfolding writable_bytes
writable_bytes_lem b v = omega arith

pub readable_bytes-content : (b : Buffer) → IsValid b → readable_bytes b ≡ length (content b)
readable_bytes-content b v = readable_bytes_lem b v ∙ sym (length-content b v)

-- Reading at the front.
pub take-content :
    (b : Buffer) (n : ℕ)
    → n ≤ b.write_idx - b.read_idx
    → take n (content b) ≡ take n (drop b.read_idx b.buf)
take-content b n h = take-take_of_le n (b.write_idx - b.read_idx) (drop b.read_idx b.buf) h

-- Skipping at the front.
pub drop-content :
    (b : Buffer) (n : ℕ)
    → n ≤ b.write_idx - b.read_idx
    → drop n (content b) ≡ content (record b { read_idx = b.read_idx + n })
drop-content b n h =
    let split : b.write_idx - b.read_idx ≡ n + (b.write_idx - (b.read_idx + n)) = omega arith in
    ap (λ k. drop n (take k (drop b.read_idx b.buf))) split
    ∙ drop-take n (b.write_idx - (b.read_idx + n)) (drop b.read_idx b.buf)
    ∙ ap (take (b.write_idx - (b.read_idx + n))) (drop-drop n b.read_idx b.buf)

-- The bytes between two indices, after a block has been put behind them.
pub slice-splice :
    (r w : ℕ) (buf bytes rest : List ℕ)
    → r ≤ w
    → w ≤ length buf
    → take (w + length bytes - r) (drop r (take w buf ++ (bytes ++ rest)))
      ≡ take (w - r) (drop r buf) ++ bytes
slice-splice r w buf bytes rest h k =
    ap (take (w + length bytes - r))
      (drop-append_left r (take w buf) (bytes ++ rest) (omega (arith, length-take w buf)))
    ∙ ap (λ l. take (w + length bytes - r) (l ++ (bytes ++ rest))) front
    ∙ take-append_right (w + length bytes - r) mid (bytes ++ rest) (omega (arith, mid_length))
    ∙ ap (◌++◌ mid) tail
  where
    mid : List ℕ
    mid = take (w - r) (drop r buf)

    mid_length : length mid ≡ w - r
    mid_length = omega (arith, length-take (w - r) (drop r buf), length-drop r buf)

    front : drop r (take w buf) ≡ mid
    front =
        let split : w ≡ r + (w - r) = omega arith in
        ap (λ n. drop r (take n buf)) split ∙ drop-take r (w - r) buf

    tail : take (w + length bytes - r - length mid) (bytes ++ rest) ≡ bytes
    tail =
        let enough : w + length bytes - r - length mid ≡ length bytes = omega (arith, mid_length) in
        ap (λ n. take n (bytes ++ rest)) enough
        ∙ take-append_left (length bytes) bytes rest (omega arith)
        ∙ take_all (length bytes) bytes (omega arith)
