-- ===== src/Codec/Decoding.antt =====
-- src/length_field_codec.cpp: `OnMessage` on a buffer in order reads the stream that it holds.
use cpp_reactor_framework.Prelude.{
  ℕ, zero, suc, ◌+◌, ◌^◌, ◌≤◌, ◌<◌, ◌≡◌, refl, ap, subst, ◌∙◌, inl, inr, true, false, List, [], ◌∷◌,
  arith, Result, ok, Bool-cases, leb, ltb, if◌then◌else◌, length, take, drop, length-drop, to_int32,
  add_size,
}
use cpp_reactor_framework.Buffer.{Buffer, readable_bytes}
use cpp_reactor_framework.Buffer.Io.{net_to_host_long}
use cpp_reactor_framework.Buffer.View.{IsValid, content, readable_bytes-content}
use cpp_reactor_framework.Buffer.Refine.{retrieve-Yields, retrieve_as_string-Yields}
use cpp_reactor_framework.Buffer.Integers.{peek_int32_lem}
use cpp_reactor_framework.Codec.{
  LengthFieldCodec, Turn, wait, invalid, message, take_payload, check_length, turn, Decoded,
  on_message_loop, on_message,
}
use cpp_reactor_framework.Codec.Frames.{
  word, split_payload, split_frame, split_frame-eq_message, Decodes, waits, refuses, reads,
}

-- A turn of the loop does what the first bytes say, and leaves the storage as it was.
abbrev pub Follows : Buffer → Result (Turn Buffer) → Turn (List ℕ) → Type 0
Follows b r wait = r ≡ ok wait
Follows b r invalid = r ≡ ok invalid
Follows b r (message m q) =
    (b' : Buffer) × (r ≡ ok (message m b')) × IsValid b' × (content b' ≡ q) × (b'.buf ≡ b.buf)

take_payload-Follows :
    (b : Buffer) (n : ℕ)
    → IsValid b
    → n < 2 ^ 31
    → 4 ≤ length (content b)
    → Follows b (take_payload b n) (
        if ltb (length (content b)) (4 + n)
        then wait
        else message (take n (drop 4 (content b))) (drop n (drop 4 (content b))))
unfolding take_payload
take_payload-Follows b n v small header =
    rw (readable_bytes-content b v, no_wrap)
      (elim (Bool-cases (ltb (length (content b)) (4 + n))) [
        | inl short ↦ rw short
        | inr whole ↦
            let (b1, e1, v1, c1, s1) = retrieve-Yields b 4 v header in
            let fits : n ≤ length (content b1) =
              rw c1 (ground (arith, length-drop 4 (content b))) in
            let (b2, e2, v2, c2, s2) = retrieve_as_string-Yields b1 n v1 fits in
            rw whole (b2, rw (e1, e2, c1), v2, c2 ∙ ap (drop n) c1, s2 ∙ s1)
      ])
  where
    no_wrap : add_size 4 n ≡ 4 + n
    no_wrap = omega arith

word_read : (q : List ℕ) → 4 ≤ length q → net_to_host_long (take 4 q) ≡ ok (word q)
unfolding net_to_host_long word
word_read (b3 ∷ b2 ∷ b1 ∷ b0 ∷ rest) h = refl
word_read (b2 ∷ b1 ∷ b0 ∷ []) h = absurd (omega arith)
word_read (b1 ∷ b0 ∷ []) h = absurd (omega arith)
word_read (b0 ∷ []) h = absurd (omega arith)
word_read [] h = absurd (omega arith)

check_length-Follows :
    (c : LengthFieldCodec) (b : Buffer) (w : ℕ)
    → IsValid b
    → 4 ≤ length (content b)
    → Follows b
        (check_length c b (to_int32 w))
        (split_payload c.max_frame_len (content b) (to_int32 w))
unfolding check_length split_payload
check_length-Follows c b w v header = elim (Bool-cases (ltb w (2 ^ 31))) [
  | inl small ↦ rw small (elim (Bool-cases (ltb c.max_frame_len w)) [
    | inl over ↦ rw over
    | inr allowed ↦ rw allowed (take_payload-Follows b w v (ground arith) header)
  ])
  | inr negative ↦ rw negative
]

pub turn-Follows :
    (c : LengthFieldCodec) (b : Buffer)
    → IsValid b
    → Follows b (turn c b) (split_frame c.max_frame_len (content b))
unfolding turn split_frame
turn-Follows c b v =
    rw (readable_bytes-content b v) (elim (Bool-cases (leb 4 (length (content b)))) [
      | inl header ↦
          rw (header, peek_int32_lem b v (ground arith), word_read (content b) (ground arith))
            (check_length-Follows c b (word (content b)) v (ground arith))
      | inr short ↦ rw short
    ])

-- What a call of `OnMessage` has done, if its callback is set: it has read the stream that the
-- buffer held, and the bytes left are in the buffer.
pub record Read (c : LengthFieldCodec) (b : Buffer) (d : Decoded) : Type 0 where
  pub decodes : Decodes c.max_frame_len (content b) d.messages d.closed (content d.buffer)
  pub valid : IsValid d.buffer
  pub storage : d.buffer.buf ≡ b.buf

loop-Read :
    (c : LengthFieldCodec) (fuel : ℕ) (b : Buffer)
    → c.has_message_callback ≡ true
    → IsValid b
    → length (content b) < fuel
    → (d : Decoded) × (on_message_loop c fuel b ≡ ok d) × Read c b d
unfolding on_message_loop
loop-Read c zero b set v h = absurd (omega arith)
loop-Read c (suc fuel) b set v h =
    go (split_frame c.max_frame_len (content b)) refl (turn-Follows c b v) (loop-Read c fuel)
  where
    go :
        (t : Turn (List ℕ))
        → split_frame c.max_frame_len (content b) ≡ t
        → Follows b (turn c b) (split_frame c.max_frame_len (content b))
        → ((b' : Buffer)
            → c.has_message_callback ≡ true
            → IsValid b'
            → length (content b') < fuel
            → (d : Decoded) × (on_message_loop c fuel b' ≡ ok d) × Read c b' d)
        → (d : Decoded) × (on_message_loop c (suc fuel) b ≡ ok d) × Read c b d
    go wait e f rec = (
      record { messages = []; closed = false; buffer = b },
      rw (subst (Follows b (turn c b)) e f),
      record { decodes = waits e refl; valid = v; storage = refl },
    )
    go invalid e f rec = (
      record { messages = []; closed = true; buffer = b },
      rw (subst (Follows b (turn c b)) e f),
      record { decodes = refuses e refl; valid = v; storage = refl },
    )
    go (message m q) e f rec =
        let (b', turned, v', held, storage) = subst (Follows b (turn c b)) e f in
        let (small, allowed, whole, first, rest) =
          split_frame-eq_message c.max_frame_len (content b) m q e in
        let fewer : length (content b') < fuel =
          rw (held, rest)
            (omega (
              arith,
              length-drop (word (content b)) (drop 4 (content b)),
              length-drop 4 (content b),
            )) in
        let (d, ran, r) = rec b' set v' fewer in
        (
          record d { messages = m ∷ d.messages },
          rw (turned, ran, set),
          record {
            decodes = reads e (
                subst (λ l. Decodes c.max_frame_len l d.messages d.closed (content d.buffer)) held
                  r.decodes);
            valid = r.valid;
            storage = r.storage ∙ storage;
          },
        )

-- `OnMessage` on a buffer in order always returns, and reads the stream that the buffer holds to
-- its end, if the codec has a message callback.
pub on_message-Read :
    (c : LengthFieldCodec) (b : Buffer)
    → c.has_message_callback ≡ true
    → IsValid b
    → (d : Decoded) × (on_message c b ≡ ok d) × Read c b d
unfolding on_message
on_message-Read c b set v =
    loop-Read c (suc (readable_bytes b)) b set v (omega (arith, readable_bytes-content b v))
