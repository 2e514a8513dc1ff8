-- ===== src/Codec/Frames.antt =====
-- src/length_field_codec.cpp: the frame format on plain bytes.
use cpp_reactor_framework.Prelude.{
  ℕ, ◌+◌, ◌*◌, ◌^◌, ◌≤◌, ◌<◌, ◌≡◌, refl, sym, ap, ap₂, ◌∙◌, Bool, true, false, List, [], ◌∷◌, ◌++◌,
  arith, leb, ltb, if◌then◌else◌, length, take, drop, length-append, length-drop, take-append_left,
  drop-append_left, take_all, drop_all, to_int32, ℤ, pos, negsuc,
}
use cpp_reactor_framework.Buffer.Io.{host_to_net_long}
use cpp_reactor_framework.Codec.{Turn, wait, invalid, message, framed}

-- The big-endian value of the first four bytes.
unfoldable pub word : List ℕ → ℕ
word (b3 ∷ b2 ∷ b1 ∷ b0 ∷ rest) = ((b3 * 256 + b2) * 256 + b1) * 256 + b0
word bytes = 0

-- What the first bytes of a stream are.
unfoldable pub split_payload : ℕ → List ℕ → ℤ → Turn (List ℕ)
split_payload max_frame_len q (negsuc n) = invalid
split_payload max_frame_len q (pos n) =
    if ltb max_frame_len n
    then invalid
    else if ltb (length q) (4 + n)
    then wait
    else message (take n (drop 4 q)) (drop n (drop 4 q))

unfoldable pub split_frame : ℕ → List ℕ → Turn (List ℕ)
split_frame max_frame_len q =
    if leb 4 (length q) then split_payload max_frame_len q (to_int32 (word q)) else wait

-- A stream read to its end: the messages, whether a length was invalid, and the bytes left.
pub data Decodes (max_frame_len : ℕ) : List ℕ → List (List ℕ) → Bool → List ℕ → Type 0 where
  waits :
      {q rest : List ℕ}
      → split_frame max_frame_len q ≡ wait
      → rest ≡ q
      → Decodes max_frame_len q [] false rest
  refuses :
      {q rest : List ℕ}
      → split_frame max_frame_len q ≡ invalid
      → rest ≡ q
      → Decodes max_frame_len q [] true rest
  reads :
      {q q' m rest : List ℕ} {ms : List (List ℕ)} {closed : Bool}
      → split_frame max_frame_len q ≡ message m q'
      → Decodes max_frame_len q' ms closed rest
      → Decodes max_frame_len q (m ∷ ms) closed rest

word-append : (q c : List ℕ) → 4 ≤ length q → word (q ++ c) ≡ word q
unfolding word
word-append (b3 ∷ b2 ∷ b1 ∷ b0 ∷ rest) c h = refl
word-append (b2 ∷ b1 ∷ b0 ∷ []) c h = absurd (omega arith)
word-append (b1 ∷ b0 ∷ []) c h = absurd (omega arith)
word-append (b0 ∷ []) c h = absurd (omega arith)
word-append [] c h = absurd (omega arith)

-- When a stream begins with a whole frame.
pub split_frame-eq_message :
    (max_frame_len : ℕ) (q m q' : List ℕ)
    → split_frame max_frame_len q ≡ message m q'
    → (word q < 2 ^ 31)
      × (word q ≤ max_frame_len)
      × (4 + word q ≤ length q)
      × (m ≡ take (word q) (drop 4 q))
      × (q' ≡ drop (word q) (drop 4 q))
unfolding split_frame split_payload
split_frame-eq_message max_frame_len q m q' h =
    (ground arith, ground arith, ground arith, ground arith, ground arith)

split_frame_of_whole :
    (max_frame_len : ℕ) (q : List ℕ) (n : ℕ)
    → word q ≡ n
    → n < 2 ^ 31
    → n ≤ max_frame_len
    → 4 + n ≤ length q
    → split_frame max_frame_len q ≡ message (take n (drop 4 q)) (drop n (drop 4 q))
unfolding split_frame split_payload
split_frame_of_whole max_frame_len q n e small allowed whole = rw e (ground arith)

-- More bytes behind a frame do not change it.
pub split_frame-append_message :
    (max_frame_len : ℕ) (q c m q' : List ℕ)
    → split_frame max_frame_len q ≡ message m q'
    → split_frame max_frame_len (q ++ c) ≡ message m (q' ++ c)
split_frame-append_message max_frame_len q c m q' h =
    let (small, allowed, whole, first, rest) = split_frame-eq_message max_frame_len q m q' h in
    let n : ℕ = word q in
    let payload : n ≤ length (drop 4 q) = omega (arith, length-drop 4 q) in
    let skip : drop 4 (q ++ c) ≡ drop 4 q ++ c = drop-append_left 4 q c (omega arith) in
    split_frame_of_whole max_frame_len (q ++ c) n (word-append q c (omega arith)) small allowed
      (omega (arith, length-append q c))
    ∙ ap₂ message (ap (take n) skip ∙ take-append_left n (drop 4 q) c payload ∙ sym first)
        (ap (drop n) skip ∙ drop-append_left n (drop 4 q) c payload ∙ ap (λ l. l ++ c) (sym rest))

pub split_frame-append_invalid :
    (max_frame_len : ℕ) (q c : List ℕ)
    → split_frame max_frame_len q ≡ invalid
    → split_frame max_frame_len (q ++ c) ≡ invalid
unfolding split_frame split_payload
split_frame-append_invalid max_frame_len q c h = ground (arith, word-append q c, length-append q c)

word-framed : (msg rest : List ℕ) → length msg < 2 ^ 31 → word (framed msg ++ rest) ≡ length msg
unfolding word framed host_to_net_long
word-framed msg rest k = omega arith

length-framed : (msg rest : List ℕ) → length (framed msg ++ rest) ≡ 4 + length msg + length rest
unfolding framed host_to_net_long
length-framed msg rest = omega (arith, length-append msg rest)

drop-framed : (msg rest : List ℕ) → drop 4 (framed msg ++ rest) ≡ msg ++ rest
unfolding framed host_to_net_long
drop-framed msg rest = refl

-- The first bytes of a stream that begins with a framed message.
pub split_frame-framed :
    (max_frame_len : ℕ) (msg rest : List ℕ)
    → length msg ≤ max_frame_len
    → length msg < 2 ^ 31
    → split_frame max_frame_len (framed msg ++ rest) ≡ message msg rest
split_frame-framed max_frame_len msg rest h k =
    split_frame_of_whole max_frame_len (framed msg ++ rest) n (word-framed msg rest k) k h
      (omega (arith, length-framed msg rest))
    ∙ ap₂ message
        (ap (take n) (drop-framed msg rest)
          ∙ take-append_left n msg rest (omega arith)
          ∙ take_all n msg (omega arith))
        (ap (drop n) (drop-framed msg rest)
          ∙ drop-append_left n msg rest (omega arith)
          ∙ ap (λ l. l ++ rest) (drop_all n msg (omega arith)))
  where
    n : ℕ
    n = length msg
