-- ===== src/Codec/Streams.antt =====
-- src/length_field_codec.cpp: a stream that arrives in pieces. `deliver` is what a connection does
-- with its input buffer: it appends each piece and calls `OnMessage`, until a length is invalid.
use cpp_reactor_framework.Prelude.{
  ℕ, ◌+◌, ◌^◌, ◌≤◌, ◌<◌, ◌≡◌, refl, sym, ap, ap₂, subst, ◌∙◌, inl, inr, Bool, true, false, List, [],
  ◌∷◌, ◌++◌, append-nil, append_assoc, arith, Result, ok, ◌>>=◌, Bool-cases, length, length-append,
  if◌then◌else◌,
}
use cpp_reactor_framework.Buffer.{Buffer, max_size, append_string}
use cpp_reactor_framework.Buffer.View.{IsValid, content}
use cpp_reactor_framework.Buffer.Refine.{append-Yields}
use cpp_reactor_framework.Codec.{
  LengthFieldCodec, Turn, wait, invalid, message, Decoded, on_message, framed,
}
use cpp_reactor_framework.Codec.Frames.{
  split_frame, Decodes, waits, refuses, reads, split_frame-append_message,
  split_frame-append_invalid, split_frame-framed,
}
use cpp_reactor_framework.Codec.Decoding.{on_message-Read}

-- The messages of all pieces, and whether the connection was closed.
pub deliver : LengthFieldCodec → Buffer → List (List ℕ) → Result (List (List ℕ) × Bool)
deliver c b [] = ok ([], false)
deliver c b (piece ∷ pieces) = do
  b1 ← append_string b piece
  d ← on_message c b1
  let rest = deliver c d.buffer pieces
  if d.closed then ok (d.messages, true) else rest >>= λ r. ok (d.messages ++ r.0, r.1)

abbrev pub concat : List (List ℕ) → List ℕ
concat [] = []
concat (x ∷ xs) = x ++ concat xs

-- The stream of the frames of some messages.
abbrev pub frames : List (List ℕ) → List ℕ
frames [] = []
frames (m ∷ ms) = framed m ++ frames ms

-- Messages that the codec accepts.
abbrev pub Allowed : ℕ → List (List ℕ) → Type 0
Allowed max_frame_len [] = Unit {0}
Allowed max_frame_len (m ∷ ms) =
    ((length m ≤ max_frame_len) × (length m < 2 ^ 31)) × Allowed max_frame_len ms

pub split_frame_nil : (k : ℕ) → split_frame k [] ≡ wait
unfolding split_frame
split_frame_nil k = refl

module _ (k : ℕ) where
  pub Decodes-append :
      {q rest : List ℕ} {ms : List (List ℕ)} {closed : Bool} (c : List ℕ)
      → Decodes k q ms closed rest
      → (closed ≡ false
          → (rest' : List ℕ) (ms' : List (List ℕ)) (closed' : Bool)
          → Decodes k (rest ++ c) ms' closed' rest'
          → Decodes k (q ++ c) (ms ++ ms') closed' rest')
        × (closed ≡ true → Decodes k (q ++ c) ms true (rest ++ c))
  Decodes-append c (waits e f) =
      (λ o rest' ms' closed' d. subst (λ l. Decodes k (l ++ c) ms' closed' rest') f d, λ h. cc)
  Decodes-append c (refuses {q = q} e f) =
      (λ o. cc, λ h. refuses (split_frame-append_invalid k q c e) (ap (λ l. l ++ c) f))
  Decodes-append c (reads {q = q} {q' = q'} {m = m} e d) =
      let (on, stop) = Decodes-append c d in
      let more = split_frame-append_message k q c m q' e in
      (λ o rest' ms' closed' d'. reads more (on o rest' ms' closed' d'), λ h. reads more (stop h))

  -- What is left of a stream that goes on is no whole frame.
  Decodes_settled :
      {q rest : List ℕ} {ms : List (List ℕ)} {closed : Bool}
      → Decodes k q ms closed rest
      → closed ≡ false
      → Decodes k rest [] false rest
  Decodes_settled (waits e f) o = rw f (waits e refl)
  Decodes_settled (refuses e f) o = cc
  Decodes_settled (reads e d) o = Decodes_settled d o

  -- The first turn decides.
  FirstTurn : List ℕ → List (List ℕ) → Bool → List ℕ → Turn (List ℕ) → Type 0
  FirstTurn q ms closed rest wait = (ms ≡ []) × (closed ≡ false) × (rest ≡ q)
  FirstTurn q ms closed rest invalid = (ms ≡ []) × (closed ≡ true) × (rest ≡ q)
  FirstTurn q ms closed rest (message m q') =
      (ms' : List (List ℕ)) × (ms ≡ m ∷ ms') × Decodes k q' ms' closed rest

  first_turn_lem :
      {q rest : List ℕ} {ms : List (List ℕ)} {closed : Bool}
      → Decodes k q ms closed rest
      → FirstTurn q ms closed rest (split_frame k q)
  unfolding FirstTurn
  first_turn_lem (waits e f) = rw e (refl, refl, f)
  first_turn_lem (refuses e f) = rw e (refl, refl, f)
  first_turn_lem (reads {ms = ms} e d) = rw e (ms, refl, d)

  -- A stream has one reading.
  pub Decodes_unique :
      {q rest rest' : List ℕ} {ms ms' : List (List ℕ)} {closed closed' : Bool}
      → Decodes k q ms closed rest
      → Decodes k q ms' closed' rest'
      → (ms ≡ ms') × (closed ≡ closed') × (rest ≡ rest')
  unfolding FirstTurn
  Decodes_unique (waits e f) d' =
      let (p, o, r) = subst (FirstTurn _ _ _ _) e (first_turn_lem d') in (sym p, sym o, f ∙ sym r)
  Decodes_unique (refuses e f) d' =
      let (p, o, r) = subst (FirstTurn _ _ _ _) e (first_turn_lem d') in (sym p, sym o, f ∙ sym r)
  Decodes_unique (reads {m = m} e d) d' =
      let (ms', p, d1) = subst (FirstTurn _ _ _ _) e (first_turn_lem d') in
      let (q, o, r) = Decodes_unique d d1 in (ap (λ l. m ∷ l) q ∙ sym p, o, r)

  -- The frames of messages that are allowed are read as those messages.
  pub Decodes-frames : (ms : List (List ℕ)) → Allowed k ms → Decodes k (frames ms) ms false []
  Decodes-frames [] a = waits (split_frame_nil k) refl
  Decodes-frames (m ∷ ms) a =
      reads (split_frame-framed k m (frames ms) a.0.0 a.0.1) (Decodes-frames ms a.1)

module _ (c : LengthFieldCodec) (b b1 : Buffer) (piece : List ℕ) (pieces : List (List ℕ))
    (d : Decoded) (appended : append_string b piece ≡ ok b1) (ran : on_message c b1 ≡ ok d) where
  deliver_stops : d.closed ≡ true → deliver c b (piece ∷ pieces) ≡ ok (d.messages, true)
  unfolding deliver
  deliver_stops shut = rw (appended, ran, shut)

  deliver_goes_on :
      (ms : List (List ℕ)) (closed : Bool)
      → d.closed ≡ false
      → deliver c d.buffer pieces ≡ ok (ms, closed)
      → deliver c b (piece ∷ pieces) ≡ ok (d.messages ++ ms, closed)
  unfolding deliver
  deliver_goes_on ms closed open_still rest = rw (appended, ran, open_still, rest)

-- However a stream is cut, its pieces give the messages of the whole stream, if the codec has a
-- message callback, the buffer is in order and holds no whole frame, and the pieces fit it.
pub deliver-Decodes :
    (c : LengthFieldCodec) (pieces : List (List ℕ)) (b : Buffer)
    → c.has_message_callback ≡ true
    → IsValid b
    → Decodes c.max_frame_len (content b) [] false (content b)
    → length b.buf + length (concat pieces) ≤ max_size
    → (ms : List (List ℕ)) × (closed : Bool) × (rest : List ℕ) × (deliver c b pieces
        ≡ ok (ms, closed))
      × Decodes c.max_frame_len (content b ++ concat pieces) ms closed rest
unfolding deliver
deliver-Decodes c [] b set v w h = ([], false, content b, refl, rw append-nil w)
deliver-Decodes c (piece ∷ pieces) b set v w h =
    let (b1, appended, v1, same, size) =
      append-Yields b piece v (omega (arith, v.inside, length-append piece (concat pieces))) in
    let (d, ran, r) = on_message-Read c b1 set v1 in
    let held : content b1 ++ concat pieces ≡ content b ++ (piece ++ concat pieces) =
      ap (λ l. l ++ concat pieces) same ∙ append_assoc (content b) piece (concat pieces) in
    let (on, stop) = Decodes-append k (concat pieces) r.decodes in
    elim (Bool-cases d.closed) [
      | inl shut ↦ (
        d.messages,
        true,
        content d.buffer ++ concat pieces,
        deliver_stops c b b1 piece pieces d appended ran shut,
        subst (λ l. Decodes k l d.messages true (content d.buffer ++ concat pieces)) held
            (stop shut),
      )
      | inr open_still ↦
          let (ms, closed, rest, ran', decodes) =
            deliver-Decodes c pieces d.buffer set r.valid (Decodes_settled k r.decodes open_still)
              (omega (arith, ap length r.storage, size, length-append piece (concat pieces))) in
          (
            d.messages ++ ms,
            closed,
            rest,
            deliver_goes_on c b b1 piece pieces d appended ran ms closed open_still ran',
            subst (λ l. Decodes k l (d.messages ++ ms) closed rest) held
                (on open_still rest ms closed decodes),
          )
    ]
  where
    k : ℕ
    k = c.max_frame_len

-- Half frames and frames that stick together do not matter: messages no longer than the codec's
-- limit and below 2 ^ 31 bytes, framed, sent as one stream and cut anywhere, are delivered, each
-- once and in order, and the connection stays open, if the buffer starts empty and the stream fits
-- it.
pub deliver-frames :
    (c : LengthFieldCodec) (pieces ms : List (List ℕ)) (b : Buffer)
    → c.has_message_callback ≡ true
    → IsValid b
    → content b ≡ []
    → length b.buf + length (concat pieces) ≤ max_size
    → Allowed c.max_frame_len ms
    → concat pieces ≡ frames ms
    → deliver c b pieces ≡ ok (ms, false)
deliver-frames c pieces ms b set v empty h allowed cut =
    let nothing : Decodes c.max_frame_len (content b) [] false (content b) =
      rw empty (waits (split_frame_nil c.max_frame_len) refl) in
    let (ms', closed, rest, ran, decodes) = deliver-Decodes c pieces b set v nothing h in
    let whole =
      subst (λ l. Decodes c.max_frame_len l ms' closed rest) (ap₂ ◌++◌ empty cut) decodes in
    let (same, still, none_left) =
      Decodes_unique c.max_frame_len whole (Decodes-frames c.max_frame_len ms allowed) in
    ran ∙ ap₂ (λ l o. ok (l, o)) same still
