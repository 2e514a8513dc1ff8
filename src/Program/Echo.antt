-- ===== src/Program/Echo.antt =====
-- src/main.cpp: what the clients of the echo server get.
use cpp_reactor_framework.Prelude.{
  ℕ, zero, suc, ◌+◌, ◌≤◌, ◌<◌, ◌≡◌, refl, sym, ap, subst, ◌∙◌, Bool, true, false, List, [], ◌∷◌,
  ◌++◌, append-nil, append_assoc, arith, ok, if◌then◌else◌, length, length-take, length-drop, drop,
}
use cpp_reactor_framework.Buffer.{Buffer, max_size, readable_bytes}
use cpp_reactor_framework.Buffer.View.{content, readable_bytes-content}
use cpp_reactor_framework.Codec.{LengthFieldCodec, Turn, wait, invalid, message, turn}
use cpp_reactor_framework.Codec.Frames.{
  split_frame, split_frame-eq_message, word, Decodes, waits, refuses, reads,
}
use cpp_reactor_framework.Codec.Decoding.{Follows, turn-Follows}
use cpp_reactor_framework.Poller.{Poller}
use cpp_reactor_framework.TcpConnection.{
  TcpConnection, is_connected, is_disconnected, is_open, disconnecting,
}
use cpp_reactor_framework.TcpConnection.Calls.{force_close}
use cpp_reactor_framework.TcpConnection.Invariant.{IsValid}
use cpp_reactor_framework.TcpConnection.Closing.{force_close_in_loop_lem}
use cpp_reactor_framework.TcpConnection.Sending.{stopping-IsValid, force_close-IsValid}
use cpp_reactor_framework.TcpConnection.Ready.{refilled-IsValid}
use cpp_reactor_framework.TcpConnection.Bytes.{stream}
use cpp_reactor_framework.TcpConnection.Delivery.{force_close-stream}
use cpp_reactor_framework.Program.{codec_callback, on_message_turns, on_connection_message}
use cpp_reactor_framework.Program.Replies.{reply, replies, length-reply, Sent, codec_callback_lem}

-- A frame is four bytes and its message.
length-split :
    (k : ℕ) (q m q' : List ℕ) → split_frame k q ≡ message m q' → length q ≡ 4 + length m + length q'
length-split k q m q' e =
    let (small, allowed, whole, first, rest) = split_frame-eq_message k q m q' e in
    omega (
      arith,
      ap length first,
      ap length rest,
      length-take (word q) (drop 4 q),
      length-drop (word q) (drop 4 q),
      length-drop 4 q,
    )

module _ (P : Poller) where
  -- Where a call of `OnMessage` leaves a connection, which held the stream `q`.
  pub record Turned (k : ℕ) (c : TcpConnection P) (q : List ℕ) (c' : TcpConnection P) : Type 0 where
    pub messages : List (List ℕ)
    pub closed : Bool
    pub decodes : Decodes k q messages closed (content c'.input_buffer)
    pub valid : IsValid P c'
    pub state : (if closed then is_disconnected P c' else is_connected P c') ≡ true
    pub streamed : stream P c' ≡ stream P c ++ replies messages
    pub callbacks : c'.callbacks ≡ c.callbacks

  -- What `ForceClose` keeps of a connected connection.
  force_close_keeps :
      (c : TcpConnection P)
      → IsValid P c
      → is_connected P c ≡ true
      → (is_disconnected P (force_close P true c) ≡ true)
        × ((force_close P true c).input_buffer ≡ c.input_buffer)
        × ((force_close P true c).callbacks ≡ c.callbacks)
  unfolding force_close
  force_close_keeps c v going =
      let open_still : is_open P c ≡ true = ground arith in
      rw
        (
          open_still,
          force_close_in_loop_lem P (record c { state = disconnecting })
              (stopping-IsValid P c v open_still) refl,
        )
        (refl, refl, refl)

  force_close-Turned :
      (k : ℕ) (c : TcpConnection P)
      → IsValid P c
      → is_connected P c ≡ true
      → split_frame k (content c.input_buffer) ≡ invalid
      → Turned k c (content c.input_buffer) (force_close P true c)
  force_close-Turned k c v going e =
      let (shut, input, callbacks) = force_close_keeps c v going in
      record {
        messages = [];
        closed = true;
        decodes = refuses e (ap content input);
        valid = force_close-IsValid P c true v;
        state = shut;
        streamed = force_close-stream P c true v ∙ sym (append-nil (stream P c));
        callbacks = callbacks;
      }

  -- A message was taken off and answered, and the rest was served.
  answered-Turned :
      (k : ℕ) (c : TcpConnection P) (m q : List ℕ) (b : Buffer) (c1 c' : TcpConnection P)
      → split_frame k (content c.input_buffer) ≡ message m q
      → content b ≡ q
      → Sent P (record c { input_buffer = b }) (reply m) c1
      → Turned k c1 (content c1.input_buffer) c'
      → Turned k c (content c.input_buffer) c'
  answered-Turned k c m q b c1 c' e held s t =
      let same : content c1.input_buffer ≡ q = ap content s.input ∙ held in
      record {
        messages = m ∷ t.messages;
        closed = t.closed;
        decodes =
            reads e (
              subst (λ l. Decodes k l t.messages t.closed (content c'.input_buffer)) same
                t.decodes);
        valid = t.valid;
        state = t.state;
        streamed =
            t.streamed
            ∙ (ap (λ l. l ++ replies t.messages) s.streamed
                ∙ append_assoc (stream P c) (reply m) (replies t.messages));
        callbacks = t.callbacks ∙ s.callbacks;
      }

  turns_go_on :
      (codec : LengthFieldCodec) (fuel : ℕ) (c c1 c' : TcpConnection P) (m : List ℕ) (b : Buffer)
      → codec.has_message_callback ≡ true
      → turn codec c.input_buffer ≡ ok (message m b)
      → codec_callback P m (record c { input_buffer = b }) ≡ ok c1
      → on_message_turns P codec fuel c1 ≡ ok c'
      → on_message_turns P codec (suc fuel) c ≡ ok c'
  unfolding on_message_turns
  turns_go_on codec fuel c c1 c' m b set turned called ran = rw (turned, set, called) ran

  -- With enough fuel the loop runs to its end, and reads the stream that the buffer holds.
  turns_lem :
      (codec : LengthFieldCodec) (fuel : ℕ) (c : TcpConnection P)
      → codec.has_message_callback ≡ true
      → IsValid P c
      → is_connected P c ≡ true
      → length (content c.input_buffer) < fuel
      → length c.output_buffer.buf + length (content c.input_buffer) ≤ max_size
      → (c' : TcpConnection P) × (on_message_turns P codec fuel c ≡ ok c')
        × Turned codec.max_frame_len c (content c.input_buffer) c'
  unfolding on_message_turns
  turns_lem codec zero c set v going enough room = absurd (omega arith)
  turns_lem codec (suc fuel) c set v going enough room =
      go (split_frame codec.max_frame_len (content c.input_buffer)) refl
        (turn-Follows codec c.input_buffer v.input) (turns_lem codec fuel)
    where
      k : ℕ
      k = codec.max_frame_len

      go :
          (t : Turn (List ℕ))
          → split_frame k (content c.input_buffer) ≡ t
          → Follows c.input_buffer
              (turn codec c.input_buffer)
              (split_frame k (content c.input_buffer))
          → ((c1 : TcpConnection P)
              → codec.has_message_callback ≡ true
              → IsValid P c1
              → is_connected P c1 ≡ true
              → length (content c1.input_buffer) < fuel
              → length c1.output_buffer.buf + length (content c1.input_buffer) ≤ max_size
              → (c' : TcpConnection P) × (on_message_turns P codec fuel c1 ≡ ok c')
                × Turned k c1 (content c1.input_buffer) c')
          → (c' : TcpConnection P) × (on_message_turns P codec (suc fuel) c ≡ ok c')
            × Turned k c (content c.input_buffer) c'
      go wait e f rec = (
        c,
        rw (subst (Follows c.input_buffer (turn codec c.input_buffer)) e f),
        record {
          messages = [];
          closed = false;
          decodes = waits e refl;
          valid = v;
          state = going;
          streamed = sym (append-nil (stream P c));
          callbacks = refl;
        },
      )
      go invalid e f rec = (
        force_close P true c,
        rw (subst (Follows c.input_buffer (turn codec c.input_buffer)) e f),
        force_close-Turned k c v going e,
      )
      go (message m q) e f rec =
          let (b, turned, v1, held, storage) =
            subst (Follows c.input_buffer (turn codec c.input_buffer)) e f in
          let total = length-split k (content c.input_buffer) m q e in
          let (c1, called, s) =
            codec_callback_lem P m (record c { input_buffer = b }) (refilled-IsValid P c b v v1)
              going (omega (arith, total, length-reply m)) in
          let rest : length (content c1.input_buffer) ≡ length q =
            ap (λ b. length (content b)) s.input ∙ ap length held in
          let (c', ran, t) =
            rec c1 set s.valid s.going (omega (arith, total, rest))
              (omega (arith, total, rest, s.size, length-reply m)) in
          (
            c',
            turns_go_on codec fuel c c1 c' m b set turned called ran,
            answered-Turned k c m q b c1 c' e held s t,
          )

  -- The message callback answers every whole message that the input buffer holds.
  pub on_connection_message_lem :
      (codec : LengthFieldCodec) (c : TcpConnection P)
      → codec.has_message_callback ≡ true
      → IsValid P c
      → is_connected P c ≡ true
      → length c.output_buffer.buf + length (content c.input_buffer) ≤ max_size
      → (c' : TcpConnection P) × (on_connection_message P codec c ≡ ok c')
        × Turned codec.max_frame_len c (content c.input_buffer) c'
  unfolding on_connection_message
  on_connection_message_lem codec c set v going room =
      turns_lem codec (suc (readable_bytes c.input_buffer)) c set v going
        (omega (arith, readable_bytes-content c.input_buffer v.input)) room
