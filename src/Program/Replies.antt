-- ===== src/Program/Replies.antt =====
-- src/main.cpp: what one message makes a connection send.
use cpp_reactor_framework.Prelude.{
  ℕ, ◌+◌, ◌≤◌, ◌≡◌, refl, ap, subst, ◌∙◌, true, false, List, [], ◌∷◌, ◌++◌, inl, inr, arith, ok,
  same_end, Bool-cases, if◌then◌else◌, length,
}
use cpp_reactor_framework.Buffer.{max_size, readable_bytes}
use cpp_reactor_framework.Buffer.Io.{host_to_net_long}
use cpp_reactor_framework.Buffer.Refine.{append-Yields}
use cpp_reactor_framework.Codec
use cpp_reactor_framework.Codec.{framed, pong, is_ping, handle_heartbeat}
use cpp_reactor_framework.Poller.{Poller}
use cpp_reactor_framework.TcpConnection.{TcpConnection, is_connected, set_events}
use cpp_reactor_framework.TcpConnection.Calls.{send, send_in_loop, after_append}
use cpp_reactor_framework.TcpConnection.Invariant.{IsValid}
use cpp_reactor_framework.TcpConnection.Sending.{HasRoom, send_in_loop-IsValid}
use cpp_reactor_framework.TcpConnection.Bytes.{stream, send_in_loop-Adds}
use cpp_reactor_framework.Program.{codec_callback}

-- What a client gets for a message, as it appears in the stream.
abbrev pub reply : List ℕ → List ℕ
reply m = framed (if is_ping m then pong else m)

abbrev pub replies : List (List ℕ) → List ℕ
replies [] = []
replies (m ∷ ms) = reply m ++ replies ms

-- A reply is as long as the frame that it answers.
pub length-reply : (m : List ℕ) → length (reply m) ≡ 4 + length m
unfolding framed host_to_net_long
length-reply (a ∷ b ∷ c ∷ d ∷ []) = ground arith
length-reply [] = refl
length-reply (a ∷ []) = refl
length-reply (a ∷ b ∷ []) = refl
length-reply (a ∷ b ∷ c ∷ []) = refl
length-reply (a ∷ b ∷ c ∷ d ∷ e ∷ m) = omega arith

module _ (P : Poller) where
  -- A connection that goes on after it has sent `bytes`: only the output has grown.
  pub record Sent (c : TcpConnection P) (bytes : List ℕ) (c' : TcpConnection P) : Type 0 where
    pub valid : IsValid P c'
    pub going : is_connected P c' ≡ true
    pub input : c'.input_buffer ≡ c.input_buffer
    pub callbacks : c'.callbacks ≡ c.callbacks
    pub streamed : stream P c' ≡ stream P c ++ bytes
    pub size : length c'.output_buffer.buf ≤ length c.output_buffer.buf + length bytes

  after_append_keeps :
      (old_pending : ℕ) (c : TcpConnection P)
      → ((after_append P old_pending c).state ≡ c.state)
        × ((after_append P old_pending c).input_buffer ≡ c.input_buffer)
        × ((after_append P old_pending c).output_buffer ≡ c.output_buffer)
        × ((after_append P old_pending c).callbacks ≡ c.callbacks)
  unfolding after_append
  after_append_keeps old_pending c =
      unfold set_events in (ground arith, ground arith, ground arith, ground arith)

  -- What a send keeps.
  send_keeps :
      (c : TcpConnection P) (bytes : List ℕ)
      → IsValid P c
      → is_connected P c ≡ true
      → length c.output_buffer.buf + length bytes ≤ max_size
      → (c' : TcpConnection P) × (send_in_loop P bytes c ≡ ok c')
        × (is_connected P c' ≡ true)
        × (c'.input_buffer ≡ c.input_buffer)
        × (c'.callbacks ≡ c.callbacks)
        × (length c'.output_buffer.buf ≤ length c.output_buffer.buf + length bytes)
  unfolding send_in_loop
  send_keeps c bytes v going room =
      let (out, appended, held, same, size) =
        append-Yields c.output_buffer bytes v.output (omega (arith, v.output.inside)) in
      let (state, input, output, callbacks) =
        after_append_keeps (readable_bytes c.output_buffer) (record c { output_buffer = out }) in
      (
        after_append P (readable_bytes c.output_buffer) (record c { output_buffer = out }),
        rw (going, appended) refl,
        rw state going,
        input,
        callbacks,
        rw output size,
      )

  send_lem :
      (c : TcpConnection P) (bytes : List ℕ)
      → IsValid P c
      → is_connected P c ≡ true
      → length c.output_buffer.buf + length bytes ≤ max_size
      → (c' : TcpConnection P) × (send P true bytes c ≡ ok c') × Sent c bytes c'
  unfolding send
  send_lem c bytes v going room =
      let room' : HasRoom P c bytes = omega (arith, v.output.inside) in
      let (c', ran, still, input, callbacks, size) = send_keeps c bytes v going room in
      let (c1, ran1, valid) = send_in_loop-IsValid P c bytes v room' in
      let (c2, ran2, streamed) = send_in_loop-Adds P c bytes v room' in
      (
        c',
        rw going ran,
        record {
          valid = subst (IsValid P) (same_end ran1 ran) valid;
          going = still;
          input = input;
          callbacks = callbacks;
          streamed = ap (stream P) (same_end ran ran2) ∙ (streamed ∙ rw going refl);
          size = size;
        },
      )

  module _ (m : List ℕ) (c c' : TcpConnection P) where
    answered_lem :
        is_ping m ≡ true → send P true (framed pong) c ≡ ok c' → codec_callback P m c ≡ ok c'
    unfolding codec_callback handle_heartbeat framed
    answered_lem heartbeat ran = rw heartbeat (rw ran refl)

    echoed_lem :
        is_ping m ≡ false
        → is_connected P c ≡ true
        → send P true (framed m) c ≡ ok c'
        → codec_callback P m c ≡ ok c'
    unfolding codec_callback handle_heartbeat Codec.send
    echoed_lem other going ran = rw (other, going) (rw ran refl)

  -- The callback sends the reply, whatever the message.
  pub codec_callback_lem :
      (m : List ℕ) (c : TcpConnection P)
      → IsValid P c
      → is_connected P c ≡ true
      → length c.output_buffer.buf + length (reply m) ≤ max_size
      → (c' : TcpConnection P) × (codec_callback P m c ≡ ok c') × Sent c (reply m) c'
  codec_callback_lem m c v going room =
      let (c', ran, s) = send_lem c (reply m) v going room in (c', by_kind c' ran, s)
    where
      by_kind :
          (c' : TcpConnection P) → send P true (reply m) c ≡ ok c' → codec_callback P m c ≡ ok c'
      by_kind c' ran = elim (Bool-cases (is_ping m)) [
        | inl heartbeat ↦ answered_lem m c c' heartbeat (rw heartbeat at ran)
        | inr other ↦ echoed_lem m c c' other going (rw other at ran)
      ]
