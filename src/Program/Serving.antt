-- ===== src/Program/Serving.antt =====
-- src/main.cpp: one read of a connection of the echo server.
use cpp_reactor_framework.Prelude.{
  ℕ, ◌+◌, ◌≤◌, ◌<◌, ◌≡◌, refl, sym, ap, subst, ◌∙◌, Bool, true, false, List, [], ◌∷◌, ◌++◌,
  append_assoc, arith, ok, if◌then◌else◌, length, length-append,
}
use cpp_reactor_framework.Buffer.{Buffer, max_size}
use cpp_reactor_framework.Buffer.Io.{got, count, read_from_fd, read_capacity, extrabuf_size}
use cpp_reactor_framework.Buffer.View.{content}
use cpp_reactor_framework.Buffer.ReadWrite.{read_from_fd-got}
use cpp_reactor_framework.Codec.{LengthFieldCodec}
use cpp_reactor_framework.Codec.Frames.{Decodes}
use cpp_reactor_framework.Codec.Streams.{Decodes-append}
use cpp_reactor_framework.Poller.{Poller}
use cpp_reactor_framework.TcpConnection.{TcpConnection, is_connected, is_disconnected}
use cpp_reactor_framework.TcpConnection.Handlers.{after_read}
use cpp_reactor_framework.TcpConnection.Invariant.{IsValid}
use cpp_reactor_framework.TcpConnection.Ready.{received, received-IsValid}
use cpp_reactor_framework.TcpConnection.Bytes.{stream}
use cpp_reactor_framework.Program.{on_connection_message, serve_read}
use cpp_reactor_framework.Program.Replies.{reply, replies}
use cpp_reactor_framework.Program.Echo.{Turned, on_connection_message_lem}

replies-append : (ms ms' : List (List ℕ)) → replies (ms ++ ms') ≡ replies ms ++ replies ms'
replies-append [] ms' = refl
replies-append (m ∷ ms) ms' =
    ap (λ l. reply m ++ l) (replies-append ms ms')
    ∙ sym (append_assoc (reply m) (replies ms) (replies ms'))

module _ (P : Poller) (codec : LengthFieldCodec) where
  -- A read that returns bytes, with room for them and for the replies to them.
  abbrev pub ReadAllowed : TcpConnection P → List ℕ → Type 0
  ReadAllowed c bytes =
      (0 < length bytes)
      × (length bytes ≤ read_capacity c.input_buffer)
      × (length c.input_buffer.buf + extrabuf_size ≤ max_size)
      × (length c.output_buffer.buf + (length (content c.input_buffer) + length bytes) ≤ max_size)

  received-stream :
      (c : TcpConnection P) (input : Buffer) (n now : ℕ)
      → stream P (received P c input n now) ≡ stream P c
  received-stream c input n now = ground arith

  serve_read_opens :
      (c : TcpConnection P) (now : ℕ) (bytes : List ℕ) (input : Buffer)
      → 0 < length bytes
      → c.callbacks.message ≡ true
      → read_from_fd c.input_buffer (got bytes)
        ≡ ok (record { n = count (length bytes); errno = 0 }, input)
      → serve_read P codec now (got bytes) c
        ≡ on_connection_message P codec (received P c input (length bytes) now)
  unfolding serve_read after_read
  serve_read_opens c now bytes input some set ran = rw ran (ground arith)

  -- The message callback is called on what was read, after what was there.
  pub serve_read_lem :
      (c : TcpConnection P) (now : ℕ) (bytes : List ℕ)
      → codec.has_message_callback ≡ true
      → c.callbacks.message ≡ true
      → IsValid P c
      → is_connected P c ≡ true
      → ReadAllowed c bytes
      → (c' : TcpConnection P) × (serve_read P codec now (got bytes) c ≡ ok c')
        × Turned P codec.max_frame_len c (content c.input_buffer ++ bytes) c'
  serve_read_lem c now bytes set told v going (some, fits, room, room_out) =
      let (input, ran, held, same) = read_from_fd-got c.input_buffer bytes v.input fits room in
      let c1 : TcpConnection P = received P c input (length bytes) now in
      let (c', served, t) =
        on_connection_message_lem P codec c1 set
          (received-IsValid P c input (length bytes) now v held) going
          (omega (arith, ap length same, length-append (content c.input_buffer) bytes)) in
      (
        c',
        serve_read_opens c now bytes input some told ran ∙ served,
        record {
          messages = t.messages;
          closed = t.closed;
          decodes =
              subst
                (λ l. Decodes codec.max_frame_len l t.messages t.closed (content c'.input_buffer))
                same t.decodes;
          valid = t.valid;
          state = t.state;
          streamed =
              t.streamed
              ∙ ap (λ l. l ++ replies t.messages) (received-stream c input (length bytes) now);
          callbacks = t.callbacks;
        },
      )

  pub still_open :
      (closed : Bool) (c : TcpConnection P)
      → is_connected P c ≡ true
      → (if closed then is_disconnected P c else is_connected P c) ≡ true
      → closed ≡ false
  still_open closed c going state = ground arith

  -- One stream after the other.
  pub Turned-append :
      (a c c' : TcpConnection P) (q more : List ℕ) (t : Turned P codec.max_frame_len a q c)
      → is_connected P c ≡ true
      → Turned P codec.max_frame_len c (content c.input_buffer ++ more) c'
      → Turned P codec.max_frame_len a (q ++ more) c'
  Turned-append a c c' q more t going u =
      let (on, stop) = Decodes-append codec.max_frame_len more t.decodes in
      record {
        messages = t.messages ++ u.messages;
        closed = u.closed;
        decodes =
            on (still_open t.closed c going t.state) (content c'.input_buffer) u.messages u.closed
              u.decodes;
        valid = u.valid;
        state = u.state;
        streamed =
            u.streamed
            ∙ (ap (λ l. l ++ replies u.messages) t.streamed
                ∙ (append_assoc (stream P a) (replies t.messages) (replies u.messages)
                    ∙ ap (λ l. stream P a ++ l) (sym (replies-append t.messages u.messages))));
        callbacks = u.callbacks ∙ t.callbacks;
      }
