-- ===== src/Program/History.antt =====
-- src/main.cpp: a connection of the echo server over any sequence of reads and writes.
use cpp_reactor_framework.Prelude.{
  ℕ, ◌≡◌, refl, sym, ap, subst, ◌∙◌, Bool, true, false, ◌||◌, List, [], ◌++◌, append-nil, arith,
  Result, ok, same_end, if◌then◌else◌,
}
use cpp_reactor_framework.Buffer.Io.{got, WriteOutcome}
use cpp_reactor_framework.Buffer.View.{content}
use cpp_reactor_framework.Codec.{LengthFieldCodec}
use cpp_reactor_framework.Codec.Frames.{Decodes, waits}
use cpp_reactor_framework.Codec.Streams.{
  split_frame_nil, Decodes_unique, Decodes-frames, frames, Allowed,
}
use cpp_reactor_framework.Poller.{Poller}
use cpp_reactor_framework.TcpConnection.{TcpConnection, is_connected, is_disconnected}
use cpp_reactor_framework.TcpConnection.Handlers.{handle_write}
use cpp_reactor_framework.TcpConnection.Invariant.{IsValid}
use cpp_reactor_framework.TcpConnection.Writing.{Offered, handle_write_connected}
use cpp_reactor_framework.TcpConnection.Bytes.{stream, handle_write-Adds}
use cpp_reactor_framework.Program.{serve_read}
use cpp_reactor_framework.Program.Replies.{replies}
use cpp_reactor_framework.Program.Echo.{Turned}
use cpp_reactor_framework.Program.Writing.{write_ends, write_lem}
use cpp_reactor_framework.Program.Serving.{ReadAllowed, serve_read_lem, still_open, Turned-append}

-- What can happen to a connection: a read that returned bytes, and a write with what became of it.
pub data Traffic : Type 0 where
  arrives : ℕ → List ℕ → Traffic
  departs : ℕ → WriteOutcome → Traffic

abbrev pub arrived : Traffic → List ℕ
arrived (arrives now bytes) = bytes
arrived (departs now outcome) = []

module _ (P : Poller) (codec : LengthFieldCodec) where
  -- What a ready descriptor makes the server do with its connection.
  unfoldable pub serve : Traffic → TcpConnection P → Result (TcpConnection P)
  serve (arrives now bytes) c = serve_read P codec now (got bytes) c
  serve (departs now outcome) c = handle_write P now outcome c

  abbrev pub TrafficAllowed : TcpConnection P → Traffic → Type 0
  TrafficAllowed c (arrives now bytes) = ReadAllowed P codec c bytes
  TrafficAllowed c (departs now outcome) = Offered P c outcome

  -- Whether a write ended the connection.
  abbrev pub breaks : TcpConnection P → Traffic → Bool
  breaks c (arrives now bytes) = false
  breaks c (departs now outcome) = write_ends P c outcome

  -- What a connection can come to until it is closed, with the bytes that it received, and whether
  -- the last event was a write that ended it.
  pub data Serves (start : TcpConnection P) : TcpConnection P → List ℕ → Bool → Type 0 where
    begins :
        {received : List ℕ} {broken : Bool}
        → received ≡ []
        → broken ≡ false
        → Serves start start received broken
    goes_on :
        {c c' : TcpConnection P} {received received' : List ℕ} {broken broken' : Bool} (e : Traffic)
        → Serves start c received broken
        → is_connected P c ≡ true
        → TrafficAllowed c e
        → serve e c ≡ ok c'
        → received' ≡ received ++ arrived e
        → broken' ≡ breaks c e
        → Serves start c' received' broken'

  -- A connection that was established for the server and has nothing to read.
  pub record Fresh (start : TcpConnection P) : Type 0 where
    pub set : codec.has_message_callback ≡ true
    pub told : start.callbacks.message ≡ true
    pub valid : IsValid P start
    pub going : is_connected P start ≡ true
    pub empty : content start.input_buffer ≡ []

  -- A connection that has come this far: `Turned`, but for a write that ended it.
  record Answered (a : TcpConnection P) (q : List ℕ) (broken : Bool) (c : TcpConnection P)
      : Type 0 where
    messages : List (List ℕ)
    closed : Bool
    decodes : Decodes codec.max_frame_len q messages closed (content c.input_buffer)
    valid : IsValid P c
    state : (if closed || broken then is_disconnected P c else is_connected P c) ≡ true
    streamed : stream P c ≡ stream P a ++ replies messages
    callbacks : c.callbacks ≡ a.callbacks

  Turned-Answered :
      (a c : TcpConnection P) (q : List ℕ)
      → Turned P codec.max_frame_len a q c
      → Answered a q false c
  Turned-Answered a c q t = record {
    messages = t.messages;
    closed = t.closed;
    decodes = t.decodes;
    valid = t.valid;
    state = ground (arith, t.state);
    streamed = t.streamed;
    callbacks = t.callbacks;
  }

  Answered-Turned :
      (a c : TcpConnection P) (q : List ℕ) (broken : Bool)
      → Answered a q broken c
      → is_connected P c ≡ true
      → Turned P codec.max_frame_len a q c
  Answered-Turned a c q broken t going = record {
    messages = t.messages;
    closed = t.closed;
    decodes = t.decodes;
    valid = t.valid;
    state = ground (arith, t.state, going);
    streamed = t.streamed;
    callbacks = t.callbacks;
  }

  written-Answered :
      (a c : TcpConnection P) (q : List ℕ) (now : ℕ) (outcome : WriteOutcome)
      (t : Turned P codec.max_frame_len a q c)
      → is_connected P c ≡ true
      → Offered P c outcome
      → (c' : TcpConnection P) × (handle_write P now outcome c ≡ ok c')
        × Answered a q (write_ends P c outcome) c'
  written-Answered a c q now outcome t going offer =
      let (c', ran, w) = write_lem P c now outcome t.valid going offer in
      let (c1, ran1, valid) = handle_write_connected P c now t.valid going outcome offer in
      let (c2, ran2, streamed) = handle_write-Adds P c outcome now t.valid offer in
      (
        c',
        ran,
        record {
          messages = t.messages;
          closed = false;
          decodes =
              subst (λ b. Decodes codec.max_frame_len q t.messages false (content b)) (sym w.input)
                (subst (λ o. Decodes codec.max_frame_len q t.messages o (content c.input_buffer))
                  (still_open P codec t.closed c going t.state) t.decodes);
          valid = subst (IsValid P) (same_end ran1 ran) valid;
          state = w.state;
          streamed =
              ap (stream P) (same_end ran ran2)
              ∙ (streamed ∙ (append-nil (stream P c) ∙ t.streamed));
          callbacks = w.callbacks ∙ t.callbacks;
        },
      )

  serve-Answered :
      (a c : TcpConnection P) (q : List ℕ) (e : Traffic) (t : Turned P codec.max_frame_len a q c)
      → codec.has_message_callback ≡ true
      → a.callbacks.message ≡ true
      → is_connected P c ≡ true
      → TrafficAllowed c e
      → (c' : TcpConnection P) × (serve e c ≡ ok c') × Answered a (q ++ arrived e) (breaks c e) c'
  unfolding serve
  serve-Answered a c q (arrives now bytes) t set told going allowed =
      let (c', ran, u) =
        serve_read_lem P codec c now bytes set (ap (λ s. s.message) t.callbacks ∙ told) t.valid
          going allowed in
      (c', ran, Turned-Answered a c' (q ++ bytes) (Turned-append P codec a c c' q bytes t going u))
  serve-Answered a c q (departs now outcome) t set told going allowed =
      let (c', ran, u) = written-Answered a c q now outcome t going allowed in
      (c', ran, subst (λ l. Answered a l (write_ends P c outcome) c') (sym (append-nil q)) u)

  Serves-Answered :
      {start c : TcpConnection P} {received : List ℕ} {broken : Bool}
      → Fresh start
      → Serves start c received broken
      → Answered start received broken c
  Serves-Answered {start} f (begins e b) = record {
    messages = [];
    closed = false;
    decodes = rw e (waits (split_frame_nil codec.max_frame_len) f.empty);
    valid = f.valid;
    state = rw b f.going;
    streamed = sym (append-nil (stream P start));
    callbacks = refl;
  }
  Serves-Answered {start} f
        (goes_on {c = c} {c' = c'} {received = q} {received' = q'} {broken = b} e r going a ran more
          last) =
      let (c1, ran1, t) =
        serve-Answered start c q e (Answered-Turned start c q b (Serves-Answered f r) going) f.set
          f.told going a in
      subst (λ o. Answered start q' o c') (sym last)
        (subst (λ l. Answered start l (breaks c e) c') (sym more)
          (subst (Answered start (q ++ arrived e) (breaks c e)) (same_end ran1 ran) t))

  -- A connected connection of the echo server serves the next event to its end, after any history
  -- of such events: a read that returns bytes and finds room in both buffers, or a write with any
  -- outcome, where the system takes at most what it is offered.
  pub serve_goes_on :
      {start c : TcpConnection P} {received : List ℕ} {broken : Bool} (e : Traffic)
      → Fresh start
      → Serves start c received broken
      → is_connected P c ≡ true
      → TrafficAllowed c e
      → (c' : TcpConnection P) × (serve e c ≡ ok c')
        × Serves start c' (received ++ arrived e) (breaks c e)
  serve_goes_on {start} {c} {received} {broken} e f r going a =
      let (c', ran, t) =
        serve-Answered start c received e
          (Answered-Turned start c received broken (Serves-Answered f r) going) f.set f.told going
          a in
      (c', ran, goes_on e r going a ran refl refl)

  -- What the echo server sends on a connection, over every history of reads that return bytes and
  -- find room in both buffers, and of writes with any outcome (the system takes at most what it is
  -- offered), until the connection is closed: the bytes that arrived are read as messages, and
  -- what the system was given, followed by what waits in the output buffer, has grown by exactly
  -- the replies to them, in their order; the connection is disconnected if a length was invalid,
  -- or if the last event was a write that ended it (there was nothing to write, the system took
  -- nothing, or it failed with another error than EAGAIN), and connected otherwise.
  pub echo_lem :
      {start c : TcpConnection P} {received : List ℕ} {broken : Bool}
      → Fresh start
      → Serves start c received broken
      → (ms : List (List ℕ)) × (closed : Bool) × Decodes codec.max_frame_len received ms closed
          (content c.input_buffer)
        × (stream P c ≡ stream P start ++ replies ms)
        × ((if closed || broken then is_disconnected P c else is_connected P c) ≡ true)
  echo_lem f r =
      let t = Serves-Answered f r in (t.messages, t.closed, t.decodes, t.streamed, t.state)

  -- If the bytes that arrived at the echo server, in reads that find room in both buffers, are the
  -- frames of messages that the codec allows, however they were cut into reads and whatever the
  -- outcomes of the writes between (the system takes at most what it is offered), up to the end of
  -- the connection: each message was answered once and in order in what was sent or waits (a
  -- heartbeat by its answer, any other message by itself), no byte is left unread, and the
  -- connection is connected unless the last event was a write that ended it.
  pub echo-frames :
      {start c : TcpConnection P} {received : List ℕ} {broken : Bool} (ms : List (List ℕ))
      → Fresh start
      → Serves start c received broken
      → Allowed codec.max_frame_len ms
      → received ≡ frames ms
      → (stream P c ≡ stream P start ++ replies ms)
        × ((if broken then is_disconnected P c else is_connected P c) ≡ true)
        × (content c.input_buffer ≡ [])
  echo-frames {start} {c} {broken = broken} ms f r allowed cut =
      let t = Serves-Answered f r in
      let (same, still, none_left) =
        Decodes_unique codec.max_frame_len
          (subst (λ l. Decodes codec.max_frame_len l t.messages t.closed (content c.input_buffer))
            cut t.decodes)
          (Decodes-frames codec.max_frame_len ms allowed) in
      (
        t.streamed ∙ ap (λ l. stream P start ++ replies l) same,
        subst (λ o. (if o || broken then is_disconnected P c else is_connected P c) ≡ true) still
            t.state,
        none_left,
      )
