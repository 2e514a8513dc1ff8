-- ===== src/Codec.antt =====
-- include/length_field_codec.h, src/length_field_codec.cpp: frames of a four-byte length and a
-- payload. The calls of the message callback are the list of messages, in order.
pub mod Frames
pub mod Decoding
pub mod Streams
use cpp_reactor_framework.Prelude.{
  ℕ, zero, suc, ◌*◌, Bool, true, false, List, [], ◌∷◌, ◌++◌, Result, ok, fault, out_of_fuel, ◌>>=◌,
  leb, ltb, ◌==◌, ◌&&◌, if◌then◌else◌, length, add_size, to_uint32, ℤ, pos, negsuc,
}
use cpp_reactor_framework.Buffer.{Buffer, readable_bytes, retrieve, retrieve_as_string}
use cpp_reactor_framework.Buffer.Io.{host_to_net_long, peek_int32}

pub record LengthFieldCodec : Type 0 where
  pub has_message_callback : Bool
  pub max_frame_len : ℕ

-- The default of the constructor's `max_frame_len`.
abbrev pub default_max_frame_len : ℕ
default_max_frame_len = 4 * 1024 * 1024

-- One turn of the loop of `OnMessage`: it returns and keeps the bytes for later, it closes the
-- connection and returns, or it takes a message off.
pub data Turn (S : Type 0) : Type 0 where
  wait : Turn S
  invalid : Turn S
  message : List ℕ → S → Turn S

unfoldable pub take_payload : Buffer → ℕ → Result (Turn Buffer)
take_payload b payload_len =
    if ltb (readable_bytes b) (add_size 4 payload_len) then ok wait else taken
  where
    taken : Result (Turn Buffer)
    taken = do
      b1 ← retrieve b 4
      (payload, b2) ← retrieve_as_string b1 payload_len
      ok (message payload b2)

unfoldable pub check_length : LengthFieldCodec → Buffer → ℤ → Result (Turn Buffer)
check_length c b (negsuc n) = ok invalid
check_length c b (pos n) = if ltb c.max_frame_len n then ok invalid else take_payload b n

unfoldable pub turn : LengthFieldCodec → Buffer → Result (Turn Buffer)
turn c b = if leb 4 (readable_bytes b) then peek_int32 b >>= check_length c b else ok wait

-- What a call of `OnMessage` does: the messages handed to the callback, whether it called
-- `ForceClose`, and the buffer that it leaves.
pub record Decoded : Type 0 where
  pub messages : List (List ℕ)
  pub closed : Bool
  pub buffer : Buffer

abbrev pub called_back : LengthFieldCodec → List ℕ → Decoded → Decoded
called_back c m d = record d {
  messages = if c.has_message_callback then m ∷ d.messages else d.messages;
}

unfoldable pub on_message_loop : LengthFieldCodec → ℕ → Buffer → Result Decoded
on_message_loop c zero b = fault out_of_fuel
on_message_loop c (suc fuel) b = turn c b >>= λ t. elim t [
  | wait ↦ ok (record { messages = []; closed = false; buffer = b })
  | invalid ↦ ok (record { messages = []; closed = true; buffer = b })
  | message m b' ↦ on_message_loop c fuel b' >>= λ d. ok (called_back c m d)
]

-- Each turn takes at least four bytes, so one turn for each readable byte is enough.
unfoldable pub on_message : LengthFieldCodec → Buffer → Result Decoded
on_message c b = on_message_loop c (suc (readable_bytes b)) b

-- The frame that `Send` hands to the connection.
unfoldable pub framed : List ℕ → List ℕ
framed msg = host_to_net_long (to_uint32 (length msg)) ++ msg

-- What `Send` passes to `conn->Send`, if anything: `connected` is `conn && conn->IsConnected()`.
unfoldable pub send : Bool → List ℕ → List (List ℕ)
send connected msg = if connected then framed msg ∷ [] else []

abbrev pub ping : List ℕ
ping = b'P' ∷ b'I' ∷ b'N' ∷ b'G' ∷ []

abbrev pub pong : List ℕ
pong = b'P' ∷ b'O' ∷ b'N' ∷ b'G' ∷ []

abbrev pub is_ping : List ℕ → Bool
is_ping (a ∷ b ∷ c ∷ d ∷ []) = (a == b'P') && (b == b'I') && (c == b'N') && (d == b'G')
is_ping msg = false

-- Whether the message was a heartbeat, and what is passed to `conn->Send`.
unfoldable pub handle_heartbeat : List ℕ → Bool × List (List ℕ)
handle_heartbeat msg =
    if is_ping msg then (true, (host_to_net_long 4 ++ pong) ∷ []) else (false, [])
