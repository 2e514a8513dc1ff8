-- ===== src/Examples/Codecs.antt =====
-- The theorems on the codec at concrete inputs.
use cpp_reactor_framework.Prelude.{◌≡◌, refl, true, false, [], ◌∷◌, arith, ok}
use cpp_reactor_framework.Buffer.{Buffer, new}
use cpp_reactor_framework.Buffer.View.{IsValid}
use cpp_reactor_framework.Buffer.Refine.{new-IsValid}
use cpp_reactor_framework.Buffer.Io.{host_to_net_long}
use cpp_reactor_framework.Codec.{
  LengthFieldCodec, default_max_frame_len, Decoded, on_message, framed,
}
use cpp_reactor_framework.Codec.Decoding.{Read, on_message-Read}
use cpp_reactor_framework.Codec.Streams.{deliver, deliver-frames}

abbrev codec : LengthFieldCodec
codec = record { has_message_callback = true; max_frame_len = default_max_frame_len }

-- A frame of one byte, and the beginning of another.
abbrev stream_buffer : Buffer
stream_buffer = record { buf = 0 ∷ 0 ∷ 0 ∷ 1 ∷ 9 ∷ 0 ∷ 0 ∷ []; read_idx = 0; write_idx = 7 }

stream_buffer-IsValid : IsValid stream_buffer
stream_buffer-IsValid = record { ordered = omega arith; inside = omega arith; small = omega arith }

empty-IsValid : IsValid (new 8)
empty-IsValid = (new-IsValid 8 (omega arith)).0

on_message-Read_example :
    (d : Decoded) × (on_message codec stream_buffer ≡ ok d) × Read codec stream_buffer d
on_message-Read_example = on_message-Read codec stream_buffer refl stream_buffer-IsValid

deliver-frames_example :
    deliver codec (new 8) ((0 ∷ 0 ∷ []) ∷ (0 ∷ 1 ∷ 9 ∷ []) ∷ []) ≡ ok ((9 ∷ []) ∷ [], false)
unfolding new framed host_to_net_long
deliver-frames_example =
    deliver-frames codec ((0 ∷ 0 ∷ []) ∷ (0 ∷ 1 ∷ 9 ∷ []) ∷ []) ((9 ∷ []) ∷ []) (new 8) refl
      empty-IsValid refl (omega arith) ((omega arith, omega arith), tt) refl
