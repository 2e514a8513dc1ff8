-- ===== src/Channel/Dispatch.antt =====
-- src/channel.cpp: which callbacks `HandleEvent` calls, and how often.
use cpp_reactor_framework.Prelude.{
  ℕ, suc, Bool, true, false, not, ◌&&◌, ◌||◌, ◌≡◌, List, [], ◌∷◌, arith, if◌then◌else◌,
}
use cpp_reactor_framework.Channel.{
  Channel, Callback, read_callback, write_callback, error_callback, close_callback, handle_event,
}

abbrev same_callback : Callback → Callback → Bool
same_callback read_callback read_callback = true
same_callback write_callback write_callback = true
same_callback error_callback error_callback = true
same_callback close_callback close_callback = true
same_callback cb cb' = false

-- How often a callback was called.
abbrev pub times : Callback → List Callback → ℕ
times cb [] = 0
times cb (other ∷ cbs) = if same_callback cb other then suc (times cb cbs) else times cb cbs

abbrev pub once_if : Bool → ℕ
once_if b = if b then 1 else 0

-- Which callbacks one event calls: an error calls the error and the close callback, a hang-up
-- alone the close callback, and each of them keeps the read and the write callback from being
-- called, even when the descriptor is readable or writable; otherwise those two are called for
-- what is ready. No callback that is not set is called, and none twice.
pub handle_event-times :
    (c : Channel)
    → (times error_callback (handle_event c) ≡ once_if (c.revents.error && c.has_error_callback))
      × (times close_callback (handle_event c)
          ≡ once_if ((c.revents.error || c.revents.hang_up) && c.has_close_callback))
      × (times read_callback (handle_event c)
          ≡ once_if (
              not (c.revents.error || c.revents.hang_up)
              && c.revents.readable
              && c.has_read_callback))
      × (times write_callback (handle_event c)
          ≡ once_if (
              not (c.revents.error || c.revents.hang_up)
              && c.revents.writable
              && c.has_write_callback))
unfolding handle_event
handle_event-times c = (ground arith, ground arith, ground arith, ground arith)
