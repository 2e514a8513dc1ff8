-- ===== src/Channel.antt =====
-- include/channel.h, src/channel.cpp: what a file descriptor is watched for, and how its events are
-- handed to the callbacks. A mask of `poll` bits is the record of the bits that the code uses; a
-- callback is whether it was set.
pub mod Dispatch
use cpp_reactor_framework.Prelude.{
  ℕ, Bool, true, false, not, ◌&&◌, ◌||◌, List, [], ◌∷◌, ◌++◌, if◌then◌else◌,
}

-- `m_events`: POLLIN and POLLOUT.
pub record Events : Type 0 where
  pub reading : Bool
  pub writing : Bool

-- `m_revents`: POLLIN, POLLOUT, POLLERR and POLLHUP.
pub record Revents : Type 0 where
  pub readable : Bool
  pub writable : Bool
  pub error : Bool
  pub hang_up : Bool

abbrev pub none_event : Events
none_event = record { reading = false; writing = false }

abbrev pub none_revent : Revents
none_revent = record { readable = false; writable = false; error = false; hang_up = false }

pub record Channel : Type 0 where
  pub fd : ℕ
  pub events : Events
  pub revents : Revents
  pub added : Bool
  pub has_read_callback : Bool
  pub has_write_callback : Bool
  pub has_error_callback : Bool
  pub has_close_callback : Bool

unfoldable pub new : ℕ → Channel
new fd = record {
  fd = fd;
  events = none_event;
  revents = none_revent;
  added = false;
  has_read_callback = false;
  has_write_callback = false;
  has_error_callback = false;
  has_close_callback = false;
}

abbrev pub has_no_events : Events → Bool
has_no_events e = not e.reading && not e.writing

abbrev pub is_writing : Channel → Bool
is_writing c = c.events.writing

abbrev pub is_reading : Channel → Bool
is_reading c = c.events.reading

abbrev pub set_revents : Channel → Revents → Channel
set_revents c r = record c { revents = r }

abbrev pub set_added : Channel → Bool → Channel
set_added c added = record c { added = added }

-- The callbacks that a call of `HandleEvent` makes.
pub data Callback : Type 0 where
  read_callback write_callback error_callback close_callback : Callback

abbrev pub called : Bool → Callback → List Callback
called is_set cb = if is_set then cb ∷ [] else []

unfoldable pub handle_event : Channel → List Callback
handle_event c =
    if revents.error
    then called has_error_callback error_callback ++ called has_close_callback close_callback
    else if revents.hang_up
    then called has_close_callback close_callback
    else called (revents.readable && has_read_callback) read_callback
      ++ called (revents.writable && has_write_callback) write_callback
  where
    open c use {
      revents, has_read_callback, has_write_callback, has_error_callback, has_close_callback,
    }
