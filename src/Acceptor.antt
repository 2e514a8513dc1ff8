-- ===== src/Acceptor.antt =====
-- include/acceptor.h, src/acceptor.cpp: the listening socket and its channel. What `accept` returns
-- is a parameter: none where it failed.
pub mod Listening
use cpp_reactor_framework.Prelude.{
  ℕ, Bool, true, false, Option, none, some, List, [], ◌∷◌, if◌then◌else◌,
}
use cpp_reactor_framework.Channel
use cpp_reactor_framework.Channel.{Channel}
use cpp_reactor_framework.Poller.{Poller}

module _ (P : Poller) where
  pub record Acceptor : Type 0 where
    pub listen_channel : Channel
    pub poller : P.State
    pub has_new_connection_callback : Bool
    pub is_listening : Bool

  -- The constructor and `SetNewConnectionCallback`, for a socket that was created and bound.
  unfoldable pub new : P.State → ℕ → Bool → Acceptor
  unfolding Channel.new
  new poller listen_fd has_callback = record {
    listen_channel = record (Channel.new listen_fd) { has_read_callback = true };
    poller = poller;
    has_new_connection_callback = has_callback;
    is_listening = false;
  }

  unfoldable pub set_reading : Bool → Acceptor → Acceptor
  set_reading reading a =
      let (p, ch) = P.update_channel a.poller (record listen_channel {
        events = record { reading = reading; writing = a.listen_channel.events.writing };
      }) in
      record a { poller = p; listen_channel = ch }
    where
      open a use {listen_channel}

  unfoldable pub listen : Acceptor → Acceptor
  listen a = record (set_reading true a) { is_listening = true }

  unfoldable pub stop : Acceptor → Acceptor
  stop a = if a.is_listening then record (set_reading false a) { is_listening = false } else a

  -- The destructor's use of the poller.
  unfoldable pub destroy : Acceptor → Acceptor
  destroy a =
      let off = set_all_off in
      let (p, ch) = P.remove_channel off.poller off.listen_channel in
      if off.listen_channel.added then record off { poller = p; listen_channel = ch } else off
    where
      set_all_off : Acceptor
      set_all_off =
          let (p, ch) =
            P.update_channel a.poller (record (a.listen_channel) {
              events = record { reading = false; writing = false };
            }) in
          record a { poller = p; listen_channel = ch }

  -- What `HandleAccept` does with a new socket: it hands it to the callback, or closes it.
  pub data Accepted : Type 0 where
    handed_over closed : ℕ → Accepted
    accept_failed : Accepted

  unfoldable pub handle_accept : Option ℕ → Acceptor → Accepted
  handle_accept none a = accept_failed
  handle_accept (some fd) a = if a.has_new_connection_callback then handed_over fd else closed fd
