-- ===== src/Poller/WsPoll.antt =====
-- include/wspoll_poller.h, src/wspoll_poller.cpp: the poller on Windows. Its two vectors hold the
-- descriptors to poll and their channels, at the same indices; a map gives the index of a
-- descriptor. A channel is named by its descriptor.
pub mod Index
pub mod Updates
pub mod Watching
pub mod Ready
use cpp_reactor_framework.Prelude.{
  ℕ, ◌-◌, Bool, true, false, Option, none, some, List, [], ◌∷◌, ◌++◌, ◌==◌, if◌then◌else◌, length,
  get_elem?, set_at, swap_pop,
}
use cpp_reactor_framework.Channel.{Events, Channel, has_no_events, set_added}

-- A WSAPOLLFD, without the field that `WSAPoll` fills.
pub record PollFd : Type 0 where
  pub fd : ℕ
  pub events : Events

pub record WsPollPoller : Type 0 where
  pub pollfds : List PollFd
  pub channels : List ℕ
  pub fd_to_idx : ℕ → Option ℕ

abbrev pub new : WsPollPoller
new = record { pollfds = []; channels = []; fd_to_idx = λ fd. none }

-- `m_fd_to_idx[fd] = idx` and `erase`.
unfoldable pub assign : (ℕ → Option ℕ) → ℕ → Option ℕ → ℕ → Option ℕ
assign m fd idx g = if g == fd then idx else m g

-- The descriptor of the entry that was moved to `idx`, with its index in the map.
abbrev pub moved : ℕ → Option PollFd → (ℕ → Option ℕ) → ℕ → Option ℕ
moved idx none m = m
moved idx (some last) m = assign m last.fd (some idx)

-- `RemoveChannel` for a descriptor at `idx`: the entry is swapped with the last one, whose index is
-- written anew, and the last one is popped.
unfoldable pub remove_at : WsPollPoller → ℕ → ℕ → WsPollPoller
unfolding assign
remove_at p fd idx = record {
  pollfds = swap_pop idx p.pollfds;
  channels = swap_pop idx p.channels;
  fd_to_idx =
      assign
        (if idx == last_idx
          then p.fd_to_idx
          else moved idx (get_elem? p.pollfds last_idx) p.fd_to_idx)
        fd none;
}
  where
    last_idx : ℕ
    last_idx = length p.pollfds - 1

abbrev pub remove_found : Option ℕ → WsPollPoller → Channel → WsPollPoller × Channel
remove_found none p c = (p, c)
remove_found (some idx) p c = (remove_at p c.fd idx, set_added c false)

unfoldable pub remove_channel : WsPollPoller → Channel → WsPollPoller × Channel
remove_channel p c = remove_found (p.fd_to_idx c.fd) p c

abbrev pub entry : Channel → PollFd
entry c = record { fd = c.fd; events = c.events }

abbrev pub update_found : Option ℕ → WsPollPoller → Channel → WsPollPoller × Channel
update_found none p c = (
  record {
    pollfds = p.pollfds ++ (entry c ∷ []);
    channels = p.channels ++ (c.fd ∷ []);
    fd_to_idx = assign p.fd_to_idx c.fd (some (length p.pollfds));
  },
  set_added c true,
)
update_found (some idx) p c = (record p { pollfds = set_at idx (entry c) p.pollfds }, c)

abbrev pub is_found : Option ℕ → Bool
is_found none = false
is_found (some idx) = true

unfoldable pub update_channel : WsPollPoller → Channel → WsPollPoller × Channel
unfolding remove_channel
update_channel p c =
    if has_no_events c.events
    then (if is_found (p.fd_to_idx c.fd) then remove_channel p c else (p, c))
    else update_found (p.fd_to_idx c.fd) p c

-- What `WSAPoll` is asked to watch a descriptor for.
unfoldable pub watched_in : List PollFd → ℕ → Option Events
watched_in [] fd = none
watched_in (e ∷ es) fd = if fd == e.fd then some e.events else watched_in es fd

abbrev pub watched : WsPollPoller → ℕ → Option Events
watched p fd = watched_in p.pollfds fd
