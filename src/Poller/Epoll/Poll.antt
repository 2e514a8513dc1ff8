-- ===== src/Poller/Epoll/Poll.antt =====
-- src/epoll_poller.cpp: `Poll` hands the events of the system to the channels. The result of
-- `epoll_wait` is a parameter.
use cpp_reactor_framework.Prelude.{
  ℕ, ◌*◌, ◌≤◌, ◌<◌, ◌≡◌, inl, inr, Bool, true, ◌||◌, List, [], ◌∷◌, arith, Bool-cases, ◌==◌,
  if◌then◌else◌, length, ℤ, pos, negsuc,
}
use cpp_reactor_framework.Channel.{Revents}
use cpp_reactor_framework.Poller.{is_some}
use cpp_reactor_framework.Poller.Epoll.{EpollPoller, count, interest, IsValid}

-- The bits of an `epoll_event` that the code reads.
pub record EpollEvent : Type 0 where
  pub fd : ℕ
  pub epollin : Bool
  pub epollout : Bool
  pub epollerr : Bool
  pub epollhup : Bool
  pub epollrdhup : Bool

-- A half-closed peer is a hang-up.
unfoldable pub trans_revents : EpollEvent → Revents
trans_revents e = record {
  readable = e.epollin;
  writable = e.epollout;
  error = e.epollerr;
  hang_up = e.epollhup || e.epollrdhup;
}

-- What `epoll_wait` returns.
pub data EpollWait : Type 0 where
  wait_failed : Bool → EpollWait
  waited : List EpollEvent → EpollWait

pub record ActiveChannel : Type 0 where
  pub fd : ℕ
  pub revents : Revents

unfoldable pub activate : List ℕ → List EpollEvent → List ActiveChannel
activate fds [] = []
activate fds (e ∷ events) =
    let rest = activate fds events in
    if count fds e.fd then record { fd = e.fd; revents = trans_revents e } ∷ rest else rest

-- `m_events` is `capacity` long; `interrupted` is EINTR.
unfoldable pub poll : EpollPoller → ℕ → EpollWait → ℤ × List ActiveChannel × ℕ
poll p capacity (wait_failed interrupted) =
    ((if interrupted then pos 0 else negsuc 0), [], capacity)
poll p capacity (waited events) =
    let n = length events in
    (
      pos n,
      activate p.fds events,
      (if n == 0 then capacity else if n == capacity then capacity * 2 else capacity),
    )

-- The channels that are activated are watched, and each event of a watched descriptor has its own.
abbrev pub AllWatched : EpollPoller → List ActiveChannel → Type 0
AllWatched p [] = Unit {0}
AllWatched p (a ∷ active) = (is_some (interest p.ctl_calls a.fd) ≡ true) × AllWatched p active

activate-AllWatched :
    (p : EpollPoller) (events : List EpollEvent) → IsValid p → AllWatched p (activate p.fds events)
unfolding activate
activate-AllWatched p [] v = tt
activate-AllWatched p (e ∷ events) v = elim (Bool-cases (count p.fds e.fd)) [
  | inl known ↦ rw known (rw (v.same_fds e.fd) known, activate-AllWatched p events v)
  | inr unknown ↦ rw unknown (activate-AllWatched p events v)
]

length-activate :
    (fds : List ℕ) (events : List EpollEvent) → length (activate fds events) ≤ length events
unfolding activate
length-activate fds [] = omega arith
length-activate fds (e ∷ events) = ground (arith, length-activate fds events)

-- `Poll` on a poller in order activates only channels that the system watches, at most one for
-- each event, and its array of events, if it held the events, is afterwards longer than they are.
pub poll-AllWatched :
    (p : EpollPoller) (capacity : ℕ) (events : List EpollEvent)
    → IsValid p
    → 0 < capacity
    → length events ≤ capacity
    → AllWatched p (poll p capacity (waited events)).1
      × (length (poll p capacity (waited events)).1 ≤ length events)
      × (length events < (poll p capacity (waited events)).2)
unfolding poll
poll-AllWatched p capacity events v some_room fits =
    (activate-AllWatched p events v, length-activate p.fds events, ground arith)
