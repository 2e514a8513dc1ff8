-- ===== src/Poller/Epoll.antt =====
-- include/epoll_poller.h, src/epoll_poller.cpp: the poller on Linux. The calls of `epoll_ctl` are a
-- list, newest first; what they ask for is read off by `interest`, which is their documented effect.
pub mod Poll
use cpp_reactor_framework.Prelude.{
  ℕ, zero, suc, ◌*◌, ◌≤◌, ◌<◌, ◌+◌, ◌≡◌, refl, sym, ap, ◌∙◌, inl, inr, Bool, true, false, not, ◌&&◌,
  ◌||◌, Option, none, some, List, [], ◌∷◌, ◌++◌, arith, ◌==◌, leb, if◌then◌else◌, Bool-cases,
  length,
}
use cpp_reactor_framework.Channel.{Events, Revents, Channel, has_no_events, set_added, set_revents}
use cpp_reactor_framework.Poller.{Poller, is_some, wanted}

pub data CtlOp : Type 0 where
  ctl_add ctl_mod ctl_del : CtlOp

pub record CtlCall : Type 0 where
  pub op : CtlOp
  pub fd : ℕ
  pub events : Events

-- `m_fd_to_channel` by its keys: a loop has one channel for a descriptor.
pub record EpollPoller : Type 0 where
  pub fds : List ℕ
  pub ctl_calls : List CtlCall

abbrev pub new : EpollPoller
new = record { fds = []; ctl_calls = [] }

-- `m_fd_to_channel.count(fd)`.
unfoldable pub count : List ℕ → ℕ → Bool
count [] fd = false
count (x ∷ xs) fd = x == fd || count xs fd

unfoldable pub erase : List ℕ → ℕ → List ℕ
erase [] fd = []
erase (x ∷ xs) fd = let rest = erase xs fd in if x == fd then rest else x ∷ rest

unfoldable pub update_epoll : EpollPoller → CtlOp → Channel → EpollPoller
update_epoll p op c = record p {
  ctl_calls = record { op = op; fd = c.fd; events = c.events } ∷ p.ctl_calls;
}

unfoldable pub remove_channel : EpollPoller → Channel → EpollPoller × Channel
unfolding update_epoll
remove_channel p c =
    if count p.fds c.fd
    then (record (update_epoll p ctl_del c) { fds = erase p.fds c.fd }, set_added c false)
    else (p, c)

unfoldable pub update_channel : EpollPoller → Channel → EpollPoller × Channel
unfolding update_epoll
update_channel p c =
    if has_no_events c.events
    then (if count p.fds c.fd then remove_channel p c else (p, c))
    else if count p.fds c.fd
    then (update_epoll p ctl_mod c, c)
    else (update_epoll (record p { fds = c.fd ∷ p.fds }) ctl_add c, set_added c true)

abbrev asked : CtlOp → Events → Option Events
asked ctl_del e = none
asked ctl_add e = some e
asked ctl_mod e = some e

-- What the system watches a descriptor for, after these calls.
unfoldable pub interest : List CtlCall → ℕ → Option Events
interest [] fd = none
interest (call ∷ calls) fd = if fd == call.fd then asked call.op call.events else interest calls fd

abbrev pub expected : CtlOp → Bool
expected ctl_add = false
expected ctl_mod = true
expected ctl_del = true

-- `epoll_ctl` adds a descriptor only once, and modifies or deletes one that was added.
abbrev pub Accepted : List CtlCall → Type 0
Accepted [] = Unit {0}
Accepted (call ∷ calls) = (is_some (interest calls call.fd) ≡ expected call.op) × Accepted calls

-- The keys of the map are the descriptors that the system watches, and no call was refused.
pub record IsValid (p : EpollPoller) : Type 0 where
  pub same_fds : (fd : ℕ) → is_some (interest p.ctl_calls fd) ≡ count p.fds fd
  pub accepted : Accepted p.ctl_calls

count-erase :
    (xs : List ℕ) (fd g : ℕ) → count (erase xs fd) g ≡ (if g == fd then false else count xs g)
unfolding count erase
count-erase [] fd g = ground arith
count-erase (x ∷ xs) fd g = ground (arith, count-erase xs fd g)

pub new-IsValid : IsValid new
unfolding interest count
new-IsValid = record { same_fds = λ fd. refl; accepted = tt }

pub remove-IsValid : (p : EpollPoller) (c : Channel) → IsValid p → IsValid (remove_channel p c).0
unfolding remove_channel
remove-IsValid p c v = elim (Bool-cases (count p.fds c.fd)) [
  | inl there ↦ rw there (record {
    same_fds = λ fd. unfold interest in ground (arith, v.same_fds fd, count-erase p.fds c.fd fd);
    accepted = (v.same_fds c.fd ∙ there, v.accepted);
  })
  | inr missing ↦ rw missing v
]

-- `UpdateChannel` keeps the keys of the map equal to the descriptors that the system watches, and
-- no call of `epoll_ctl` that it makes is refused.
pub update-IsValid : (p : EpollPoller) (c : Channel) → IsValid p → IsValid (update_channel p c).0
unfolding update_channel
update-IsValid p c v = elim (Bool-cases (has_no_events c.events)) [
  | inl idle ↦ elim (Bool-cases (count p.fds c.fd)) [
    | inl there ↦ rw (idle, there) (remove-IsValid p c v)
    | inr missing ↦ rw (idle, missing) v
  ]
  | inr busy ↦ elim (Bool-cases (count p.fds c.fd)) [
    | inl there ↦
        rw (busy, there)
          (record {
            same_fds = λ fd. unfold interest in ground (arith, v.same_fds fd, there);
            accepted = (v.same_fds c.fd ∙ there, v.accepted);
          })
    | inr missing ↦
        rw (busy, missing)
          (record {
            same_fds = λ fd. unfold interest count in ground (arith, v.same_fds fd);
            accepted = (v.same_fds c.fd ∙ missing, v.accepted);
          })
  ]
]

none_of_is_some {ℓ} : {A : Type ℓ} (o : Option A) → is_some o ≡ false → o ≡ none
none_of_is_some none h = refl
none_of_is_some (some a) h = cc

abbrev pub watched : EpollPoller → ℕ → Option Events
watched p fd = interest p.ctl_calls fd

unwatched :
    (p : EpollPoller) (fd g : ℕ)
    → IsValid p
    → count p.fds fd ≡ false
    → watched p g ≡ (if g == fd then none else watched p g)
unwatched p fd g v missing = elim (Bool-cases (g == fd)) [
  | inl same ↦ rw same (none_of_is_some (watched p g) (v.same_fds g ∙ ground (arith, missing)))
  | inr other ↦ rw other
]

pub watched-remove :
    (p : EpollPoller) (c : Channel) (g : ℕ)
    → IsValid p
    → watched (remove_channel p c).0 g ≡ (if g == c.fd then none else watched p g)
unfolding remove_channel interest
watched-remove p c g v = elim (Bool-cases (count p.fds c.fd)) [
  | inl there ↦ rw there
  | inr missing ↦ rw missing (unwatched p c.fd g v missing)
]

-- After `UpdateChannel` on a poller in order, the system watches the channel's descriptor for the
-- channel's events, or not at all if it has none, and every other descriptor as before.
pub watched-update :
    (p : EpollPoller) (c : Channel) (g : ℕ)
    → IsValid p
    → watched (update_channel p c).0 g ≡ (if g == c.fd then wanted c.events else watched p g)
unfolding update_channel
watched-update p c g v = elim (Bool-cases (has_no_events c.events)) [
  | inl idle ↦ elim (Bool-cases (count p.fds c.fd)) [
    | inl there ↦ rw (idle, there) (watched-remove p c g v)
    | inr missing ↦ rw (idle, missing) (unwatched p c.fd g v missing)
  ]
  | inr busy ↦ elim (Bool-cases (count p.fds c.fd)) [
    | inl there ↦ rw (busy, there) (unfold interest in refl)
    | inr missing ↦ rw (busy, missing) (unfold interest in refl)
  ]
]

pub channel-remove :
    (p : EpollPoller) (c : Channel)
    → IsValid p
    → c.added ≡ is_some (watched p c.fd)
    → (remove_channel p c).1 ≡ set_added c false
unfolding remove_channel
channel-remove p c v h = ground (arith, v.same_fds c.fd)

pub channel-update :
    (p : EpollPoller) (c : Channel)
    → IsValid p
    → c.added ≡ is_some (watched p c.fd)
    → (update_channel p c).1 ≡ set_added c (is_some (wanted c.events))
unfolding update_channel remove_channel
channel-update p c v h = ground (arith, v.same_fds c.fd)

-- The Linux poller is a poller.
abbrev pub poller : Poller
poller = record {
  State = EpollPoller;
  watched = watched;
  update_channel = update_channel;
  remove_channel = remove_channel;
  IsValid = IsValid;
  update-IsValid = update-IsValid;
  remove-IsValid = remove-IsValid;
  watched-update = watched-update;
  watched-remove = watched-remove;
  channel-update = channel-update;
  channel-remove = channel-remove;
}
