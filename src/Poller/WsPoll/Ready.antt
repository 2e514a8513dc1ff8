-- ===== src/Poller/WsPoll/Ready.antt =====
-- src/wspoll_poller.cpp: `Poll` hands the events of the system to the channels. What `WSAPoll`
-- returns, and the `revents` that it fills in, are parameters.
use cpp_reactor_framework.Prelude.{
  ℕ, ◌≡◌, refl, Bool, true, not, ◌||◌, List, [], ◌∷◌, arith, Result, ok, fault, out_of_range, ◌>>=◌,
  ◌>>◌, assert, ◌==◌, if◌then◌else◌, length, inl, inr, Bool-cases, ℤ, pos, negsuc,
}
use cpp_reactor_framework.Channel.{Revents}
use cpp_reactor_framework.Poller.{is_some}
use cpp_reactor_framework.Poller.WsPoll.{PollFd, WsPollPoller, watched_in}
use cpp_reactor_framework.Poller.WsPoll.Index.{fds, IsValid}

-- The bits of a WSAPOLLFD's `revents` that the code reads.
pub record WsaRevents : Type 0 where
  pub pollin : Bool
  pub pollout : Bool
  pub pollerr : Bool
  pub pollhup : Bool
  pub other : Bool

unfoldable pub trans_revents : WsaRevents → Revents
trans_revents r = record {
  readable = r.pollin;
  writable = r.pollout;
  error = r.pollerr;
  hang_up = r.pollhup;
}

-- What `WSAPoll` returns: an error that is WSAEWOULDBLOCK or WSAEINTR or another one, a timeout, or
-- the `revents` of the entries, in order.
pub data WsaPoll : Type 0 where
  poll_failed : Bool → WsaPoll
  timed_out : WsaPoll
  polled : List WsaRevents → WsaPoll

pub record ActiveChannel : Type 0 where
  pub fd : ℕ
  pub revents : Revents

abbrev pub is_zero : WsaRevents → Bool
is_zero r = not (r.pollin || r.pollout || r.pollerr || r.pollhup || r.other)

-- The loop over the entries. The system fills in one `revents` for each entry, and each entry has
-- its channel; a list that is too short would be read out of range.
unfoldable pub activate : List PollFd → List ℕ → List WsaRevents → Result (List ActiveChannel)
activate [] channels filled = ok []
activate (e ∷ es) [] filled = fault out_of_range
activate (e ∷ es) (c ∷ cs) [] = fault out_of_range
activate (e ∷ es) (c ∷ cs) (r ∷ rs) =
    let rest = activate es cs rs in
    if is_zero r
    then rest
    else assert (c == e.fd)
      >> (rest >>= λ active. ok (record { fd = c; revents = trans_revents r } ∷ active))

unfoldable pub poll : WsPollPoller → WsaPoll → Result (ℤ × List ActiveChannel)
poll p (poll_failed harmless) = ok ((if harmless then pos 0 else negsuc 0), [])
poll p timed_out = ok (pos 0, [])
poll p (polled filled) =
    activate p.pollfds p.channels filled >>= λ active. ok (pos (length active), active)

-- Each of these channels stands among the entries.
abbrev pub AllWatched : List PollFd → List ActiveChannel → Type 0
AllWatched es [] = Unit {0}
AllWatched es (a ∷ active) = (is_some (watched_in es a.fd) ≡ true) × AllWatched es active

AllWatched-weaken :
    (e : PollFd) (es : List PollFd) (active : List ActiveChannel)
    → AllWatched es active
    → AllWatched (e ∷ es) active
unfolding watched_in
AllWatched-weaken e es [] w = tt
AllWatched-weaken e es (a ∷ active) w = (ground (arith, w.0), AllWatched-weaken e es active w.1)

activate_lem :
    (es : List PollFd) (filled : List WsaRevents)
    → length filled ≡ length es
    → (active : List ActiveChannel) × (activate es (fds es) filled ≡ ok active)
      × AllWatched es active
unfolding activate watched_in
activate_lem [] filled h = ([], refl, tt)
activate_lem (e ∷ es) [] h = absurd (omega (arith, h))
activate_lem (e ∷ es) (r ∷ rs) h =
    let (active, ran, w) = activate_lem es rs (omega (arith, h)) in
    elim (Bool-cases (is_zero r)) [
      | inl quiet ↦ (active, rw quiet ran, AllWatched-weaken e es active w)
      | inr ready ↦ (
        record { fd = e.fd; revents = trans_revents r } ∷ active,
        rw (ready, same e.fd, ran) refl,
        (rw (same e.fd) refl, AllWatched-weaken e es active w),
      )
    ]
  where
    same : (n : ℕ) → (n == n) ≡ true
    same n = ground arith

-- `Poll` on a poller in order, when `WSAPoll` filled in the entries: the assertions hold, and it
-- activates only channels that are watched.
pub poll_watched :
    (p : WsPollPoller) (filled : List WsaRevents)
    → IsValid p
    → length filled ≡ length p.pollfds
    → (active : List ActiveChannel) × (poll p (polled filled) ≡ ok (pos (length active), active))
      × AllWatched p.pollfds active
unfolding poll
poll_watched p filled v h =
    let (active, ran, w) = activate_lem p.pollfds filled h in (active, rw (v.beside, ran) refl, w)
