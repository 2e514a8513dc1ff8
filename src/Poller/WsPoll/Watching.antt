-- ===== src/Poller/WsPoll/Watching.antt =====
-- src/wspoll_poller.cpp: the Windows poller is a poller, as the Linux one is.
use cpp_reactor_framework.Prelude.{
  ℕ, ◌-◌, ◌≡◌, refl, sym, ap, ◌∙◌, inl, inr, true, false, Option, none, some, List, [], ◌∷◌, ◌++◌,
  arith, Bool-cases, Option-cases, ltb, ◌==◌, if◌then◌else◌, length, get_elem?, get_elem?-set_at,
  lt_of_get_elem?,
}
use cpp_reactor_framework.Channel.{Events, Channel, has_no_events, set_added}
use cpp_reactor_framework.Poller.{Poller, is_some, wanted}
use cpp_reactor_framework.Poller.WsPoll.{
  PollFd, WsPollPoller, remove_at, remove_channel, entry, update_found, is_found, update_channel,
  watched_in, watched,
}
use cpp_reactor_framework.Poller.WsPoll.Index.{
  IsValid, removed_entry, removed_index, removed-IsValid,
}
use cpp_reactor_framework.Poller.WsPoll.Updates.{
  events_at, watched-events_at, last_of, remove-IsValid, written-IsValid, update-IsValid,
}

-- After a removal.
removed-watched :
    (p : WsPollPoller) (fd idx : ℕ) (e last : PollFd)
    → (v : IsValid p) → (there : p.fd_to_idx fd ≡ some idx)
    → (at_idx : get_elem? p.pollfds idx ≡ some e) → (same : e.fd ≡ fd)
    → (at_last : get_elem? p.pollfds (length p.pollfds - 1) ≡ some last) → (g : ℕ)
    → events_at ((remove_at p fd idx).fd_to_idx g) (remove_at p fd idx).pollfds
      ≡ (if g == fd then none else events_at (p.fd_to_idx g) p.pollfds)
removed-watched p fd idx e last v there at_idx same at_last g = elim (Bool-cases (g == fd)) [
  | inl gone ↦ rw (index g, gone) refl
  | inr other ↦ rw other (elim (Option-cases (p.fd_to_idx g)) [
    | inl missing ↦
        rw (index g, other, missing)
          (ground (arith, v.found (length p.pollfds - 1) last at_last, missing))
    | inr (i, found) ↦
        let (x, at_i, x_fd) = v.indexed g i found in
        elim (Bool-cases (i == length p.pollfds - 1)) [
          | inl at_end ↦
              moved_to idx i found
                (ground (arith, index g, other, at_end, at_i, at_last, x_fd, found, there))
                (ground (
                  arith,
                  removed idx,
                  at_end,
                  at_i,
                  at_last,
                  x_fd,
                  same,
                  at_idx,
                  other,
                  lt_of_get_elem? p.pollfds idx at_idx,
                ))
          | inr inner ↦
              moved_to i i found
                (ground (
                  arith,
                  index g,
                  other,
                  inner,
                  found,
                  v.found (length p.pollfds - 1) last at_last,
                ))
                (ground (
                  arith,
                  removed i,
                  inner,
                  at_i,
                  at_idx,
                  same,
                  x_fd,
                  other,
                  lt_of_get_elem? p.pollfds i at_i,
                ))
        ]
  ])
]
  where
    index :
        (g : ℕ)
        → (remove_at p fd idx).fd_to_idx g ≡ (
            if g == fd
            then none
            else if idx == length p.pollfds - 1
            then p.fd_to_idx g
            else if g == last.fd
            then some idx
            else p.fd_to_idx g)
    index g = removed_index p fd idx e last v there at_idx same at_last g

    removed :
        (j : ℕ)
        → get_elem? (remove_at p fd idx).pollfds j ≡ (
            if ltb j (length p.pollfds - 1)
            then (if j == idx then some last else get_elem? p.pollfds j)
            else none)
    removed j = removed_entry p fd idx e last v there at_idx same at_last j

    moved_to :
        (k i : ℕ)
        → p.fd_to_idx g ≡ some i
        → (remove_at p fd idx).fd_to_idx g ≡ some k
        → get_elem? (remove_at p fd idx).pollfds k ≡ get_elem? p.pollfds i
        → events_at ((remove_at p fd idx).fd_to_idx g) (remove_at p fd idx).pollfds
          ≡ events_at (p.fd_to_idx g) p.pollfds
    moved_to k i found at_k as_before = rw (at_k, as_before, found) refl

not_found : (i : Option ℕ) → is_found i ≡ false → i ≡ none
not_found none h = refl
not_found (some i) h = cc

-- A descriptor that is not in the map is not watched.
unwatched :
    (p : WsPollPoller) (fd g : ℕ)
    → IsValid p
    → p.fd_to_idx fd ≡ none
    → watched p g ≡ (if g == fd then none else watched p g)
unwatched p fd g v missing = elim (Bool-cases (g == fd)) [
  | inl same ↦
      let nowhere : p.fd_to_idx g ≡ none = ground (arith, same, missing) in
      rw same (watched-events_at p g v ∙ ap (λ i. events_at i p.pollfds) nowhere)
  | inr other ↦ rw other refl
]

pub watched-remove :
    (p : WsPollPoller) (c : Channel) (g : ℕ)
    → IsValid p
    → watched (remove_channel p c).0 g ≡ (if g == c.fd then none else watched p g)
unfolding remove_channel
watched-remove p c g v = elim (Option-cases (p.fd_to_idx c.fd)) [
  | inl missing ↦ rw missing (unwatched p c.fd g v missing)
  | inr (idx, there) ↦
      let (e, at_idx, same) = v.indexed c.fd idx there in
      let (last, at_last) = last_of p.pollfds idx at_idx in
      rw there (
        watched-events_at (remove_at p c.fd idx) g
          (removed-IsValid p c.fd idx e last v there at_idx same at_last)
        ∙ (removed-watched p c.fd idx e last v there at_idx same at_last g
            ∙ ap (λ w. if g == c.fd then none else w) (sym (watched-events_at p g v))))
]

abbrev or_else : Option Events → Option Events → Option Events
or_else none other = other
or_else (some e) other = some e

watched_in-append :
    (es : List PollFd) (e : PollFd) (g : ℕ)
    → watched_in (es ++ (e ∷ [])) g
      ≡ or_else (watched_in es g) (if g == e.fd then some e.events else none)
unfolding watched_in
watched_in-append [] e g = ground arith
watched_in-append (x ∷ xs) e g = ground (arith, watched_in-append xs e g)

appended-watched :
    (p : WsPollPoller) (c : Channel) (g : ℕ)
    → IsValid p
    → p.fd_to_idx c.fd ≡ none
    → watched (update_found none p c).0 g ≡ (if g == c.fd then some c.events else watched p g)
appended-watched p c g v missing = elim (Bool-cases (g == c.fd)) [
  | inl same ↦
      let nowhere : p.fd_to_idx g ≡ none = ground (arith, same, missing) in
      let unwatched : watched p g ≡ none =
        watched-events_at p g v ∙ ap (λ i. events_at i p.pollfds) nowhere in
      rw (watched_in-append p.pollfds (entry c) g, unwatched, same) refl
  | inr other ↦ rw (watched_in-append p.pollfds (entry c) g, other) (ground arith)
]

written-watched :
    (p : WsPollPoller) (c : Channel) (idx g : ℕ)
    → IsValid p
    → p.fd_to_idx c.fd ≡ some idx
    → watched (update_found (some idx) p c).0 g ≡ (if g == c.fd then some c.events else watched p g)
written-watched p c idx g v there =
    let (e, at_idx, same) = v.indexed c.fd idx there in
    watched-events_at (update_found (some idx) p c).0 g (written-IsValid p c idx v there)
    ∙ (elim (Option-cases (p.fd_to_idx g)) [
      | inl missing ↦ rw (watched-events_at p g v, missing) (ground (arith, missing, there))
      | inr (i, found) ↦
          let (x, at_i, x_fd) = v.indexed g i found in
          rw (watched-events_at p g v, found)
            (ground (
              arith,
              get_elem?-set_at idx i (entry c) p.pollfds,
              at_i,
              at_idx,
              x_fd,
              same,
              found,
              there,
              lt_of_get_elem? p.pollfds i at_i,
            ))
    ])

pub watched-update :
    (p : WsPollPoller) (c : Channel) (g : ℕ)
    → IsValid p
    → watched (update_channel p c).0 g ≡ (if g == c.fd then wanted c.events else watched p g)
unfolding update_channel
watched-update p c g v = elim (Bool-cases (has_no_events c.events)) [
  | inl idle ↦ elim (Bool-cases (is_found (p.fd_to_idx c.fd))) [
    | inl there ↦ rw (idle, there) (watched-remove p c g v)
    | inr missing ↦ rw (idle, missing) (unwatched p c.fd g v (not_found (p.fd_to_idx c.fd) missing))
  ]
  | inr busy ↦ elim (Option-cases (p.fd_to_idx c.fd)) [
    | inl missing ↦ rw (busy, missing) (appended-watched p c g v missing)
    | inr (idx, there) ↦ rw (busy, there) (written-watched p c idx g v there)
  ]
]

found-watched :
    (p : WsPollPoller) (fd : ℕ) → IsValid p → is_found (p.fd_to_idx fd) ≡ is_some (watched p fd)
found-watched p fd v = elim (Option-cases (p.fd_to_idx fd)) [
  | inl missing ↦ rw (watched-events_at p fd v, missing) refl
  | inr (i, there) ↦
      let (e, at_i, same) = v.indexed fd i there in rw (watched-events_at p fd v, there, at_i) refl
]

pub channel-remove :
    (p : WsPollPoller) (c : Channel)
    → IsValid p
    → c.added ≡ is_some (watched p c.fd)
    → (remove_channel p c).1 ≡ set_added c false
unfolding remove_channel
channel-remove p c v h = elim (Option-cases (p.fd_to_idx c.fd)) [
  | inl missing ↦
      let out : c.added ≡ false = h ∙ (sym (found-watched p c.fd v) ∙ ap is_found missing) in
      rw missing (ap (set_added c) out)
  | inr (idx, there) ↦ rw there refl
]

pub channel-update :
    (p : WsPollPoller) (c : Channel)
    → IsValid p
    → c.added ≡ is_some (watched p c.fd)
    → (update_channel p c).1 ≡ set_added c (is_some (wanted c.events))
unfolding update_channel
channel-update p c v h = elim (Bool-cases (has_no_events c.events)) [
  | inl idle ↦ elim (Bool-cases (is_found (p.fd_to_idx c.fd))) [
    | inl there ↦ rw (idle, there) (channel-remove p c v h)
    | inr missing ↦
        let out : c.added ≡ false = h ∙ (sym (found-watched p c.fd v) ∙ missing) in
        rw (idle, missing) (ap (set_added c) out)
  ]
  | inr busy ↦ elim (Option-cases (p.fd_to_idx c.fd)) [
    | inl missing ↦ rw (busy, missing) refl
    | inr (idx, there) ↦
        let out : c.added ≡ true = h ∙ (sym (found-watched p c.fd v) ∙ ap is_found there) in
        rw (busy, there) (ap (set_added c) out)
  ]
]

-- The Windows poller is a poller.
abbrev pub poller : Poller
poller = record {
  State = WsPollPoller;
  watched = watched;
  update_channel = update_channel;
  remove_channel = remove_channel;
  IsValid = IsValid;
  update-IsValid = update-IsValid;
  remove-IsValid = remove-IsValid;
  watched-update = watched-update;
  watched-remove = watched-remove;
  channel-update = channel-update;
  channel-remove = channel-remove;
}
