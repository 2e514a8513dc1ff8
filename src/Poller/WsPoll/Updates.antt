-- ===== src/Poller/WsPoll/Updates.antt =====
-- src/wspoll_poller.cpp: an update or a removal keeps the map and the vectors in order.
use cpp_reactor_framework.Prelude.{
  ℕ, zero, suc, ◌-◌, ◌≡◌, ◌≢◌, refl, sym, ap, ◌∙◌, inl, inr, Option, none, some, List, [], ◌∷◌,
  ◌++◌, arith, Bool-cases, Option-cases, ◌==◌, length, get_elem?, set_at, get_elem?-set_at,
  get_elem?-append_one, lt_of_get_elem?, get_elem?_of_lt,
}
use cpp_reactor_framework.Channel.{Events, Channel, has_no_events}
use cpp_reactor_framework.Poller.WsPoll.{
  PollFd, WsPollPoller, assign, remove_channel, entry, update_found, is_found, update_channel,
  watched_in, watched,
}
use cpp_reactor_framework.Poller.WsPoll.Index.{
  fds, IsValid, removed-IsValid, fds-set_at, fds-append,
}

set_same : (i : ℕ) (xs : List ℕ) (a : ℕ) → get_elem? xs i ≡ some a → set_at i a xs ≡ xs
unfolding set_at
set_same i [] a h = refl
set_same zero (x ∷ xs) a h = ap (λ y. y ∷ xs) (cc h)
set_same (suc i) (x ∷ xs) a h = ap (λ l. x ∷ l) (set_same i xs a h)

fd_at :
    (es : List PollFd) (i : ℕ) (e : PollFd) (fd : ℕ)
    → get_elem? es i ≡ some e
    → e.fd ≡ fd
    → get_elem? (fds es) i ≡ some fd
fd_at [] i e fd h same = cc
fd_at (x ∷ xs) zero e fd h same = cc
fd_at (x ∷ xs) (suc i) e fd h same = fd_at xs i e fd h same

-- Entries that are found by their index.
watched_in-some :
    (es : List PollFd) (i : ℕ) (e : PollFd)
    → get_elem? es i ≡ some e
    → ((j : ℕ) (x : PollFd) → get_elem? es j ≡ some x → x.fd ≡ e.fd → j ≡ i)
    → watched_in es e.fd ≡ some e.events
unfolding watched_in
watched_in-some [] i e h alone = cc
watched_in-some (x ∷ xs) zero e h alone = ground (arith, h)
watched_in-some (x ∷ xs) (suc i) e h alone = ground (
  arith,
  watched_in-some xs i e h (λ j y at_j same. omega (arith, alone (suc j) y at_j same)),
  alone zero x refl,
)

watched_in-none :
    (es : List PollFd) (fd : ℕ)
    → ((j : ℕ) (x : PollFd) → get_elem? es j ≡ some x → x.fd ≢ fd)
    → watched_in es fd ≡ none
unfolding watched_in
watched_in-none [] fd other = refl
watched_in-none (x ∷ xs) fd other =
    ground (arith, watched_in-none xs fd (λ j y at_j. other (suc j) y at_j), other zero x refl)

abbrev pub events_of : Option PollFd → Option Events
events_of none = none
events_of (some e) = some e.events

abbrev pub events_at : Option ℕ → List PollFd → Option Events
events_at none es = none
events_at (some i) es = events_of (get_elem? es i)

-- What is watched, by way of the map.
pub watched-events_at :
    (p : WsPollPoller) (fd : ℕ) → IsValid p → watched p fd ≡ events_at (p.fd_to_idx fd) p.pollfds
watched-events_at p fd v = elim (Option-cases (p.fd_to_idx fd)) [
  | inl missing ↦ rw missing (
      watched_in-none p.pollfds fd
        (λ j x at_j same. ground (arith, v.found j x at_j, missing, same)))
  | inr (i, there) ↦
      let (e, at_i, same) = v.indexed fd i there in
      rw (there, at_i)
        (ap (watched_in p.pollfds) (sym same)
          ∙ watched_in-some p.pollfds i e at_i
              (λ j x at_j eq. ground (arith, v.found j x at_j, there, same, eq)))
]

pub last_of :
    (es : List PollFd) (i : ℕ) {e : PollFd}
    → get_elem? es i ≡ some e
    → (last : PollFd) × (get_elem? es (length es - 1) ≡ some last)
last_of es i h = get_elem?_of_lt es (length es - 1) (omega (arith, lt_of_get_elem? es i h))

pub remove-IsValid : (p : WsPollPoller) (c : Channel) → IsValid p → IsValid (remove_channel p c).0
unfolding remove_channel
remove-IsValid p c v = elim (Option-cases (p.fd_to_idx c.fd)) [
  | inl missing ↦ rw missing v
  | inr (idx, there) ↦
      let (e, at_idx, same) = v.indexed c.fd idx there in
      let (last, at_last) = last_of p.pollfds idx at_idx in
      rw there (removed-IsValid p c.fd idx e last v there at_idx same at_last)
]

-- A new entry at the end, or an entry written anew.
pub appended-IsValid :
    (p : WsPollPoller) (c : Channel)
    → IsValid p
    → p.fd_to_idx c.fd ≡ none
    → IsValid (update_found none p c).0
unfolding assign
appended-IsValid p c v missing = record {
  indexed = λ fd i h. elim (Bool-cases (fd == c.fd)) [
    | inl is_new ↦ (
      entry c,
      ground (arith, get_elem?-append_one p.pollfds (entry c) i, h, is_new),
      ground (arith, is_new),
    )
    | inr old ↦
        let (x, at_i, same) = v.indexed fd i (ground (arith, h, old)) in
        (
          x,
          ground (
            arith,
            get_elem?-append_one p.pollfds (entry c) i,
            at_i,
            lt_of_get_elem? p.pollfds i at_i,
          ),
          same,
        )
  ];
  found =
      λ i x h. ground (arith, get_elem?-append_one p.pollfds (entry c) i, h, v.found i x, missing);
  beside = ap (λ l. l ++ (c.fd ∷ [])) v.beside ∙ sym (fds-append p.pollfds (entry c));
}

pub written-IsValid :
    (p : WsPollPoller) (c : Channel) (idx : ℕ)
    → IsValid p
    → p.fd_to_idx c.fd ≡ some idx
    → IsValid (update_found (some idx) p c).0
written-IsValid p c idx v there =
    let (e, at_idx, same) = v.indexed c.fd idx there in
    record {
      indexed = λ fd i h.
          let (x, at_i, x_fd) = v.indexed fd i h in
          elim (Bool-cases (i == idx)) [
            | inl here ↦ (
              entry c,
              ground (
                arith,
                get_elem?-set_at idx i (entry c) p.pollfds,
                here,
                lt_of_get_elem? p.pollfds i at_i,
              ),
              ground (arith, here, at_i, at_idx, same, x_fd),
            )
            | inr other ↦
                (x, ground (arith, get_elem?-set_at idx i (entry c) p.pollfds, other, at_i), x_fd)
          ];
      found = λ i x h.
          ground (arith, get_elem?-set_at idx i (entry c) p.pollfds, h, v.found i x, there);
      beside =
          v.beside
          ∙ (sym (set_same idx (fds p.pollfds) c.fd (fd_at p.pollfds idx e c.fd at_idx same))
              ∙ sym (fds-set_at idx (entry c) p.pollfds));
    }

pub update-IsValid : (p : WsPollPoller) (c : Channel) → IsValid p → IsValid (update_channel p c).0
unfolding update_channel
update-IsValid p c v = elim (Bool-cases (has_no_events c.events)) [
  | inl idle ↦ elim (Bool-cases (is_found (p.fd_to_idx c.fd))) [
    | inl there ↦ rw (idle, there) (remove-IsValid p c v)
    | inr missing ↦ rw (idle, missing) v
  ]
  | inr busy ↦ elim (Option-cases (p.fd_to_idx c.fd)) [
    | inl missing ↦ rw (busy, missing) (appended-IsValid p c v missing)
    | inr (idx, there) ↦ rw (busy, there) (written-IsValid p c idx v there)
  ]
]
