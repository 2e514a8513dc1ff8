-- ===== src/Poller/WsPoll/Index.antt =====
-- src/wspoll_poller.cpp: the map gives the index of every descriptor, and of no other.
use cpp_reactor_framework.Prelude.{
  ℕ, zero, suc, ◌-◌, ◌≡◌, ◌≢◌, refl, sym, ap, ◌∙◌, inl, inr, false, Option, none, some, List, [],
  ◌∷◌, ◌++◌, arith, Bool-cases, Option-cases, ltb, ◌==◌, if◌then◌else◌, length, get_elem?, take,
  set_at, swap, pop_back, swap_pop, get_elem?-swap_pop, lt_of_get_elem?,
}
use cpp_reactor_framework.Poller.WsPoll.{PollFd, WsPollPoller, new, assign, remove_at}

-- The descriptors of the entries.
abbrev pub fds : List PollFd → List ℕ
fds [] = []
fds (e ∷ es) = e.fd ∷ fds es

-- Each index of the map has the entry of its descriptor, each entry's descriptor has its index, and
-- the channels stand beside their entries.
pub record IsValid (p : WsPollPoller) : Type 0 where
  pub indexed :
      (fd i : ℕ)
      → p.fd_to_idx fd ≡ some i
      → (e : PollFd) × (get_elem? p.pollfds i ≡ some e) × (e.fd ≡ fd)
  pub found : (i : ℕ) (e : PollFd) → get_elem? p.pollfds i ≡ some e → p.fd_to_idx e.fd ≡ some i
  pub beside : p.channels ≡ fds p.pollfds

pub new-IsValid : IsValid new
new-IsValid = record { indexed = λ fd i h. cc; found = λ i e h. cc; beside = refl }

length-fds : (es : List PollFd) → length (fds es) ≡ length es
length-fds [] = refl
length-fds (e ∷ es) = ap suc (length-fds es)

pub fds-set_at :
    (i : ℕ) (e : PollFd) (es : List PollFd) → fds (set_at i e es) ≡ set_at i e.fd (fds es)
unfolding set_at
fds-set_at i e [] = refl
fds-set_at zero e (x ∷ xs) = refl
fds-set_at (suc i) e (x ∷ xs) = ap (λ l. x.fd ∷ l) (fds-set_at i e xs)

pub fds-append : (es : List PollFd) (e : PollFd) → fds (es ++ (e ∷ [])) ≡ fds es ++ (e.fd ∷ [])
fds-append [] e = refl
fds-append (x ∷ xs) e = ap (λ l. x.fd ∷ l) (fds-append xs e)

fds-take : (n : ℕ) (es : List PollFd) → fds (take n es) ≡ take n (fds es)
fds-take zero es = refl
fds-take (suc n) [] = refl
fds-take (suc n) (x ∷ xs) = ap (λ l. x.fd ∷ l) (fds-take n xs)

abbrev fd_of : Option PollFd → Option ℕ
fd_of none = none
fd_of (some e) = some e.fd

get_elem?-fds : (es : List PollFd) (i : ℕ) → get_elem? (fds es) i ≡ fd_of (get_elem? es i)
get_elem?-fds [] i = refl
get_elem?-fds (x ∷ xs) zero = refl
get_elem?-fds (x ∷ xs) (suc i) = get_elem?-fds xs i

fds-pop_back : (es : List PollFd) → fds (pop_back es) ≡ pop_back (fds es)
unfolding pop_back
fds-pop_back es =
    fds-take (length es - 1) es ∙ ap (λ n. take (n - 1) (fds es)) (sym (length-fds es))

fds-swap : (i j : ℕ) (es : List PollFd) → fds (swap i j es) ≡ swap i j (fds es)
unfolding swap
fds-swap i j es = elim (Option-cases (get_elem? es i)) [
  | inl nothing ↦ rw (get_elem?-fds es i, nothing) refl
  | inr (a, at_i) ↦ elim (Option-cases (get_elem? es j)) [
    | inl nothing ↦ rw (get_elem?-fds es i, get_elem?-fds es j, at_i, nothing) refl
    | inr (b, at_j) ↦
        rw (get_elem?-fds es i, get_elem?-fds es j, at_i, at_j)
          (fds-set_at i b (set_at j a es) ∙ ap (set_at i b.fd) (fds-set_at j a es))
  ]
]

fds-swap_pop : (i : ℕ) (es : List PollFd) → fds (swap_pop i es) ≡ swap_pop i (fds es)
unfolding swap_pop
fds-swap_pop i es = elim (Bool-cases (i == length es - 1)) [
  | inl at_end ↦ rw (length-fds es, at_end) (fds-pop_back es)
  | inr before ↦
      rw (length-fds es, before)
        (fds-pop_back (swap i (length es - 1) es) ∙ ap pop_back (fds-swap i (length es - 1) es))
]

some_inj {ℓ} : {A : Type ℓ} {a b : A} → some a ≡ some b → a ≡ b
some_inj h = cc h

-- The parts of a removal of the entry `e` at `idx`.
module _ (p : WsPollPoller) (fd idx : ℕ) (e last : PollFd) (v : IsValid p)
    (at_fd : p.fd_to_idx fd ≡ some idx) (at_idx : get_elem? p.pollfds idx ≡ some e)
    (same : e.fd ≡ fd) (at_last : get_elem? p.pollfds (length p.pollfds - 1) ≡ some last) where
  pub removed_entry :
      (j : ℕ)
      → get_elem? (remove_at p fd idx).pollfds j ≡ (
          if ltb j (length p.pollfds - 1)
          then (if j == idx then some last else get_elem? p.pollfds j)
          else none)
  unfolding remove_at
  removed_entry j =
      rw (get_elem?-swap_pop idx j p.pollfds (lt_of_get_elem? p.pollfds idx at_idx), at_last) refl

  pub removed_index :
      (g : ℕ)
      → (remove_at p fd idx).fd_to_idx g ≡ (
          if g == fd
          then none
          else if idx == length p.pollfds - 1
          then p.fd_to_idx g
          else if g == last.fd
          then some idx
          else p.fd_to_idx g)
  unfolding remove_at assign
  removed_index g = rw at_last (ground arith)

  last_found : p.fd_to_idx last.fd ≡ some (length p.pollfds - 1)
  last_found = v.found (length p.pollfds - 1) last at_last

  removed_found :
      (i : ℕ) (x : PollFd)
      → get_elem? (remove_at p fd idx).pollfds i ≡ some x
      → (remove_at p fd idx).fd_to_idx x.fd ≡ some i
  removed_found i x h = elim (Bool-cases (i == idx)) [
    | inl here ↦ ground (arith, removed_entry i, removed_index x.fd, last_found, at_fd, h, here)
    | inr there ↦
        ground
          (arith, removed_entry i, removed_index x.fd, last_found, at_fd, h, there, v.found i x)
  ]

  -- An entry that stays where it is.
  stays :
      (g i : ℕ)
      → p.fd_to_idx g ≡ some i
      → (g == fd) ≡ false
      → i ≢ length p.pollfds - 1
      → (x : PollFd) × (get_elem? (remove_at p fd idx).pollfds i ≡ some x) × (x.fd ≡ g)
  stays g i h other inner =
      let (x, at_i, x_fd) = v.indexed g i h in
      (
        x,
        ground (
          arith,
          removed_entry i,
          at_i,
          at_idx,
          same,
          other,
          x_fd,
          inner,
          lt_of_get_elem? p.pollfds i at_i,
        ),
        x_fd,
      )

  removed_indexed :
      (g i : ℕ)
      → (remove_at p fd idx).fd_to_idx g ≡ some i
      → (x : PollFd) × (get_elem? (remove_at p fd idx).pollfds i ≡ some x) × (x.fd ≡ g)
  removed_indexed g i h = elim (Bool-cases (g == fd)) [
    | inl gone ↦ absurd (ground (arith, removed_index g, gone, h))
    | inr other ↦ elim (Bool-cases (idx == length p.pollfds - 1)) [
      | inl at_end ↦ stays g i (ground (arith, removed_index g, other, h, at_end)) other (λ eq.
          ground (
            arith,
            removed_index g,
            other,
            h,
            at_end,
            last_found,
            at_fd,
            v.indexed g i,
            at_idx,
            same,
            eq,
          ))
      | inr inner ↦ elim (Bool-cases (g == last.fd)) [
        | inl is_last ↦ (
          last,
          ground (
            arith,
            removed_entry i,
            removed_index g,
            other,
            inner,
            is_last,
            h,
            lt_of_get_elem? p.pollfds idx at_idx,
          ),
          ground (arith, is_last),
        )
        | inr new ↦ stays g i (ground (arith, removed_index g, other, inner, new, h)) other (λ eq.
            ground (arith, removed_index g, other, inner, new, h, v.indexed g i, at_last, eq))
      ]
    ]
  ]

  pub removed-IsValid : IsValid (remove_at p fd idx)
  removed-IsValid = record {
    indexed = removed_indexed;
    found = removed_found;
    beside = unfold remove_at in (ap (swap_pop idx) v.beside ∙ sym (fds-swap_pop idx p.pollfds));
  }
