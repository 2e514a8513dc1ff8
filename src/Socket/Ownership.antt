-- ===== src/Socket/Ownership.antt =====
-- src/socket.cpp: every descriptor that the system gave out is owned by one socket, or was closed.
use cpp_reactor_framework.Prelude.{
  ℕ, zero, suc, ◌+◌, ◌≡◌, ap, ◌∙◌, false, Option, none, some, List, [], ◌∷◌, ◌++◌, ◌==◌,
  if◌then◌else◌, arith, if_elim, if_false, set_at, get_elem?, length, ◌<◌, length-set_at,
  get_elem?-set_at, ◌&&◌, ltb,
}
use cpp_reactor_framework.Socket.{
  Sockets, no_sockets, joined, get_fd, adopt, create, accept, move_construct, close, move_assign,
  destroy,
}

-- How often a descriptor is in a list.
abbrev pub count : ℕ → List ℕ → ℕ
count fd [] = 0
count fd (x ∷ xs) = let rest = count fd xs in if fd == x then suc rest else rest

abbrev pub owns : ℕ → Option ℕ → ℕ
owns fd none = 0
owns fd (some x) = if fd == x then 1 else 0

-- How many sockets own a descriptor.
abbrev pub owners : ℕ → List (Option ℕ) → ℕ
owners fd [] = 0
owners fd (o ∷ os) = owns fd o + owners fd os

owners-append :
    (fd : ℕ) (xs ys : List (Option ℕ)) → owners fd (xs ++ ys) ≡ owners fd xs + owners fd ys
owners-append fd [] ys = omega arith
owners-append fd (x ∷ xs) ys = omega (arith, owners-append fd xs ys)

-- A write gives up the old owner, and makes a new one, where there is such a socket.
owners-set_at :
    (fd i : ℕ) (o : Option ℕ) (os : List (Option ℕ))
    → i < length os
    → owners fd (set_at i o os) + owns fd (joined (get_elem? os i)) ≡ owners fd os + owns fd o
unfolding set_at
owners-set_at fd i o [] h = absurd (omega arith)
owners-set_at fd zero o (y ∷ os) h = omega arith
owners-set_at fd (suc i) o (y ∷ os) h = omega (arith, owners-set_at fd i o os (omega arith))

-- Elsewhere, none is given up.
owners-set_none :
    (fd i : ℕ) (os : List (Option ℕ))
    → owners fd (set_at i none os) + owns fd (joined (get_elem? os i)) ≡ owners fd os
unfolding set_at
owners-set_none fd i [] = omega arith
owners-set_none fd zero (y ∷ os) = omega arith
owners-set_none fd (suc i) (y ∷ os) = omega (arith, owners-set_none fd i os)

-- Each time that the system gave out the descriptor, it has an owner now or was closed.
IsBalanced : ℕ → Sockets → Type 0
IsBalanced fd w = owners fd w.sockets + count fd w.closed ≡ count fd w.opened

adopt-IsBalanced :
    (fd : ℕ) (o : Option ℕ) (w : Sockets) → IsBalanced fd w → IsBalanced fd (adopt o w)
unfolding adopt IsBalanced
adopt-IsBalanced fd none w h = omega (arith, h, owners-append fd w.sockets (none ∷ []))
adopt-IsBalanced fd (some x) w h = ground (arith, h, owners-append fd w.sockets (some x ∷ []))

accept-IsBalanced :
    (fd i : ℕ) (client : Option ℕ) (w : Sockets)
    → IsBalanced fd w
    → IsBalanced fd (accept i client w)
unfolding accept
accept-IsBalanced fd i none w h =
    elim (get_fd i w) as (λ o. IsBalanced fd (elim o [ none ↦ w | some x ↦ w ])) [
      | none ↦ h
      | some x ↦ h
    ]
accept-IsBalanced fd i (some y) w h =
    elim (get_fd i w) as (λ o. IsBalanced fd (elim o [ none ↦ w | some x ↦ adopt (some y) w ])) [
      | none ↦ h
      | some x ↦ adopt-IsBalanced fd (some y) w h
    ]

move_construct-IsBalanced :
    (fd other : ℕ) (w : Sockets) → IsBalanced fd w → IsBalanced fd (move_construct other w)
unfolding move_construct IsBalanced get_fd
move_construct-IsBalanced fd other w h = omega (
  arith,
  h,
  owners-append fd (set_at other none w.sockets) (get_fd other w ∷ []),
  owners-set_none fd other w.sockets,
)

close-IsBalanced : (fd i : ℕ) (w : Sockets) → IsBalanced fd w → IsBalanced fd (close i w)
unfolding close IsBalanced get_fd
close-IsBalanced fd i w h = ground (arith, h, owners-set_none fd i w.sockets)

length-close : (i : ℕ) (w : Sockets) → length (close i w).sockets ≡ length w.sockets
unfolding close
length-close i w = ground (arith, length-set_at i none w.sockets)

owners-swap :
    (fd i j : ℕ) (os : List (Option ℕ))
    → (i == j) ≡ false
    → i < length os
    → j < length os
    → owners fd (set_at i (joined (get_elem? os j)) (set_at j (joined (get_elem? os i)) os))
      ≡ owners fd os
owners-swap fd i j os apart here there =
    let oi = joined (get_elem? os i) in
    let first = owners-set_at fd j oi os there in
    let size = length-set_at j oi os in
    let second =
      owners-set_at fd i (joined (get_elem? os j)) (set_at j oi os) (omega (arith, size)) in
    let kept : owns fd (joined (get_elem? (set_at j oi os) i)) ≡ owns fd oi =
      ap (λ o. owns fd (joined o))
        (get_elem?-set_at j i oi os
          ∙ if_false _ _ (i == j && ltb j (length os)) (ground (arith, apart))) in
    omega (arith, first, second, kept)

move_assign-IsBalanced :
    (fd i other : ℕ) (w : Sockets)
    → i < length w.sockets
    → other < length w.sockets
    → IsBalanced fd w
    → IsBalanced fd (move_assign i other w)
unfolding move_assign IsBalanced get_fd
move_assign-IsBalanced fd i other w here there h =
    if_elim (IsBalanced fd) (i == other) (λ same. h)
      (λ apart.
        let closed = close-IsBalanced fd i w h in
        let size = length-close i w in
        let moved =
          owners-swap fd i other (close i w).sockets apart (omega (arith, size))
            (omega (arith, size)) in
        omega (arith, closed, moved))

-- What a program does with sockets; a socket is assigned to only where both exist.
pub data SocketEvent : Type 0 where
  creates : Option ℕ → SocketEvent
  accepts : ℕ → Option ℕ → SocketEvent
  moves closes destroys : ℕ → SocketEvent
  assigns : ℕ → ℕ → SocketEvent

unfoldable pub socket_step : SocketEvent → Sockets → Sockets
socket_step (creates fd) w = create fd w
socket_step (accepts i client) w = accept i client w
socket_step (moves other) w = move_construct other w
socket_step (closes i) w = close i w
socket_step (destroys i) w = destroy i w
socket_step (assigns i other) w =
    if ltb i (length w.sockets) && ltb other (length w.sockets) then move_assign i other w else w

pub socket_run : List SocketEvent → Sockets → Sockets
socket_run [] w = w
socket_run (e ∷ es) w = socket_run es (socket_step e w)

socket_step-IsBalanced :
    (fd : ℕ) (e : SocketEvent) (w : Sockets) → IsBalanced fd w → IsBalanced fd (socket_step e w)
unfolding socket_step create destroy
socket_step-IsBalanced fd (creates o) w h = adopt-IsBalanced fd o w h
socket_step-IsBalanced fd (accepts i client) w h = accept-IsBalanced fd i client w h
socket_step-IsBalanced fd (moves other) w h = move_construct-IsBalanced fd other w h
socket_step-IsBalanced fd (closes i) w h = close-IsBalanced fd i w h
socket_step-IsBalanced fd (destroys i) w h = close-IsBalanced fd i w h
socket_step-IsBalanced fd (assigns i other) w h =
    if_elim (IsBalanced fd) (ltb i (length w.sockets) && ltb other (length w.sockets))
      (λ exist.
        move_assign-IsBalanced fd i other w (ground (arith, exist)) (ground (arith, exist)) h)
      (λ missing. h)

socket_run-IsBalanced :
    (fd : ℕ) (es : List SocketEvent) (w : Sockets)
    → IsBalanced fd w
    → IsBalanced fd (socket_run es w)
unfolding socket_run
socket_run-IsBalanced fd [] w h = h
socket_run-IsBalanced fd (e ∷ es) w h =
    socket_run-IsBalanced fd es (socket_step e w) (socket_step-IsBalanced fd e w h)

-- Whatever a program does with sockets, from none: each time that the system gave out a
-- descriptor, one socket owns it now or it was closed once. So none is lost by a move, and none is
-- closed twice.
pub socket_run_owned :
    (fd : ℕ) (es : List SocketEvent)
    → owners fd (socket_run es no_sockets).sockets + count fd (socket_run es no_sockets).closed
      ≡ count fd (socket_run es no_sockets).opened
unfolding IsBalanced
socket_run_owned fd es = socket_run-IsBalanced fd es no_sockets (omega arith)
