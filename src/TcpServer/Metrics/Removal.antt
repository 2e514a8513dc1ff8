-- ===== src/TcpServer/Metrics/Removal.antt =====
-- src/tcpserver.cpp: what a removal does to the reported sums.
use cpp_reactor_framework.Prelude.{
  ℕ, ◌+◌, ◌%◌, ◌≡◌, refl, sym, ap, ap₂, ◌∙◌, true, false, Option, none, some, List, [], ◌∷◌, ◌==◌,
  if◌then◌else◌, if_elim, arith, size_mod, inl, inr, Option-cases,
}
use cpp_reactor_framework.Poller.{Poller}
use cpp_reactor_framework.TcpConnection.{TcpConnection, set_events, remove_if_added, close_socket}
use cpp_reactor_framework.TcpConnection.Calls.{connect_destroyed}
use cpp_reactor_framework.TcpServer.{
  main_loop, same_loop, Served, TcpServer, touch, put_back, fetch,
}
use cpp_reactor_framework.TcpServer.Removal.{has_key, erase, cell_loop, destroy_in_loop, remove}
use cpp_reactor_framework.TcpServer.Stopping.{visible-destroy_in_loop}
use cpp_reactor_framework.TcpServer.Ending.{remove_going}
use cpp_reactor_framework.TcpServer.Metrics.{no_bytes, byte_totals}
use cpp_reactor_framework.TcpServer.Metrics.Totals.{counted, sum, byte_totals_lem}

module _ (P : Poller) where
  abbrev pub read_of : Option (Served P) → ℕ
  read_of o = counted P (λ c. c.total_bytes_read) o

  -- The cell of the first entry under a descriptor.
  abbrev pub entered : ℕ → TcpServer P → List (ℕ × ℕ) → Option (Served P)
  entered fd s [] = none
  entered fd s (entry ∷ table) =
      let rest = entered fd s table in if fd == entry.0 then s.cells (entry.1) else rest

  sum-erase :
      (count : TcpConnection P → ℕ) (fd : ℕ) (s : TcpServer P) (table : List (ℕ × ℕ))
      → sum P s.cells count (erase (some fd) table) + counted P count (entered fd s table)
        ≡ sum P s.cells count table
  unfolding erase
  sum-erase count fd s [] = refl
  sum-erase count fd s (entry ∷ table) = ground (arith, sum-erase count fd s table)

  connect_destroyed_bytes :
      (c : TcpConnection P) → (connect_destroyed P c).total_bytes_read ≡ c.total_bytes_read
  unfolding connect_destroyed remove_if_added close_socket
  connect_destroyed_bytes c = unfold set_events in ground arith

  touch_bytes :
      (id i : ℕ) (s : TcpServer P)
      → read_of ((touch P (connect_destroyed P) id s).cells i) ≡ read_of (s.cells i)
  unfolding touch put_back
  touch_bytes id i s = elim (Option-cases (s.cells id)) [
    | inl unused ↦ rw (touch, unused) refl
    | inr (e, used) ↦
        rw (touch, used)
          (if_elim (λ o. read_of o ≡ read_of (s.cells i)) (i == id)
            (λ same.
              connect_destroyed_bytes (fetch P e s)
              ∙ sym (ap (λ j. read_of (s.cells j)) (equal i id same) ∙ ap read_of used))
            (λ other. refl))
  ]
    where
      equal : (a b : ℕ) → (a == b) ≡ true → a ≡ b
      equal a b h = ground arith

  destroy_in_loop_bytes :
      (id i : ℕ) (s : TcpServer P)
      → read_of ((destroy_in_loop P id s).cells i) ≡ read_of (s.cells i)
  unfolding destroy_in_loop
  destroy_in_loop_bytes id i s =
      if_elim (λ (t : TcpServer P). read_of (t.cells i) ≡ read_of (s.cells i))
        (same_loop main_loop (cell_loop P (s.cells id))) (λ here. touch_bytes id i s)
        (λ there. refl)

  -- The reported number of bytes that were read.
  abbrev pub bytes_read : TcpServer P → ℕ
  bytes_read s = (byte_totals P s.cells s.connections no_bytes).bytes_read_total

  sum_same :
      (cells cells' : ℕ → Option (Served P)) (table : List (ℕ × ℕ))
      → ((i : ℕ) → read_of (cells i) ≡ read_of (cells' i))
      → sum P cells (λ c. c.total_bytes_read) table ≡ sum P cells' (λ c. c.total_bytes_read) table
  sum_same cells cells' [] h = refl
  sum_same cells cells' (entry ∷ table) h = ap₂ ◌+◌ (h (entry.1)) (sum_same cells cells' table h)

  bytes_read_lem :
      (s : TcpServer P)
      → bytes_read s ≡ sum P s.cells (λ c. c.total_bytes_read) s.connections % size_mod
  bytes_read_lem s = ap (λ t. t.bytes_read_total) (byte_totals_lem P s.cells s.connections)

  -- On a server that is not stopping, the removal of an entry takes the bytes that its connection
  -- had read out of the reported number of bytes read, which is announced as a counter (modulo 2 ^
  -- 64).
  pub bytes_read-remove :
      (id fd : ℕ) (s : TcpServer P)
      → has_key (some fd) s.connections ≡ true
      → s.stopping ≡ false
      → (bytes_read (remove P id (some fd) s) + read_of (entered fd s s.connections)) % size_mod
        ≡ bytes_read s
  bytes_read-remove id fd s found going =
      let smaller = record s {
        connections = erase (some fd) s.connections;
        closed_connections = (s.closed_connections + 1) % size_mod;
      } in
      let t = destroy_in_loop P id smaller in
      let table : t.connections ≡ erase (some fd) s.connections =
        ap (λ v. v.connections) (visible-destroy_in_loop P id smaller) in
      let less =
        ap bytes_read (remove_going P id fd s found going)
        ∙ bytes_read_lem t
        ∙ ap (λ l. sum P t.cells (λ c. c.total_bytes_read) l % size_mod) table
        ∙ ap (λ n. n % size_mod)
            (sum_same t.cells s.cells (erase (some fd) s.connections)
              (λ i. destroy_in_loop_bytes id i smaller)) in
      omega (arith, less, bytes_read_lem s, sum-erase (λ c. c.total_bytes_read) fd s s.connections)
