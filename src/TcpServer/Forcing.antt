-- ===== src/TcpServer/Forcing.antt =====
-- src/tcpserver.cpp: `ForceClose` on connections of the server, and what it does to the server.
use cpp_reactor_framework.Prelude.{
  ℕ, ◌+◌, ◌%◌, ◌≡◌, ◌⊎◌, inl, inr, refl, ap, ◌∙◌, Bool, true, false, ◌||◌, Option, none, some, List,
  [], ◌∷◌, Result, ok, ◌>>=◌, ◌==◌, arith, if_elim, if_true, if_false, size_mod, Bool-cases,
  Option-cases,
}
use cpp_reactor_framework.Poller.{Poller}
use cpp_reactor_framework.TcpConnection.{TcpConnection, Notice}
use cpp_reactor_framework.TcpConnection.Calls.{force_close}
use cpp_reactor_framework.TcpServer.{Loop, main_loop, same_loop, Served, TcpServer, put_back, fetch}
use cpp_reactor_framework.TcpServer.Removal.{
  cell_is_connected, cell_loop, remove, handle_remove_connection, called_close,
  called_high_water_mark, after_call, conn_call,
}
use cpp_reactor_framework.TcpServer.Calls.{force_close_connection}
use cpp_reactor_framework.TcpServer.Closing.{force_close_seen}
use cpp_reactor_framework.TcpServer.Stopping.{visible}

-- Whether the table has an entry for the cell.
abbrev pub has_cell : ℕ → List (ℕ × ℕ) → Bool
has_cell id [] = false
has_cell id (entry ∷ table) = id == entry.1 || has_cell id table

module _ (P : Poller) where
  -- A call of the connection in a cell.
  pub conn_call_cell :
      (at : Loop) (call : TcpConnection P → Result (TcpConnection P)) (id : ℕ) (s : TcpServer P)
      (e : Served P)
      → s.cells id ≡ some e
      → conn_call P at call id s
        ≡ (call (fetch P e s) >>= λ c. ok (after_call P at id c.notices (put_back P id e c s)))
  unfolding conn_call
  conn_call_cell at call id s e h = rw (conn_call, h) refl

  after_call-main :
      (id : ℕ) (ns : List Notice) (s : TcpServer P)
      → (called_close ns ≡ none) ⊎ (called_close ns ≡ some none)
      → after_call P main_loop id ns s ≡ record s {
        high_water_mark_triggered =
            (s.high_water_mark_triggered + called_high_water_mark ns) % size_mod;
      }
  unfolding after_call handle_remove_connection remove
  after_call-main id ns s (inl h) = rw (after_call, h) refl
  after_call-main id ns s (inr h) = rw (after_call, h) refl

  -- Calls that close the connections of these cells, and do nothing else to the server.
  pub record Closes (closes : ℕ → Bool) (s t : TcpServer P) : Type 0 where
    pub table : visible P t ≡ visible P s
    pub others : (i : ℕ) → closes i ≡ false → t.cells i ≡ s.cells i
    pub closed : (i : ℕ) → closes i ≡ true → cell_is_connected P (t.cells i) ≡ false
    pub stays :
        (i : ℕ) → cell_is_connected P (s.cells i) ≡ false → cell_is_connected P (t.cells i) ≡ false

  pub Closes-refl : (s : TcpServer P) → Closes (λ i. false) s s
  Closes-refl s = record {
    table = refl;
    others = λ i k. refl;
    closed = λ i k. cc;
    stays = λ i k. k;
  }

  pub Closes-trans :
      (p q : ℕ → Bool) {s t u : TcpServer P}
      → Closes p s t
      → Closes q t u
      → Closes (λ i. p i || q i) s u
  Closes-trans p q c d = record {
    table = d.table ∙ c.table;
    others = λ i k. d.others i (ground (arith, k)) ∙ c.others i (ground (arith, k));
    closed = λ i k. elim (Bool-cases (q i)) [
      | inl later ↦ d.closed i later
      | inr earlier ↦ d.stays i (c.closed i (ground (arith, k, earlier)))
    ];
    stays = λ i k. d.stays i (c.stays i k);
  }

  pub force_close_connection-Closes :
      (id : ℕ) (s : TcpServer P)
      → (t : TcpServer P) × (force_close_connection P id s ≡ ok t) × Closes (λ i. i == id) s t
  unfolding force_close_connection conn_call put_back
  force_close_connection-Closes id s = elim (Option-cases (s.cells id)) [
    | inl h ↦ (
      s,
      rw (conn_call, h) refl,
      record {
        table = refl;
        others = λ i k. refl;
        closed = λ i k.
            let here : i ≡ id = ground (arith, k) in
            ap (λ j. cell_is_connected P (s.cells j)) here ∙ ap (cell_is_connected P) h;
        stays = λ i k. k;
      },
    )
    | inr (e, h) ↦
        let in_loop = same_loop main_loop (cell_loop P (s.cells id)) in
        let c = force_close P in_loop (fetch P e s) in
        let seen = force_close_seen P in_loop (fetch P e s) refl in
        (
          record (put_back P id e c s) {
            high_water_mark_triggered =
                (s.high_water_mark_triggered + called_high_water_mark c.notices) % size_mod;
          },
          conn_call_cell main_loop (λ c. ok (force_close P in_loop c)) id s e h
              ∙ ap ok (after_call-main id c.notices (put_back P id e c s) seen.0),
          record {
            table = refl;
            others = λ i k. if_false _ _ (i == id) (ground (arith, k));
            closed = λ i k.
                ap (cell_is_connected P) (if_true _ _ (i == id) (ground (arith, k))) ∙ seen.1;
            stays = λ i k.
                if_elim (λ (o : Option (Served P)). cell_is_connected P o ≡ false) (i == id)
                  (λ here. seen.1) (λ there. k);
          },
        )
  ]
