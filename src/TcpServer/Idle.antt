-- ===== src/TcpServer/Idle.antt =====
-- src/tcpserver.cpp: `ScanIdleConnections`.
use cpp_reactor_framework.Prelude.{
  ℕ, ◌≡◌, inl, inr, refl, sym, ap, ◌∙◌, Bool, false, not, ◌&&◌, ◌||◌, List, [], ◌∷◌, ok, ◌>>=◌,
  ◌==◌, if◌then◌else◌, arith, if_true, if_false, Bool-cases,
}
use cpp_reactor_framework.Poller.{Poller}
use cpp_reactor_framework.TcpServer.{TcpServer}
use cpp_reactor_framework.TcpServer.Removal.{cell_is_connected}
use cpp_reactor_framework.TcpServer.Calls.{
  is_idle, idle_cells, force_close_all, scan_idle_connections,
}
use cpp_reactor_framework.TcpServer.Stopping.{visible}
use cpp_reactor_framework.TcpServer.Forcing.{
  has_cell, Closes, Closes-refl, Closes-trans, force_close_connection-Closes,
}

abbrev member : ℕ → List ℕ → Bool
member id [] = false
member id (i ∷ ids) = id == i || member id ids

module _ (P : Poller) where
  force_close_all-Closes :
      (ids : List ℕ) (s : TcpServer P)
      → (t : TcpServer P) × (force_close_all P ids s ≡ ok t) × Closes P (λ i. member i ids) s t
  unfolding force_close_all
  force_close_all-Closes [] s = (s, refl, Closes-refl P s)
  force_close_all-Closes (id ∷ ids) s =
      let (t, ran, c) = force_close_connection-Closes P id s in
      let (u, rest, d) = force_close_all-Closes ids t in
      (
        u,
        ap (λ r. r >>= force_close_all P ids) ran ∙ rest,
        Closes-trans P (λ i. i == id) (λ i. member i ids) c d,
      )

  member_step :
      (f : ℕ → Bool) (id j : ℕ) (ids : List ℕ) (known : Bool)
      → member id ids ≡ (known && f id)
      → member id (if f j then j ∷ ids else ids) ≡ ((id == j || known) && f id)
  member_step f id j ids known h = elim (Bool-cases (id == j)) [
    | inl here ↦
        let same : id ≡ j = ground (arith, here) in
        let alike : f id ≡ f j = ap f same in ground (arith, here, alike, h)
    | inr there ↦ ground (arith, there, h)
  ]

  member-idle_cells :
      (now id : ℕ) (s : TcpServer P) (es : List (ℕ × ℕ))
      → member id (idle_cells P now s es) ≡ (has_cell id es && is_idle P now s (s.cells id))
  unfolding idle_cells
  member-idle_cells now id s [] = refl
  member-idle_cells now id s (e ∷ es) =
      member_step (λ i. is_idle P now s (s.cells i)) id (e.1) (idle_cells P now s es)
        (has_cell id es) (member-idle_cells now id s es)

  -- The connections that have an entry in the table, are connected, and were not active for the
  -- idle timeout, where there is one.
  abbrev pub is_overdue : ℕ → TcpServer P → ℕ → Bool
  is_overdue now s id =
      not (s.idle_timeout_seconds == 0) && has_cell id s.connections && is_idle P now s (s.cells id)

  -- A scan for idle connections always ends with no fault. Of the connections it leaves
  -- unconnected exactly those that have an entry, are connected, and were not active for the
  -- timeout, if there is a timeout; it does not touch the others, and leaves the server's table,
  -- flags and counters as they are.
  pub scan_idle_connections_lem :
      (now id : ℕ) (s : TcpServer P)
      → (t : TcpServer P) × (scan_idle_connections P now s ≡ ok t)
        × (visible P t ≡ visible P s)
        × (cell_is_connected P (t.cells id)
            ≡ (cell_is_connected P (s.cells id) && not (is_overdue now s id)))
        × ((if is_overdue now s id then s.cells id else t.cells id) ≡ s.cells id)
  unfolding scan_idle_connections
  scan_idle_connections_lem now id s = elim (Bool-cases (s.idle_timeout_seconds == 0)) [
    | inl off ↦ (
      s,
      if_true _ _ (s.idle_timeout_seconds == 0) off,
      refl,
      ground (arith, off),
      ground (arith, off),
    )
    | inr on ↦
        let (t, ran, c) = force_close_all-Closes (idle_cells P now s s.connections) s in
        let listed = member-idle_cells now id s s.connections in
        (
          t,
          if_false _ _ (s.idle_timeout_seconds == 0) on ∙ ran,
          c.table,
          elim (Bool-cases (member id (idle_cells P now s s.connections))) [
            | inl h ↦ let closed = c.closed id h in ground (arith, on, closed, sym listed ∙ h)
            | inr h ↦
                let same = ap (cell_is_connected P) (c.others id h) in
                ground (arith, on, same, sym listed ∙ h)
          ],
          elim (Bool-cases (member id (idle_cells P now s s.connections))) [
            | inl h ↦ if_true _ _ (is_overdue now s id) (ground (arith, on, sym listed ∙ h))
            | inr h ↦
                if_false _ _ (is_overdue now s id) (ground (arith, on, sym listed ∙ h))
                ∙ c.others id h
          ],
        )
  ]
