-- ===== src/TcpServer/Deadline.antt =====
-- src/tcpserver.cpp: the deadline of a graceful stop.
use cpp_reactor_framework.Prelude.{
  ℕ, ◌≡◌, refl, sym, ap, ◌∙◌, true, false, ◌&&◌, Option, none, some, List, [], ◌∷◌, ◌++◌, ◌==◌,
  append_assoc, ok, fault, ◌>>=◌, if◌then◌else◌, arith, if_elim, if_true, if_false,
  invalid_iterator,
}
use cpp_reactor_framework.Poller.{Poller}
use cpp_reactor_framework.TcpConnection.Calls.{connect_destroyed}
use cpp_reactor_framework.TcpServer.{
  main_loop, same_loop, Served, TcpServer, touch, put_back, fetch,
}
use cpp_reactor_framework.TcpServer.Removal.{
  has_key, is_empty, cell_is_connected, cell_loop, destroy_in_loop, connected_entries,
  stale_entries, destroy_all, purge, finish,
}
use cpp_reactor_framework.TcpServer.Calls.{
  for_each_connection, force_close_connection, finalize_graceful_stop, shutdown_check,
}
use cpp_reactor_framework.TcpServer.Forcing.{
  has_cell, Closes, Closes-refl, Closes-trans, force_close_connection-Closes,
}
use cpp_reactor_framework.TcpServer.Stopping.{
  Visible, visible, remaining, stopped, visible-purge, connected_entries-remaining,
}

module _ (P : Poller) where
  has_key-append :
      (entry : ℕ × ℕ) (xs ys : List (ℕ × ℕ)) → has_key (some (entry.0)) (xs ++ (entry ∷ ys)) ≡ true
  has_key-append entry [] ys = ground arith
  has_key-append entry (x ∷ xs) ys = ground (arith, has_key-append entry xs ys)

  -- The loop that forces every connection of the table to close goes through it.
  force_close_each :
      (xs es : List (ℕ × ℕ)) (s : TcpServer P)
      → s.connections ≡ xs ++ es
      → (t : TcpServer P) × (for_each_connection P (force_close_connection P) es s ≡ ok t)
        × Closes P (λ i. has_cell i es) s t
  unfolding for_each_connection
  force_close_each xs [] s h = (s, refl, Closes-refl P s)
  force_close_each xs (e ∷ es) s h =
      let (t, ran, c) = force_close_connection-Closes P (e.1) s in
      let table = ap (λ v. v.connections) c.table ∙ h in
      let found : has_key (some (e.0)) t.connections ≡ true =
        ap (has_key (some (e.0))) table ∙ has_key-append e xs es in
      let (u, rest, d) =
        force_close_each (xs ++ (e ∷ [])) es t (table ∙ sym (append_assoc xs (e ∷ []) es)) in
      (
        u,
        ap
              (λ r. r >>= λ t.
                if has_key (some (e.0)) t.connections
                then for_each_connection P (force_close_connection P) es t
                else fault invalid_iterator)
              ran
            ∙ if_true _ _ (has_key (some (e.0)) t.connections) found
            ∙ rest,
        Closes-trans P (λ i. i == e.1) (λ i. has_cell i es) c d,
      )

  abbrev cell_of : ℕ → TcpServer P → Option (Served P)
  cell_of i s = s.cells i

  destroy_in_loop-other :
      (id i : ℕ) (s : TcpServer P)
      → (i == id) ≡ false
      → (destroy_in_loop P id s).cells i ≡ s.cells i
  unfolding destroy_in_loop touch put_back
  destroy_in_loop-other id i s other =
      if_elim (λ (t : TcpServer P). t.cells i ≡ s.cells i)
        (same_loop main_loop (cell_loop P (s.cells id)))
        (λ here.
          elim (s.cells id)
            as (λ o.
              cell_of i (elim o [
                | none ↦ s
                | some e ↦ put_back P id e (connect_destroyed P (fetch P e s)) s
              ])
              ≡ s.cells i) [ none ↦ refl | some e ↦ if_false _ _ (i == id) other ])
        (λ there. refl)

  destroy_all-other :
      (i : ℕ) (es : List (ℕ × ℕ)) (s : TcpServer P)
      → has_cell i es ≡ false
      → (destroy_all P es s).cells i ≡ s.cells i
  unfolding destroy_all
  destroy_all-other i [] s absent = refl
  destroy_all-other i (e ∷ es) s absent =
      destroy_all-other i es (destroy_in_loop P (e.1) s) (ground (arith, absent))
      ∙ destroy_in_loop-other (e.1) i s (ground (arith, absent))

  -- Entries that are no entries of a cell's, in either part of the table.
  stale-absent :
      (i : ℕ) (s : TcpServer P) (es : List (ℕ × ℕ))
      → has_cell i es ≡ false
      → (has_cell i (stale_entries P s es) ≡ false)
        × (has_cell i (connected_entries P s es) ≡ false)
  unfolding stale_entries connected_entries
  stale-absent i s [] absent = (refl, refl)
  stale-absent i s (e ∷ es) absent =
      let (stale, stays) = stale-absent i s es (ground (arith, absent)) in
      (ground (arith, absent, stale), ground (arith, absent, stays))

  -- How the deadline leaves the server.
  abbrev pub at_deadline : List (ℕ × ℕ) → TcpServer P → Visible P
  at_deadline table s =
      if is_empty table
      then stopped P table (visible P s)
      else record (visible P s) { connections = table }

  cells-finish_if :
      (id : ℕ) (t : TcpServer P)
      → (if is_empty t.connections then finish P t else t).cells id ≡ t.cells id
  unfolding finish
  cells-finish_if id t =
      if_elim (λ (u : TcpServer P). u.cells id ≡ t.cells id) (is_empty t.connections) (λ k. refl)
        (λ k. refl)

  purge-other :
      (i : ℕ) (s : TcpServer P) → has_cell i s.connections ≡ false → (purge P s).cells i ≡ s.cells i
  unfolding purge
  purge-other i s absent =
      destroy_all-other i (stale_entries P s s.connections) _
        (stale-absent i s s.connections absent).0

  visible-finish_if :
      (t : TcpServer P)
      → visible P (if is_empty t.connections then finish P t else t)
        ≡ (if is_empty t.connections then stopped P t.connections (visible P t) else visible P t)
  unfolding finish
  visible-finish_if t =
      elim (is_empty t.connections)
        as (λ b.
          visible P (if b then finish P t else t)
          ≡ (if b then stopped P t.connections (visible P t) else visible P t)) [
            | true ↦ refl
            | false ↦ refl
          ]

  -- The deadline of a server that is stopping always ends with no fault. It leaves exactly the
  -- entries of connected connections in the table, leaves none of the connections that keep their
  -- entry connected, and does not touch a connection that had no entry. If no entry is left, the
  -- stop ends as it does without force; otherwise the flags, the timers, the counters of
  -- connections and the callback that waits are as they were, and the server goes on stopping with
  -- these entries.
  pub deadline_lem :
      (s : TcpServer P)
      → s.stopping ≡ true
      → (t : TcpServer P) × (finalize_graceful_stop P true s ≡ ok t)
        × (visible P t ≡ at_deadline (remaining P s s.connections) s)
        × ((id : ℕ)
            → has_cell id (remaining P s s.connections) ≡ true
            → cell_is_connected P (t.cells id) ≡ false)
        × ((id : ℕ) → has_cell id s.connections ≡ false → t.cells id ≡ s.cells id)
  unfolding finalize_graceful_stop
  deadline_lem s h =
      let (u, ran, c) = force_close_each [] (purge P s).connections (purge P s) refl in
      let left = ap (λ v. v.connections) (visible-purge P s) in
      let seen : visible P u ≡ record (visible P s) { connections = remaining P s s.connections } =
        c.table ∙ visible-purge P s in
      (
        if is_empty u.connections then finish P u else u,
        if_true _ _ s.stopping h
            ∙ ap
                (λ r. r >>= λ closed.
                  ok (if is_empty closed.connections then finish P closed else closed))
                ran,
        visible-finish_if u
            ∙ ap (λ v. if is_empty v.connections then stopped P v.connections v else v) seen,
        λ id stays.
            ap (cell_is_connected P) (cells-finish_if id u)
            ∙ c.closed id (ap (has_cell id) left ∙ stays),
        λ id absent.
            cells-finish_if id u
            ∙ c.others id (
                ap (has_cell id) (left ∙ sym (connected_entries-remaining P s s.connections))
                ∙ (stale-absent id s s.connections absent).1)
            ∙ purge-other id s absent,
      )

  -- While a connection is connected at the deadline, the check that the timer repeats changes nothing.
  pub deadline_waits :
      (s : TcpServer P)
      → s.stopping ≡ true
      → is_empty (remaining P s s.connections) ≡ false
      → (t : TcpServer P) × (finalize_graceful_stop P true s ≡ ok t)
        × (t.stopping ≡ true)
        × (t.completions ≡ s.completions)
        × (shutdown_check P t ≡ t)
  unfolding shutdown_check
  deadline_waits s h some_left =
      let (t, ran, seen, gone, others) = deadline_lem s h in
      let kept = seen ∙ if_false _ _ (is_empty (remaining P s s.connections)) some_left in
      let full : is_empty t.connections ≡ false =
        ap (λ v. is_empty v.connections) kept ∙ some_left in
      (
        t,
        ran,
        ap (λ v. v.stopping) kept ∙ h,
        ap (λ v. v.completions) kept,
        if_false _ _ (t.timers.shutdown_check_timer && is_empty t.connections)
            (ground (arith, full)),
      )
