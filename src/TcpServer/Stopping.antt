-- ===== src/TcpServer/Stopping.antt =====
-- src/tcpserver.cpp: how a graceful stop ends: `FinalizeGracefulStop` and the deadline.
use cpp_reactor_framework.Prelude.{
  ℕ, suc, ◌≡◌, refl, ap, ◌∙◌, Bool, true, false, none, some, List, [], ◌∷◌, if◌then◌else◌, if_elim,
  if_true, if_false,
}
use mathlib.Core.Bool.{Bool-discrete}
use mathlib.Core.Logic.{ite}
use mathlib.Core.List.{filter}
use cpp_reactor_framework.Poller.{Poller}
use cpp_reactor_framework.TcpConnection.{TcpConnection}
use cpp_reactor_framework.TcpConnection.Calls
use cpp_reactor_framework.TcpServer.{
  main_loop, same_loop, no_timers, Timers, TcpServer, touch, put_back, fetch,
}
use cpp_reactor_framework.TcpServer.Removal.{
  cell_is_connected, cell_loop, destroy_in_loop, connected_entries, stale_entries, destroy_all,
  purge, finish, finalize_unforced,
}

if-ite {ℓ} :
    {A : Type ℓ} (x y : A) (b : Bool)
    → (if b then x else y) ≡ ite {C = A} (Bool-discrete b true) x y
if-ite x y true = refl
if-ite x y false = refl

module _ (P : Poller) where
  -- The server but for the cells, the pollers, the queues and the counter of the high water mark.
  pub record Visible : Type 0 where
    pub started : Bool
    pub stopping : Bool
    pub connections : List (ℕ × ℕ)
    pub timers : Timers
    pub total_connections : ℕ
    pub closed_connections : ℕ
    pub has_shutdown_callback : Bool
    pub completions : ℕ

  abbrev pub visible : TcpServer P → Visible
  visible s = record {
    started = s.started;
    stopping = s.stopping;
    connections = s.connections;
    timers = s.timers;
    total_connections = s.total_connections;
    closed_connections = s.closed_connections;
    has_shutdown_callback = s.has_shutdown_callback;
    completions = s.completions;
  }

  pub visible-touch :
      (call : TcpConnection P → TcpConnection P) (id : ℕ) (s : TcpServer P)
      → visible (touch P call id s) ≡ visible s
  unfolding touch put_back
  visible-touch call id s =
      elim (s.cells id)
        as (λ o.
          visible (elim o [ none ↦ s | some e ↦ put_back P id e (call (fetch P e s)) s ])
          ≡ visible s) [ none ↦ refl | some e ↦ refl ]

  pub visible-destroy_in_loop :
      (id : ℕ) (s : TcpServer P) → visible (destroy_in_loop P id s) ≡ visible s
  unfolding destroy_in_loop
  visible-destroy_in_loop id s =
      if_elim (λ t. visible t ≡ visible s) (same_loop main_loop (cell_loop P (s.cells id)))
        (λ h. visible-touch (Calls.connect_destroyed P) id s) (λ h. refl)

  visible-destroy_all :
      (es : List (ℕ × ℕ)) (s : TcpServer P) → visible (destroy_all P es s) ≡ visible s
  unfolding destroy_all
  visible-destroy_all [] s = refl
  visible-destroy_all (e ∷ es) s = visible-destroy_all es _ ∙ visible-destroy_in_loop (e.1) s

  -- Which entries of a table are of connected connections.
  abbrev pub remaining : TcpServer P → List (ℕ × ℕ) → List (ℕ × ℕ)
  remaining s table =
      filter (λ entry. Bool-discrete (cell_is_connected P (s.cells (entry.1))) true) table

  pub connected_entries-remaining :
      (s : TcpServer P) (es : List (ℕ × ℕ)) → connected_entries P s es ≡ remaining s es
  unfolding connected_entries
  connected_entries-remaining s [] = refl
  connected_entries-remaining s (e ∷ es) =
      ap (λ l. if cell_is_connected P (s.cells (e.1)) then e ∷ l else l)
        (connected_entries-remaining s es)
      ∙ if-ite (e ∷ remaining s es) (remaining s es) (cell_is_connected P (s.cells (e.1)))

  pub visible-purge :
      (s : TcpServer P)
      → visible (purge P s) ≡ record (visible s) { connections = remaining s s.connections }
  unfolding purge
  visible-purge s =
      visible-destroy_all (stale_entries P s s.connections) _
      ∙ ap (λ l. record (visible s) { connections = l })
          (connected_entries-remaining s s.connections)

  -- How a graceful stop leaves the server, with these entries in the table.
  abbrev pub stopped : List (ℕ × ℕ) → Visible → Visible
  stopped table v = record v {
    started = false;
    stopping = false;
    connections = table;
    timers = no_timers;
    has_shutdown_callback = false;
    completions = if v.has_shutdown_callback then suc v.completions else v.completions;
  }

  -- When `FinalizeGracefulStop(false)` runs on a server that is stopping, the table keeps exactly
  -- the entries of connected connections, every timer is cancelled, the server is neither started
  -- nor stopping, and the callback is called once if there is one; a second call does nothing.
  pub finalize_unforced_lem :
      (s : TcpServer P)
      → s.stopping ≡ true
      → (visible (finalize_unforced P s) ≡ stopped (remaining s s.connections) (visible s))
        × (finalize_unforced P (finalize_unforced P s) ≡ finalize_unforced P s)
  unfolding finalize_unforced finish
  finalize_unforced_lem s h =
      let run : finalize_unforced P s ≡ finish P (purge P s) = if_true _ _ s.stopping h in
      (
        ap visible run ∙ ap (λ v. stopped v.connections v) (visible-purge s),
        if_false _ _ _ (ap (λ t. t.stopping) run),
      )
