-- ===== src/TcpServer/Metrics/Totals.antt =====
-- src/tcpserver.cpp: what the reported sums depend on.
use cpp_reactor_framework.Prelude.{
  ℕ, suc, ◌+◌, ◌%◌, ◌<◌, ◌≡◌, refl, sym, ap, ap₂, ◌∙◌, Option, none, some, List, [], ◌∷◌,
  if◌then◌else◌, arith, length, size_mod,
}
use mathlib.Core.List.Perm
use mathlib.Core.List.{Perm, foldr}
use native.Mathlib.Nat.{ℕ_set}
use cpp_reactor_framework.Poller.{Poller}
use cpp_reactor_framework.TcpConnection.{TcpConnection}
use cpp_reactor_framework.TcpServer.{Served, TcpServer}
use cpp_reactor_framework.TcpServer.Metrics.{
  ByteTotals, no_bytes, add_connection, byte_totals, get_prometheus_metrics, connections_total,
  connections_closed_total, connections_active, server_stopping,
  output_high_watermark_triggered_total, connection_pending_write_bytes,
  connection_bytes_read_total, connection_bytes_written_total, uptime_seconds,
}

length-foldr : (table : List (ℕ × ℕ)) → length table ≡ foldr (λ e n. suc n) 0 table
length-foldr [] = refl
length-foldr (e ∷ table) = ap suc (length-foldr table)

length-perm : {table table' : List (ℕ × ℕ)} → Perm table table' → length table ≡ length table'
length-perm {table} {table'} p =
    length-foldr table
    ∙ (Perm.foldr-eq ℕ_set (λ e n. suc n) (λ a b n. refl) p 0 ∙ sym (length-foldr table'))

module _ (P : Poller) where
  -- What a cell counts.
  abbrev pub counted : (TcpConnection P → ℕ) → Option (Served P) → ℕ
  counted count none = 0
  counted count (some e) = count e.conn

module _ (P : Poller) (cells : ℕ → Option (Served P)) where
  -- A sum over a table, which does not wrap.
  abbrev pub sum : (TcpConnection P → ℕ) → List (ℕ × ℕ) → ℕ
  sum count table = foldr (λ e n. counted P count (cells (e.1)) + n) 0 table

  sum-perm :
      (count : TcpConnection P → ℕ) {table table' : List (ℕ × ℕ)}
      → Perm table table'
      → sum count table ≡ sum count table'
  sum-perm count p =
      Perm.foldr-eq ℕ_set (λ e n. counted P count (cells (e.1)) + n) (λ a b n. omega arith) p 0

  -- The reported totals are the sums, as 64 bits.
  record Sums (table : List (ℕ × ℕ)) (t t' : ByteTotals) : Type 0 where
    read :
        t'.bytes_read_total ≡ (t.bytes_read_total + sum (λ c. c.total_bytes_read) table) % size_mod
    written :
        t'.bytes_written_total
        ≡ (t.bytes_written_total + sum (λ c. c.total_bytes_written) table) % size_mod
    pending :
        t'.pending_write_bytes
        ≡ (t.pending_write_bytes + sum (λ c. c.pending_write_bytes) table) % size_mod

  -- 64 bits each.
  abbrev Small : ByteTotals → Type 0
  Small t =
      (t.bytes_read_total < size_mod)
      × (t.bytes_written_total < size_mod)
      × (t.pending_write_bytes < size_mod)

  -- One connection more.
  record Added (o : Option (Served P)) (t t' : ByteTotals) : Type 0 where
    small : Small t'
    read :
        t'.bytes_read_total
        ≡ (t.bytes_read_total + counted P (λ c. c.total_bytes_read) o) % size_mod
    written :
        t'.bytes_written_total
        ≡ (t.bytes_written_total + counted P (λ c. c.total_bytes_written) o) % size_mod
    pending :
        t'.pending_write_bytes
        ≡ (t.pending_write_bytes + counted P (λ c. c.pending_write_bytes) o) % size_mod

  add_connection-Added :
      (o : Option (Served P)) (t : ByteTotals) → Small t → Added o t (add_connection P o t)
  unfolding add_connection
  add_connection-Added none t (r, w, q) = record {
    small = (r, w, q);
    read = omega arith;
    written = omega arith;
    pending = omega arith;
  }
  add_connection-Added (some e) t small = record {
    small = (omega arith, omega arith, omega arith);
    read = refl;
    written = refl;
    pending = refl;
  }

  byte_totals-Sums :
      (table : List (ℕ × ℕ)) (t : ByteTotals) → Small t → Sums table t (byte_totals P cells table t)
  unfolding byte_totals
  byte_totals-Sums [] t (r, w, q) = record {
    read = omega arith;
    written = omega arith;
    pending = omega arith;
  }
  byte_totals-Sums (entry ∷ table) t small =
      let a = add_connection-Added (cells (entry.1)) t small in
      let s = byte_totals-Sums table (add_connection P (cells (entry.1)) t) a.small in
      record {
        read = omega (arith, s.read, a.read);
        written = omega (arith, s.written, a.written);
        pending = omega (arith, s.pending, a.pending);
      }

  pub byte_totals_lem :
      (table : List (ℕ × ℕ))
      → byte_totals P cells table no_bytes ≡ record {
        bytes_read_total = sum (λ c. c.total_bytes_read) table % size_mod;
        bytes_written_total = sum (λ c. c.total_bytes_written) table % size_mod;
        pending_write_bytes = sum (λ c. c.pending_write_bytes) table % size_mod;
      }
  byte_totals_lem table =
      let s = byte_totals-Sums table no_bytes (omega arith, omega arith, omega arith) in
      let read : (byte_totals P cells table no_bytes).bytes_read_total
          ≡ sum (λ c. c.total_bytes_read) table % size_mod =
        omega (arith, s.read) in
      let written : (byte_totals P cells table no_bytes).bytes_written_total
          ≡ sum (λ c. c.total_bytes_written) table % size_mod =
        omega (arith, s.written) in
      let pending : (byte_totals P cells table no_bytes).pending_write_bytes
          ≡ sum (λ c. c.pending_write_bytes) table % size_mod =
        omega (arith, s.pending) in
      λ i. record {
        bytes_read_total = read i;
        bytes_written_total = written i;
        pending_write_bytes = pending i;
      }

  byte_totals-perm :
      {table table' : List (ℕ × ℕ)}
      → Perm table table'
      → byte_totals P cells table no_bytes ≡ byte_totals P cells table' no_bytes
  byte_totals-perm {table} {table'} p =
      byte_totals_lem table
      ∙ (λ i. record {
        bytes_read_total = sum-perm (λ c. c.total_bytes_read) p i % size_mod;
        bytes_written_total = sum-perm (λ c. c.total_bytes_written) p i % size_mod;
        pending_write_bytes = sum-perm (λ c. c.pending_write_bytes) p i % size_mod;
      })
      ∙ sym (byte_totals_lem table')

module _ (P : Poller) where
  -- What the metrics report, in whatever order the table of connections is walked: the counters,
  -- the number of entries and the flag of the server as they are, the time since the start if it
  -- is started, and for the bytes read, the bytes written and the bytes that wait, the sum over
  -- the connections that have an entry, modulo 2 ^ 64.
  pub get_prometheus_metrics_lem :
      (uptime : ℕ) (s : TcpServer P) (table : List (ℕ × ℕ))
      → Perm s.connections table
      → get_prometheus_metrics P uptime s
        ≡ (connections_total, s.total_connections)
          ∷ (connections_closed_total, s.closed_connections)
          ∷ (connections_active, length table)
          ∷ (server_stopping, if s.stopping then 1 else 0)
          ∷ (output_high_watermark_triggered_total, s.high_water_mark_triggered)
          ∷ (
            connection_pending_write_bytes,
            sum P s.cells (λ c. c.pending_write_bytes) table % size_mod,
          )
          ∷ (connection_bytes_read_total, sum P s.cells (λ c. c.total_bytes_read) table % size_mod)
          ∷ (
            connection_bytes_written_total,
            sum P s.cells (λ c. c.total_bytes_written) table % size_mod,
          )
          ∷ (uptime_seconds, if s.started then uptime else 0)
          ∷ []
  unfolding get_prometheus_metrics
  get_prometheus_metrics_lem uptime s table p =
      ap₂
        (λ (n : ℕ) (t : ByteTotals).
          (connections_total, s.total_connections)
          ∷ (connections_closed_total, s.closed_connections)
          ∷ (connections_active, n)
          ∷ (server_stopping, if s.stopping then 1 else 0)
          ∷ (output_high_watermark_triggered_total, s.high_water_mark_triggered)
          ∷ (connection_pending_write_bytes, t.pending_write_bytes)
          ∷ (connection_bytes_read_total, t.bytes_read_total)
          ∷ (connection_bytes_written_total, t.bytes_written_total)
          ∷ (uptime_seconds, if s.started then uptime else 0)
          ∷ [])
        (length-perm p) (byte_totals-perm P s.cells p ∙ byte_totals_lem P s.cells table)
