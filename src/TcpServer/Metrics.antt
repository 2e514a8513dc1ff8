-- ===== src/TcpServer/Metrics.antt =====
-- src/tcpserver.cpp: the statistics of a server: what is reported, not how it is written.
pub mod Totals
pub mod Removal
use cpp_reactor_framework.Prelude.{
  ℕ, ◌+◌, ◌%◌, Bool, true, false, Option, none, some, List, [], ◌∷◌, if◌then◌else◌, length,
  size_mod,
}
use cpp_reactor_framework.Poller.{Poller}
use cpp_reactor_framework.TcpConnection.{TcpConnection}
use cpp_reactor_framework.TcpServer.{Served, TcpServer}

-- The lines of `GetPrometheusMetrics`.
pub data Metric : Type 0 where
  connections_total connections_closed_total connections_active server_stopping : Metric
  output_high_watermark_triggered_total connection_pending_write_bytes : Metric
  connection_bytes_read_total connection_bytes_written_total uptime_seconds : Metric

-- The sums over the connections.
pub record ByteTotals : Type 0 where
  pub bytes_read_total : ℕ
  pub bytes_written_total : ℕ
  pub pending_write_bytes : ℕ

abbrev pub no_bytes : ByteTotals
no_bytes = record { bytes_read_total = 0; bytes_written_total = 0; pending_write_bytes = 0 }

module _ (P : Poller) where
  pub record Stats : Type 0 where
    pub total_connections : ℕ
    pub closed_connections : ℕ
    pub active_connections : ℕ
    pub idle_timeout_seconds : ℕ
    pub stopping : ℕ
    pub high_water_mark_triggered : ℕ

  abbrev pub number : Bool → ℕ
  number b = if b then 1 else 0

  unfoldable pub get_stats : TcpServer P → Stats
  get_stats s = record {
    total_connections = s.total_connections;
    closed_connections = s.closed_connections;
    active_connections = length s.connections;
    idle_timeout_seconds = s.idle_timeout_seconds;
    stopping = number s.stopping;
    high_water_mark_triggered = s.high_water_mark_triggered;
  }

  -- One turn of the loop over the connections.
  unfoldable pub add_connection : Option (Served P) → ByteTotals → ByteTotals
  add_connection none t = t
  add_connection (some e) t = record {
    bytes_read_total = (t.bytes_read_total + e.conn.total_bytes_read) % size_mod;
    bytes_written_total = (t.bytes_written_total + e.conn.total_bytes_written) % size_mod;
    pending_write_bytes = (t.pending_write_bytes + e.conn.pending_write_bytes) % size_mod;
  }

  unfoldable pub byte_totals : (ℕ → Option (Served P)) → List (ℕ × ℕ) → ByteTotals → ByteTotals
  byte_totals cells [] t = t
  byte_totals cells (entry ∷ table) t = byte_totals cells table (add_connection (cells (entry.1)) t)

  -- `uptime` is what the clock says since `Start`.
  unfoldable pub get_prometheus_metrics : ℕ → TcpServer P → List (Metric × ℕ)
  get_prometheus_metrics uptime s =
      let t = byte_totals s.cells s.connections no_bytes in
      (connections_total, s.total_connections)
      ∷ (connections_closed_total, s.closed_connections)
      ∷ (connections_active, length s.connections)
      ∷ (server_stopping, number s.stopping)
      ∷ (output_high_watermark_triggered_total, s.high_water_mark_triggered)
      ∷ (connection_pending_write_bytes, t.pending_write_bytes)
      ∷ (connection_bytes_read_total, t.bytes_read_total)
      ∷ (connection_bytes_written_total, t.bytes_written_total)
      ∷ (uptime_seconds, if s.started then uptime else 0)
      ∷ []
