-- ===== src/Examples/Statistics.antt =====
-- The theorems on the statistics and on the files of the log at concrete inputs.
use cpp_reactor_framework.Prelude.{ℕ, ◌+◌, ◌*◌, ◌%◌, ◌≡◌, refl, true, some, List, [], ◌∷◌, size_mod}
use mathlib.Core.List.Perm
use cpp_reactor_framework.Poller.Epoll.{poller}
use cpp_reactor_framework.TcpConnection
use cpp_reactor_framework.TcpServer
use cpp_reactor_framework.TcpServer.{main_loop, Served, TcpServer}
use cpp_reactor_framework.TcpServer.Removal.{remove}
use cpp_reactor_framework.TcpServer.Metrics.{
  get_prometheus_metrics, connections_total, connections_closed_total, connections_active,
  server_stopping, output_high_watermark_triggered_total, connection_pending_write_bytes,
  connection_bytes_read_total, connection_bytes_written_total, uptime_seconds,
}
use cpp_reactor_framework.TcpServer.Metrics.Totals.{get_prometheus_metrics_lem}
use cpp_reactor_framework.TcpServer.Metrics.Removal.{
  bytes_read, read_of, entered, bytes_read-remove,
}
use cpp_reactor_framework.Logger.{LogEvent}
use cpp_reactor_framework.Logger.Files
use cpp_reactor_framework.Logger.Files.{append_all, append_errors}
use cpp_reactor_framework.Logger.Files.Days.{lines, dated_errors, append_all-lines}
use cpp_reactor_framework.Examples.Servers.{serving, cell}

-- Two entries, one of which has a connection.
abbrev two_entries : TcpServer poller
two_entries = record (serving main_loop) { connections = (5, 0) ∷ (6, 1) ∷ [] }

-- Two connections that have read and written, which are walked in either order.
abbrev busy : ℕ → Served poller
busy n = record (cell main_loop) {
  conn = record ((cell main_loop).conn) { total_bytes_read = n; total_bytes_written = 2 * n };
}

abbrev reporting : TcpServer poller
reporting = record two_entries { cells = λ i. some (busy (10 + i)) }

get_prometheus_metrics_lem_example :
    get_prometheus_metrics poller 3 reporting
    ≡ (connections_total, 1)
      ∷ (connections_closed_total, 0)
      ∷ (connections_active, 2)
      ∷ (server_stopping, 0)
      ∷ (output_high_watermark_triggered_total, 0)
      ∷ (connection_pending_write_bytes, 0)
      ∷ (connection_bytes_read_total, 21)
      ∷ (connection_bytes_written_total, 42)
      ∷ (uptime_seconds, 3)
      ∷ []
unfolding TcpServer.new TcpConnection.new
get_prometheus_metrics_lem_example =
    get_prometheus_metrics_lem poller 3 reporting ((6, 1) ∷ (5, 0) ∷ [])
      (Perm.swap (6, 1) (5, 0) [])

bytes_read-remove_example :
    (bytes_read poller (remove poller 0 (some 5) two_entries)
        + read_of poller (entered poller 5 two_entries two_entries.connections))
      % size_mod
    ≡ bytes_read poller two_entries
unfolding TcpServer.new
bytes_read-remove_example = bytes_read-remove poller 0 5 two_entries refl refl

abbrev dated : List (List ℕ × LogEvent)
dated =
    (b'1' ∷ [], record { level = 3; content = b'a' ∷ []; time_str = b't' ∷ [] })
    ∷ (b'2' ∷ [], record { level = 1; content = b'b' ∷ []; time_str = b'u' ∷ [] })
    ∷ []

append_all-lines_example :
    ((append_all (λ path. true) dated (Files.new (λ path. true) (b'l' ∷ []) (b'1' ∷ []))).written
      ≡ lines (λ path. true) (b'l' ∷ []) dated)
    × ((append_errors
          (λ path. true)
          dated
          (Files.new (λ path. true) (b'l' ∷ []) (b'1' ∷ []))).written
        ≡ lines (λ path. true) (b'l' ∷ []) (dated_errors dated))
append_all-lines_example = append_all-lines (λ path. true) (b'l' ∷ []) (b'1' ∷ []) dated
