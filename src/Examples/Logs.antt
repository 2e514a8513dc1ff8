-- ===== src/Examples/Logs.antt =====
-- The theorem on the logger at a concrete input.
use cpp_reactor_framework.Prelude.{◌≡◌, List, [], ◌∷◌, ◌++◌, if◌then◌else◌}
use cpp_reactor_framework.Logger.{LogEvent, init}
use cpp_reactor_framework.Logger.Order.{
  LogStep, begins, ends, loops, stops, clears, log_run, console_lacks, file_lacks, errors_lack,
  errors_of, log_run_ordered,
}

abbrev warning : LogEvent
warning = record { level = 2; content = b'a' ∷ []; time_str = [] }

abbrev failure : LogEvent
failure = record { level = 3; content = b'b' ∷ []; time_str = [] }

-- The console appender got the warning when the failure is queued, and the failure is taken last.
abbrev late_failure : List LogStep
late_failure =
    begins warning
    ∷ begins failure
    ∷ ends 0
    ∷ loops
    ∷ loops
    ∷ ends 0
    ∷ loops
    ∷ stops
    ∷ loops
    ∷ loops
    ∷ clears
    ∷ []

log_run_ordered_example :
    ((log_run late_failure (init 0)).pushed
      ≡ (log_run late_failure (init 0)).console
        ++ (console_lacks (log_run late_failure (init 0)).current
            ++ ((log_run late_failure (init 0)).dropped
                ++ (log_run late_failure (init 0)).log_queue)))
    × ((log_run late_failure (init 0)).console
        ≡ (log_run late_failure (init 0)).file
          ++ file_lacks (log_run late_failure (init 0)).current)
    × (errors_of (log_run late_failure (init 0)).console
        ≡ (log_run late_failure (init 0)).errors
          ++ errors_of (errors_lack (log_run late_failure (init 0)).current))
    × ((if (log_run late_failure (init 0)).exited
          then []
          else (log_run late_failure (init 0)).dropped)
        ≡ [])
log_run_ordered_example = log_run_ordered 0 late_failure
