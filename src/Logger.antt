-- ===== src/Logger.antt =====
-- include/logger.h, src/logger.cpp: the logger as steps of its threads, from `Init` on. A region under
-- the mutex, and a look at the atomic flag, is one step: a caller is in between when it has found the
-- logger running and has not queued its event yet. Texts are lists of bytes.
pub mod Calls
pub mod Files
pub mod Order
use cpp_reactor_framework.Prelude.{
  ℕ, zero, suc, Bool, true, false, not, ◌&&◌, Option, none, some, List, [], ◌∷◌, ◌++◌, leb,
  get_elem?, if◌then◌else◌,
}

-- `LogLevel`, by its value: DEBUG is 0, ERROR 3, FATAL 4.
abbrev pub error_level : ℕ
error_level = 3

pub record LogEvent : Type 0 where
  pub level : ℕ
  pub content : List ℕ
  pub time_str : List ℕ

-- The appenders of `Init`, in the order in which it adds them.
pub data Appender : Type 0 where
  console_appender file_appender error_appender : Appender

-- `callers` are the events whose callers found the logger running, `current` is the event that
-- `LogLoop` has popped and not yet given to every appender, with the appender whose turn it is, and
-- `exited` whether it has ended. `pushed` are the events in the order in which they were queued;
-- `console`, `file` and `errors` are what the three appenders wrote, and `dropped` is what
-- `Shutdown` popped.
pub record Logger : Type 0 where
  pub min_level : ℕ
  pub is_running : Bool
  pub log_queue : List LogEvent
  pub callers : List LogEvent
  pub current : Option (LogEvent × Appender)
  pub exited : Bool
  pub pushed : List LogEvent
  pub console : List LogEvent
  pub file : List LogEvent
  pub errors : List LogEvent
  pub dropped : List LogEvent

-- `Init`.
abbrev pub init : ℕ → Logger
init min_level = record {
  min_level = min_level;
  is_running = true;
  log_queue = [];
  callers = [];
  current = none;
  exited = false;
  pushed = [];
  console = [];
  file = [];
  errors = [];
  dropped = [];
}

-- The tests of `Debug`, `Info`, `Warn`, `Error` and `Fatal`.
unfoldable pub begin_write : LogEvent → Logger → Logger
begin_write e l =
    if l.is_running && leb l.min_level e.level
    then record l { callers = l.callers ++ (e ∷ []) }
    else l

unfoldable pub without : ℕ → List LogEvent → List LogEvent
without i [] = []
without zero (e ∷ es) = es
without (suc i) (e ∷ es) = e ∷ without i es

-- Their region under the mutex, of one of the callers.
unfoldable pub end_write : ℕ → Logger → Logger
unfolding without
end_write i l = elim (get_elem? l.callers i) [
  | none ↦ l
  | some e ↦ record l {
    callers = without i l.callers;
    log_queue = l.log_queue ++ (e ∷ []);
    pushed = l.pushed ++ (e ∷ []);
  }
]

-- What the error appender keeps.
abbrev pub is_error : LogEvent → Bool
is_error e = leb error_level e.level

-- `Append` of one appender, with the lock released, on the event that was popped.
unfoldable pub append_event : Appender → LogEvent → Logger → Logger
append_event console_appender e l = record l {
  current = some (e, file_appender);
  console = l.console ++ (e ∷ []);
}
append_event file_appender e l = record l {
  current = some (e, error_appender);
  file = l.file ++ (e ∷ []);
}
append_event error_appender e l = record l {
  current = none;
  errors = if is_error e then l.errors ++ (e ∷ []) else l.errors;
}

-- `LogLoop` under the mutex: it pops an event, ends, or waits.
unfoldable pub take_event : List LogEvent → Logger → Logger
take_event [] l = if l.is_running then l else record l { exited = true }
take_event (e ∷ es) l = record l { log_queue = es; current = some (e, console_appender) }

abbrev pub loop_turn : Option (LogEvent × Appender) → Logger → Logger
loop_turn none l = take_event l.log_queue l
loop_turn (some (e, appender)) l = append_event appender e l

-- A step of `LogLoop`: it takes an event, or gives it to the next appender.
unfoldable pub log_loop : Logger → Logger
log_loop l = if l.exited then l else loop_turn l.current l

-- `Shutdown`: the flag, and, when the thread was joined, what is left of the queue.
unfoldable pub stop_logging : Logger → Logger
stop_logging l = record l { is_running = false }

unfoldable pub clear_queue : Logger → Logger
clear_queue l =
    if not l.is_running && l.exited
    then record l { log_queue = []; dropped = l.dropped ++ l.log_queue }
    else l

unfoldable pub set_min_level : ℕ → Logger → Logger
set_min_level level l = record l { min_level = level }
