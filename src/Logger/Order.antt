-- ===== src/Logger/Order.antt =====
-- src/logger.cpp: the order of the events, under every interleaving of the threads.
use cpp_reactor_framework.Prelude.{
  ℕ, ◌≡◌, refl, sym, ap, ap₂, ◌∙◌, true, false, not, ◌&&◌, Option, none, some, List, [], ◌∷◌, ◌++◌,
  append-nil, append_assoc, leb, if◌then◌else◌, arith, if_elim, get_elem?,
}
use cpp_reactor_framework.Logger.{
  LogEvent, Appender, console_appender, file_appender, error_appender, Logger, init, begin_write,
  without, end_write, is_error, append_event, take_event, loop_turn, log_loop, stop_logging,
  clear_queue, set_min_level,
}

pub data LogStep : Type 0 where
  begins : LogEvent → LogStep
  ends : ℕ → LogStep
  sets_min_level : ℕ → LogStep
  loops stops clears : LogStep

unfoldable pub log_step : LogStep → Logger → Logger
log_step (begins e) l = begin_write e l
log_step (ends i) l = end_write i l
log_step (sets_min_level level) l = set_min_level level l
log_step loops l = log_loop l
log_step stops l = stop_logging l
log_step clears l = clear_queue l

unfoldable pub log_run : List LogStep → Logger → Logger
log_run [] l = l
log_run (s ∷ ss) l = log_run ss (log_step s l)

-- The event that was taken, and that the console appender did not get yet.
abbrev pub console_lacks : Option (LogEvent × Appender) → List LogEvent
console_lacks none = []
console_lacks (some (e, console_appender)) = e ∷ []
console_lacks (some (e, file_appender)) = []
console_lacks (some (e, error_appender)) = []

-- The event that the console appender got, and the file appender did not get yet.
abbrev pub file_lacks : Option (LogEvent × Appender) → List LogEvent
file_lacks none = []
file_lacks (some (e, console_appender)) = []
file_lacks (some (e, file_appender)) = e ∷ []
file_lacks (some (e, error_appender)) = []

-- The event that the console appender got, and the error appender did not get yet.
abbrev pub errors_lack : Option (LogEvent × Appender) → List LogEvent
errors_lack none = []
errors_lack (some (e, console_appender)) = []
errors_lack (some (e, file_appender)) = e ∷ []
errors_lack (some (e, error_appender)) = e ∷ []

-- The events that the error appender keeps.
abbrev pub errors_of : List LogEvent → List LogEvent
errors_of [] = []
errors_of (e ∷ es) = if is_error e then e ∷ errors_of es else errors_of es

errors_of-append : (xs ys : List LogEvent) → errors_of (xs ++ ys) ≡ errors_of xs ++ errors_of ys
errors_of-append [] ys = refl
errors_of-append (x ∷ xs) ys = ground (arith, errors_of-append xs ys)

record IsOrderly (l : Logger) : Type 0 where
  all : l.pushed ≡ l.console ++ (console_lacks l.current ++ (l.dropped ++ l.log_queue))
  same : l.console ≡ l.file ++ file_lacks l.current
  errors : errors_of l.console ≡ l.errors ++ errors_of (errors_lack l.current)
  kept : l.exited ≡ false → l.dropped ≡ []
  idle : l.exited ≡ true → l.current ≡ none

init-IsOrderly : (level : ℕ) → IsOrderly (init level)
init-IsOrderly level = record {
  all = refl;
  same = refl;
  errors = refl;
  kept = λ h. refl;
  idle = λ h. refl;
}

append_last :
    (hs bs cs ds es : List LogEvent)
    → (hs ++ (bs ++ (cs ++ ds))) ++ es ≡ hs ++ (bs ++ (cs ++ (ds ++ es)))
append_last hs bs cs ds es =
    append_assoc hs (bs ++ (cs ++ ds)) es
    ∙ ap (λ r. hs ++ r) (append_assoc bs (cs ++ ds) es ∙ ap (λ r. bs ++ r) (append_assoc cs ds es))

end_write-IsOrderly : (i : ℕ) (l : Logger) → IsOrderly l → IsOrderly (end_write i l)
unfolding end_write
end_write-IsOrderly i l v =
    elim (get_elem? l.callers i)
      as (λ o. IsOrderly (elim o [
        | none ↦ l
        | some e ↦ record l {
          callers = without i l.callers;
          log_queue = l.log_queue ++ (e ∷ []);
          pushed = l.pushed ++ (e ∷ []);
        }
      ])) [
        | none ↦ v
        | some e ↦ record {
          all =
              ap (λ es. es ++ (e ∷ [])) v.all
              ∙ append_last l.console (console_lacks l.current) l.dropped l.log_queue (e ∷ []);
          same = v.same;
          errors = v.errors;
          kept = v.kept;
          idle = v.idle;
        }
      ]

append_event-IsOrderly :
    (appender : Appender) (e : LogEvent) (l : Logger)
    → l.current ≡ some (e, appender)
    → l.exited ≡ false
    → IsOrderly l
    → IsOrderly (append_event appender e l)
unfolding append_event
append_event-IsOrderly console_appender e l here going v = record {
  all =
      v.all
      ∙ ap (λ o. l.console ++ (console_lacks o ++ (l.dropped ++ l.log_queue))) here
      ∙ sym (append_assoc l.console (e ∷ []) (l.dropped ++ l.log_queue));
  same =
      ap (λ es. es ++ (e ∷ []))
        (v.same ∙ ap (λ o. l.file ++ file_lacks o) here ∙ append-nil l.file);
  errors =
      errors_of-append l.console (e ∷ [])
      ∙ ap (λ es. es ++ errors_of (e ∷ []))
          (v.errors ∙ ap (λ o. l.errors ++ errors_of (errors_lack o)) here ∙ append-nil l.errors);
  kept = v.kept;
  idle = λ h. absurd (ground (arith, h, going));
}
append_event-IsOrderly file_appender e l here going v = record {
  all = v.all ∙ ap (λ o. l.console ++ (console_lacks o ++ (l.dropped ++ l.log_queue))) here;
  same = v.same ∙ ap (λ o. l.file ++ file_lacks o) here ∙ sym (append-nil (l.file ++ (e ∷ [])));
  errors = v.errors ∙ ap (λ o. l.errors ++ errors_of (errors_lack o)) here;
  kept = v.kept;
  idle = λ h. absurd (ground (arith, h, going));
}
append_event-IsOrderly error_appender e l here going v = record {
  all = v.all ∙ ap (λ o. l.console ++ (console_lacks o ++ (l.dropped ++ l.log_queue))) here;
  same = v.same ∙ ap (λ o. l.file ++ file_lacks o) here;
  errors =
      v.errors
      ∙ ap (λ o. l.errors ++ errors_of (errors_lack o)) here
      ∙ ground (arith, append-nil l.errors, append-nil (l.errors ++ (e ∷ [])));
  kept = v.kept;
  idle = λ h. refl;
}

take_event-IsOrderly :
    (es : List LogEvent) (l : Logger)
    → l.log_queue ≡ es
    → l.current ≡ none
    → l.exited ≡ false
    → IsOrderly l
    → IsOrderly (take_event es l)
unfolding take_event
take_event-IsOrderly [] l queue free going v =
    if_elim IsOrderly l.is_running (λ h. v)
      (λ h. record {
        all = v.all;
        same = v.same;
        errors = v.errors;
        kept = λ k. cc;
        idle = λ k. free;
      })
take_event-IsOrderly (e ∷ es) l queue free going v = record {
  all =
      v.all
      ∙ ap (λ o. l.console ++ (console_lacks o ++ (l.dropped ++ l.log_queue))) free
      ∙ ap₂ (λ ds qs. l.console ++ (ds ++ qs)) (v.kept going) queue
      ∙ ap (λ ds. l.console ++ (e ∷ (ds ++ es))) (sym (v.kept going));
  same = v.same ∙ ap (λ o. l.file ++ file_lacks o) free;
  errors = v.errors ∙ ap (λ o. l.errors ++ errors_of (errors_lack o)) free;
  kept = v.kept;
  idle = λ h. absurd (ground (arith, h, going));
}

loop_turn-IsOrderly :
    (o : Option (LogEvent × Appender)) (l : Logger)
    → l.current ≡ o
    → l.exited ≡ false
    → IsOrderly l
    → IsOrderly (loop_turn o l)
loop_turn-IsOrderly none l free going v = take_event-IsOrderly l.log_queue l refl free going v
loop_turn-IsOrderly (some (e, appender)) l here going v =
    append_event-IsOrderly appender e l here going v

log_loop-IsOrderly : (l : Logger) → IsOrderly l → IsOrderly (log_loop l)
unfolding log_loop
log_loop-IsOrderly l v =
    if_elim IsOrderly l.exited (λ h. v) (λ going. loop_turn-IsOrderly l.current l refl going v)

clear_queue-IsOrderly : (l : Logger) → IsOrderly l → IsOrderly (clear_queue l)
unfolding clear_queue
clear_queue-IsOrderly l v =
    if_elim IsOrderly (not l.is_running && l.exited)
      (λ h. record {
        all =
            v.all
            ∙ ap (λ ds. l.console ++ (console_lacks l.current ++ ds))
                (sym (append-nil (l.dropped ++ l.log_queue)));
        same = v.same;
        errors = v.errors;
        kept = λ going. absurd (ground (arith, h, going));
        idle = v.idle;
      })
      (λ h. v)

begin_write-IsOrderly : (e : LogEvent) (l : Logger) → IsOrderly l → IsOrderly (begin_write e l)
unfolding begin_write
begin_write-IsOrderly e l v =
    if_elim IsOrderly (l.is_running && leb l.min_level e.level)
      (λ h. record { all = v.all; same = v.same; errors = v.errors; kept = v.kept; idle = v.idle })
      (λ h. v)

log_step-IsOrderly : (s : LogStep) (l : Logger) → IsOrderly l → IsOrderly (log_step s l)
unfolding log_step stop_logging set_min_level
log_step-IsOrderly (begins e) l v = begin_write-IsOrderly e l v
log_step-IsOrderly (ends i) l v = end_write-IsOrderly i l v
log_step-IsOrderly (sets_min_level level) l v = record {
  all = v.all;
  same = v.same;
  errors = v.errors;
  kept = v.kept;
  idle = v.idle;
}
log_step-IsOrderly loops l v = log_loop-IsOrderly l v
log_step-IsOrderly stops l v = record {
  all = v.all;
  same = v.same;
  errors = v.errors;
  kept = v.kept;
  idle = v.idle;
}
log_step-IsOrderly clears l v = clear_queue-IsOrderly l v

log_run-IsOrderly : (ss : List LogStep) (l : Logger) → IsOrderly l → IsOrderly (log_run ss l)
unfolding log_run
log_run-IsOrderly [] l v = v
log_run-IsOrderly (s ∷ ss) l v = log_run-IsOrderly ss (log_step s l) (log_step-IsOrderly s l v)

-- From `Init` on, whatever the threads do and at any moment, also between the calls of two
-- appenders: the events in the order in which they were queued are those that the console appender
-- was given, then the one that is taken and that it still lacks, then those that `Shutdown`
-- dropped, then those that wait; the file appender was given the same events as the console but
-- for the one that was not yet passed on to it, the error appender wrote those of them from ERROR
-- on, but for the one that was not yet passed on to it; and nothing is dropped while the thread of
-- the log runs.
pub log_run_ordered :
    (level : ℕ) (ss : List LogStep)
    → ((log_run ss (init level)).pushed
        ≡ (log_run ss (init level)).console
          ++ (console_lacks (log_run ss (init level)).current
              ++ ((log_run ss (init level)).dropped ++ (log_run ss (init level)).log_queue)))
      × ((log_run ss (init level)).console
          ≡ (log_run ss (init level)).file ++ file_lacks (log_run ss (init level)).current)
      × (errors_of (log_run ss (init level)).console
          ≡ (log_run ss (init level)).errors
            ++ errors_of (errors_lack (log_run ss (init level)).current))
      × ((if (log_run ss (init level)).exited then [] else (log_run ss (init level)).dropped) ≡ [])
log_run_ordered level ss =
    let v = log_run-IsOrderly ss (init level) (init-IsOrderly level) in
    (
      v.all,
      v.same,
      v.errors,
      if_elim (λ ds. ds ≡ []) (log_run ss (init level)).exited (λ h. refl) (λ h. v.kept h),
    )
