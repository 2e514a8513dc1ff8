-- ===== src/Poller/Agreement.antt =====
-- include/poller.h: what any poller watches after a sequence of calls; so the Linux and the Windows
-- poller agree.
use cpp_reactor_framework.Prelude.{
  ℕ, ◌≡◌, refl, sym, ap, ◌∙◌, Option, none, List, [], ◌∷◌, ◌==◌, if◌then◌else◌,
}
use cpp_reactor_framework.Channel.{Events, Channel}
use cpp_reactor_framework.Poller.{Poller, wanted}
use cpp_reactor_framework.Poller.Epoll
use cpp_reactor_framework.Poller.WsPoll
use cpp_reactor_framework.Poller.WsPoll.Index
use cpp_reactor_framework.Poller.WsPoll.Watching

-- A call of the event loop.
pub data Call : Type 0 where
  updates removes : Channel → Call

-- The same call on a map of what is watched.
abbrev pub spec_call : Call → (ℕ → Option Events) → ℕ → Option Events
spec_call (updates c) m fd = if fd == c.fd then wanted c.events else m fd
spec_call (removes c) m fd = if fd == c.fd then none else m fd

unfoldable pub spec_run : List Call → (ℕ → Option Events) → ℕ → Option Events
spec_run [] m = m
spec_run (call ∷ calls) m = spec_run calls (spec_call call m)

module _ (P : Poller) where
  abbrev pub do_call : Call → P.State → P.State
  do_call (updates c) s = (P.update_channel s c).0
  do_call (removes c) s = (P.remove_channel s c).0

  unfoldable pub run : List Call → P.State → P.State
  run [] s = s
  run (call ∷ calls) s = run calls (do_call call s)

  do_call-IsValid : (call : Call) (s : P.State) → P.IsValid s → P.IsValid (do_call call s)
  do_call-IsValid (updates c) s v = P.update-IsValid s c v
  do_call-IsValid (removes c) s v = P.remove-IsValid s c v

  pub run-watched :
      (calls : List Call) (s : P.State) (m : ℕ → Option Events)
      → P.IsValid s
      → ((fd : ℕ) → P.watched s fd ≡ m fd)
      → (fd : ℕ) → P.watched (run calls s) fd ≡ spec_run calls m fd
  unfolding run spec_run
  run-watched [] s m v same fd = same fd
  run-watched (call ∷ calls) s m v same fd =
      run-watched calls (do_call call s) (spec_call call m) (do_call-IsValid call s v) (after call)
        fd
    where
      after : (call : Call) (fd : ℕ) → P.watched (do_call call s) fd ≡ spec_call call m fd
      after (updates c) fd =
          P.watched-update s c fd v ∙ ap (λ w. if fd == c.fd then wanted c.events else w) (same fd)
      after (removes c) fd =
          P.watched-remove s c fd v ∙ ap (λ w. if fd == c.fd then none else w) (same fd)

-- After the same calls of `UpdateChannel` and `RemoveChannel` on new pollers, the Linux and the
-- Windows poller watch every descriptor for the same events.
pub pollers_agree :
    (calls : List Call) (fd : ℕ)
    → Epoll.watched (run Epoll.poller calls Epoll.new) fd
      ≡ WsPoll.watched (run Watching.poller calls WsPoll.new) fd
pollers_agree calls fd =
    run-watched Epoll.poller calls Epoll.new (λ g. none) Epoll.new-IsValid
      (λ g. unfold Epoll.interest in refl) fd
    ∙ sym (
        run-watched Watching.poller calls WsPoll.new (λ g. none) Index.new-IsValid
          (λ g. unfold WsPoll.watched_in in refl) fd)
