-- ===== src/Poller.antt =====
-- include/poller.h: what the event loop and the channels rely on in a poller. `update_channel` and
-- `remove_channel` are the virtual functions; `watched` is what the system is asked to watch.
pub mod Epoll
pub mod WsPoll
pub mod Agreement
use cpp_reactor_framework.Prelude.{
  ℕ, ◌==◌, Bool, true, false, Option, none, some, ◌≡◌, if◌then◌else◌,
}
use cpp_reactor_framework.Channel.{Events, Channel, has_no_events, set_added, none_event}

abbrev pub is_some {ℓ} : {A : Type ℓ} → Option A → Bool
is_some none = false
is_some (some a) = true

-- What a channel with these events wants the system to watch.
abbrev pub wanted : Events → Option Events
wanted e = if has_no_events e then none else some e

pub record Poller : Type 1 where
  pub State : Type 0
  pub watched : State → ℕ → Option Events
  pub update_channel : State → Channel → State × Channel
  pub remove_channel : State → Channel → State × Channel
  pub IsValid : State → Type 0
  pub update-IsValid : (s : State) (c : Channel) → IsValid s → IsValid (update_channel s c).0
  pub remove-IsValid : (s : State) (c : Channel) → IsValid s → IsValid (remove_channel s c).0
  pub watched-update :
      (s : State) (c : Channel) (fd : ℕ)
      → IsValid s
      → watched (update_channel s c).0 fd ≡ (if fd == c.fd then wanted c.events else watched s fd)
  pub watched-remove :
      (s : State) (c : Channel) (fd : ℕ)
      → IsValid s
      → watched (remove_channel s c).0 fd ≡ (if fd == c.fd then none else watched s fd)
  pub channel-update :
      (s : State) (c : Channel)
      → IsValid s
      → c.added ≡ is_some (watched s c.fd)
      → (update_channel s c).1 ≡ set_added c (is_some (wanted c.events))
  pub channel-remove :
      (s : State) (c : Channel)
      → IsValid s
      → c.added ≡ is_some (watched s c.fd)
      → (remove_channel s c).1 ≡ set_added c false
