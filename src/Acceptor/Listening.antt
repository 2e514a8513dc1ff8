-- ===== src/Acceptor/Listening.antt =====
-- src/acceptor.cpp: the listening socket is watched exactly while the acceptor listens.
use cpp_reactor_framework.Prelude.{
  ℕ, ◌≡◌, refl, sym, ap, ◌∙◌, Bool, true, false, none, some, arith, if_elim, ◌==◌,
}
use cpp_reactor_framework.Channel
use cpp_reactor_framework.Channel.{Channel, Events}
use cpp_reactor_framework.Poller.{Poller, is_some, wanted}
use cpp_reactor_framework.Acceptor.{Acceptor, new, set_reading, listen, stop}

module _ (P : Poller) where
  abbrev pub on_or_off : Bool → Events
  on_or_off on = record { reading = on; writing = false }

  -- The poller is in order and watches the listening socket for input exactly while it listens.
  pub record IsValid (a : Acceptor P) : Type 0 where
    pub valid : P.IsValid a.poller
    pub events : a.listen_channel.events ≡ on_or_off a.is_listening
    pub added : a.listen_channel.added ≡ a.is_listening
    pub watching : P.watched a.poller a.listen_channel.fd ≡ wanted (on_or_off a.is_listening)

  same_fd : (n : ℕ) → (n == n) ≡ true
  same_fd n = ground arith

  added_if : (on : Bool) → is_some (wanted (on_or_off on)) ≡ on
  added_if true = refl
  added_if false = refl

  set_reading-IsValid :
      (on : Bool) (a : Acceptor P)
      → IsValid a
      → IsValid (record (set_reading P on a) { is_listening = on })
  unfolding set_reading
  set_reading-IsValid on a v = rw written (record {
    valid = P.update-IsValid a.poller asked v.valid;
    events = ap (λ ch. ch.events) channel;
    added = ap (λ ch. ch.added) channel ∙ added_if on;
    watching =
        ap (λ ch. P.watched (P.update_channel a.poller asked).0 ch.fd) channel
        ∙ (P.watched-update a.poller asked a.listen_channel.fd v.valid
            ∙ rw (same_fd a.listen_channel.fd) refl);
  })
    where
      asked : Channel
      asked = record (a.listen_channel) { events = on_or_off on }

      written :
          record (a.listen_channel) {
            events = record { reading = on; writing = a.listen_channel.events.writing };
          }
          ≡ asked
      written =
          ap
            (λ (w : Bool). record (a.listen_channel) {
              events = record { reading = on; writing = w };
            })
            (ap (λ e. e.writing) v.events)

      agree : a.listen_channel.added ≡ is_some (P.watched a.poller a.listen_channel.fd)
      agree = v.added ∙ (sym (added_if a.is_listening) ∙ ap is_some (sym v.watching))

      channel :
          (P.update_channel a.poller asked).1
          ≡ record asked { added = is_some (wanted (on_or_off on)) }
      channel = P.channel-update a.poller asked v.valid agree

  -- Stopping keeps an acceptor in order.
  pub listen-IsValid : (a : Acceptor P) → IsValid a → IsValid (listen P a)
  unfolding listen
  listen-IsValid a v = set_reading-IsValid true a v

  pub stop-IsValid : (a : Acceptor P) → IsValid a → IsValid (stop P a)
  unfolding stop
  stop-IsValid a v =
      if_elim IsValid a.is_listening (λ going. set_reading-IsValid false a v) (λ stopped. v)

  pub new-IsValid :
      (poller : P.State) (fd : ℕ) (has_callback : Bool)
      → P.IsValid poller
      → P.watched poller fd ≡ none
      → IsValid (new P poller fd has_callback)
  unfolding new Channel.new
  new-IsValid poller fd has_callback valid unwatched = record {
    valid = valid;
    events = refl;
    added = refl;
    watching = unwatched;
  }

  -- An acceptor in order that listens is watched for input, and not watched any more once it
  -- stops.
  pub listening_watched :
      (a : Acceptor P)
      → IsValid a
      → (P.watched (listen P a).poller (listen P a).listen_channel.fd ≡ some (on_or_off true))
        × (P.watched (stop P (listen P a)).poller (stop P (listen P a)).listen_channel.fd ≡ none)
  unfolding listen stop
  listening_watched a v =
      let up = set_reading-IsValid true a v in
      (up.watching, (set_reading-IsValid false _ up).watching)
