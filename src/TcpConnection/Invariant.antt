-- ===== src/TcpConnection/Invariant.antt =====
-- src/tcpconnection.cpp: what holds of a connection between two calls.
use cpp_reactor_framework.Prelude.{
  ℕ, suc, ◌≤◌, ◌<◌, ◌≡◌, sym, ap, ◌∙◌, true, false, none, some, List, [], ◌∷◌, arith, ◌==◌,
  if◌then◌else◌, length,
}
use cpp_reactor_framework.Buffer.View
use cpp_reactor_framework.Buffer.View.{content}
use cpp_reactor_framework.Channel.{Channel, Events, none_event}
use cpp_reactor_framework.Poller.{Poller, is_some, wanted}
use cpp_reactor_framework.TcpConnection.{
  TcpConnection, Notice, close_callback, closed_socket, connection_callback, message_callback,
  write_complete_callback, high_water_mark_callback, sent, is_disconnected, is_open, set_events,
}
use cpp_reactor_framework.TcpConnection.Calls.{is_connecting}

-- How often the close callback was called, and the socket closed.
abbrev pub closes : List Notice → ℕ
closes [] = 0
closes (close_callback fd ∷ ns) = suc (closes ns)
closes (connection_callback ∷ ns) = closes ns
closes (message_callback ∷ ns) = closes ns
closes (write_complete_callback ∷ ns) = closes ns
closes (high_water_mark_callback n ∷ ns) = closes ns
closes (sent bytes ∷ ns) = closes ns
closes (closed_socket ∷ ns) = closes ns

abbrev pub socket_closes : List Notice → ℕ
socket_closes [] = 0
socket_closes (closed_socket ∷ ns) = suc (socket_closes ns)
socket_closes (close_callback fd ∷ ns) = socket_closes ns
socket_closes (connection_callback ∷ ns) = socket_closes ns
socket_closes (message_callback ∷ ns) = socket_closes ns
socket_closes (write_complete_callback ∷ ns) = socket_closes ns
socket_closes (high_water_mark_callback n ∷ ns) = socket_closes ns
socket_closes (sent bytes ∷ ns) = socket_closes ns

module _ (P : Poller) where
  -- The channel and the poller of its loop agree.
  pub record Link (p : P.State) (ch : Channel) : Type 0 where
    pub valid : P.IsValid p
    pub added : ch.added ≡ is_some (P.watched p ch.fd)
    pub watching : P.watched p ch.fd ≡ wanted ch.events

  pub record IsValid (c : TcpConnection P) : Type 0 where
    pub input : View.IsValid c.input_buffer
    pub output : View.IsValid c.output_buffer
    pub link : Link c.poller c.channel
    pub has_socket : is_disconnected P c ≡ false → c.socket ≡ some c.channel.fd
    pub no_socket : is_disconnected P c ≡ true → c.socket ≡ none
    pub reads : is_open P c ≡ true → c.channel.events.reading ≡ true
    pub writes :
        is_open P c ≡ true → 0 < length (content c.output_buffer) → c.channel.events.writing ≡ true
    pub pending : is_open P c ≡ true → c.pending_write_bytes ≡ length (content c.output_buffer)
    pub idle : is_open P c ≡ false → (c.channel.events ≡ none_event) × (c.pending_write_bytes ≡ 0)
    pub fresh : is_connecting P c ≡ true → length (content c.output_buffer) ≡ 0
    pub closes_once : closes c.notices ≤ 1
    pub not_yet_closed : is_disconnected P c ≡ false → closes c.notices ≡ 0
    pub closes_socket : socket_closes c.notices ≡ (if is_disconnected P c then 1 else 0)

  -- The connection after the loop's poller was told of new events.
  abbrev pub retuned : Events → TcpConnection P → TcpConnection P
  retuned e c = record c {
    poller = (P.update_channel c.poller (record channel { events = e })).0;
    channel = record channel { events = e; added = is_some (wanted e) };
  }
    where
      open c use {channel}

  module _ (p : P.State) (ch : Channel) (e : Events) (link : Link p ch) where
    retuned_channel :
        (P.update_channel p (record ch { events = e })).1
        ≡ record ch { events = e; added = is_some (wanted e) }
    retuned_channel = P.channel-update p (record ch { events = e }) link.valid link.added

    retuned_watched : P.watched (P.update_channel p (record ch { events = e })).0 ch.fd ≡ wanted e
    retuned_watched =
        P.watched-update p (record ch { events = e }) ch.fd link.valid
        ∙ ap (λ b. if b then wanted e else P.watched p ch.fd) (same ch.fd)
      where
        same : (n : ℕ) → (n == n) ≡ true
        same n = ground arith

    pub Link-retuned :
        Link
          (P.update_channel p (record ch { events = e })).0
          (record ch { events = e; added = is_some (wanted e) })
    Link-retuned = record {
      valid = P.update-IsValid p (record ch { events = e }) link.valid;
      added = sym (ap is_some retuned_watched);
      watching = retuned_watched;
    }

  pub set_events_lem :
      (e : Events) (c : TcpConnection P) → Link c.poller c.channel → set_events P e c ≡ retuned e c
  unfolding set_events
  set_events_lem e c link =
      ap
        (λ ch. record c {
          poller = (P.update_channel c.poller (record c.channel { events = e })).0;
          channel = ch;
        })
        (retuned_channel c.poller c.channel e link)
