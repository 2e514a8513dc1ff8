-- ===== src/EventLoop/Lifecycle/Wakeup.antt =====
-- src/eventloop.cpp: the eventfd of a loop.
use cpp_reactor_framework.Prelude.{
  ℕ, ◌≡◌, refl, sym, ap, ◌∙◌, Bool, true, false, List, [], ◌∷◌, none, some, Result, ok, ◌>>=◌,
  arith, ◌==◌, if◌then◌else◌, if_true, if_false, subst,
}
use cpp_reactor_framework.Channel
use cpp_reactor_framework.Channel.{Channel, Events}
use cpp_reactor_framework.Poller.{Poller, is_some, wanted}
use cpp_reactor_framework.EventLoop.Lifecycle.{
  LoopThread, ChannelUse, updates, removes, use_all, update_loop_channel, remove_loop_channel,
  is_in_loop_thread, construct, release, start_thread, create_wakeup_pair,
}
use cpp_reactor_framework.TcpConnection.Invariant.{Link, Link-retuned}

module _ (P : Poller) where
  -- What a loop has of its eventfd `efd` between its constructor and its destructor.
  record Woken (efd worker caller : ℕ) (l : LoopThread P) : Type 0 where
    own : l.worker ≡ worker
    here : l.thread_id ≡ caller
    unclosed : l.closed ≡ []
    link : Link P l.poller l.wakeup_channel
    channel_fd : l.wakeup_channel.fd ≡ efd
    reading : l.wakeup_channel.events ≡ record { reading = true; writing = false }
    read_fd : l.wakeup_fd ≡ efd
    write_fd : l.wakeup_write_fd ≡ efd

  construct-Woken :
      (auto_start : Bool) (creator worker efd : ℕ) (poller : P.State)
      → P.IsValid poller
      → P.watched poller efd ≡ none
      → Woken efd worker creator (construct P auto_start creator worker efd poller)
  unfolding construct create_wakeup_pair Channel.new
  construct-Woken auto_start creator worker efd poller valid unwatched =
      let fresh : Channel = record (Channel.new efd) { has_read_callback = true } in
      let e : Events = record { reading = true; writing = false } in
      let link : Link P poller fresh = record {
        valid = valid;
        added = sym (ap is_some unwatched);
        watching = unwatched;
      } in
      let same = P.channel-update poller (record fresh { events = e }) valid link.added in
      record {
        own = refl;
        here = refl;
        unclosed = refl;
        link = subst (Link P _) (sym same) (Link-retuned P poller fresh e link);
        channel_fd = ap (λ c. c.fd) same;
        reading = ap (λ c. c.events) same;
        read_fd = refl;
        write_fd = refl;
      }

  on_loop :
      (efd worker caller : ℕ) (l : LoopThread P)
      → Woken efd worker caller l
      → (l.thread_id == caller) ≡ true
  on_loop efd worker caller l w = ground (arith, w.here)

  -- Channels of other descriptors.
  abbrev pub Others : ℕ → List (ChannelUse P) → Type 0
  Others efd [] = Unit {0}
  Others efd (updates ch ∷ us) = ((efd == ch.fd) ≡ false) × Others efd us
  Others efd (removes ch ∷ us) = ((efd == ch.fd) ≡ false) × Others efd us

  moved-Woken :
      (efd worker caller : ℕ) (l : LoopThread P) (p : P.State)
      → Woken efd worker caller l
      → P.IsValid p
      → P.watched p efd ≡ P.watched l.poller efd
      → Woken efd worker caller (record l { poller = p })
  moved-Woken efd worker caller l p w valid same =
      let same' : P.watched p l.wakeup_channel.fd ≡ P.watched l.poller l.wakeup_channel.fd =
        rw w.channel_fd same in
      record {
        own = w.own;
        here = w.here;
        unclosed = w.unclosed;
        link = record {
          valid = valid;
          added = w.link.added ∙ ap is_some (sym same');
          watching = same' ∙ w.link.watching;
        };
        channel_fd = w.channel_fd;
        reading = w.reading;
        read_fd = w.read_fd;
        write_fd = w.write_fd;
      }

  use_all-Woken :
      (efd worker caller : ℕ) (us : List (ChannelUse P)) (l : LoopThread P)
      → Woken efd worker caller l
      → Others efd us
      → (l' : LoopThread P) × (use_all P caller us l ≡ ok l') × Woken efd worker caller l'
  unfolding use_all update_loop_channel remove_loop_channel is_in_loop_thread
  use_all-Woken efd worker caller [] l w others = (l, refl, w)
  use_all-Woken efd worker caller (updates ch ∷ us) l w others =
      let p = (P.update_channel l.poller ch).0 in
      let kept =
        moved-Woken efd worker caller l p w (P.update-IsValid l.poller ch w.link.valid)
          (P.watched-update l.poller ch efd w.link.valid ∙ if_false _ _ (efd == ch.fd) others.0) in
      let (l', ran, w') =
        use_all-Woken efd worker caller us (record l { poller = p }) kept others.1 in
      (l', rw (on_loop efd worker caller l w) ran, w')
  use_all-Woken efd worker caller (removes ch ∷ us) l w others =
      let p = (P.remove_channel l.poller ch).0 in
      let kept =
        moved-Woken efd worker caller l p w (P.remove-IsValid l.poller ch w.link.valid)
          (P.watched-remove l.poller ch efd w.link.valid ∙ if_false _ _ (efd == ch.fd) others.0) in
      let (l', ran, w') =
        use_all-Woken efd worker caller us (record l { poller = p }) kept others.1 in
      (l', rw (on_loop efd worker caller l w) ran, w')

  release-Woken :
      (efd worker caller : ℕ) (l : LoopThread P)
      → Woken efd worker caller l
      → ((release P l).closed ≡ efd ∷ [])
        × ((fd : ℕ)
            → P.watched (release P l).poller fd
              ≡ (if fd == efd then none else P.watched l.poller fd))
  unfolding release
  release-Woken efd worker caller l w = (
    ground (arith, added),
    λ fd.
        ap (λ (r : LoopThread P). P.watched r.poller fd)
          (if_true (record l { poller = p; wakeup_channel = Channel.set_added ch false }) l
            l.wakeup_channel.added added)
        ∙ (P.watched-remove l.poller l.wakeup_channel fd w.link.valid
            ∙ ap (λ n. if fd == n then none else P.watched l.poller fd) w.channel_fd),
  )
    where
      p : P.State
      p = (P.remove_channel l.poller l.wakeup_channel).0

      ch : Channel
      ch = (P.remove_channel l.poller l.wakeup_channel).1

      added : l.wakeup_channel.added ≡ true
      added = w.link.added ∙ (ap is_some w.link.watching ∙ ap (λ e. is_some (wanted e)) w.reading)

  start_thread-Woken :
      (efd worker caller : ℕ) (l : LoopThread P)
      → Woken efd worker caller l
      → Woken efd worker worker (start_thread P l)
  unfolding start_thread
  start_thread-Woken efd worker caller l w = record {
    own = w.own;
    here = w.own;
    unclosed = w.unclosed;
    link = w.link;
    channel_fd = w.channel_fd;
    reading = w.reading;
    read_fd = w.read_fd;
    write_fd = w.write_fd;
  }

  -- What a loop does with its channels: first on the thread that constructed it, and then on the
  -- thread that runs `Loop`, which is its own if it started one.
  abbrev pub use_on_threads :
      Bool
      → ℕ
      → ℕ
      → List (ChannelUse P)
      → List (ChannelUse P)
      → LoopThread P
      → Result (LoopThread P)
  use_on_threads auto_start creator worker before after l = use_all P creator before l >>= λ l.
      if auto_start then use_all P worker after (start_thread P l) else use_all P creator after l

  use_on_threads-Woken :
      (auto_start : Bool) (efd creator worker : ℕ) (before after : List (ChannelUse P))
      (l : LoopThread P)
      → Woken efd worker creator l
      → Others efd before
      → Others efd after
      → (l' : LoopThread P) × (use_on_threads auto_start creator worker before after l ≡ ok l')
        × Woken efd worker (if auto_start then worker else creator) l'
  use_on_threads-Woken true efd creator worker before after l w others others' =
      let (k, ran, v) = use_all-Woken efd worker creator before l w others in
      let (l', rest, u) =
        use_all-Woken efd worker worker after (start_thread P k)
          (start_thread-Woken efd worker creator k v) others' in
      (l', ap (λ r. r >>= λ l. use_all P worker after (start_thread P l)) ran ∙ rest, u)
  use_on_threads-Woken false efd creator worker before after l w others others' =
      let (k, ran, v) = use_all-Woken efd worker creator before l w others in
      let (l', rest, u) = use_all-Woken efd worker creator after k v others' in
      (l', ap (λ r. r >>= use_all P creator after) ran ∙ rest, u)

  -- A loop on a poller in order that did not watch the new eventfd can be woken all its life:
  -- after any updates and removals of other descriptors' channels, first by the thread that
  -- constructed it and then by the thread that runs `Loop` (its own, once that has set its id, if
  -- it started one), none of which fails, the poller watches the eventfd for reading; what follows
  -- the join closes it exactly once and takes it, and nothing else, from the poller.
  pub eventfd_watched :
      (auto_start : Bool) (creator worker efd : ℕ) (poller : P.State)
      (before after : List (ChannelUse P))
      → P.IsValid poller
      → P.watched poller efd ≡ none
      → Others efd before
      → Others efd after
      → (l : LoopThread P) × (use_on_threads auto_start creator worker before after
            (construct P auto_start creator worker efd poller)
          ≡ ok l)
        × (P.watched l.poller efd ≡ some (record { reading = true; writing = false }))
        × ((release P l).closed ≡ efd ∷ [])
        × ((fd : ℕ)
            → P.watched (release P l).poller fd
              ≡ (if fd == efd then none else P.watched l.poller fd))
  eventfd_watched auto_start creator worker efd poller before after valid unwatched others others' =
      let start = construct-Woken auto_start creator worker efd poller valid unwatched in
      let (l, ran, w) =
        use_on_threads-Woken auto_start efd creator worker before after _ start others others' in
      let (closed, left) = release-Woken efd worker (if auto_start then worker else creator) l w in
      (
        l,
        ran,
        ap (P.watched l.poller) (sym w.channel_fd) ∙ (w.link.watching ∙ ap wanted w.reading),
        closed,
        left,
      )
