-- ===== src/EventLoop/Lifecycle.antt =====
-- src/eventloop.cpp: a loop and its thread, from the constructor to the destructor, over any poller.
-- A thread is a number; what the loop's thread and the others do are steps in any order.
pub mod Flags
pub mod Ending
pub mod Wakeup
use cpp_reactor_framework.Prelude.{
  ℕ, Bool, true, false, not, Option, none, some, List, [], ◌∷◌, ◌++◌, Result, ok, ◌>>=◌, ◌>>◌,
  assert, ◌==◌, if◌then◌else◌,
}
use cpp_reactor_framework.Channel
use cpp_reactor_framework.Channel.{Channel}
use cpp_reactor_framework.Poller.{Poller}
use cpp_reactor_framework.EventLoop
use cpp_reactor_framework.EventLoop.{EventLoop, Action, run_in_loop}
use cpp_reactor_framework.EventLoop.Cycle.{Turn, turn, request_quit}

-- Where the thread that runs `Loop` stands: there is none, it was created, it has set `m_threadId`,
-- it is about to test `m_quit`, it is about to poll, or it has left `Loop`.
pub data Phase : Type 0 where
  unstarted spawned entered testing polling ended : Phase

-- What happens to a loop: a step of its thread, `Quit` of a thread, or `RunInLoop` of a thread.
pub data Life : Type 0 where
  advances : Turn → Life
  quits_by : ℕ → Life
  runs_by : ℕ → ℕ → Life

-- `CreateWakeupPair`: the end to read and the end to write are one eventfd.
unfoldable pub create_wakeup_pair : ℕ → ℕ × ℕ
create_wakeup_pair efd = (efd, efd)

module _ (P : Poller) where
  -- `worker` is the id of `m_thread`; `closed` are the descriptors that the destructor closed.
  pub record LoopThread : Type 0 where
    pub loop : EventLoop
    pub poller : P.State
    pub wakeup_fd : ℕ
    pub wakeup_write_fd : ℕ
    pub wakeup_channel : Channel
    pub thread_id : ℕ
    pub worker : ℕ
    pub joinable : Bool
    pub phase : Phase
    pub closed : List ℕ

  -- The channel of the wakeups, with `EnableReading` before it is registered.
  abbrev pub reading_channel : ℕ → Channel
  reading_channel fd = record (Channel.new fd) {
    has_read_callback = true;
    events = record { reading = true; writing = false };
  }

  -- The constructor, on the thread `creator`, with the poller that `CreatePoller` made.
  unfoldable pub construct : Bool → ℕ → ℕ → ℕ → P.State → LoopThread
  construct auto_start creator worker efd poller =
      let (read_fd, write_fd) = create_wakeup_pair efd in
      let (p, channel) = P.update_channel poller (reading_channel read_fd) in
      record {
        loop = EventLoop.new;
        poller = p;
        wakeup_fd = read_fd;
        wakeup_write_fd = write_fd;
        wakeup_channel = channel;
        thread_id = creator;
        worker = worker;
        joinable = auto_start;
        phase = if auto_start then spawned else unstarted;
        closed = [];
      }

  unfoldable pub is_in_loop_thread : ℕ → LoopThread → Bool
  is_in_loop_thread caller l = l.thread_id == caller

  unfoldable pub quit : ℕ → LoopThread → LoopThread
  quit caller l = record l { loop = request_quit (is_in_loop_thread caller l) l.loop }

  -- `UpdateChannel` and `RemoveChannel`, which abort on another thread.
  unfoldable pub update_loop_channel : ℕ → Channel → LoopThread → Result (LoopThread × Channel)
  update_loop_channel caller ch l =
      let (p, ch') = P.update_channel l.poller ch in
      assert (is_in_loop_thread caller l) >> ok (record l { poller = p }, ch')

  unfoldable pub remove_loop_channel : ℕ → Channel → LoopThread → Result (LoopThread × Channel)
  remove_loop_channel caller ch l =
      let (p, ch') = P.remove_channel l.poller ch in
      assert (is_in_loop_thread caller l) >> ok (record l { poller = p }, ch')

  -- What the channels of a loop make it do with its poller.
  pub data ChannelUse : Type 0 where
    updates removes : Channel → ChannelUse

  unfoldable pub use_all : ℕ → List ChannelUse → LoopThread → Result LoopThread
  use_all caller [] l = ok l
  use_all caller (updates ch ∷ us) l = do
    (l1, ch1) ← update_loop_channel caller ch l
    use_all caller us l1
  use_all caller (removes ch ∷ us) l = do
    (l1, ch1) ← remove_loop_channel caller ch l
    use_all caller us l1

  -- The destructor calls `Quit` first.
  unfoldable pub destroy_begins : ℕ → LoopThread → LoopThread
  destroy_begins caller l = quit caller l

  abbrev pub is_ended : LoopThread → Bool
  is_ended l = elim l.phase [ ended ↦ true | _ ↦ false ]

  -- What follows the join.
  unfoldable pub release : LoopThread → LoopThread
  release l = record removed {
    closed =
        (removed.wakeup_fd ∷ removed.closed)
        ++ (if removed.wakeup_write_fd == removed.wakeup_fd
            then []
            else removed.wakeup_write_fd ∷ []);
  }
    where
      removed : LoopThread
      removed =
          let (p, ch) = P.remove_channel l.poller l.wakeup_channel in
          if l.wakeup_channel.added
          then record l { poller = p; wakeup_channel = Channel.set_added ch false }
          else l

  -- The rest of the destructor: none while the join waits, and the loop's own thread aborts.
  unfoldable pub destroy_ends : ℕ → LoopThread → Result (Option LoopThread)
  destroy_ends caller l =
      if l.joinable
      then assert (not (caller == l.worker)) >> ok (if is_ended l then some (release l) else none)
      else ok (some (release l))

  -- The thread of a loop that starts itself, up to its call of `Loop`.
  unfoldable pub start_thread : LoopThread → LoopThread
  start_thread l = record l { thread_id = l.worker; phase = entered }

  module _ (script : ℕ → List Action) where
    -- `RunInLoop` of a thread: what it calls at once it calls on that thread.
    unfoldable pub run_in_loop_by : ℕ → ℕ → LoopThread → LoopThread
    run_in_loop_by caller cb l = record l {
      loop = run_in_loop script (is_in_loop_thread caller l) cb l.loop;
    }

    -- The next step of the loop's thread: it sets its id, it enters `Loop`, which clears `m_quit`, it
    -- tests `m_quit`, or it makes a turn.
    unfoldable pub advance : Turn → LoopThread → LoopThread
    advance t l = elim l.phase [
      | unstarted ↦ l
      | spawned ↦ start_thread l
      | entered ↦ record l { loop = record loop { quit = false }; phase = testing }
      | testing ↦ record l { phase = if l.loop.quit then ended else polling }
      | polling ↦ record l { loop = turn script t l.loop; phase = testing }
      | ended ↦ l
    ]
      where
        open l use {loop}

    -- `Loop` called on a thread, as main does for a loop without a thread of its own.
    unfoldable pub call_loop : ℕ → LoopThread → Result LoopThread
    call_loop caller l = assert (is_in_loop_thread caller l) >> ok (record l { phase = entered })

    unfoldable pub happen : Life → LoopThread → LoopThread
    happen (advances t) l = advance t l
    happen (quits_by caller) l = quit caller l
    happen (runs_by caller cb) l = run_in_loop_by caller cb l

    unfoldable pub happen_all : List Life → LoopThread → LoopThread
    happen_all [] l = l
    happen_all (e ∷ es) l = happen_all es (happen e l)
