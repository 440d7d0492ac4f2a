-- ===== src/Queue/Delayed.antt =====
-- The delayed queue: src/uscxml/interpreter/BasicDelayedEventQueue.cpp. Its timers are libevent's.
mod Timers
pub mod Laws
pub mod Window
pub mod Delivery
pub mod Delays
mod Tests
use uscxml.Prelude.{
  ℕ, ◌*◌, ◌/◌, ◌%◌, ◌^◌, Bool, true, false, if◌then◌else◌, Option, none, some, List, [], ◌∷◌, Text,
  find, put, erase,
}
use uscxml.Messages.{Event}

-- `timeval`: the seconds, as the two's complement of an `int32_t` or a count, and the microseconds
abbrev pub Timeval : Type 0
Timeval = ℕ × ℕ

-- What the queue calls of libevent, over a world of type `W`. A timer calls back with its key.
pub record Libevent (W : Type 0) : Type 0 where
  pub event_new : Text → W → ℕ × W
  pub event_add : ℕ → Timeval → W → W
  pub event_del : ℕ → W → W
  pub event_free : ℕ → W → W
  pub loop_break : W → W
  pub gettimeofday : W → Timeval × W
  pub timeradd : Timeval → Timeval → Timeval

-- `callbackData`; `event` is the handle of the timer. The key is `eventUUID`, and there is one queue.
pub record CallbackData : Type 0 where
  pub user_data : Event
  pub event : ℕ
  pub added : Timeval
  pub due : Timeval

-- The fields of the queue; `queue` is that of `BasicEventQueue`, and `thread` says whether there is one.
pub record Delayed (W : Type 0) : Type 0 where
  pub is_started : Bool
  pub thread : Bool
  pub callback_data : List (Text × CallbackData)
  pub queue : List Event
  pub world : W

-- `{static_cast<int32_t>(delayMs / 1000), static_cast<int32_t>((delayMs % 1000) * 1000)}`
unfoldable pub to_timeval : ℕ → Timeval
to_timeval delay_ms = ((delay_ms / 1000) % 2 ^ 32, delay_ms % 1000 * 1000)

module _ {W : Type 0} (lib : Libevent W) where
  unfoldable pub cancel_delayed : Text → Delayed W → Delayed W
  cancel_delayed event_id s = elim (find event_id s.callback_data) [
    | none ↦ s
    | some d ↦ record s {
      callback_data = erase event_id s.callback_data;
      world = lib.event_free d.event (lib.event_del d.event s.world);
    }
  ]

  unfoldable pub enqueue_delayed : Event → ℕ → Text → Delayed W → Delayed W
  enqueue_delayed e delay_ms uuid s0 =
      let s : Delayed W = elim (find uuid s0.callback_data) [
        | none ↦ s0
        | some d ↦ cancel_delayed uuid s0
      ] in
      let delay = to_timeval delay_ms in
      let (timer, w1) = lib.event_new uuid (s.world) in
      let (added, w2) = lib.gettimeofday w1 in
      record s {
        callback_data =
            put uuid
              (record {
                user_data = e;
                event = timer;
                added = added;
                due = lib.timeradd delay added;
              })
              (s.callback_data);
        world = lib.event_add timer delay w2;
      }

  -- `while(_callbackData.size() > 0)`: each round erases the first entry.
  unfoldable pub cancel_entries : List (Text × CallbackData) → W → W
  cancel_entries [] w = w
  cancel_entries ((k, d) ∷ m) w =
      cancel_entries m (lib.event_free d.event (lib.event_del d.event w))

  unfoldable pub cancel_all_delayed : Delayed W → Delayed W
  cancel_all_delayed s = record s {
    callback_data = [];
    world = cancel_entries s.callback_data s.world;
  }

  -- The part of `timerCallback` that runs under the first lock: the event that is due. The argument of the
  -- callback points to the entry of its key in the map; where there is no such entry any more, reading it is
  -- undefined, which is `none`.
  unfoldable pub begin_firing : Text → Delayed W → Option (Event × Delayed W)
  begin_firing uuid s = elim (find uuid s.callback_data) [
    | none ↦ none
    | some d ↦ some (d.user_data, record s { world = lib.event_free d.event s.world })
  ]

  -- The part under the second lock, which reads the queue and the key in the entry once more
  unfoldable pub end_firing : Text → Delayed W → Option (Delayed W)
  end_firing uuid s = elim (find uuid s.callback_data) [
    | none ↦ none
    | some d ↦ some (record s { callback_data = erase uuid s.callback_data })
  ]

  -- `timerCallback`, with what `eventReady` does between the locks to the state of which the queue is a part;
  -- `none` where something is undefined, or an exception leaves `eventReady`
  unfoldable pub timer_callback :
      {S : Type 0}
      → (S → Delayed W)
      → (Delayed W → S → S)
      → (Event → Text → S → Option S)
      → Text
      → S
      → Option S
  timer_callback queue_of with_queue event_ready uuid s = elim (begin_firing uuid (queue_of s)) [
    | none ↦ none
    | some p ↦ elim (event_ready (p.0) uuid (with_queue (p.1) s)) [
      | none ↦ none
      | some t ↦ elim (end_firing uuid (queue_of t)) [
        | none ↦ none
        | some q ↦ some (with_queue q t)
      ]
    ]
  ]

  unfoldable pub start : Delayed W → Delayed W
  start s = if s.is_started then s else record s { is_started = true; thread = true }

  -- `stop` returns when the thread has ended.
  unfoldable pub stop : Delayed W → Delayed W
  stop s =
      let s1 : Delayed W =
        if s.is_started
        then cancel_all_delayed (record s { is_started = false; world = lib.loop_break s.world })
        else s in
      if s1.thread then record s1 { thread = false } else s1

  unfoldable pub reset : Delayed W → Delayed W
  reset s = record (cancel_all_delayed s) { queue = [] }
