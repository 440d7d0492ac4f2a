-- ===== src/Session/Routes.antt =====
-- How a sent event reaches its IO processor.
use uscxml.Prelude.{
  ℕ, ◌==◌, ◌≡◌, ap, ◌∙◌, false, Option, none, some, Text, if◌then◌else◌, find, put, erase,
  find-put_same, erase-put,
}
use uscxml.Messages.{Event, is_empty}
use uscxml.Queue.Delayed.{Libevent, CallbackData, Delayed, enqueue_delayed, end_firing}
use uscxml.Queue.Delayed.Delivery.{freed}
use uscxml.Session.{
  Session, Plugins, Result, done, throws, aborts, error_platform, Target, scxml_event_processor,
  conclude, event_ready, send, returned,
}

module _ {W : Type 0} (plugins : Plugins W) where
  -- What the recommendation asks: the event goes to the processor for the type, by default the SCXML
  -- event processor, and it is an error if there is none.
  unfoldable pub route : Text → Text → Event → Session W → Result W
  route type target e s =
      elim (find (if is_empty type then scxml_event_processor else type) s.io_procs) [
        | none ↦ throws error_platform s
        | some p ↦ conclude (plugins.io_event p target e s)
      ]

  event_ready-route :
      (e : Event) (uuid : Text) (t : Target) (s : Session W)
      → find uuid s.delayed_event_targets ≡ some t
      → event_ready plugins e uuid s
        ≡ route
            (t.1)
            (t.2)
            e
            (record s { delayed_event_targets = erase uuid s.delayed_event_targets })
  unfolding event_ready route
  event_ready-route e uuid t s found = ap from found
    where
      from : Option Target → Result W
      from o = elim o [
        | none ↦ aborts
        | some t ↦
            let type = if is_empty (t.1) then scxml_event_processor else t.1 in
            let s1 = record s { delayed_event_targets = erase uuid s.delayed_event_targets } in
            elim (find type s.io_procs) [
              | none ↦ throws error_platform s1
              | some p ↦ conclude (plugins.io_event p (t.2) e s1)
            ]
      ]

  unfoldable pub registered : Text → Text → Event → Session W → Session W
  registered type target e s = record s {
    delayed_event_targets = put e.uuid (e.sendid, type, target) s.delayed_event_targets;
  }

  -- The target that `send` registers serves one delivery, and leaves no trace.
  event_ready-registered :
      (type target : Text) (e : Event) (s : Session W)
      → find e.uuid s.delayed_event_targets ≡ none
      → event_ready plugins e e.uuid (registered type target e s) ≡ route type target e s
  unfolding registered
  event_ready-registered type target e s fresh =
      event_ready-route e e.uuid (e.sendid, type, target) (registered type target e s)
        (find-put_same e.uuid (e.sendid, type, target) s.delayed_event_targets)
      ∙ ap (λ m. route type target e (record s { delayed_event_targets = m }))
          (erase-put e.uuid (e.sendid, type, target) s.delayed_event_targets fresh)

  unfoldable pub postponed : Libevent W → Text → Text → ℕ → Event → Session W → Session W
  postponed lib type target delay e s = record (registered type target e s) {
    delay_queue = enqueue_delayed lib e delay e.uuid s.delay_queue;
  }

  send-accepted :
      (lib : Libevent W) (type target : Text) (delay : ℕ) (e : Event) (s : Session W)
      → is_empty e.uuid ≡ false
      → find e.uuid s.delayed_event_targets ≡ none
      → send plugins lib type target delay e s ≡ (
          if delay == 0
          then event_ready plugins e e.uuid (registered type target e s)
          else done (postponed lib type target delay e s))
  unfolding send registered postponed
  send-accepted lib type target delay e s named fresh = λ i.
      if named i then aborts else elim (fresh i) as (λ _. Result W) [
        | some t ↦ aborts
        | none ↦
            if delay == 0
            then event_ready plugins e e.uuid (registered type target e s)
            else done (postponed lib type target delay e s)
      ]

  -- An event with a new `uuid` and no delay goes to its processor at once, and its registration
  -- leaves no trace.
  pub send-now :
      (lib : Libevent W) (type target : Text) (e : Event) (s : Session W)
      → is_empty e.uuid ≡ false
      → find e.uuid s.delayed_event_targets ≡ none
      → send plugins lib type target 0 e s ≡ route type target e s
  send-now lib type target e s named fresh =
      send-accepted lib type target 0 e s named fresh ∙ event_ready-registered type target e s fresh

  -- What the timer leaves when the delivery is over: the entry is erased, if it is still there.
  abbrev pub settled : Libevent W → Text → Result W → Option (Session W)
  settled lib uuid r = elim (returned plugins r) [
    | none ↦ none
    | some t ↦ elim (end_firing lib uuid t.delay_queue) [
      | none ↦ none
      | some q ↦ some (record t { delay_queue = q })
    ]
  ]

  -- The session between the locks: the timer is freed and the target is gone.
  abbrev pub between : Libevent W → Text → CallbackData → Session W → Session W
  between lib uuid d s = record s {
    delayed_event_targets = erase uuid s.delayed_event_targets;
    delay_queue = freed lib d s.delay_queue;
  }
