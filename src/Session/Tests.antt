-- ===== src/Session/Tests.antt =====
-- A session with one IO processor, which sends each event back to the session.
use uscxml.Prelude.{◌≡◌, refl, true, none, some, inr, [], ◌∷◌, codes, find, text_eq, erase}
use uscxml.Messages.{Event, new_event}
use uscxml.Queue.Delayed.{Libevent, CallbackData, timer_callback, begin_firing, end_firing}
use uscxml.Queue.Basic.{enqueue}
use uscxml.Session.{
  Session, Plugins, done, scxml_event_processor, enqueue_external, send, fall_due, returned,
  event_ready, cancel_sent,
}
use uscxml.Prelude.Maps.Sorted.{Sorted, Above}
use uscxml.Session.Routes.{route, send-now}
use uscxml.Session.Laws.{cancel_sent_drops, cancel_sent_keeps}

abbrev no_timers : Libevent (Unit {0})
no_timers = record {
  event_new = λ u w. (0, w);
  event_add = λ h t w. w;
  event_del = λ h w. w;
  event_free = λ h w. w;
  loop_break = λ w. w;
  gettimeofday = λ w. ((0, 0), w);
  timeradd = λ a b. a;
}

abbrev loop_back : Plugins (Unit {0})
loop_back = record {
  is_valid_target = λ p t. inr true;
  io_event = λ p t e s. (none, enqueue_external e s);
  create_invoker = λ t s. (inr 5, s);
  start_invoker = λ i src e s. (none, s);
  stop_invoker = λ i s. s;
  invoker_event = λ i e s. (none, s);
  set_event = λ e s. s;
  process = λ x s. (none, s);
  resolve = λ u. u;
  eval_as_bool = λ x s. (inr true, s);
}

abbrev ping : Event
ping = new_event (codes "u1")

abbrev session : Session (Unit {0})
session = record {
  delayed_event_targets = [];
  io_procs = (scxml_event_processor, 1) ∷ [];
  invokers = (codes "i", 5) ∷ [];
  finalize = (codes "i", none) ∷ [];
  auto_forwarders = (codes "i", tt) ∷ [];
  internal_queue = [];
  external_queue = [];
  parent_queue = none;
  delay_queue = record {
    is_started = true;
    thread = true;
    callback_data = [];
    queue = [];
    world = tt;
  };
  curr_event = ping;
}

abbrev entry : CallbackData
entry = record { user_data = ping; event = 3; added = (0, 0); due = (1, 0) }

abbrev waiting : Session (Unit {0})
waiting = record session {
  delayed_event_targets = (codes "u1", (codes "s", [], [])) ∷ [];
  delay_queue = record {
    is_started = true;
    thread = true;
    callback_data = (codes "u1", entry) ∷ [];
    queue = [];
    world = tt;
  };
}

send-now_example :
    send loop_back no_timers [] (codes "#_internal") 0 ping session
    ≡ route loop_back [] (codes "#_internal") ping session
unfolding find
send-now_example = send-now loop_back no_timers [] (codes "#_internal") ping session refl refl

-- The event comes back.
looped : route loop_back [] [] ping session ≡ done (enqueue_external ping session)
unfolding route find text_eq
looped = refl

-- The timer of `ping`, as `send` makes it
abbrev ping_entry : CallbackData
ping_entry = record { user_data = ping; event = 0; added = (0, 0); due = (0, 40000) }

-- A later session, in which the queue has another event
abbrev later : Session (Unit {0})
later = record session {
  delayed_event_targets = (codes "u1", ([], [], [])) ∷ [];
  delay_queue = record session.delay_queue { callback_data = (codes "u1", ping_entry) ∷ [] };
  external_queue = record ping { name = codes "tick" } ∷ [];
}

-- The event is behind the other one, and both tables are empty.
fall_due_delivers :
    fall_due loop_back no_timers (codes "u1") later
    ≡ some (record session { external_queue = record ping { name = codes "tick" } ∷ ping ∷ [] })
unfolding find fall_due timer_callback begin_firing text_eq returned event_ready end_firing
    enqueue_external erase enqueue
fall_due_delivers = refl

cancel_sent_drops_example :
    (find (codes "u1") (cancel_sent no_timers (codes "s") waiting).delayed_event_targets ≡ none)
    × (find (codes "u1") (cancel_sent no_timers (codes "s") waiting).delay_queue.callback_data
        ≡ none)
unfolding find text_eq Sorted Above
cancel_sent_drops_example =
    cancel_sent_drops no_timers (codes "s") (codes "u1") (codes "s", [], []) waiting (tt, tt) refl
      refl

cancel_sent_keeps_example :
    (find (codes "u1") (cancel_sent no_timers (codes "t") waiting).delayed_event_targets
      ≡ some (codes "s", [], []))
    × (find (codes "u1") (cancel_sent no_timers (codes "t") waiting).delay_queue.callback_data
        ≡ some entry)
unfolding find text_eq Sorted Above
cancel_sent_keeps_example =
    cancel_sent_keeps no_timers (codes "t") (codes "u1") (codes "s", [], []) waiting (tt, tt) refl
      refl

abbrev named : Event
named = record ping { name = codes "tick" }

abbrev loaded : Session (Unit {0})
loaded = record session { external_queue = named ∷ [] }
