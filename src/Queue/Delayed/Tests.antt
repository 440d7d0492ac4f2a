-- ===== src/Queue/Delayed/Tests.antt =====
-- The delayed queue over a heap of timers.
use uscxml.Prelude.{
  ℕ, suc, ◌≡◌, refl, Bool, true, false, not, ◌&&◌, ◌||◌, ltb, ◌==◌, [], codes, arith, find, put,
  erase, none, some, text_eq, ◌+◌, ◌*◌, ◌^◌, ◌<◌,
}
use uscxml.Messages.{new_event}
use uscxml.Queue.Delayed.{
  Libevent, CallbackData, Delayed, cancel_delayed, enqueue_delayed, cancel_all_delayed,
  begin_firing, end_firing, timer_callback, to_timeval,
}
use uscxml.Queue.Delayed.Timers.{Timers, IsSound, Sound}
use uscxml.Queue.Delayed.Delays.{to_timeval_exact}
use uscxml.Queue.Delayed.Delivery.{fire}
use uscxml.Queue.Delayed.Laws.{here, next, enqueues, fires, Reaches-IsSound}
use uscxml.Queue.Delayed.Window.{cancel_all_delayed-begin_firing}

-- The number of timers ever made, which of them were not freed, and whether there was a fault
record Heap : Type 0 where
  made : ℕ
  kept : ℕ → Bool
  fault : Bool

abbrev is_live : Heap → ℕ → Bool
is_live w x = ltb x w.made && w.kept x

abbrev use_timer : ℕ → Heap → Heap
use_timer h w = record w { fault = w.fault || not (is_live w h) }

abbrev heap : Libevent Heap
heap = record {
  event_new = λ u w. (w.made, record w { made = suc w.made; kept = λ x. x == w.made || w.kept x });
  event_add = λ h t w. use_timer h w;
  event_del = λ h w. use_timer h w;
  event_free = λ h w. record (use_timer h w) { kept = λ x. not (x == h) && w.kept x };
  loop_break = λ w. w;
  gettimeofday = λ w. ((7, 0), w);
  timeradd = λ a b. (a.0 + b.0, a.1 + b.1);
}

fresh_unused : (n : ℕ) (b : Bool) → (ltb n n && b) ≡ false
fresh_unused n b = ground arith

fresh_live : (n x : ℕ) (b : Bool) → (ltb x (suc n) && (x == n || b)) ≡ (x == n || (ltb x n && b))
fresh_live n x b = ground arith

freed_live : (a b c : Bool) → (a && (b && c)) ≡ (b && (a && c))
freed_live true b c = refl
freed_live false true c = refl
freed_live false false c = refl

abbrev heap_timers : Timers heap
heap_timers = record {
  live = is_live;
  faulty = λ w. Heap.fault w;
  new_unused = λ u w. fresh_unused w.made (w.kept w.made);
  new_live = λ u w x. fresh_live w.made x (w.kept x);
  add_live = λ h t w x. refl;
  del_live = λ h w x. refl;
  free_live = λ h w x. freed_live (ltb x w.made) (not (x == h)) (w.kept x);
  time_live = λ w x. refl;
  new_faulty = λ u w. refl;
  add_faulty = λ h t w. refl;
  del_faulty = λ h w. refl;
  free_faulty = λ h w. refl;
  time_faulty = λ w. refl;
}

abbrev idle : Delayed Heap
idle = record {
  is_started = true;
  thread = true;
  callback_data = [];
  queue = [];
  world = record { made = 0; kept = λ x. true; fault = false };
}

abbrev sent : Delayed Heap
sent = enqueue_delayed heap (new_event (codes "u")) 1500 (codes "u") idle

abbrev fired : Delayed Heap
fired = record sent {
  callback_data = [];
  world = record { made = 1; kept = λ x. not (x == 0) && (x == 0 || true); fault = false };
}

Reaches-IsSound_example : IsSound heap heap_timers fired
unfolding IsSound Sound timer_callback begin_firing find enqueue_delayed put text_eq end_firing
    erase
Reaches-IsSound_example =
    Reaches-IsSound heap heap_timers idle fired
      (next idle sent fired (enqueues (new_event (codes "u")) 1500 (codes "u") idle)
        (next sent fired fired (fires (codes "u") sent fired refl) (here fired)))
      (refl, tt)

abbrev due_entry : CallbackData
due_entry = record {
  user_data = new_event (codes "u");
  event = 0;
  added = (7, 0);
  due = (8, 500000);
}

cancel_all_delayed-begin_firing_example :
    (t : Delayed Heap) × ((begin_firing heap (codes "u") sent ≡ some (new_event (codes "u"), t))
      × (Heap.fault (Delayed.world (cancel_all_delayed heap t)) ≡ true))
unfolding enqueue_delayed put find to_timeval text_eq
cancel_all_delayed-begin_firing_example =
    cancel_all_delayed-begin_firing heap heap_timers (codes "u") due_entry sent refl

-- A timer whose entry was cancelled reads memory that is freed.
cancelled_unread : fire heap (codes "u") (cancel_delayed heap (codes "u") sent) ≡ none
unfolding timer_callback begin_firing cancel_delayed enqueue_delayed put find erase text_eq
cancelled_unread = refl

to_timeval_exact_example :
    ((to_timeval 4294967295).0 * 1000000 + (to_timeval 4294967295).1 ≡ 4294967295 * 1000)
    × ((to_timeval 4294967295).1 < 1000000)
    × ((to_timeval 4294967295).0 < 2 ^ 31)
to_timeval_exact_example = to_timeval_exact 4294967295 (omega arith)
