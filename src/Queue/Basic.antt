-- ===== src/Queue/Basic.antt =====
-- The queue of events: src/uscxml/interpreter/BasicEventQueue.cpp. The lock is held but for the
-- waits, so what other threads do to the queue, they do in a wait.
pub mod Laws
mod Tests
use uscxml.Prelude.{
  ℕ, Bool, true, false, ◌==◌, ◌&&◌, if◌then◌else◌, Option, none, some, List, [], ◌∷◌, ◌++◌, Text,
  codes,
}
use uscxml.Messages.{Event, new_event}

-- `std::numeric_limits<size_t>::max()` with 64 bits
abbrev pub forever : ℕ
forever = 18446744073709551615

-- One wait on `_cond`: whether the end time had not passed before it, and the events that other
-- threads had enqueued when it returned, none after a spurious wake-up.
abbrev pub Wait : Type 0
Wait = Bool × List Event

unfoldable pub enqueue : Event → List Event → List Event
enqueue e q = q ++ e ∷ []

-- `enqueue` by other threads
unfoldable pub enqueue_all : List Event → List Event → List Event
unfolding enqueue
enqueue_all [] q = q
enqueue_all (e ∷ es) q = enqueue_all es (enqueue e q)

-- `while (_queue.empty()) _cond.wait(_mutex);` gives `none` while the thread still waits.
unfoldable pub wait_forever : List Wait → List Event → Option (List Event)
wait_forever ws (e ∷ q) = some (e ∷ q)
wait_forever [] [] = none
wait_forever ((b, es) ∷ ws) [] = wait_forever ws (enqueue_all es [])

-- `while (endTime > now() && _queue.empty()) _cond.wait_until(_mutex, endTime);`
unfoldable pub wait_until : List Wait → List Event → Option (List Event)
wait_until ws (e ∷ q) = some (e ∷ q)
wait_until [] [] = none
wait_until ((true, es) ∷ ws) [] = wait_until ws (enqueue_all es [])
wait_until ((false, es) ∷ ws) [] = some []

unfoldable pub wait : ℕ → List Wait → List Event → Option (List Event)
wait block_ms ws q =
    if block_ms == forever
    then wait_forever ws q
    else if block_ms == 0
    then some q
    else wait_until ws q

-- `fresh` is the `uuid` that `Event()` draws.
unfoldable pub take_front : Text → List Event → Event × List Event
take_front fresh [] = (new_event fresh, [])
take_front fresh (e ∷ q) = (e, q)

-- `dequeue`: `none` while the thread still waits
unfoldable pub dequeue : ℕ → List Wait → Text → List Event → Option (Event × List Event)
dequeue block_ms ws fresh q = elim (wait block_ms ws q) [
  | none ↦ none
  | some r ↦ some (take_front fresh r)
]

unfoldable pub reset : List Event → List Event
reset q = []
