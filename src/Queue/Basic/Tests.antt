-- ===== src/Queue/Basic/Tests.antt =====
-- The queue at concrete events.
use uscxml.Prelude.{refl, true, some, ◌≡◌, ◌↔◌, [], ◌∷◌, List, codes}
use uscxml.Messages.{Event, new_event}
use uscxml.Queue.Basic.{Wait, dequeue, wait, wait_until, take_front, enqueue_all, enqueue}
use uscxml.Queue.Basic.Laws.{dequeue-Served, Served}

abbrev first : Event
first = new_event (codes "1")

abbrev second : Event
second = new_event (codes "2")

-- Two wake-ups, of which the second brings two events
abbrev waits : List Wait
waits = (true, []) ∷ (true, first ∷ second ∷ []) ∷ []

dequeue-Served_example :
    (dequeue 5 waits (codes "3") [] ≡ some (first, second ∷ []))
    ↔ Served 5 (codes "3") waits [] first (second ∷ [])
dequeue-Served_example = dequeue-Served 5 waits (codes "3") [] first (second ∷ [])

served_first : dequeue 5 waits (codes "3") [] ≡ some (first, second ∷ [])
unfolding dequeue wait wait_until take_front enqueue_all enqueue
served_first = refl
