-- ===== src/Queue/Delayed/Delays.antt =====
-- The delay of an event as a `timeval`: `enqueueDelayed` of src/uscxml/interpreter/BasicDelayedEventQueue.cpp.
use uscxml.Prelude.{ℕ, ◌+◌, ◌*◌, ◌^◌, ◌<◌, ◌≡◌, arith}
use uscxml.Queue.Delayed.{to_timeval}

-- A delay of 32 bits becomes a `timeval` that is as long, with less than a million microseconds, and with
-- seconds that no `int32_t` sees as negative.
pub to_timeval_exact :
    (delay : ℕ)
    → delay < 2 ^ 32
    → ((to_timeval delay).0 * 1000000 + (to_timeval delay).1 ≡ delay * 1000)
      × ((to_timeval delay).1 < 1000000)
      × ((to_timeval delay).0 < 2 ^ 31)
unfolding to_timeval
to_timeval_exact delay h = (omega arith, omega arith, omega arith)
