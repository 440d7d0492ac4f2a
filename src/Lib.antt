-- ===== src/Lib.antt =====
-- uscxml interprets SCXML state charts. The library models the core of the interpreter:
--
-- - MicroStep: src/uscxml/interpreter/FastMicroStep.cpp. A step selects transitions, records
--   histories, establishes the entry set, leaves states, takes transitions and enters states.
--   `Tables` has the compiled chart (`State`, `Transition`), the flags and the fields of
--   `FastMicroStep` (`Micro`); `Select`, `History`, `Entry`, `Leave`, `Enter` and `Done` have the
--   phases of `FastMicroStep::step`, in the order of its labels, and `Step` composes them with the
--   dequeuing, the invocations and the completion, and has `reset`, `markAsCancelled`, `isInState` and
--   `getConfiguration`. What the step asks of the interpreter (`MicroStepCallbacks`) is a record of
--   functions over a world of any type, so that the order of all calls is kept. `Init` is
--   `FastMicroStep::init`: the tables from a tree of elements, with `resortStates` (`Resort`),
--   `getCompletion` and `getHistoryCompletion` (`States`), the exit sets and the conflicts (`Transitions`). A
--   failed assertion of `init` is the value `none`. What is asked of a chart where the steps keep the
--   ancestors and the regions of active states active is in the records `IsRegular` (Entry/Upward) and
--   `IsLayered` (Entry/Later). `GapTests` has an `initial` attribute and a history at which the entry set lacks a
--   state.
-- - Queue: `Basic` is src/uscxml/interpreter/BasicEventQueue.cpp, `Delayed` is
--   src/uscxml/interpreter/BasicDelayedEventQueue.cpp. The calls of libevent are a parameter
--   (`Libevent`), and what its documentation says of the life of a timer is the record `Timers`.
--   `timerCallback` holds the lock twice; `begin_firing` and `end_firing` are its two parts, so that
--   other calls can come between them. Its argument points to the entry of its key in the map; where the
--   entry is gone, reading it is undefined, which is the value `none`. An entry that took the place of another one
--   under the same key is not told from it.
-- - Session: the routing of events in src/uscxml/interpreter/InterpreterImpl.cpp: `enqueue` (`send`),
--   `eventReady`, `cancelDelayed` (`cancel_sent`), `dequeueExternal`, `invoke`, `uninvoke`,
--   `enqueueAtInvoker`, `enqueueAtParent`, `checkValidSendType` and `isTrue`, over the two queues. The IO
--   processors, the invokers and the data model are the record `Plugins`; they may change the session.
--   An exception is the value `throws`, a failed assertion the value `aborts`. `fall_due` is the timer callback
--   of the delayed queue with `eventReady` in it; an exception that would leave it through libevent is `none`.
-- - Content: src/uscxml/interpreter/BasicContentExecutor.cpp, executable content. A tree of elements is a data
--   type; `ContentCallbacks` are what the executor calls, over a world of any type. An action gives a value,
--   throws, or fails an assertion, and keeps the state in each case. `Evaluate` has the data of elements,
--   parameters and name lists, `Send` <send> with its delay (`NumAttr`), `Process` all other elements and
--   `process`, `Invoke` the invocations and the done events. `Meets` and `Respects` have the rules by which a
--   condition on the callbacks carries over to all of it.
-- - Messages: the types of src/uscxml/messages/Data.h and Event.h, with the look-ups in a `Data`.
-- - Util: `Convenience` and `Strings` are functions of src/uscxml/util/Convenience.cpp and String.cpp
--   (`iequals`, `escape`, `unescape`, `tokenize`, `spaceNormalize`, `nameMatch`); `Json` has the two
--   escapes of src/uscxml/messages/Data.cpp. `boost::iequals`, which `nameMatch` calls, is a parameter.
-- - Predicates: src/uscxml/util/Predicates.cpp. What looks from a state up stands over what it reads of the
--   DOM (`Dom`): the kinds of states, `getProperAncestors`, `findLCCA` and `getTransitionDomain`. `Walks` has
--   what walks down a tree: `filterElementGeneric` of src/uscxml/util/DOM.cpp in its orders, `getState`,
--   `getTargetStates`, `getExitSet` and `conflicts`.
-- - Debug: `Breakpoint` is src/uscxml/debug/Breakpoint.cpp.
-- - Prelude and Bits are shared: lists and tests on the native numbers, loops over an index, `std::map`
--   with texts as keys (`Maps`), and the bit sets of the step (`boost::dynamic_bitset`) as tests of an
--   index below the size.
--
-- A text is a list of code points, a DOM node or a plugin object a handle. The loops of the step run
-- over an index, up or down, and the others over a list, by structural recursion; only two loops
-- need fuel. The climbs over the parents of a final state (`raise_done_events`) have the number of states, which
-- is enough in a chart whose parents come first; the queue of `getState` has the number of elements and one more,
-- which is enough in every tree. A wait on a condition variable is given by the
-- list of what happens in each round of its loop; a thread that still waits has the result `none`.
-- Sizes are not bounded but for `delayMs / 1000`, which is cut to 32 bits.
--
-- The callbacks of a step return: an exception that `step` catches is a call that returns, and a step that is
-- ended by one of the exceptions that it lets through (those of `uninvoke`, `raiseDoneEvent` and
-- `dequeueExternal`) is not modelled.
--
-- Not modelled: the cache files of `FastMicroStep::init`, the serialisation of the step, the queues and the
-- session, the set-up of the interpreter, the debugger but for its breakpoints, `getInitialStates` and
-- `getReachableStates`, URLs, and JSON but for its escapes. Logging, the HTTP server, the data models and
-- other plugins, the bindings and the transformations to other languages are outside the core.
pub mod Prelude
pub mod Bits
pub mod Messages
pub mod MicroStep
pub mod Util
pub mod Debug
pub mod Content
pub mod Queue
pub mod Session
pub mod Predicates
