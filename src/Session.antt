-- ===== src/Session.antt =====
-- The session around the state machine: src/uscxml/interpreter/InterpreterImpl.cpp, the part that
-- routes events. The locks are held for a whole call.
pub mod Laws
pub mod Invocations
pub mod Routes
pub mod Forward
mod Tests
use uscxml.Prelude.{
  ℕ, ◌==◌, Bool, true, false, ◌&&◌, ◌⊎◌, inl, inr, if◌then◌else◌, Option, none, some, List, [], ◌∷◌,
  Text, codes, text_eq, find, put, erase,
}
use uscxml.Messages.{Event, is_event, is_empty}
use uscxml.Queue.Basic.{Wait, dequeue, enqueue}
use uscxml.Queue.Delayed.{Libevent, Delayed, cancel_delayed, enqueue_delayed, timer_callback}

-- `ErrorEvent`, by the macro that throws it, and whatever else a plugin throws
pub data Fault : Type 0 where
  error_execution error_communication error_platform foreign : Fault

-- `_delayedEventTargets`: the `sendid`, the type and the target, by `uuid`
abbrev pub Target : Type 0
Target = Text × Text × Text

-- The targets that the loop of `cancelDelayed` does not erase
unfoldable pub kept_targets : Text → List (Text × Target) → List (Text × Target)
kept_targets send_id [] = []
kept_targets send_id ((k, t) ∷ m) =
    let rest = kept_targets send_id m in if text_eq (t.0) send_id then rest else (k, t) ∷ rest

-- The fields of `InterpreterImpl`; the world is that of the delayed queue.
pub record Session (W : Type 0) : Type 0 where
  pub delayed_event_targets : List (Text × Target)
  pub io_procs : List (Text × ℕ)
  pub invokers : List (Text × ℕ)
  pub finalize : List (Text × Option ℕ)
  pub auto_forwarders : List (Text × Unit {0})
  pub internal_queue : List Event
  pub external_queue : List Event
  pub parent_queue : Option (List Event)
  pub delay_queue : Delayed W
  pub curr_event : Event

-- What the session calls of the plugins, the data model and the content executor, which call it back:
-- a call gives what it throws, if it throws, and the session after it.
pub record Plugins (W : Type 0) : Type 0 where
  -- whether the target is valid, or what is thrown at it
  pub is_valid_target : ℕ → Text → Fault ⊎ Bool
  pub io_event : ℕ → Text → Event → Session W → Option Fault × Session W
  pub create_invoker : Text → Session W → (Fault ⊎ ℕ) × Session W
  pub start_invoker : ℕ → Text → Event → Session W → Option Fault × Session W
  pub stop_invoker : ℕ → Session W → Session W
  pub invoker_event : ℕ → Event → Session W → Option Fault × Session W
  pub set_event : Event → Session W → Session W
  pub process : ℕ → Session W → Option Fault × Session W
  pub resolve : Text → Text
  -- the value, or the `ErrorEvent` that the data model throws
  pub eval_as_bool : Text → Session W → (Event ⊎ Bool) × Session W

pub data Result (W : Type 0) : Type 0 where
  done : Session W → Result W
  throws : Fault → Session W → Result W
  -- a failed `assert`
  aborts : Result W

abbrev pub scxml_event_processor : Text
scxml_event_processor = codes "http://www.w3.org/TR/scxml/#SCXMLEventProcessor"

module _ {W : Type 0} where
  abbrev pub conclude : Option Fault × Session W → Result W
  conclude p = elim (p.0) [ none ↦ done p.1 | some f ↦ throws f p.1 ]

  unfoldable pub enqueue_internal : Event → Session W → Session W
  enqueue_internal e s = record s { internal_queue = enqueue e s.internal_queue }

  unfoldable pub enqueue_external : Event → Session W → Session W
  enqueue_external e s = record s { external_queue = enqueue e s.external_queue }

  unfoldable pub enqueue_at_parent : Event → Session W → Result W
  enqueue_at_parent e s = elim (s.parent_queue) [
    | none ↦ throws error_communication s
    | some q ↦ done (record s { parent_queue = some (enqueue e q) })
  ]

  module _ (lib : Libevent W) where
    -- What the loop of `cancelDelayed` does to the delayed queue
    unfoldable pub cancel_targets : Text → List (Text × Target) → Delayed W → Delayed W
    cancel_targets send_id [] q = q
    cancel_targets send_id ((k, t) ∷ m) q =
        cancel_targets send_id m (if text_eq (t.0) send_id then cancel_delayed lib k q else q)

    -- `InterpreterImpl::cancelDelayed`
    unfoldable pub cancel_sent : Text → Session W → Session W
    cancel_sent send_id s = record s {
      delayed_event_targets = kept_targets send_id s.delayed_event_targets;
      delay_queue = cancel_targets send_id s.delayed_event_targets s.delay_queue;
    }

module _ {W : Type 0} (plugins : Plugins W) where
  unfoldable pub event_ready : Event → Text → Session W → Result W
  event_ready e uuid s = elim (find uuid s.delayed_event_targets) [
    | none ↦ aborts
    | some t ↦
        let type = if is_empty (t.1) then scxml_event_processor else t.1 in
        let s1 = record s { delayed_event_targets = erase uuid s.delayed_event_targets } in
        elim (find type s.io_procs) [
          | none ↦ throws error_platform s1
          | some p ↦ conclude (plugins.io_event p (t.2) e s1)
        ]
  ]

  -- What comes back to the timer: an exception and a failed assertion do not.
  unfoldable pub returned : Result W → Option (Session W)
  returned (done s) = some s
  returned (throws f s) = none
  returned aborts = none

  -- `timerCallback` of the session's delayed queue, which calls `eventReady`
  unfoldable pub fall_due : Libevent W → Text → Session W → Option (Session W)
  fall_due lib =
      timer_callback lib (λ s. s.delay_queue) (λ q s. record s { delay_queue = q })
        (λ e uuid s. returned (event_ready e uuid s))

  -- `InterpreterImpl::enqueue`
  unfoldable pub send : Libevent W → Text → Text → ℕ → Event → Session W → Result W
  send lib type target delay_ms e s =
      if is_empty e.uuid then aborts else elim (find e.uuid s.delayed_event_targets) [
        | some t ↦ aborts
        | none ↦
            let s1 = record s {
              delayed_event_targets = put e.uuid (e.sendid, type, target) s.delayed_event_targets;
            } in
            if delay_ms == 0
            then event_ready e e.uuid s1
            else done
                (record s1 { delay_queue = enqueue_delayed lib e delay_ms e.uuid s.delay_queue })
      ]

  unfoldable pub check_valid_send_type : Text → Text → Session W → Result W
  check_valid_send_type type target s =
      if is_empty type then aborts else elim (find type s.io_procs) [
        | none ↦ throws error_execution s
        | some p ↦ elim (plugins.is_valid_target p target) [
          | inl f ↦ throws f s
          | inr b ↦ if b then done s else throws error_communication s
        ]
      ]

  unfoldable pub enqueue_at_invoker : Text → Event → Session W → Result W
  enqueue_at_invoker invoke_id e s = elim (find invoke_id s.invokers) [
    | none ↦ throws error_communication s
    | some i ↦
        let (fault, s1) = plugins.invoker_event i e s in
        elim fault [ none ↦ done s1 | some f ↦ throws error_communication s1 ]
  ]

  -- `_autoForwarders.insert`, after the invoker has started
  unfoldable pub auto_forward : Bool → Text → Option Fault × Session W → Result W
  auto_forward b id p = elim (p.0) [
    | some f ↦ throws f p.1
    | none ↦
        done (if b then record (p.1) { auto_forwarders = put id tt (p.1).auto_forwarders } else p.1)
  ]

  unfoldable pub invoke : Text → Text → Bool → Option ℕ → Event → Session W → Result W
  invoke type src forward finalize_element e s =
      let source = if is_empty src then [] else plugins.resolve src in
      let (created, s1) = plugins.create_invoker type s in
      elim created [
        | inl f ↦ throws f s1
        | inr i ↦ auto_forward forward e.invokeid (
            plugins.start_invoker i source e (record s1 {
              finalize = put e.invokeid finalize_element (s1.finalize);
              invokers = put e.invokeid i (s1.invokers);
            }))
      ]

  unfoldable pub uninvoke : Text → Session W → Session W
  uninvoke invoke_id s = elim (find invoke_id s.invokers) [
    | none ↦ s
    | some i ↦
        let s1 = plugins.stop_invoker i s in
        record s1 {
          auto_forwarders = erase invoke_id (s1.auto_forwarders);
          finalize = erase invoke_id (s1.finalize);
          invokers = erase invoke_id (s1.invokers);
        }
  ]

  -- `isTrue`: an error is put into the internal queue, and counts as false.
  unfoldable pub is_true : Text → Session W → Bool × Session W
  is_true expr s =
      let (r, s1) = plugins.eval_as_bool expr s in
      elim r [ inl e ↦ (false, enqueue_internal e s1) | inr b ↦ (b, s1) ]

  -- `if (_finalize.find(invokeid) != end && _finalize[invokeid] != NULL) process(...)`
  unfoldable pub finalize_event : Event → Session W → Option Fault × Session W
  finalize_event e s =
      if is_empty e.invokeid then (none, s) else elim (find e.invokeid s.finalize) [
        | none ↦ (none, s)
        | some f ↦ elim f [ none ↦ (none, s) | some block ↦ plugins.process block s ]
      ]

  -- The loop over `_invokers`
  unfoldable pub forward_to : List (Text × ℕ) → Session W → Result W
  forward_to [] s = done s
  forward_to ((id, i) ∷ m) s = elim (find id s.auto_forwarders) [
    | none ↦ forward_to m s
    | some u ↦
        let (fault, s1) = plugins.invoker_event i s.curr_event s in
        elim fault [ none ↦ forward_to m s1 | some f ↦ throws f s1 ]
  ]

  -- `dequeueExternal` returns `curr_event`; `none` while the thread still waits.
  unfoldable pub dequeue_external : ℕ → List Wait → Text → Session W → Option (Result W)
  dequeue_external block_ms ws fresh s = elim (dequeue block_ms ws fresh s.external_queue) [
    | none ↦ none
    | some r ↦
        let s1 = record s { external_queue = r.1; curr_event = r.0 } in
        if is_event (r.0)
        then (let (fault, s2) = finalize_event (r.0) (plugins.set_event (r.0) s1) in
            some (elim fault [ none ↦ forward_to (s2.invokers) s2 | some f ↦ throws f s2 ]))
        else some (done s1)
  ]
