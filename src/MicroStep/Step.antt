-- ===== src/MicroStep/Step.antt =====
-- `FastMicroStep::step`, `reset` and `markAsCancelled`.
pub mod Rule
pub mod Laws
pub mod Invocations
pub mod Completion
pub mod Upward
pub mod Full
use uscxml.Prelude.{
  ℕ, Bool, true, false, not, ◌&&◌, ◌||◌, if◌then◌else◌, List, [], ◌∷◌, ◌++◌, Option, none, some,
  Text, text_eq, upward, downward,
}
use uscxml.Bits.{Bitset, no_bits, set_at, clear_at, ◌∩◌, member}
use uscxml.Messages.{is_event, new_event}
use uscxml.MicroStep.Tables.{
  Chart, Callbacks, Micro, Notice, state_at, n_states, pristine, is_pristine,
}
use uscxml.MicroStep.Select.{select_transitions}
use uscxml.MicroStep.History.{remember_history}
use uscxml.MicroStep.Entry.{establish_entry_set}
use uscxml.MicroStep.Leave.{process_all, exit_states, take_transitions}
use uscxml.MicroStep.Enter.{enter_states}

-- `InterpreterState`
pub data Status : Type 0 where
  finished undef idle initialized instantiated microstepped macrostepped cancelled : Status

module _ {W : Type 0} (cb : Callbacks W) where
  unfoldable pub uninvoke_all : List ℕ → W → W
  uninvoke_all [] w = w
  uninvoke_all (x ∷ xs) w = uninvoke_all xs (cb.uninvoke x w)

  unfoldable pub invoke_all : List ℕ → W → W
  invoke_all [] w = w
  invoke_all (x ∷ xs) w = invoke_all xs (cb.invoke x w)

  module _ (c : Chart) where
    -- "exit all remaining states": the configuration is left intact.
    unfoldable pub complete_state : ℕ → Micro W → Micro W
    complete_state i m =
        let w =
          if m.configuration i then process_all cb (state_at c i).on_exit m.world else m.world in
        if m.invocations i
        then record m {
          invocations = clear_at i m.invocations;
          world = uninvoke_all (state_at c i).invokes w;
        }
        else record m { world = w }

    unfoldable pub finish : Micro W → Micro W × Status
    finish m =
        let m1 = record m { world = cb.notify Notice.before_completion m.world } in
        let m2 = downward (n_states c) complete_state m1 in
        (
          record m2 {
            flags = record (m2.flags) { finished = true };
            world = cb.notify Notice.after_completion (m2.world);
          },
          Status.finished,
        )

    -- "manage invocations", for one state
    unfoldable pub manage_invocation : ℕ → Micro W → Micro W
    manage_invocation i m =
        if not (m.configuration i) && m.invocations i
        then record m {
          invocations = clear_at i m.invocations;
          world = uninvoke_all (state_at c i).invokes m.world;
        }
        else if m.configuration i && not (m.invocations i)
        then record m {
          invocations = set_at i m.invocations;
          world = invoke_all (state_at c i).invokes m.world;
        }
        else m

    unfoldable pub manage_invocations : Micro W → Micro W
    manage_invocations m = upward (n_states c) manage_invocation m

    -- From `ESTABLISH_ENTRYSET` to the end
    unfoldable pub perform : Bitset → Bitset → Bitset → Micro W → Micro W × Status
    perform exit_set target_set trans_set m =
        let e = establish_entry_set c m.configuration m.history exit_set target_set trans_set in
        let m1 = exit_states cb c exit_set m in
        let m2 = take_transitions cb c (e.transitions) m1 in
        let m3 = enter_states cb c (e.states) (e.transitions) m2 in
        let w4 = cb.notify Notice.after_micro_step (m3.world) in
        (
          record m3 {
            microstep_configurations = m3.configuration ∷ m3.microstep_configurations;
            world =
                if member (n_states c) (m3.configuration) (m3.microstep_configurations)
                then cb.notify Notice.endless_loop w4
                else w4;
          },
          Status.microstepped,
        )

    -- From `SELECT_TRANSITIONS` on
    unfoldable pub select_and_perform : Micro W → Micro W × Status
    select_and_perform m =
        let s = select_transitions cb c m.configuration m.event m.world in
        let exit_set = s.exit_set ∩ m.configuration in
        if s.found || m.flags.transition_found
        then perform exit_set (s.target_set) (s.trans_set) (record m {
          flags = record (m.flags) { stable = false; spontaneous = true; transition_found = false };
          history = remember_history c m.configuration exit_set m.history;
          world = cb.notify Notice.before_micro_step (s.world);
        })
        else (
          record m {
            flags = record (m.flags) { stable = false; spontaneous = false };
            world = s.world;
          },
          Status.microstepped,
        )

    -- "`_flags == USCXML_CTX_PRISTINE`": the default completion of the root is entered.
    unfoldable pub begin : Micro W → Micro W × Status
    begin m = perform no_bits (state_at c 0).completion no_bits (record m {
      flags = record (m.flags) { spontaneous = true; initialized = true };
      world = cb.notify Notice.before_micro_step m.world;
    })

    -- No event is left: report, or say that the machine idles.
    unfoldable pub conclude : Micro W → Micro W × Status
    conclude m =
        if m.is_cancelled
        then (record m { flags = record (m.flags) { top_level_final = true } }, Status.cancelled)
        else (m, Status.idle)

    unfoldable pub take_external : ℕ → Micro W → Micro W × Status
    take_external block_ms m =
        let (e, w) = cb.dequeue_external block_ms m.world in
        let m1 = record m { event = e; world = w } in
        if is_event e
        then select_and_perform (record m1 { world = cb.notify (Notice.before_processing e) w })
        else conclude m1

    -- "we dequeued all internal events and ought to signal stable configuration"
    unfoldable pub settle : ℕ → Micro W → Micro W × Status
    settle block_ms m =
        let m1 = manage_invocations m in
        if m1.flags.stable then take_external block_ms m1 else (
          record m1 {
            flags = record (m1.flags) { stable = true };
            microstep_configurations = [];
            world = cb.notify Notice.on_stable (m1.world);
          },
          Status.macrostepped,
        )

    unfoldable pub take_internal : ℕ → Micro W → Micro W × Status
    take_internal block_ms m =
        let (e, w) = cb.dequeue_internal m.world in
        let m1 = record m { event = e; world = w } in
        if is_event e
        then select_and_perform (record m1 { world = cb.notify (Notice.before_processing e) w })
        else settle block_ms m1

    unfoldable pub step : ℕ → Micro W → Micro W × Status
    step block_ms m =
        if not m.is_initialized
        then (record m { is_initialized = true }, Status.initialized)
        else if m.flags.finished
        then (m, Status.finished)
        else if m.flags.top_level_final
        then finish m
        else if is_pristine m.flags
        then begin m
        else if m.flags.spontaneous
        then select_and_perform (record m { event = new_event [] })
        else take_internal block_ms m

-- `markAsCancelled`
unfoldable pub mark_as_cancelled : {W : Type 0} → Micro W → Micro W
mark_as_cancelled m = record m { is_cancelled = true }

-- `reset`
unfoldable pub reset : {W : Type 0} → Micro W → Micro W
reset m = record m {
  is_cancelled = false;
  flags = pristine;
  configuration = no_bits;
  history = no_bits;
  initialized_data = no_bits;
  invocations = no_bits;
}

-- `_stateIds`
pub find_id : Text → List (Text × ℕ) → Option ℕ
find_id k [] = none
find_id k ((j, i) ∷ ids) = if text_eq j k then some i else find_id k ids

-- `isInState`
unfoldable pub is_in_state : {W : Type 0} → List (Text × ℕ) → Text → Micro W → Bool
is_in_state ids k m = elim (find_id k ids) [ none ↦ false | some i ↦ m.configuration i ]

-- `getConfiguration`
unfoldable pub get_configuration : {W : Type 0} → Chart → Micro W → List ℕ
get_configuration c m =
    upward (n_states c)
      (λ i es. if m.configuration i then es ++ ((state_at c i).element ∷ []) else es) []
