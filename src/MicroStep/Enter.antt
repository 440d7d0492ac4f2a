-- ===== src/MicroStep/Enter.antt =====
-- `ENTER_STATES` of `FastMicroStep::step`.
pub mod Laws
use uscxml.Prelude.{ℕ, not, ◌&&◌, ◌||◌, ◌==◌, if◌then◌else◌, List, [], ◌∷◌, upward}
use uscxml.Bits.{Bitset, set_at}
use uscxml.MicroStep.Tables.{
  Chart, Callbacks, Micro, Notice, state_at, trans_at, n_states, n_trans, is_pseudo,
}
use uscxml.MicroStep.Leave.{process_all, transition_world}
use uscxml.MicroStep.Done.{handle_final}

module _ {W : Type 0} (cb : Callbacks W) where
  unfoldable pub init_all : List ℕ → W → W
  init_all [] w = w
  init_all (x ∷ xs) w = init_all xs (cb.init_data x w)

  module _ (c : Chart) where
    -- "initialize data"
    unfoldable pub initialize : ℕ → Micro W → Micro W
    initialize i m = if m.initialized_data i then m else record m {
      initialized_data = set_at i m.initialized_data;
      world = init_all (state_at c i).datas m.world;
    }

    -- "take history and initial transitions"
    unfoldable pub default_transitions : Bitset → ℕ → W → W
    default_transitions trans_set i w =
        upward (n_trans c)
          (λ j w'.
            if trans_set j
              && ((trans_at c j).is_history || (trans_at c j).is_initial)
              && ((state_at c (trans_at c j).source).parent == i)
            then transition_world cb c j w'
            else w')
          w

    -- What is done with a state that becomes active, up to its default transitions
    unfoldable pub activate : Bitset → ℕ → Micro W → Micro W
    activate trans_set i m =
        let m1 = record m {
          configuration = set_at i m.configuration;
          world = cb.notify (Notice.before_entering (state_at c i).element) m.world;
        } in
        let m2 = initialize i m1 in
        let w3 = process_all cb (state_at c i).on_entry (m2.world) in
        let w4 = cb.notify (Notice.after_entering (state_at c i).element) w3 in
        record m2 { world = default_transitions trans_set i w4 }

    unfoldable pub enter_state : Bitset → Bitset → ℕ → Micro W → Micro W
    enter_state entry_set trans_set i m =
        if entry_set i && not (m.configuration i) && not (is_pseudo (state_at c i).kind)
        then handle_final c cb i (activate trans_set i m)
        else m

    unfoldable pub enter_states : Bitset → Bitset → Micro W → Micro W
    enter_states entry_set trans_set m = upward (n_states c) (enter_state entry_set trans_set) m
