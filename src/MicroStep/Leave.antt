-- ===== src/MicroStep/Leave.antt =====
-- `EXIT_STATES` and `TAKE_TRANSITIONS` of `FastMicroStep::step`.
pub mod Laws
use uscxml.Prelude.{
  ℕ, Bool, not, ◌&&◌, ◌||◌, if◌then◌else◌, Option, none, some, List, [], ◌∷◌, upward, downward,
}
use uscxml.Bits.{Bitset, clear_at}
use uscxml.MicroStep.Tables.{Chart, Callbacks, Micro, Notice, state_at, trans_at, n_states, n_trans}

module _ {W : Type 0} (cb : Callbacks W) where
  -- A loop over handlers, each under its own `try`
  unfoldable pub process_all : List ℕ → W → W
  process_all [] w = w
  process_all (x ∷ xs) w = process_all xs (cb.process x w)

  unfoldable pub process_opt : Option ℕ → W → W
  process_opt none w = w
  process_opt (some x) w = cb.process x w

  module _ (c : Chart) where
    -- What the world sees when a state is left
    unfoldable pub leave_world : ℕ → W → W
    leave_world i w = cb.notify (Notice.after_exiting (state_at c i).element) (
        process_all (state_at c i).on_exit
          (cb.notify (Notice.before_exiting (state_at c i).element) w))

    unfoldable pub exit_state : Bitset → ℕ → Micro W → Micro W
    exit_state exit_set i m =
        if exit_set i && m.configuration i
        then record m { configuration = clear_at i m.configuration; world = leave_world i m.world }
        else m

    -- "we cannot use find_first due to ordering"
    unfoldable pub exit_states : Bitset → Micro W → Micro W
    exit_states exit_set m = downward (n_states c) (exit_state exit_set) m

    unfoldable pub transition_world : ℕ → W → W
    transition_world i w = cb.notify (Notice.after_taking (trans_at c i).element) (
        process_opt (trans_at c i).on_trans
          (cb.notify (Notice.before_taking (trans_at c i).element) w))

    -- Neither a history nor an initial transition
    unfoldable pub is_proper : ℕ → Bool
    is_proper i = not ((trans_at c i).is_history || (trans_at c i).is_initial)

    unfoldable pub take_transition : Bitset → ℕ → Micro W → Micro W
    take_transition trans_set i m =
        if trans_set i && is_proper i then record m { world = transition_world i m.world } else m

    unfoldable pub take_transitions : Bitset → Micro W → Micro W
    take_transitions trans_set m = upward (n_trans c) (take_transition trans_set) m
