-- ===== src/MicroStep/Tests.antt =====
-- The step at a small machine.
use uscxml.Prelude.{
  ℕ, zero, suc, ◌⊎◌, inr, codes, ◌≢◌, ◌<◌, ◌≡◌, refl, true, false, List, [], ◌∷◌, arith, text_eq,
  upward, downward, first_below, any_below,
}
use mathlib.Core.Bool.{xor}
use uscxml.Bits.{Bitset, no_bits, count, bits_eq, member}
use uscxml.MicroStep.Tables.{
  Kind, Chart, Callbacks, Micro, pristine, n_states, state_at, is_pseudo, n_trans, trans_at,
}
use uscxml.MicroStep.Select.Conditions.{
  select_transitions_consistent, select_transitions_maximal, Beaten, Passes, before,
}
use uscxml.MicroStep.Entry.Laws.{IsNested, add_ancestors_lem}
use uscxml.MicroStep.Entry.Complete.{
  complete_descendants_compound, complete_descendants_history, ChildIn,
}
use uscxml.MicroStep.History.{remember_history_lem}
use uscxml.MicroStep.Leave.Laws.{exit_states-world, leave_all, listed_down}
use uscxml.MicroStep.Step.Laws.{Inv, step-Inv, perform-configuration}
use uscxml.MicroStep.Step.Invocations.{step-Outcome, Outcome}
use uscxml.MicroStep.Step.Completion.{step-IsOver, IsOver}
use uscxml.MicroStep.Select.{select_transitions, consider, is_candidate, holds, take_trans}
use uscxml.MicroStep.History.{remember_history, remember, is_recorded}
use uscxml.MicroStep.Entry.{
  establish_entry_set, add_ancestors, add_ancestors_of, complete_descendants, complete_state,
  complete_kind, complete_compound, Entry,
}
use uscxml.MicroStep.Leave.{
  exit_states, exit_state, leave_world, process_all, process_opt, take_transitions, take_transition,
  is_proper, transition_world,
}
use uscxml.MicroStep.Enter.{
  enter_states, enter_state, activate, initialize, init_all, default_transitions,
}
use uscxml.MicroStep.Done.{
  handle_final, is_top_level, raise_done_events, raise_parallel, remaining, drop_final,
  drop_parallel,
}
use uscxml.MicroStep.Step.{
  Status, invoke_all, uninvoke_all, step, take_internal, settle, manage_invocations,
  manage_invocation, take_external, select_and_perform, perform, finish,
  complete_state as end_state,
}
use uscxml.MicroStep.Example.{
  bits, state, chart, go, stay, go_left, go_right, go_event, log, in_leaf,
}

-- One external event: the leaf is left, the transition taken, the parallel state entered with both
-- regions, and its done event follows those of the regions.
go_log :
    (step log chart 0 in_leaf).0.world
    ≡ 602 ∷ 605 ∷ 106 ∷ 105 ∷ 603 ∷ 104 ∷ 103 ∷ 102 ∷ 300 ∷ 201 ∷ []
unfolding step take_internal settle manage_invocations manage_invocation take_external
    select_and_perform select_transitions consider is_candidate holds take_trans remember_history
    remember is_recorded perform establish_entry_set add_ancestors add_ancestors_of
    complete_descendants complete_state complete_kind complete_compound exit_states exit_state
    leave_world process_all process_opt take_transitions take_transition is_proper transition_world
    enter_states enter_state activate initialize init_all default_transitions handle_final
    is_top_level raise_done_events raise_parallel remaining drop_final drop_parallel upward downward
    any_below first_below count member text_eq bits_eq xor
go_log = refl

in_leaf-proper :
    (b : ℕ)
    → in_leaf.configuration b ≡ true
    → (b < n_states chart) × (is_pseudo (state_at chart b).kind ≡ false)
in_leaf-proper zero h = (omega arith, refl)
in_leaf-proper (suc zero) h = (omega arith, refl)
in_leaf-proper (suc (suc b)) h = absurd (ground arith)

in_leaf-Inv : Inv log chart in_leaf
in_leaf-Inv = record { proper = in_leaf-proper; all_started = λ b h. h }

step-Inv_example : Inv log chart (step log chart 0 in_leaf).0
step-Inv_example = step-Inv log chart 0 in_leaf in_leaf-Inv

-- The leaf is in the exit set, and neither is nor gets in the entry set.
perform-configuration_example :
    (perform log chart (bits (1 ∷ 2 ∷ [])) (bits (2 ∷ [])) (bits (0 ∷ [])) in_leaf).0.configuration
      1
    ≡ false
unfolding establish_entry_set add_ancestors add_ancestors_of complete_descendants complete_state
    complete_kind complete_compound upward any_below
perform-configuration_example =
    perform-configuration log chart (bits (1 ∷ 2 ∷ [])) (bits (2 ∷ [])) (bits (0 ∷ [])) in_leaf 1
      (omega arith)

-- Each evaluation of a condition is logged, and yields for one text only.
abbrev judge : Callbacks (List ℕ)
judge = record log { is_true = λ t w. (text_eq t (codes "yes"), 700 ∷ w) }

abbrev guarded : Chart
guarded = record chart {
  transitions =
      record go { cond = codes "no" }
      ∷ record stay { cond = codes "yes" }
      ∷ record go_left { cond = codes "yes" }
      ∷ record go_right { cond = codes "yes" }
      ∷ [];
}

-- The condition of the first transition is evaluated before, and does not hold.
select_transitions_maximal_example :
    let s = select_transitions judge guarded in_leaf.configuration go_event [] in
    (s.trans_set 1 ≡ true) ⊎ Beaten judge guarded in_leaf.configuration go_event [] s.trans_set 1
unfolding text_eq
select_transitions_maximal_example =
    select_transitions_maximal judge guarded in_leaf.configuration go_event [] 1 (omega arith)
      (record {
        proper = (refl, refl);
        active = refl;
        matches = inr (refl, (refl, refl));
        yields = inr refl;
      })

abbrev both_active : Bitset
both_active = bits (0 ∷ 2 ∷ 3 ∷ 5 ∷ [])

select_transitions_consistent_example :
    ((trans_at guarded 2).conflicts 3 ≡ false)
    × (Passes judge guarded both_active go_event 2
          (before judge guarded both_active go_event [] 2).world
        × (Passes judge guarded both_active go_event 3
              (before judge guarded both_active go_event [] 3).world
            × (3 < n_trans guarded)))
unfolding select_transitions consider holds is_candidate take_trans text_eq upward
select_transitions_consistent_example =
    select_transitions_consistent judge guarded both_active go_event [] 2 3 refl refl (omega arith)

abbrev chain : Chart
chain = record {
  states =
      state 0 Kind.compound 0 [] (1 ∷ 2 ∷ []) (1 ∷ [])
      ∷ state 1 Kind.compound 0 (0 ∷ []) (2 ∷ []) (2 ∷ [])
      ∷ state 2 Kind.atomic 1 (0 ∷ 1 ∷ []) [] []
      ∷ [];
  transitions = [];
}

chain-IsNested : IsNested chain
chain-IsNested zero j k p q = absurd (ground arith)
chain-IsNested (suc zero) zero k p q = absurd (ground arith)
chain-IsNested (suc zero) (suc j) k p q = absurd (ground arith)
chain-IsNested (suc (suc zero)) zero k p q = absurd (ground arith)
chain-IsNested (suc (suc zero)) (suc zero) k p q = ground arith
chain-IsNested (suc (suc zero)) (suc (suc j)) k p q = absurd (ground arith)
chain-IsNested (suc (suc (suc i))) j k p q = absurd (ground arith)

add_ancestors_lem_example :
    ((add_ancestors chain (bits (2 ∷ [])) 1 ≡ true)
      → (bits (2 ∷ []) 1 ≡ true)
        ⊎ ((j : ℕ) × (bits (2 ∷ []) j ≡ true) × ((state_at chain j).ancestors 1 ≡ true)))
    × ((bits (2 ∷ []) 1 ≡ true)
          ⊎ ((j : ℕ) × (bits (2 ∷ []) j ≡ true) × ((state_at chain j).ancestors 1 ≡ true))
        → add_ancestors chain (bits (2 ∷ [])) 1 ≡ true)
add_ancestors_lem_example =
    add_ancestors_lem chain chain-IsNested (bits (2 ∷ [])) 1 (λ k h. ground arith)

abbrev targets : Entry
targets = record { states = bits (0 ∷ 2 ∷ 3 ∷ []); transitions = no_bits }

not_initial : (b : ℕ) → (state_at chart b).kind ≢ Kind.initial
not_initial zero = λ e. cc
not_initial (suc zero) = λ e. cc
not_initial (suc (suc zero)) = λ e. cc
not_initial (suc (suc (suc zero))) = λ e. cc
not_initial (suc (suc (suc (suc zero)))) = λ e. cc
not_initial (suc (suc (suc (suc (suc zero))))) = λ e. cc
not_initial (suc (suc (suc (suc (suc (suc zero)))))) = λ e. cc
not_initial (suc (suc (suc (suc (suc (suc (suc b))))))) = λ e. cc

complete_descendants_compound_example :
    ChildIn chart
      (bits (0 ∷ 1 ∷ []))
      no_bits
      no_bits
      3
      (complete_descendants chart (bits (0 ∷ 1 ∷ [])) no_bits no_bits targets).states
unfolding any_below
complete_descendants_compound_example =
    complete_descendants_compound chart (bits (0 ∷ 1 ∷ [])) no_bits no_bits 3 4 targets
      (omega arith) refl refl refl refl (λ b h. not_initial b) refl

abbrev with_history : Chart
with_history = record {
  states =
      state 0 Kind.compound 0 [] (1 ∷ 2 ∷ 3 ∷ []) (2 ∷ [])
      ∷ state 1 Kind.history_shallow 0 (0 ∷ []) [] (2 ∷ 3 ∷ [])
      ∷ state 2 Kind.atomic 0 (0 ∷ []) [] []
      ∷ state 3 Kind.atomic 0 (0 ∷ []) [] []
      ∷ [];
  transitions = [];
}

complete_descendants_history_example :
    (complete_descendants with_history no_bits
        (bits (3 ∷ []))
        no_bits
        (record { states = bits (0 ∷ 1 ∷ []); transitions = no_bits })).states
      3
    ≡ true
unfolding any_below
complete_descendants_history_example =
    complete_descendants_history with_history no_bits (bits (3 ∷ [])) no_bits 1 3
      (record { states = bits (0 ∷ 1 ∷ []); transitions = no_bits }) (omega arith) refl refl refl
      refl refl (λ e. cc)

remember_history_lem_example :
    remember_history with_history (bits (0 ∷ 3 ∷ [])) (bits (0 ∷ [])) (bits (2 ∷ [])) 2 ≡ false
unfolding any_below is_recorded
remember_history_lem_example =
    remember_history_lem with_history (bits (0 ∷ 3 ∷ [])) (bits (0 ∷ [])) (bits (2 ∷ [])) 2

exit_states-world_example :
    (exit_states log chart
      (bits (2 ∷ 3 ∷ 5 ∷ []))
      (record in_leaf { configuration = both_active })).world
    ≡ 202 ∷ 203 ∷ 205 ∷ []
unfolding leave_all listed_down leave_world process_all
exit_states-world_example =
    exit_states-world log chart (bits (2 ∷ 3 ∷ 5 ∷ []))
      (record in_leaf { configuration = both_active })

-- The state 0 is no longer active, and the state 1 has just become so.
abbrev unsettled : Micro (List ℕ)
unsettled = record in_leaf {
  flags = record pristine { initialized = true };
  configuration = bits (1 ∷ []);
  invocations = bits (0 ∷ []);
}

abbrev quiet : Callbacks (List ℕ)
quiet = record log { notify = λ n w. 800 ∷ w }

step-Outcome_example : Outcome quiet chart 0 unsettled (step quiet chart 0 unsettled)
step-Outcome_example = step-Outcome quiet chart 0 unsettled

-- The step reports a macrostep: an invocation is ended, one is started, and the configuration is announced.
unsettled_test : (step quiet chart 0 unsettled).1 ≡ Status.macrostepped
unfolding step take_internal settle manage_invocations manage_invocation upward
unsettled_test = refl

unsettled_log : (step quiet chart 0 unsettled).0.world ≡ 800 ∷ 401 ∷ 500 ∷ []
unfolding step take_internal settle manage_invocations manage_invocation upward invoke_all
    uninvoke_all
unsettled_log = refl

abbrev at_end : Micro (List ℕ)
at_end = record in_leaf { flags = record pristine { initialized = true; top_level_final = true } }

step-IsOver_example : IsOver log chart at_end (step log chart 0 at_end)
step-IsOver_example = step-IsOver log chart 0 at_end refl refl refl

-- A machine that ends while an invocation runs
abbrev invoking_end : Micro (List ℕ)
invoking_end = record unsettled {
  flags = record pristine { initialized = true; top_level_final = true };
}

invoking_end_log : (step quiet chart 0 invoking_end).0.world ≡ 800 ∷ 500 ∷ 201 ∷ 800 ∷ []
unfolding step finish end_state uninvoke_all process_all downward
invoking_end_log = refl
