-- ===== src/MicroStep/Entry.antt =====
-- `ESTABLISH_ENTRYSET` of `FastMicroStep::step`: the targets, their ancestors, and what completes
-- them. A loop over `find_first` and `find_next` goes through the indices in order and tests each
-- when it is reached, since the loop itself adds bits.
pub mod Laws
pub mod Complete
pub mod Upward
pub mod Establish
pub mod Later
pub mod Full
use uscxml.Prelude.{
  ℕ, Bool, true, false, not, ◌&&◌, ◌||◌, if◌then◌else◌, none, some, ltb, ◌==◌, upward, first_below,
}
use uscxml.Bits.{Bitset, set_at, clear_at, ◌∪◌, ◌∩◌, intersects}
use uscxml.MicroStep.Tables.{Chart, Kind, state_at, trans_at, n_states, n_trans, is_history_kind}

-- `entrySet` and `transSet`
pub record Entry : Type 0 where
  pub states : Bitset
  pub transitions : Bitset

abbrev pub is_deep : Kind → Bool
is_deep k = elim k [ Kind.history_deep ↦ true | _ ↦ false ]

module _ (c : Chart) where
  -- "iterate for ancestors"
  unfoldable pub add_ancestors_of : ℕ → Bitset → Bitset
  add_ancestors_of i e = if e i then e ∪ (state_at c i).ancestors else e

  unfoldable pub add_ancestors : Bitset → Bitset
  add_ancestors e = upward (n_states c) add_ancestors_of e

  -- `for (k = i + 1; k < n; k++) if (bits[k]) { e |= ancestors of k; break; }`
  unfoldable pub add_first_ancestors : ℕ → Bitset → Bitset → Bitset
  add_first_ancestors i bits e = elim (first_below (n_states c) (λ k. ltb i k && bits k)) [
    | none ↦ e
    | some k ↦ e ∪ (state_at c k).ancestors
  ]

  -- The same without the `break`
  unfoldable pub add_all_ancestors : ℕ → Bitset → Bitset → Bitset
  add_all_ancestors i bits e =
      upward (n_states c) (λ k e'. if ltb i k && bits k then e' ∪ (state_at c k).ancestors else e')
        e

  -- No history is recorded: the default transition `j` is taken.
  unfoldable pub default_history : ℕ → ℕ → Entry → Entry
  default_history i j s =
      let e = s.states ∪ (trans_at c j).target in
      record {
        states =
            if is_deep (state_at c i).kind
              && not (intersects (n_states c) (trans_at c j).target (state_at c i).children)
            then add_first_ancestors i (trans_at c j).target e
            else e;
        transitions = set_at j s.transitions;
      }

  -- "add nested history to entry_set"
  unfoldable pub add_nested : ℕ → Bitset → Bitset
  add_nested j e =
      upward (n_states c)
        (λ k e'.
          if ltb j k && is_history_kind (state_at c k).kind && (state_at c j).children k
          then set_at k e'
          else e')
        e

  -- "a deep history state with nested histories -> more completion"
  unfoldable pub add_nested_histories : ℕ → Bitset → Bitset
  add_nested_histories i e =
      upward (n_states c)
        (λ j e'.
          if ltb i j && (state_at c i).completion j && e' j && (state_at c j).has_history
          then add_nested j e'
          else e')
        e

  module _ (config history exit_set : Bitset) where
    unfoldable pub complete_history : ℕ → Entry → Entry
    complete_history i s =
        if not (intersects (n_states c) (state_at c i).completion history)
          && not (config (state_at c i).parent)
        then elim (first_below (n_trans c) (λ j. (trans_at c j).source == i)) [
          | none ↦ s
          | some j ↦ default_history i j s
        ]
        else record s {
          states =
              let e = s.states ∪ ((state_at c i).completion ∩ history) in
              if is_deep (state_at c i).kind && (state_at c i).has_history
              then add_nested_histories i e
              else e;
        }

    -- An `<initial>` element is replaced by the targets of its transitions.
    unfoldable pub complete_initial : ℕ → Entry → Entry
    complete_initial i s =
        upward (n_trans c)
          (λ j s'.
            if (trans_at c j).source == i
            then record {
              states =
                  add_all_ancestors i (trans_at c j).target
                    (clear_at i s'.states ∪ (trans_at c j).target);
              transitions = set_at j s'.transitions;
            }
            else s')
          s

    -- "we need to check whether one child is already in entry_set"
    unfoldable pub complete_compound : ℕ → Entry → Entry
    complete_compound i s =
        if not (intersects (n_states c) s.states (state_at c i).children)
          && (not (intersects (n_states c) config (state_at c i).children)
              || intersects (n_states c) exit_set (state_at c i).children)
        then record s {
          states =
              let e = s.states ∪ (state_at c i).completion in
              if not (intersects (n_states c) (state_at c i).completion (state_at c i).children)
              then add_first_ancestors i (state_at c i).completion e
              else e;
        }
        else s

    -- The `switch` on the type of a state
    unfoldable pub complete_kind : Kind → ℕ → Entry → Entry
    complete_kind Kind.final i s = s
    complete_kind Kind.atomic i s = s
    complete_kind Kind.parallel i s = record s { states = s.states ∪ (state_at c i).completion }
    complete_kind Kind.history_shallow i s = complete_history i s
    complete_kind Kind.history_deep i s = complete_history i s
    complete_kind Kind.initial i s = complete_initial i s
    complete_kind Kind.compound i s = complete_compound i s

    unfoldable pub complete_state : ℕ → Entry → Entry
    complete_state i s = if s.states i then complete_kind (state_at c i).kind i s else s

    -- "iterate for descendants"
    unfoldable pub complete_descendants : Entry → Entry
    complete_descendants s = upward (n_states c) complete_state s

    unfoldable pub establish_entry_set : Bitset → Bitset → Entry
    establish_entry_set target_set trans_set =
        complete_descendants (record { states = add_ancestors target_set; transitions = trans_set })
