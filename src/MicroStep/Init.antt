-- ===== src/MicroStep/Init.antt =====
-- `FastMicroStep::init` of src/uscxml/interpreter/FastMicroStep.cpp: the tables of a chart. The chart is a
-- tree of elements, and a `Dom` for the predicates, which sees the tree after `resort_states`. There is no
-- cache file.
mod Conflicts
pub mod Laws
pub mod Nested
pub mod Order
pub mod Layout
mod Tests
mod Marked
mod Marks
mod Resort
mod States
mod Transitions
use uscxml.Prelude.{
  ℕ, zero, suc, ◌==◌, ltb, Bool, true, false, not, ◌&&◌, ◌||◌, if◌then◌else◌, Option, none, some,
  List, [], ◌∷◌, ◌++◌, Text, String, codes, text_eq, get_or, get_elem?, length, upward, find, put,
  map,
}
use uscxml.Bits.{Bitset, no_bits, set_at}
use uscxml.Util.Convenience.{iequals}
use uscxml.Util.Strings.{tokenize}
use uscxml.Predicates
use uscxml.Predicates.{Dom, is_state, is_history, is_atomic, is_compound, is_descendant, is_member}
use uscxml.Content.{
  Node, Element, element, Children, childless, child, text, other, node_of, children_of, attr?,
  attr_of, filter_child_elements, has_elements,
}
use uscxml.Predicates.Walks.{
  handle_of, handles, in_document_order, in_post_fix_order, get_states, get_exit_set, conflicts,
  same_node, filter_descendants, are_from_same_machine,
}
use uscxml.MicroStep.Tables.{Kind, State, Transition, Chart}
use uscxml.MicroStep.Init.Marks.{
  type_is, has_type, mark_listed, from_list, index_of, some_all, handle_or_null, first,
}
use uscxml.MicroStep.Init.States.{
  xml_prefix, parent_node, state_tag, state_elements, parent_of, state_row, get_completion,
}
use uscxml.MicroStep.Init.Resort.{resort_states}
use uscxml.MicroStep.Init.Transitions.{transition_elements, transition_row, conflict_rows}

abbrev pub is_nil : List (Option ℕ) → Bool
is_nil [] = true
is_nil (x ∷ l) = false

module _ (dom : Dom) (scxml : Element) where
  abbrev pub rows_from : {A : Type 0} → (ℕ → Element → A) → ℕ → List Element → List A
  rows_from f i [] = []
  rows_from f i (e ∷ es) = f i e ∷ rows_from f (suc i) es

  unfoldable pub tables : Chart
  unfolding state_row transition_row
  tables = record {
    states = rows_from (state_row dom scxml) 0 (state_elements dom scxml);
    transitions =
        rows_from
          (transition_row dom scxml
            (conflict_rows dom scxml (length (transition_elements dom scxml))))
          0 (transition_elements dom scxml);
  }

  -- The assertions that nothing is left of a list whose states were marked
  abbrev pub is_marked : List (Option ℕ) → Bool
  is_marked l = is_nil (mark_listed (state_elements dom scxml) l).1

  abbrev pub all_marked : (Element → List (Option ℕ)) → List Element → Bool
  all_marked f [] = true
  all_marked f (e ∷ es) = is_marked (f e) && all_marked f es

  -- `init`, from the tree that `resortStates` leaves; `none` for a failed assertion
  unfoldable pub compile : Option Chart
  unfolding tables
  compile =
      if all_marked (get_completion dom scxml) (state_elements dom scxml)
        && all_marked (λ e. some_all (handles (get_exit_set dom (node_of e) scxml)))
            (transition_elements dom scxml)
      then some tables
      else none

unfoldable pub init : Dom → Element → Option Chart
unfolding compile resort_states
init dom read = compile dom (resort_states (node_of read).prefix read)
