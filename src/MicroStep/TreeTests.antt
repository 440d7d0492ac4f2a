-- ===== src/MicroStep/TreeTests.antt =====
-- `FastMicroStep::init` gives the tables of the regular chart.
use uscxml.Prelude.{
  ℕ, ◌≡◌, refl, Bool, true, ◌==◌, if◌then◌else◌, none, List, [], ◌∷◌, Text, String, codes, text_eq,
  text_lt, find, upward,
}
use uscxml.Bits.{Bitset}
use uscxml.Predicates
use uscxml.Predicates.{Dom, is_state}
use uscxml.Util.Convenience.{iequals}
use uscxml.Util.Strings.{tokens_from, is_space}
use uscxml.Content.{Element, element, Children, childless, child}
use uscxml.MicroStep.Tables.{Kind, State, Transition}
use uscxml.MicroStep.Init.{tables}
use uscxml.MicroStep.RegularTests.{tree}

abbrev node : ℕ → String → List (Text × Text) → Children → Element
node h tag attrs = element (record {
  handle = h;
  prefix = [];
  tag_name = codes tag;
  local_name = codes tag;
  namespace = [];
  attrs = attrs;
})

abbrev attr : String → String → Text × Text
attr k v = (codes k, codes v)

-- `<scxml><state id="a"><transition event="go" target="h"/></state><parallel><state/><state><history id="h">`
-- `<transition target="b"/></history><state id="b"/></state></parallel></scxml>`
abbrev root : Element
root = node 0 "scxml" [] (
    child
      (node 1 "state" (attr "id" "a" ∷ []) (
        child (node 7 "transition" (attr "event" "go" ∷ attr "target" "h" ∷ []) childless)
          childless))
      (child
        (node 2 "parallel" [] (
          child (node 3 "state" [] childless) (
            child
              (node 4 "state" [] (
                child
                  (node 5 "history" (attr "id" "h" ∷ [])
                    (child (node 8 "transition" (attr "target" "b" ∷ []) childless) childless))
                  (child (node 6 "state" (attr "id" "b" ∷ []) childless) childless)))
              childless)))
        childless))

abbrev tags : ℕ → Text
tags h =
    if h == 0
    then codes "scxml"
    else if h == 2
    then codes "parallel"
    else if h == 5
    then codes "history"
    else if h == 7
    then codes "transition"
    else if h == 8
    then codes "transition"
    else codes "state"

abbrev around : ℕ → List ℕ
around h =
    if h == 0
    then []
    else if h == 1
    then 0 ∷ []
    else if h == 2
    then 0 ∷ []
    else if h == 3
    then 2 ∷ 0 ∷ []
    else if h == 4
    then 2 ∷ 0 ∷ []
    else if h == 7
    then 1 ∷ 0 ∷ []
    else if h == 8
    then 5 ∷ 4 ∷ 2 ∷ 0 ∷ []
    else 4 ∷ 2 ∷ 0 ∷ []

abbrev within : ℕ → List ℕ
within h =
    if h == 0
    then 1 ∷ 2 ∷ []
    else if h == 1
    then 7 ∷ []
    else if h == 2
    then 3 ∷ 4 ∷ []
    else if h == 4
    then 5 ∷ 6 ∷ []
    else if h == 5
    then 8 ∷ []
    else []

abbrev dom : Dom
dom = record {
  ancestors = around;
  child_elements = within;
  is_element = λ h. true;
  local_name = tags;
  tag_name = tags;
  xml_prefix = λ h. [];
  attr = λ h x. none;
}

abbrev listed : Bitset → List Bool
listed b = b 0 ∷ b 1 ∷ b 2 ∷ b 3 ∷ b 4 ∷ b 5 ∷ b 6 ∷ []

-- What a regular chart is asked about a state, and about a transition
abbrev state_rows : List State → List ((Kind × ℕ) × (List Bool × (List Bool × List Bool)))
state_rows [] = []
state_rows (r ∷ rs) =
    ((r.kind, r.parent), (listed r.ancestors, (listed r.completion, listed r.children)))
    ∷ state_rows rs

abbrev trans_rows : List Transition → List (ℕ × (List Bool × List Bool))
trans_rows [] = []
trans_rows (r ∷ rs) = (r.source, (listed r.exit_set, listed r.target)) ∷ trans_rows rs

states_test : state_rows (tables dom root).states ≡ state_rows tree.states
unfolding tables iequals text_eq is_state upward Predicates.is_parallel Predicates.is_final
    Predicates.get_child_states
states_test = refl

transitions_test : trans_rows (tables dom root).transitions ≡ trans_rows tree.transitions
unfolding tables iequals text_eq is_state upward find tokens_from is_space Predicates.is_parallel
    Predicates.is_final Predicates.get_child_states Predicates.get_source_state Predicates.find_lcca
    Predicates.first_common Predicates.get_proper_ancestors Predicates.ancestors_up_to
    Predicates.is_wrapper Predicates.is_end Predicates.is_compound text_lt
transitions_test = refl
