-- ===== src/MicroStep/Init/Tests.antt =====
-- The tables of a small chart:
-- `<scxml><state id="a"><transition target="b"/><history id="h"/><state id="c"/></state><state id="b"><transition target="c"/></state></scxml>`
use uscxml.Prelude.{
  ℕ, ◌<◌, ◌≡◌, refl, ◌&&◌, true, false, ◌==◌, if◌then◌else◌, none, some, List, [], ◌∷◌, Text,
  String, codes, arith, ltb, text_eq, find,
}
use uscxml.Predicates
use uscxml.Predicates.{Dom, is_state}
use uscxml.Util.Convenience.{iequals}
use uscxml.Predicates.Laws.{Chain}
use uscxml.Content.{Node, Element, element, childless, child, node_of}
use uscxml.Predicates.Walks.{handles, get_state, get_exit_set}
use uscxml.Util.Strings.{tokens_from, is_space}
use uscxml.Predicates.Searches.{Ended, get_state-Ended}
use uscxml.MicroStep.Tables.{state_at}
use uscxml.MicroStep.Entry.Laws.{IsNested}
use uscxml.MicroStep.Init.{compile, tables, all_marked}
use uscxml.MicroStep.Init.Marks.{mark_listed, some_all}
use uscxml.MicroStep.Init.States.{state_elements, get_completion}
use uscxml.MicroStep.Init.Transitions.{transition_at, transition_elements, conflict_rows}
use uscxml.MicroStep.Init.Conflicts.{conflict_rows_symmetric}
use uscxml.MicroStep.Init.Marked.{is_listed}
use uscxml.MicroStep.Init.Laws.{children-ancestors, has_history_never, compile-completion}
use uscxml.MicroStep.Init.Order.{Describes, DescribesAll}
use uscxml.MicroStep.Init.Layout.{Sees, compile-IsOrdered}
use uscxml.MicroStep.Done.Laws.{IsOrdered}

ltb→lt : (a b : ℕ) → ltb a b ≡ true → a < b
ltb→lt a b h = ground arith

abbrev node : ℕ → String → List (Text × Text) → Node
node h tag attrs = record {
  handle = h;
  prefix = [];
  tag_name = codes tag;
  local_name = codes tag;
  namespace = [];
  attrs = attrs;
}

abbrev with_id : String → List (Text × Text)
with_id id = (codes "id", codes id) ∷ []

abbrev target : String → Node → Element
target id n = element (record n { attrs = (codes "target", codes id) ∷ [] }) childless

abbrev state_c : Element
state_c = element (node 4 "state" (with_id "c")) childless

abbrev state_a : Element
state_a = element (node 1 "state" (with_id "a")) (
    child (element (node 3 "history" (with_id "h")) childless)
      (child (target "b" (node 2 "transition" [])) (child state_c childless)))

abbrev state_b : Element
state_b =
    element (node 5 "state" (with_id "b")) (child (target "c" (node 6 "transition" [])) childless)

abbrev root : Element
root = element (node 0 "scxml" []) (child state_a (child state_b childless))

abbrev tags : ℕ → Text
tags h =
    if h == 0
    then codes "scxml"
    else if h == 2
    then codes "transition"
    else if h == 6
    then codes "transition"
    else if h == 3
    then codes "history"
    else codes "state"

abbrev above : ℕ → List ℕ
above h =
    if h == 0
    then []
    else if h == 1
    then 0 ∷ []
    else if h == 5
    then 0 ∷ []
    else if h == 6
    then 5 ∷ 0 ∷ []
    else 1 ∷ 0 ∷ []

abbrev below : ℕ → List ℕ
below h =
    if h == 0 then 1 ∷ 5 ∷ [] else if h == 1 then 3 ∷ 2 ∷ 4 ∷ [] else if h == 5 then 6 ∷ [] else []

abbrev dom : Dom
dom = record {
  ancestors = above;
  child_elements = below;
  is_element = λ h. true;
  local_name = tags;
  tag_name = tags;
  xml_prefix = λ h. [];
  attr = λ h x. none;
}

get_state-Ended_example : Ended dom (codes "b") (get_state dom (codes "b") root)
unfolding is_state iequals
get_state-Ended_example = get_state-Ended dom (codes "b") root refl

children-ancestors_example :
    (state_at (tables dom root) 1).children 3 ≡ (state_at (tables dom root) 3).ancestors 1
unfolding tables iequals text_eq is_state Predicates.is_parallel
children-ancestors_example = children-ancestors dom root 3 1 (ltb→lt 3 5 refl) (ltb→lt 1 5 refl)

has_history_never_example : (state_at (tables dom root) 2).has_history ≡ false
unfolding tables iequals text_eq is_state Predicates.is_parallel
has_history_never_example = has_history_never dom root 2 (ltb→lt 2 5 refl)

root-Sees : Sees dom [] root
unfolding Describes Chain
root-Sees = ((refl, (refl, (a.0, (b, tt)))), (tt, λ p q. absurd (cc)))
  where
    a : DescribesAll dom (0 ∷ []) (child state_a childless)
    a = ((refl, (refl, ((refl, (refl, tt)), ((refl, (refl, tt)), ((refl, (refl, tt)), tt))))), tt)

    b : Describes dom (0 ∷ []) state_b
    b = (refl, (refl, ((refl, (refl, tt)), tt)))

marked :
    (all_marked dom root (get_completion dom root) (state_elements dom root)
      && all_marked dom root
          (λ e. some_all (handles (get_exit_set dom (node_of e) root)))
          (transition_elements dom root))
    ≡ true
unfolding state_elements transition_elements iequals text_eq mark_listed get_completion get_exit_set
    tokens_from is_state Predicates.is_parallel find is_space Predicates.get_source_state
    Predicates.find_lcca Predicates.first_common Predicates.get_proper_ancestors
    Predicates.ancestors_up_to Predicates.is_wrapper Predicates.is_end Predicates.is_compound
    Predicates.get_child_states
marked = refl

compiled : compile dom root ≡ some (tables dom root)
unfolding compile
compiled = rw marked refl

compile-completion_example :
    (state_at (tables dom root) 1).completion 3 ≡ is_listed 4 (get_completion dom root state_a)
unfolding state_elements iequals text_eq
compile-completion_example =
    compile-completion dom root (tables dom root) 1 3 state_a state_c compiled
      (refl, (refl, (refl, (refl, (refl, tt))))) refl refl

-- The completion of `a` is the state `c`, not the history.
compile-IsOrdered_example : IsNested (tables dom root) × IsOrdered (tables dom root)
compile-IsOrdered_example = compile-IsOrdered dom root [] root-Sees (tables dom root) compiled

completes_test : (state_at (tables dom root) 1).completion 3 ≡ true
unfolding tables iequals text_eq is_state Predicates.is_parallel
completes_test = refl

history_test : (state_at (tables dom root) 1).completion 2 ≡ false
unfolding tables iequals text_eq is_state Predicates.is_parallel
history_test = refl

conflict_rows_symmetric_example :
    (conflict_rows dom root 2 0 1 ≡ conflict_rows dom root 2 1 0)
    × ((e : Element) → transition_at dom root 0 ≡ some e → conflict_rows dom root 2 0 0 ≡ true)
conflict_rows_symmetric_example = conflict_rows_symmetric dom root 2 0 1 (omega arith) (omega arith)
