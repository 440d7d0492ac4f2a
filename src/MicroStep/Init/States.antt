-- ===== src/MicroStep/Init/States.antt =====
-- The states of `FastMicroStep::init`, with `getCompletion` and `getHistoryCompletion`
use uscxml.Prelude.{
  ℕ, ◌==◌, Bool, true, false, not, ◌&&◌, ◌||◌, if◌then◌else◌, Option, none, some, List, [], ◌∷◌,
  ◌++◌, Text, String, codes, text_eq, get_elem?, length, upward,
}
use uscxml.Bits.{Bitset, no_bits, set_at}
use uscxml.Util.Convenience.{iequals}
use uscxml.Util.Strings.{tokenize}
use uscxml.Predicates
use uscxml.Predicates.{Dom, is_state, is_history, is_atomic, is_compound, is_descendant, is_member}
use uscxml.Content.{
  Element, Children, childless, child, text, other, node_of, children_of, attr?,
  filter_child_elements, has_elements,
}
use uscxml.Predicates.Walks.{
  handle_of, handles, in_document_order, get_states, same_node, filter_descendants,
  are_from_same_machine,
}
use uscxml.MicroStep.Tables.{Kind, State}
use uscxml.MicroStep.Init.Marks.{
  type_is, mark_listed, from_list, index_of, some_all, handle_or_null, first,
}

-- What a later `setUserData` leaves of an earlier one
abbrev pub later_or : Option ℕ → Option ℕ → Option ℕ
later_or (some h) o = some h
later_or none o = o

-- The climb goes on from a state, and ends at any other node.
abbrev pub climb_on : Option ℕ → List ℕ → List ℕ
climb_on none rest = []
climb_on (some k) rest = k ∷ rest

module _ (dom : Dom) (scxml : Element) where
  abbrev pub xml_prefix : Text
  xml_prefix = (node_of scxml).prefix

  abbrev has_prefixed : String → Text → Bool
  has_prefixed t tag = text_eq tag (xml_prefix ++ codes t)

  -- The tags of `_states`
  abbrev pub state_tag : Text → Bool
  state_tag tag =
      has_prefixed "state" tag
      || has_prefixed "parallel" tag
      || has_prefixed "scxml" tag
      || has_prefixed "initial" tag
      || has_prefixed "final" tag
      || has_prefixed "history" tag

  unfoldable pub state_elements : List Element
  unfolding in_document_order
  state_elements = in_document_order state_tag scxml

  -- The order of the tests is that of the code; `isFinal` is that of the predicates.
  unfoldable pub kind_of : Element → Kind
  unfolding is_history is_atomic
  kind_of e =
      let n = node_of e in
      if iequals n.tag_name (xml_prefix ++ codes "initial")
      then Kind.initial
      else if Predicates.is_final dom n.handle
      then Kind.final
      else if is_history dom n.handle
      then (if type_is "deep" n then Kind.history_deep else Kind.history_shallow)
      else if is_atomic dom n.handle
      then Kind.atomic
      else if Predicates.is_parallel dom n.handle
      then Kind.parallel
      else Kind.compound

  abbrev pub parent_node : Element → Option ℕ
  parent_node e = first (dom.ancestors (handle_of e))

  -- The two tests of the loop in `getHistoryCompletion`: below the parent of the history, or beside it
  abbrev pub below_parent : Element → Element → Bool
  below_parent history e = elim (parent_node history) [
    | none ↦ false
    | some p ↦ is_descendant dom (handle_of e) p
  ]

  abbrev beside : Element → Element → Bool
  beside history e = same_node (parent_node e) (parent_node history)

  -- `getHistoryCompletion`; `covered` stays empty.
  unfoldable pub history_completion : Element → List Element → List ℕ
  unfolding is_history is_descendant
  history_completion history [] = []
  history_completion history (e ∷ es) =
      let rest = history_completion history es in
      let covers =
        if type_is "deep" (node_of history) then below_parent history e else beside history e in
      if not (handle_of e == handle_of history) && covers && not (is_history dom (handle_of e))
      then handle_of e ∷ rest
      else rest

  -- The user data `hasHistoryChild` that it leaves at the history: the last state of those that were set
  unfoldable pub has_history_child : Element → List Element → Option ℕ
  unfolding is_history is_descendant
  has_history_child history [] = none
  has_history_child history (e ∷ es) = later_or (has_history_child history es) (
      if not (handle_of e == handle_of history)
        && below_parent history e
        && is_history dom (handle_of e)
      then some (handle_of e)
      else none)

  abbrev handles_of_states : List (Option Element) → List (Option ℕ)
  handles_of_states [] = []
  handles_of_states (e ∷ es) = handle_or_null e ∷ handles_of_states es

  -- `getChildStates(element)`
  abbrev proper_children : Children → List ℕ
  proper_children childless = []
  proper_children (text t cs) = proper_children cs
  proper_children (other cs) = proper_children cs
  proper_children (child e cs) =
      let rest = proper_children cs in
      if is_state dom true (handle_of e) then handle_of e ∷ rest else rest

  abbrev at_most_one : Option ℕ → List (Option ℕ)
  at_most_one none = []
  at_most_one (some h) = some h ∷ []

  -- `getCompletion`
  unfoldable pub get_completion : Element → List (Option ℕ)
  unfolding history_completion get_states tokenize filter_child_elements
  get_completion e =
      let n = node_of e in
      if is_history dom n.handle
      then some_all (history_completion e state_elements)
      else if Predicates.is_parallel dom n.handle
      then some_all (proper_children (children_of e))
      else elim (attr? "initial" n) [
        | some ids ↦ handles_of_states (get_states dom (tokenize ids 32 true) scxml)
        | none ↦ elim (filter_child_elements (xml_prefix ++ codes "initial") (children_of e)) [
          | i ∷ is ↦ some (handle_of i) ∷ []
          | [] ↦ at_most_one (first (proper_children (children_of e)))
        ]
      ]

  -- The indices that the climb over the parents meets
  unfoldable pub climb : List ℕ → List ℕ
  unfolding index_of state_elements
  climb [] = []
  climb (p ∷ ps) = climb_on (index_of state_elements p) (climb ps)

  abbrev pub climb_from : Element → List ℕ
  climb_from e = climb (dom.ancestors (handle_of e))

  unfoldable pub parent_of : Element → ℕ
  unfolding index_of state_elements
  parent_of e = elim (parent_node e) [
    | none ↦ 0
    | some p ↦ elim (index_of state_elements p) [ none ↦ 0 | some k ↦ k ]
  ]

  -- `BIT_SET_AT(documentOrder, ancestors)` for each index of the climb
  unfoldable pub set_all : List ℕ → Bitset → Bitset
  set_all [] b = b
  set_all (k ∷ ks) b = set_all ks (set_at k b)

  -- `BIT_SET_AT(i, children)` at each index of the climb, in the bits of all states
  unfoldable pub add_child : ℕ → List ℕ → (ℕ → Bitset) → ℕ → Bitset
  add_child i [] rows = rows
  add_child i (k ∷ ks) rows = add_child i ks (λ j. if j == k then set_at i (rows j) else rows j)

  abbrev pub climb_at : ℕ → List ℕ
  climb_at i = elim (get_elem? state_elements i) [ none ↦ [] | some e ↦ climb_from e ]

  -- `children` of all states, after the loop over the states
  unfoldable pub children_rows : ℕ → Bitset
  unfolding add_child climb
  children_rows =
      upward (length state_elements) (λ i rows. add_child i (climb_at i) rows) (λ j. no_bits)

  abbrev handles_of : String → Element → List ℕ
  handles_of t e = handles (filter_child_elements (xml_prefix ++ codes t) (children_of e))

  -- The <data> of the <datamodel> children
  abbrev data_of : List Element → List ℕ
  data_of [] = []
  data_of (m ∷ ms) = handles_of "data" m ++ data_of ms

  -- `remove_if`, of those that are not from the same machine
  abbrev same_machine : List Element → List Element
  same_machine [] = []
  same_machine (m ∷ ms) =
      let rest = same_machine ms in
      if are_from_same_machine dom (handle_of m) (handle_of scxml) then m ∷ rest else rest

  abbrev is_late : Bool
  is_late = elim (attr? "binding" (node_of scxml)) [
    | none ↦ false
    | some v ↦ iequals v (codes "late")
  ]

  -- The data elements of a state: all of the machine's at the first state, or each state's own
  unfoldable pub datas : ℕ → Element → List ℕ
  unfolding filter_child_elements filter_descendants are_from_same_machine
  datas i e =
      if is_late
      then (elim (filter_child_elements (xml_prefix ++ codes "datamodel") (children_of e)) [
        | [] ↦ []
        | m ∷ ms ↦ data_of (m ∷ ms)
      ])
      else if i == 0
      then data_of
          (same_machine (filter_descendants (xml_prefix ++ codes "datamodel") (children_of e)))
      else []

  -- `_states[i]`
  unfoldable pub state_row : ℕ → Element → State
  unfolding kind_of get_completion mark_listed climb parent_of set_all children_rows
      has_history_child filter_child_elements has_elements
  state_row i e =
      let completion = (mark_listed state_elements (get_completion e)).0 in
      record {
        element = handle_of e;
        completion = from_list completion;
        children = children_rows i;
        ancestors = set_all (climb_from e) no_bits;
        parent = parent_of e;
        datas = datas i e;
        invokes = handles_of "invoke" e;
        on_entry = if i == 0 then handles_of "script" e else handles_of "onentry" e;
        on_exit = handles_of "onexit" e;
        done_data = first (handles_of "donedata" e);
        kind = kind_of e;
        has_history =
            is_history dom (handle_of e)
            && same_node (has_history_child e state_elements) (some (handle_of e));
      }
