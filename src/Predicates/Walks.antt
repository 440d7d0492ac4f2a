-- ===== src/Predicates/Walks.antt =====
-- The walks down a chart: `filterElementGeneric` of src/uscxml/util/DOM.cpp, and `getState`, `getStates`,
-- `getTargetStates`, `getExitSet` and `conflicts` of src/uscxml/util/Predicates.cpp. The chart is the tree of
-- elements, and the predicates read the same chart as a `Dom`.
use uscxml.Prelude.{
  ℕ, zero, suc, ◌+◌, ◌==◌, Bool, true, false, not, ◌||◌, if◌then◌else◌, Option, none, some, List,
  [], ◌∷◌, ◌++◌, Text, codes, text_eq,
}
use uscxml.Util.Convenience.{iequals}
use uscxml.Util.Strings.{tokenize}
use uscxml.Content.{
  Node, Element, element, Children, childless, child, text, other, node_of, children_of, attr?,
  attr_of,
}
use uscxml.Predicates.{
  Dom, is_state, is_descendant, has_intersection, get_source_state, get_transition_domain,
}

abbrev pub handle_of : Element → ℕ
handle_of e = (node_of e).handle

abbrev pub handles : List Element → List ℕ
handles [] = []
handles (e ∷ es) = handle_of e ∷ handles es

unfoldable mutual
  -- `DOMUtils::inDocumentOrder`, of the tags that `keep` holds of; a <scxml> inside another is left out.
  pub in_document_order : (Text → Bool) → Element → List Element
  in_document_order keep (element n cs) =
      let below = document_children keep n.prefix cs in
      if keep n.tag_name then element n cs ∷ below else below

  pub document_children : (Text → Bool) → Text → Children → List Element
  document_children keep prefix childless = []
  document_children keep prefix (text t cs) = document_children keep prefix cs
  document_children keep prefix (other cs) = document_children keep prefix cs
  document_children keep prefix (child e cs) =
      let here = in_document_order keep e in
      let rest = document_children keep prefix cs in
      if text_eq (node_of e).tag_name (prefix ++ codes "scxml") then rest else here ++ rest

unfoldable mutual
  -- `DOMUtils::inPostFixOrder`
  pub in_post_fix_order : (Text → Bool) → Element → List Element
  in_post_fix_order keep (element n cs) =
      let below = post_fix_children keep n.prefix cs in
      if keep n.tag_name then below ++ element n cs ∷ [] else below

  pub post_fix_children : (Text → Bool) → Text → Children → List Element
  post_fix_children keep prefix childless = []
  post_fix_children keep prefix (text t cs) = post_fix_children keep prefix cs
  post_fix_children keep prefix (other cs) = post_fix_children keep prefix cs
  post_fix_children keep prefix (child e cs) =
      let here = in_post_fix_order keep e in
      let rest = post_fix_children keep prefix cs in
      if text_eq (node_of e).tag_name (prefix ++ codes "scxml") then rest else here ++ rest

unfoldable mutual
  -- `DOMUtils::filterChildElements(tagName, element, true)`, of the children
  pub filter_descendants : Text → Children → List Element
  filter_descendants t childless = []
  filter_descendants t (text s cs) = filter_descendants t cs
  filter_descendants t (other cs) = filter_descendants t cs
  filter_descendants t (child e cs) = filter_element t e ++ filter_descendants t cs

  filter_element : Text → Element → List Element
  filter_element t (element n cs) =
      let below = filter_descendants t cs in
      if text_eq n.tag_name t then element n cs ∷ below else below

-- The element behind a handle, as a pointer has it
unfoldable mutual
  pub find_element : ℕ → Element → Option Element
  find_element h (element n cs) =
      let below = find_among h cs in if n.handle == h then some (element n cs) else below

  pub find_among : ℕ → Children → Option Element
  find_among h childless = none
  find_among h (text t cs) = find_among h cs
  find_among h (other cs) = find_among h cs
  find_among h (child e cs) =
      let rest = find_among h cs in elim (find_element h e) [ some x ↦ some x | none ↦ rest ]

-- What `getState` gives: a state, `NULL`, or a failed assertion
pub data Search : Type 0 where
  found : Element → Search
  absent : Search
  no_state : Search

abbrev pub has_id : Text → Element → Bool
has_id id e = elim (attr? "id" (node_of e)) [ none ↦ false | some v ↦ text_eq v id ]

module _ (dom : Dom) where
  -- `getChildStates(element, false)`
  unfoldable pub child_states : Children → List Element
  child_states childless = []
  child_states (text t cs) = child_states cs
  child_states (other cs) = child_states cs
  child_states (child e cs) =
      let rest = child_states cs in if is_state dom false (handle_of e) then e ∷ rest else rest

  -- The loop of `getState` over its stack, which it uses as a queue; `none`: the fuel ran out.
  unfoldable pub search_state : ℕ → Text → List Element → Option Search
  unfolding child_states
  search_state zero id stack = none
  search_state (suc fuel) id [] = some absent
  search_state (suc fuel) id (e ∷ es) =
      let rest = search_state fuel id (es ++ child_states (children_of e)) in
      if not (is_state dom false (handle_of e))
      then some no_state
      else if has_id id e
      then some (found e)
      else rest

unfoldable mutual
  -- The number of elements
  pub size : Element → ℕ
  size (element n cs) = suc (size_children cs)

  pub size_children : Children → ℕ
  size_children childless = 0
  size_children (text t cs) = size_children cs
  size_children (other cs) = size_children cs
  size_children (child e cs) = size e + size_children cs

abbrev pub same_node : Option ℕ → Option ℕ → Bool
same_node (some a) (some b) = a == b
same_node none none = true
same_node (some a) none = false
same_node none (some b) = false

module _ (dom : Dom) where
  unfoldable pub get_state : Text → Element → Option Search
  unfolding search_state size
  get_state id root = search_state dom (suc (size root)) id (root ∷ [])

  abbrev pub element_or_null : Option Search → Option Element
  element_or_null none = none
  element_or_null (some (found e)) = some e
  element_or_null (some absent) = none
  element_or_null (some no_state) = none

  -- `getStates`: an id that no state has gives a null pointer.
  unfoldable pub get_states : List Text → Element → List (Option Element)
  unfolding get_state
  get_states [] root = []
  get_states (id ∷ ids) root = element_or_null (get_state id root) ∷ get_states ids root

  abbrev pub without_null : List (Option Element) → List Element
  without_null [] = []
  without_null (none ∷ es) = without_null es
  without_null (some e ∷ es) = e ∷ without_null es

  unfoldable pub get_target_states : Node → Element → List Element
  unfolding get_states tokenize
  get_target_states t root = without_null (get_states (tokenize (attr_of "target" t) 32 true) root)

  -- "do not include domain itself"
  abbrev drop_front : ℕ → List Element → List Element
  drop_front domain [] = []
  drop_front domain (e ∷ es) = if handle_of e == domain then es else e ∷ es

  abbrev exit_tag : Text → Text → Bool
  exit_tag prefix tag =
      text_eq tag (prefix ++ codes "parallel")
      || text_eq tag (prefix ++ codes "state")
      || text_eq tag (prefix ++ codes "final")

  -- `getExitSet`; where the list is empty, the code reads its front all the same.
  unfoldable pub get_exit_set : Node → Element → List Element
  unfolding get_target_states get_transition_domain find_element in_document_order
  get_exit_set t root = elim (attr? "target" t) [
    | none ↦ []
    | some ids ↦ elim (get_transition_domain dom t.handle (handles (get_target_states t root))) [
      | none ↦ []
      | some domain ↦ elim (find_element domain root) [
        | none ↦ []
        | some e ↦ drop_front domain (in_document_order (exit_tag t.prefix) e)
      ]
    ]
  ]

  -- `isDescendant`, which is false for null pointers
  abbrev pub descends : Option ℕ → Option ℕ → Bool
  descends (some a) (some b) = is_descendant dom a b
  descends (some a) none = false
  descends none b = false

  unfoldable pub conflicts : Node → Node → Element → Bool
  unfolding get_exit_set get_source_state is_descendant
  conflicts t1 t2 root =
      same_node (get_source_state dom t1.handle) (get_source_state dom t2.handle)
      || descends (get_source_state dom t1.handle) (get_source_state dom t2.handle)
      || descends (get_source_state dom t2.handle) (get_source_state dom t1.handle)
      || has_intersection (handles (get_exit_set t1 root)) (handles (get_exit_set t2 root))

  -- `getScxmlNode`
  abbrev first_scxml : List ℕ → Option ℕ
  first_scxml [] = none
  first_scxml (p ∷ ps) =
      let rest = first_scxml ps in
      if iequals (dom.local_name p) (codes "scxml") then some p else rest

  abbrev get_scxml_node : ℕ → Option ℕ
  get_scxml_node n = first_scxml (n ∷ dom.ancestors n)

  unfoldable pub are_from_same_machine : ℕ → ℕ → Bool
  are_from_same_machine n1 n2 = same_node (get_scxml_node n1) (get_scxml_node n2)
