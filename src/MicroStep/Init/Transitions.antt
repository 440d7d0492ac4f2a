-- ===== src/MicroStep/Init/Transitions.antt =====
-- The transitions of `FastMicroStep::init`
use uscxml.Prelude.{
  ℕ, suc, ◌==◌, ltb, Bool, true, false, if◌then◌else◌, Option, none, some, List, [], ◌∷◌, ◌++◌,
  Text, String, codes, get_elem?, upward, find, put,
}
use uscxml.Bits.{Bitset, no_bits, set_at}
use uscxml.Util.Convenience.{iequals}
use uscxml.Util.Strings.{tokenize}
use uscxml.Predicates.{Dom}
use uscxml.Content.{
  Element, node_of, children_of, attr?, attr_of, filter_child_elements, has_elements,
}
use uscxml.Predicates.Walks.{handles, in_post_fix_order, get_exit_set, conflicts}
use uscxml.MicroStep.Tables.{Transition}
use uscxml.MicroStep.Init.Marks.{mark_listed, from_list, some_all}
use uscxml.MicroStep.Init.States.{parent_node, state_tag, state_elements, parent_of}

module _ (dom : Dom) (scxml : Element) where
  abbrev prefix : Text
  prefix = (node_of scxml).prefix

  -- `_transitions`: those of the states in post-fix order
  abbrev transitions_of : List Element → List Element
  transitions_of [] = []
  transitions_of (e ∷ es) =
      filter_child_elements (prefix ++ codes "transition") (children_of e) ++ transitions_of es

  unfoldable pub transition_elements : List Element
  unfolding in_post_fix_order filter_child_elements
  transition_elements = transitions_of (in_post_fix_order (state_tag dom scxml) scxml)

  abbrev pub transition_at : ℕ → Option Element
  transition_at i = get_elem? transition_elements i

  -- `conflictsCached`, of two entries of `_transitions`
  abbrev pub conflict_between : Option Element → Option Element → Bool
  conflict_between none b = false
  conflict_between (some a) none = false
  conflict_between (some a) (some b) = conflicts dom (node_of a) (node_of b) scxml

  abbrev pub conflict_of : ℕ → ℕ → Bool
  conflict_of i j = conflict_between (transition_at i) (transition_at j)

  -- The bits `conflicts` of transition `i`: those from `i` on are computed, and those before it are taken from
  -- the bits of the transitions before it.
  abbrev pub conflict_row : (ℕ → Bitset) → ℕ → Bitset
  conflict_row rows i j = if ltb j i then rows j i else conflict_of i j

  -- The loop over the transitions
  unfoldable pub conflict_rows : ℕ → ℕ → Bitset
  unfolding conflicts transition_elements
  conflict_rows n =
      upward n (λ i rows j. if j == i then conflict_row rows i else rows j) (λ j. no_bits)

  -- `_stateIds`, after the loop over the states
  unfoldable pub state_ids : ℕ → List Element → List (Text × ℕ) → List (Text × ℕ)
  unfolding put
  state_ids i [] ids = ids
  state_ids i (e ∷ es) ids = elim (attr? "id" (node_of e)) [
    | none ↦ state_ids (suc i) es ids
    | some id ↦ state_ids (suc i) es (put id i ids)
  ]

  -- The bits of the targets; an unknown id is skipped.
  unfoldable pub target_bits : List (Text × ℕ) → List Text → Bitset → Bitset
  unfolding find
  target_bits ids [] b = b
  target_bits ids (t ∷ ts) b = elim (find t ids) [
    | none ↦ target_bits ids ts b
    | some i ↦ target_bits ids ts (set_at i b)
  ]

  abbrev parent_is : String → Element → Bool
  parent_is t e = elim (parent_node dom scxml e) [
    | none ↦ false
    | some p ↦ iequals (dom.tag_name p) (prefix ++ codes t)
  ]

  -- `_transitions[i]`; the event and the condition are empty where the attribute is missing.
  unfoldable pub transition_row : (ℕ → Bitset) → ℕ → Element → Transition
  unfolding conflict_rows mark_listed get_exit_set target_bits state_ids tokenize parent_of
      has_elements
  transition_row rows i e =
      let n = node_of e in
      let exit_set =
        (mark_listed (state_elements dom scxml)
          (some_all (handles (get_exit_set dom n scxml)))).0 in
      record {
        element = n.handle;
        conflicts = rows i;
        exit_set = from_list exit_set;
        source = parent_of dom scxml e;
        target =
            target_bits (state_ids 0 (state_elements dom scxml) [])
              (tokenize (attr_of "target" n) 32 true) no_bits;
        on_trans = if has_elements (children_of e) then some n.handle else none;
        event = attr_of "event" n;
        cond = attr_of "cond" n;
        is_history = parent_is "history" e;
        is_initial = parent_is "initial" e;
      }
