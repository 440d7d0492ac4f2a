-- ===== src/Predicates/Tests.antt =====
-- A chart: scxml 0 holds the states 1 and 4, 1 holds 2 and 3; the transition 5 of 2 targets 3.
use uscxml.Prelude.{ℕ, ◌≡◌, refl, true, none, some, List, [], ◌∷◌, Text, codes, get_or}
use uscxml.Util.Convenience.{iequals}
use uscxml.Predicates.{
  Dom, find_lcca, get_transition_domain, get_source_state, get_proper_ancestors, ancestors_up_to,
  is_wrapper, is_end, is_state, is_compound, is_descendant, get_child_states,
}
use uscxml.Predicates.Laws.{
  Chain, Covers, IsLeast, is_common, find_lcca-IsLeast, get_transition_domain-Covers,
}

abbrev names : List Text
names =
    codes "scxml"
    ∷ codes "state"
    ∷ codes "state"
    ∷ codes "state"
    ∷ codes "state"
    ∷ codes "transition"
    ∷ []

abbrev tree : Dom
tree = record {
  ancestors = λ n.
      get_or ([] ∷ (0 ∷ []) ∷ (1 ∷ 0 ∷ []) ∷ (1 ∷ 0 ∷ []) ∷ (0 ∷ []) ∷ (2 ∷ 1 ∷ 0 ∷ []) ∷ []) n [];
  child_elements = λ n. get_or ((1 ∷ 4 ∷ []) ∷ (2 ∷ 3 ∷ []) ∷ (5 ∷ []) ∷ []) n [];
  is_element = λ n. true;
  local_name = λ n. get_or names n [];
  tag_name = λ n. get_or names n [];
  xml_prefix = λ n. [];
  attr = λ n a. none;
}

find_lcca-IsLeast_example :
    (a : ℕ) × ((find_lcca tree 2 (3 ∷ []) ≡ some a) × IsLeast tree (2 ∷ 3 ∷ []) a 0)
unfolding Chain is_common is_compound is_descendant is_state get_child_states get_proper_ancestors
    ancestors_up_to is_wrapper is_end iequals
find_lcca-IsLeast_example = find_lcca-IsLeast tree 2 (3 ∷ []) 0 (refl, (refl, tt)) refl refl

get_transition_domain-Covers_example :
    (d : ℕ) × ((get_transition_domain tree 5 (3 ∷ []) ≡ some d) × Covers tree d (3 ∷ []))
unfolding Chain is_common is_compound is_descendant is_state get_child_states get_proper_ancestors
    ancestors_up_to is_wrapper is_end iequals get_source_state
get_transition_domain-Covers_example =
    get_transition_domain-Covers tree 5 2 3 [] 1 refl (refl, (refl, tt)) refl refl
