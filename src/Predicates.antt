-- ===== src/Predicates.antt =====
-- The predicates on the elements of a chart: src/uscxml/util/Predicates.cpp, and `isDescendant` and
-- `hasIntersection` of src/uscxml/util/DOM.cpp. A node is a handle.
pub mod Laws
pub mod Walks
pub mod Searches
mod Tests
use uscxml.Prelude.{
  ℕ, Bool, true, false, not, ◌&&◌, ◌||◌, ◌==◌, if◌then◌else◌, Option, none, some, List, [], ◌∷◌,
  ◌++◌, Text, String, codes,
}
use uscxml.Util.Convenience.{iequals}

-- What the code reads of the DOM. `ancestors n` are the nodes that `getParentNode`, called again and
-- again, gives from `n` on; `child_elements n` those of `getFirstElementChild` and its next siblings.
pub record Dom : Type 0 where
  pub ancestors : ℕ → List ℕ
  pub child_elements : ℕ → List ℕ
  pub is_element : ℕ → Bool
  pub local_name : ℕ → Text
  pub tag_name : ℕ → Text
  -- `XML_PREFIX`, with its colon
  pub xml_prefix : ℕ → Text
  pub attr : ℕ → Text → Option Text

abbrev pub is_member : ℕ → List ℕ → Bool
is_member n [] = false
is_member n (x ∷ l) = x == n || is_member n l

-- `hasIntersection`
abbrev pub has_intersection : List ℕ → List ℕ → Bool
has_intersection [] l2 = false
has_intersection (i ∷ l1) l2 = is_member i l2 || has_intersection l1 l2

abbrev pub all_of : (ℕ → Bool) → List ℕ → Bool
all_of p [] = true
all_of p (x ∷ l) = p x && all_of p l

abbrev filter_by : (ℕ → Bool) → List ℕ → List ℕ
filter_by p [] = []
filter_by p (x ∷ l) = let rest = filter_by p l in if p x then x ∷ rest else rest

abbrev is_nonempty : List ℕ → Bool
is_nonempty [] = false
is_nonempty (x ∷ l) = true

-- `list.back()`, if there is one
abbrev pub back : List ℕ → Option ℕ
back [] = none
back (x ∷ []) = some x
back (x ∷ y ∷ l) = back (y ∷ l)

module _ (dom : Dom) where
  abbrev has_name : String → ℕ → Bool
  has_name s n = iequals (codes s) (dom.local_name n)

  unfoldable pub is_state : Bool → ℕ → Bool
  is_state proper_only n =
      if has_name "state" n || has_name "scxml" n || has_name "parallel" n || has_name "final" n
      then true
      else if proper_only
      then false
      else has_name "history" n || has_name "initial" n

  unfoldable pub is_final : ℕ → Bool
  is_final n =
      has_name "final" n
      || elim (dom.attr n (codes "final")) [ none ↦ false | some v ↦ iequals (codes "true") v ]

  unfoldable pub get_child_states : Bool → ℕ → List ℕ
  get_child_states proper_only n = filter_by (is_state proper_only) (dom.child_elements n)

  unfoldable pub is_atomic : ℕ → Bool
  is_atomic n =
      if not (is_state true n)
      then false
      else if has_name "final" n
      then true
      else if has_name "parallel" n
      then false
      else not (is_nonempty (get_child_states true n))

  unfoldable pub is_history : ℕ → Bool
  is_history n = has_name "history" n

  unfoldable pub is_parallel : ℕ → Bool
  is_parallel n = is_state true n && has_name "parallel" n

  unfoldable pub is_compound : ℕ → Bool
  is_compound n =
      if not (is_state true n)
      then false
      else if has_name "parallel" n
      then false
      else is_nonempty (get_child_states true n)

  -- `while (parent && !isState(dynamic_cast<DOMElement*>(parent)))`
  first_state : List ℕ → Option ℕ
  first_state [] = none
  first_state (p ∷ l) =
      let rest = first_state l in if dom.is_element p && is_state true p then some p else rest

  unfoldable pub get_parent_state : ℕ → Option ℕ
  unfolding first_state
  get_parent_state n = first_state (dom.ancestors n)

  -- `none` for a null pointer
  unfoldable pub get_source_state : ℕ → Option ℕ
  get_source_state t = elim (dom.ancestors t) [
    | [] ↦ none
    | p ∷ l ↦
        if iequals (dom.tag_name p) (dom.xml_prefix t ++ codes "initial")
        then elim l [ [] ↦ none | g ∷ l' ↦ some g ]
        else some p
  ]

  unfoldable pub is_descendant : ℕ → ℕ → Bool
  is_descendant s1 s2 = is_member s2 (dom.ancestors s1)

  -- The tests of `getProperAncestors` but for the last one
  unfoldable pub is_wrapper : ℕ → Bool
  is_wrapper n =
      dom.is_element n
      && is_state true n
      && (iequals (dom.local_name n) (codes "parallel")
          || iequals (dom.local_name n) (codes "state")
          || iequals (dom.local_name n) (codes "scxml"))

  unfoldable pub is_end : Option ℕ → ℕ → Bool
  is_end none n = false
  is_end (some s) n = n == s

  -- The loop of `getProperAncestors`
  unfoldable pub ancestors_up_to : Option ℕ → List ℕ → List ℕ
  ancestors_up_to s2 [] = []
  ancestors_up_to s2 (n ∷ l) =
      let rest = ancestors_up_to s2 l in if not (is_wrapper n) || is_end s2 n then [] else n ∷ rest

  unfoldable pub get_proper_ancestors : ℕ → Option ℕ → List ℕ
  get_proper_ancestors s1 s2 =
      if is_state false s1 then ancestors_up_to s2 (dom.ancestors s1) else []

  -- The loop of `findLCCA`
  unfoldable pub first_common : List ℕ → List ℕ → Option ℕ
  first_common states [] = none
  first_common states (a ∷ l) =
      let rest = first_common states l in
      if is_compound a && all_of (λ s. is_descendant s a) states then some a else rest

  -- `findLCCA`, of the states `front` and `others`
  unfoldable pub find_lcca : ℕ → List ℕ → Option ℕ
  find_lcca front others =
      let ancestors = get_proper_ancestors front none in
      elim (first_common (front ∷ others) ancestors) [ some a ↦ some a | none ↦ back ancestors ]

  -- `getTransitionDomain`, of the target states that `getTargetStates` finds
  unfoldable pub get_transition_domain : ℕ → List ℕ → Option ℕ
  get_transition_domain t targets =
      if not (is_nonempty targets)
      then none
      else (let type : Text = elim (dom.attr t (codes "type")) [
        | none ↦ codes "external"
        | some v ↦ v
      ] in
          elim (get_source_state t) [
            | none ↦ none
            | some source ↦
                if iequals type (codes "internal")
                  && is_compound source
                  && all_of (λ s. is_descendant s source) targets
                then some source
                else find_lcca source targets
          ])
