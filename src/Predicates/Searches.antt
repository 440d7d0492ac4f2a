-- ===== src/Predicates/Searches.antt =====
-- `getState` of src/uscxml/util/Predicates.cpp ends with a state or without one.
use uscxml.Prelude.{
  ℕ, zero, suc, ◌+◌, ◌≤◌, ◌<◌, ◌≡◌, refl, true, false, Bool-cases, Option, none, some, List, [],
  ◌∷◌, ◌++◌, inl, inr, Text, arith,
}
use uscxml.Predicates.{Dom, is_state}
use uscxml.Content.{Element, element, Children, childless, child, text, other, children_of}
use uscxml.Predicates.Walks.{
  handle_of, Search, found, absent, no_state, has_id, child_states, search_state, size,
  size_children, get_state,
}

abbrev total : List Element → ℕ
total [] = 0
total (e ∷ es) = size e + total es

total-append : (es fs : List Element) → total (es ++ fs) ≡ total es + total fs
total-append [] fs = omega arith
total-append (e ∷ es) fs = omega (arith, total-append es fs)

module _ (dom : Dom) where
  abbrev AllStates : List Element → Type 0
  AllStates [] = Unit
  AllStates (e ∷ es) = (is_state dom false (handle_of e) ≡ true) × AllStates es

  AllStates-append : (es fs : List Element) → AllStates es → AllStates fs → AllStates (es ++ fs)
  AllStates-append [] fs h k = k
  AllStates-append (e ∷ es) fs h k = (h.0, AllStates-append es fs h.1 k)

  child_states-AllStates : (cs : Children) → AllStates (child_states dom cs)
  unfolding child_states
  child_states-AllStates childless = tt
  child_states-AllStates (text t cs) = child_states-AllStates cs
  child_states-AllStates (other cs) = child_states-AllStates cs
  child_states-AllStates (child e cs) = elim (Bool-cases (is_state dom false (handle_of e))) [
    | inl state ↦ rw state (state, child_states-AllStates cs)
    | inr inner ↦ rw inner (child_states-AllStates cs)
  ]

  total-child_states : (cs : Children) → total (child_states dom cs) ≤ size_children cs
  unfolding child_states size_children
  total-child_states childless = omega arith
  total-child_states (text t cs) = total-child_states cs
  total-child_states (other cs) = total-child_states cs
  total-child_states (child e cs) = elim (Bool-cases (is_state dom false (handle_of e))) [
    | inl state ↦ rw state (omega (arith, total-child_states cs))
    | inr inner ↦ rw inner (omega (arith, total-child_states cs))
  ]

  size-children : (e : Element) → size e ≡ suc (size_children (children_of e))
  unfolding size
  size-children (element n cs) = refl

  -- How a search ends: the fuel is enough, no assertion fails, and what is found has the id.
  abbrev pub Ended : Text → Option Search → Type 0
  Ended id none = ⊥
  Ended id (some (found e)) = has_id id e ≡ true
  Ended id (some absent) = Unit
  Ended id (some no_state) = ⊥

  search_state-Ended :
      (fuel : ℕ) (id : Text) (es : List Element)
      → total es < fuel
      → AllStates es
      → Ended id (search_state dom fuel id es)
  unfolding search_state
  search_state-Ended zero id es lt h = absurd (omega arith)
  search_state-Ended (suc fuel) id [] lt h = tt
  search_state-Ended (suc fuel) id (e ∷ es) lt h =
      let below = child_states dom (children_of e) in
      let rest =
        search_state-Ended fuel id (es ++ below)
          (omega
            (arith, lt, total-append es below, total-child_states (children_of e), size-children e))
          (AllStates-append es below h.1 (child_states-AllStates (children_of e))) in
      elim (Bool-cases (has_id id e)) [
        | inl named ↦ rw (h.0, named) named
        | inr unnamed ↦ rw (h.0, unnamed) rest
      ]

  -- Below a state, `getState` ends in as many rounds as there are elements, and no assertion fails; a state that
  -- it gives has the id.
  pub get_state-Ended :
      (id : Text) (root : Element)
      → is_state dom false (handle_of root) ≡ true
      → Ended id (get_state dom id root)
  unfolding get_state
  get_state-Ended id root h =
      search_state-Ended (suc (size root)) id (root ∷ []) (omega arith) (h, tt)
