-- ===== src/MicroStep/Init/Resort.antt =====
-- `resortStates` of src/uscxml/interpreter/FastMicroStep.cpp
use uscxml.Prelude.{Bool, not, ◌&&◌, ◌||◌, if◌then◌else◌, ◌++◌, Text, codes, text_eq}
use uscxml.Content.{Node, Element, element, Children, childless, child, text, other, node_of}
use uscxml.MicroStep.Init.Marks.{type_is, has_type}

-- One of the loops of `resortStates`: each child that `p` holds of is put in front of all others.
abbrev without : (Node → Bool) → Children → Children
without p childless = childless
without p (text t cs) = text t (without p cs)
without p (other cs) = other (without p cs)
without p (child e cs) = let rest = without p cs in if p (node_of e) then rest else child e rest

abbrev in_front : (Node → Bool) → Children → Children → Children
in_front p childless front = front
in_front p (text t cs) front = in_front p cs front
in_front p (other cs) front = in_front p cs front
in_front p (child e cs) front =
    let rest = in_front p cs in if p (node_of e) then rest (child e front) else rest front

abbrev pub pull : (Node → Bool) → Children → Children
pull p cs = in_front p cs (without p cs)

-- `resortStates`. The tests on the attribute `type` look at the parent, `n`.
unfoldable mutual
  pub resort_states : Text → Element → Element
  resort_states prefix (element n cs) =
      let history = λ (m : Node). text_eq m.tag_name (prefix ++ codes "history") in
      element n (
        pull (λ m. text_eq m.local_name (codes "initial"))
          (pull (λ m. history m && type_is "deep" n)
            (pull (λ m. history m && (not (has_type n) || type_is "shallow" n))
              (resort_children prefix cs))))

  pub resort_children : Text → Children → Children
  resort_children prefix childless = childless
  resort_children prefix (text t cs) = text t (resort_children prefix cs)
  resort_children prefix (other cs) = other (resort_children prefix cs)
  resort_children prefix (child e cs) = child (resort_states prefix e) (resort_children prefix cs)
