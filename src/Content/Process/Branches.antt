-- ===== src/Content/Process/Branches.antt =====
-- The blocks of an <if>, one after the other, as `processIf` means them.
use uscxml.Prelude.{
  ◌≡◌, refl, fun_ext, Bool, true, false, Bool-cases, if◌then◌else◌, Option, none, some, List, [],
  ◌∷◌, Text, codes, ap, inl, inr, ◌∙◌,
}
use uscxml.Predicates.{Dom}
use uscxml.Content.{
  Element, node_of, attr_of, Children, childless, child, text, other, ContentCallbacks, Action,
  pure, ask, ◌>>=◌, ◌>>◌,
}
use uscxml.Content.Process.{process, process_if, has_tag}

-- A block and what it depends on: a condition, or none for <else>
abbrev pub Branch : Type 0
Branch = Option Text × List Element

-- The first block, up to an <elseif> or <else>, and the branches that follow it
abbrev pub split_branches : Text → Children → List Element × List Branch
split_branches prefix childless = ([], [])
split_branches prefix (text t cs) = split_branches prefix cs
split_branches prefix (other cs) = split_branches prefix cs
split_branches prefix (child e cs) =
    let (block, rest) = split_branches prefix cs in
    if has_tag prefix (codes "elseif") (node_of e)
    then ([], (some (attr_of "cond" (node_of e)), block) ∷ rest)
    else if has_tag prefix (codes "else") (node_of e)
    then ([], (none, block) ∷ rest)
    else (e ∷ block, rest)

module _ {W : Type 0} (dom : Dom) (cb : ContentCallbacks W) where
  unfoldable pub process_each : List Element → Action W (Unit {0})
  process_each [] = pure tt
  process_each (e ∷ es) = do process dom cb e; process_each es

  -- Runs the first block whose condition holds, and evaluates no condition behind it.
  unfoldable pub choose : List Branch → Action W (Unit {0})
  unfolding process_each
  choose [] = pure tt
  choose ((none, block) ∷ bs) = process_each block
  choose ((some c, block) ∷ bs) = do
    holds ← ask (cb.is_true c)
    if holds then process_each block else choose bs

  if_eta :
      (f : Bool → Action W (Unit {0})) (m k : Action W (Unit {0}))
      → f true ≡ m
      → f false ≡ k
      → (b : Bool) → f b ≡ (if b then m else k)
  if_eta f m k p q true = p
  if_eta f m k p q false = q

  bind-if :
      (a : Action W Bool) (f : Bool → Action W (Unit {0})) (m k : Action W (Unit {0}))
      → f true ≡ m
      → f false ≡ k
      → (a >>= f) ≡ (a >>= λ b. if b then m else k)
  bind-if a f m k p q = ap (λ g. a >>= g) (fun_ext (if_eta f m k p q))

  pure_then : (m : Action W (Unit {0})) → (pure tt >> m) ≡ m
  unfolding ◌>>◌
  pure_then m = refl

  mutual
    unfolding process_if process_each choose

    process_if-true :
        (prefix : Text) (cs : Children)
        → process_if dom cb prefix cs true ≡ process_each (split_branches prefix cs).0
    process_if-true prefix childless = refl
    process_if-true prefix (text t cs) = process_if-true prefix cs
    process_if-true prefix (other cs) = process_if-true prefix cs
    process_if-true prefix (child e cs) =
        elim (Bool-cases (has_tag prefix (codes "elseif") (node_of e))) [
          | inl a ↦ rw a refl
          | inr a ↦ elim (Bool-cases (has_tag prefix (codes "else") (node_of e))) [
            | inl b ↦ rw (a, b) refl
            | inr b ↦ rw (a, b) (ap (λ m. process dom cb e >> m) (process_if-true prefix cs))
          ]
        ]

    process_if-false :
        (prefix : Text) (cs : Children)
        → process_if dom cb prefix cs false ≡ choose (split_branches prefix cs).1
    process_if-false prefix childless = refl
    process_if-false prefix (text t cs) = process_if-false prefix cs
    process_if-false prefix (other cs) = process_if-false prefix cs
    process_if-false prefix (child e cs) =
        elim (Bool-cases (has_tag prefix (codes "elseif") (node_of e))) [
          | inl a ↦ rw a (bind-if _ _ _ _ (process_if-true prefix cs) (process_if-false prefix cs))
          | inr a ↦ elim (Bool-cases (has_tag prefix (codes "else") (node_of e))) [
            | inl b ↦ rw (a, b) (process_if-true prefix cs)
            | inr b ↦ rw (a, b) (pure_then _ ∙ process_if-false prefix cs)
          ]
        ]

  -- <if> evaluates its conditions in order up to the first that holds, and runs the elements between it and
  -- the next <elseif> or <else>, and no others; those of <else> where none holds.
  pub process_if-choose :
      (prefix cond : Text) (cs : Children)
      → (ask (cb.is_true cond) >>= process_if dom cb prefix cs) ≡ (
          let (block, branches) = split_branches prefix cs in
          choose ((some cond, block) ∷ branches))
  unfolding choose
  process_if-choose prefix cond cs =
      bind-if _ _ _ _ (process_if-true prefix cs) (process_if-false prefix cs)
