-- ===== src/MicroStep/Init/Conflicts.antt =====
-- The conflict matrix of `FastMicroStep::init`
use uscxml.Prelude.{
  ℕ, zero, suc, ◌<◌, ◌≡◌, refl, sym, ◌∙◌, ltb, ◌==◌, Bool, true, false, Bool-cases, if◌then◌else◌,
  Option, none, some, inl, inr, upward, arith, ==_iff,
}
use uscxml.Predicates.{Dom}
use uscxml.Content.{Element}
use uscxml.Predicates.Walks.{conflicts, same_node}
use uscxml.MicroStep.Init.Transitions.{
  conflict_rows, conflict_row, conflict_of, conflict_between, transition_at,
}

same_node_refl : (o : Option ℕ) → same_node o o ≡ true
same_node_refl none = refl
same_node_refl (some a) = ground arith

module _ (dom : Dom) (scxml : Element) where
  conflict_rows-row :
      (n i j : ℕ)
      → i < n
      → conflict_rows dom scxml n i j ≡ conflict_row dom scxml (conflict_rows dom scxml i) i j
  unfolding conflict_rows upward
  conflict_rows-row zero i j lt = absurd (omega arith)
  conflict_rows-row (suc n) i j lt = elim (Bool-cases (i == n)) [
    | inl same ↦ rw (same, sym ((==_iff i n).0 same)) refl
    | inr other ↦ rw other (conflict_rows-row n i j (ground (arith)))
  ]

  -- Each entry is the conflict of the two transitions, the one with the lower index first.
  conflict_rows-entry :
      (n i j : ℕ)
      → i < n
      → conflict_rows dom scxml n i j
        ≡ (if ltb j i then conflict_of dom scxml j i else conflict_of dom scxml i j)
  conflict_rows-entry n i j lt = elim (Bool-cases (ltb j i)) [
    | inl less ↦
        conflict_rows-row n i j lt
        ∙ rw less (conflict_rows-row i j i (ground arith) ∙ rw (not_less i j less) refl)
    | inr more ↦ conflict_rows-row n i j lt ∙ rw more refl
  ]
    where
      not_less : (i j : ℕ) → ltb j i ≡ true → ltb i j ≡ false
      not_less i j h = ground arith

  conflict_between_refl :
      (o : Option Element) (e : Element) → o ≡ some e → conflict_between dom scxml o o ≡ true
  unfolding conflicts
  conflict_between_refl none e h = cc
  conflict_between_refl (some a) e h = rw (same_node_refl _) refl

  -- The conflict matrix is symmetric, and every transition is in conflict with itself.
  pub conflict_rows_symmetric :
      (n i j : ℕ)
      → i < n
      → j < n
      → (conflict_rows dom scxml n i j ≡ conflict_rows dom scxml n j i)
        × ((e : Element)
            → transition_at dom scxml i ≡ some e
            → conflict_rows dom scxml n i i ≡ true)
  conflict_rows_symmetric n i j lt lt' = (
    conflict_rows-entry n i j lt ∙ swap ∙ sym (conflict_rows-entry n j i lt'),
    λ e h. conflict_rows-entry n i i lt ∙ same e h,
  )
    where
      swap :
          (if ltb j i then conflict_of dom scxml j i else conflict_of dom scxml i j)
          ≡ (if ltb i j then conflict_of dom scxml i j else conflict_of dom scxml j i)
      swap = ground arith

      same :
          (e : Element)
          → transition_at dom scxml i ≡ some e
          → (if ltb i i then conflict_of dom scxml i i else conflict_of dom scxml i i) ≡ true
      same e h = rw (conflict_between_refl (transition_at dom scxml i) e h) (if_same (ltb i i))
        where
          if_same : (b : Bool) → (if b then true else true) ≡ true
          if_same true = refl
          if_same false = refl
