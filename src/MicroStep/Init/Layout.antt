-- ===== src/MicroStep/Init/Layout.antt =====
-- The tables of `FastMicroStep::init` are laid out as the step wants them.
use uscxml.Prelude.{
  ℕ, zero, suc, ◌<◌, ◌≡◌, refl, ap, sym, ◌∙◌, subst, false, Option, none, some, List, [], ◌∷◌, inl,
  inr, get_elem?, arith, Option-cases, ◌⊎◌,
}
use uscxml.Bits.{Bitset, count}
use uscxml.Predicates.{Dom}
use uscxml.Predicates.Laws.{Chain}
use uscxml.Content.{Element}
use uscxml.Predicates.Walks.{handle_of}
use uscxml.MicroStep.Tables.{Chart, state_at, n_states}
use uscxml.MicroStep.Entry.Laws.{IsNested}
use uscxml.MicroStep.Done.{depth}
use uscxml.MicroStep.Done.Laws.{IsOrdered}
use uscxml.MicroStep.Init.{tables, compile}
use uscxml.MicroStep.Init.Marks.{first, index_of}
use uscxml.MicroStep.Init.States.{
  state_tag, state_elements, state_row, climb, climb_from, parent_of,
}
use uscxml.MicroStep.Init.Laws.{ancestors-member, row_at, state_there, compile-tables}
use uscxml.MicroStep.Init.Nested.{tables-IsNested, index_of_elem}
use uscxml.MicroStep.Init.Order.{
  Describes, Follows, Follows-at, Follows-before, in_document_order-Follows,
}

count_none : (n : ℕ) (b : Bitset) → ((i : ℕ) → b i ≡ false) → count n b ≡ 0
unfolding count
count_none zero b none_set = refl
count_none (suc n) b none_set = rw (none_set n, count_none n b none_set) refl

-- The `Dom` sees the tree of the chart, and no state is around its root.
abbrev pub Sees : Dom → List ℕ → Element → Type 0
Sees dom around scxml =
    Describes dom around scxml
    × (Chain dom around
        × ((p : ℕ) → first around ≡ some p → state_tag dom scxml (dom.tag_name p) ≡ false))

module _ (dom : Dom) (scxml : Element) (around : List ℕ) (sees : Sees dom around scxml) where
  states-Follows : Follows dom (state_tag dom scxml) [] (state_elements dom scxml)
  unfolding state_elements
  states-Follows =
      in_document_order-Follows dom (state_tag dom scxml) scxml around [] (sees.0) (sees.1.0)
        (λ p q t. absurd (cc (sees.1.1 p q, t)))

  abbrev or_zero : Option ℕ → ℕ
  or_zero o = elim o [ none ↦ 0 | some k ↦ k ]

  abbrev parent_in : List ℕ → ℕ
  parent_in ps = elim (first ps) [
    | none ↦ 0
    | some p ↦ or_zero (index_of (state_elements dom scxml) p)
  ]

  parent_index :
      (e : Element) (ps : List ℕ)
      → dom.ancestors (handle_of e) ≡ ps
      → (climb dom scxml ps ≡ [])
        ⊎ ((p k : ℕ) × ((first ps ≡ some p)
              × ((index_of (state_elements dom scxml) p ≡ some k) × (parent_of dom scxml e ≡ k))))
  unfolding climb parent_of
  parent_index e [] h = inl refl
  parent_index e (p ∷ ps) h = elim (Option-cases (index_of (state_elements dom scxml) p)) [
    | inl out ↦ inl (rw out refl)
    | inr (k, there) ↦ inr (p, k, (refl, (there, ap parent_in h ∙ ap or_zero there)))
  ]

  no_climb :
      (i : ℕ) (e : Element)
      → get_elem? (state_elements dom scxml) i ≡ some e
      → climb_from dom scxml e ≡ []
      → depth (tables dom scxml) i ≡ 0
  no_climb i e h empty =
      count_none (n_states (tables dom scxml)) (state_at (tables dom scxml) i).ancestors
        (λ k. ancestors-member dom scxml i k e h ∙ rw empty refl)

  tables-IsOrdered : IsOrdered (tables dom scxml)
  unfolding state_row
  tables-IsOrdered i lt deep =
      let (e, h) = state_there dom scxml i lt in
      elim (parent_index e (dom.ancestors (handle_of e)) refl) [
        | inl empty ↦ absurd (omega (arith, deep, no_climb i e h empty))
        | inr (p, k, (q, (x, parent))) ↦
            let (f, hf, same) = index_of_elem (state_elements dom scxml) p k x in
            let listed =
              (Follows-at dom (state_tag dom scxml) (state_elements dom scxml) [] k f states-Follows
                hf).0 in
            let before =
              Follows-before dom (state_tag dom scxml) (state_elements dom scxml) [] i k p e
                states-Follows h q
                (ap (λ n. state_tag dom scxml (dom.tag_name n)) (sym same) ∙ listed) refl x in
            subst (λ n. n < i) (sym (ap (λ r. r.parent) (row_at dom scxml i e h) ∙ parent)) before
      ]

  -- Where init gives tables, the ancestors of the ancestors of a state are its ancestors, and the parent of a
  -- state stands before it, provided that the `Dom` sees the tree and that no state is around its root.
  pub compile-IsOrdered : (c : Chart) → compile dom scxml ≡ some c → IsNested c × IsOrdered c
  compile-IsOrdered c h =
      subst (λ t. IsNested t × IsOrdered t) (compile-tables dom scxml c h).1
        (
          tables-IsNested dom scxml (λ i e at.
              (Follows-at dom (state_tag dom scxml) (state_elements dom scxml) [] i e states-Follows
                at).1),
          tables-IsOrdered,
        )
