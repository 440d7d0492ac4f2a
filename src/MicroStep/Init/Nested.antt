-- ===== src/MicroStep/Init/Nested.antt =====
-- The ancestors in the tables of `init` are nested.
use uscxml.Prelude.{
  ℕ, suc, ◌≡◌, refl, ap, sym, ◌∙◌, subst, ◌==◌, ==_iff, true, Bool-cases, Option, none, some, List,
  [], ◌∷◌, inl, inr, get_elem?, arith, Option-cases,
}
use uscxml.Predicates.{Dom, is_member}
use uscxml.Predicates.Laws.{Chain}
use uscxml.Content.{Element}
use uscxml.Predicates.Walks.{handle_of}
use uscxml.MicroStep.Entry.Laws.{IsNested}
use uscxml.MicroStep.Init.{tables}
use uscxml.MicroStep.Init.Marks.{index_of, next_index}
use uscxml.MicroStep.Init.States.{state_elements, climb, climb_on, climb_from}
use uscxml.MicroStep.Init.Laws.{ancestors-member, no_ancestors}

pub index_of_elem :
    (es : List Element) (h k : ℕ)
    → index_of es h ≡ some k
    → (e : Element) × (get_elem? es k ≡ some e) × (handle_of e ≡ h)
unfolding index_of
index_of_elem [] h k p = absurd (cc)
index_of_elem (x ∷ es) h k p = elim (Bool-cases (handle_of x == h)) [
  | inl same ↦ here k same (rw same at p)
  | inr other ↦ there k (index_of es h) refl (index_of_elem es h) (rw other at p)
]
  where
    here :
        (k : ℕ)
        → (handle_of x == h) ≡ true
        → some 0 ≡ some k
        → (e : Element) × (get_elem? (x ∷ es) k ≡ some e) × (handle_of e ≡ h)
    here k same q =
        let z : 0 ≡ k = cc in
        subst (λ n. (e : Element) × (get_elem? (x ∷ es) n ≡ some e) × (handle_of e ≡ h)) z
          (x, refl, (==_iff (handle_of x) h).0 same)

    there :
        (k : ℕ) (o : Option ℕ)
        → index_of es h ≡ o
        → ((i : ℕ)
            → index_of es h ≡ some i
            → (e : Element) × (get_elem? es i ≡ some e) × (handle_of e ≡ h))
        → next_index o ≡ some k
        → (e : Element) × (get_elem? (x ∷ es) k ≡ some e) × (handle_of e ≡ h)
    there k none r rec q = absurd (cc)
    there k (some i) r rec q =
        let z : suc i ≡ k = cc in
        subst (λ n. (e : Element) × (get_elem? (x ∷ es) n ≡ some e) × (handle_of e ≡ h)) z (rec i r)

member_more : (k i : ℕ) (l : List ℕ) → is_member k l ≡ true → is_member k (i ∷ l) ≡ true
member_more k i l x = ground arith

module _ (dom : Dom) (scxml : Element) where
  -- What a climb meets are states, from which it goes on as if it began there.
  climb_split :
      (ps : List ℕ) (j k : ℕ)
      → Chain dom ps
      → is_member j (climb dom scxml ps) ≡ true
      → (f : Element) × (get_elem? (state_elements dom scxml) j ≡ some f)
        × (is_member k (climb_from dom scxml f) ≡ true → is_member k (climb dom scxml ps) ≡ true)
  unfolding climb Chain
  climb_split [] j k c m = absurd (cc)
  climb_split (p ∷ ps) j k c m =
      from (index_of (state_elements dom scxml) p) refl (climb_split ps j k c.1) m
    where
      Goal : Option ℕ → Type 0
      Goal o =
          (f : Element) × (get_elem? (state_elements dom scxml) j ≡ some f)
          × (is_member k (climb_from dom scxml f) ≡ true
              → is_member k (climb_on o (climb dom scxml ps)) ≡ true)

      at_state :
          (i : ℕ) (f : Element)
          → get_elem? (state_elements dom scxml) i ≡ some f
          → handle_of f ≡ p
          → i ≡ j
          → Goal (some i)
      at_state i f h q z = (
        f,
        subst (λ n. get_elem? (state_elements dom scxml) n ≡ some f) z h,
        λ below.
            member_more k i (climb dom scxml ps) (
              subst (λ l. is_member k (climb dom scxml l) ≡ true) (ap dom.ancestors q ∙ c.0) below),
      )

      from :
          (o : Option ℕ)
          → index_of (state_elements dom scxml) p ≡ o
          → (is_member j (climb dom scxml ps) ≡ true
              → (f : Element) × (get_elem? (state_elements dom scxml) j ≡ some f)
                × (is_member k (climb_from dom scxml f) ≡ true
                    → is_member k (climb dom scxml ps) ≡ true))
          → is_member j (climb_on o (climb dom scxml ps)) ≡ true
          → Goal o
      from none r rec m = absurd (cc)
      from (some i) r rec m = elim (Bool-cases (i == j)) [
        | inl same ↦
            let (f, h, q) = index_of_elem (state_elements dom scxml) p i r in
            at_state i f h q ((==_iff i j).0 same)
        | inr other ↦
            let (f, h, g) = rec (rw other at m) in
            (f, h, λ below. member_more k i (climb dom scxml ps) (g below))
      ]

  -- Where the ancestors of each ancestor are those behind it, the ancestors of the ancestors of a state are its
  -- ancestors in the tables too.
  pub tables-IsNested :
      ((i : ℕ) (e : Element)
        → get_elem? (state_elements dom scxml) i ≡ some e
        → Chain dom (dom.ancestors (handle_of e)))
      → IsNested (tables dom scxml)
  tables-IsNested chains i j k p q = elim (Option-cases (get_elem? (state_elements dom scxml) i)) [
    | inl out ↦ absurd (cc (no_ancestors dom scxml i j out, p))
    | inr (e, h) ↦
        let (f, h', below) =
          climb_split (dom.ancestors (handle_of e)) j k (chains i e h)
            (sym (ancestors-member dom scxml i j e h) ∙ p) in
        ancestors-member dom scxml i k e h ∙ below (sym (ancestors-member dom scxml j k f h') ∙ q)
  ]
