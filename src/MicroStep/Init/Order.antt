-- ===== src/MicroStep/Init/Order.antt =====
-- The order of the states in `FastMicroStep::init`: parents come first.
use uscxml.Prelude.{
  ℕ, zero, suc, ◌<◌, ◌≡◌, refl, ap, sym, ◌∙◌, subst, ◌==◌, Bool, true, false, Bool-cases, Option,
  none, some, List, [], ◌∷◌, ◌++◌, inl, inr, get_elem?, arith, Text, text_eq, codes,
}
use uscxml.Predicates.{Dom, is_member}
use uscxml.Predicates.Laws.{Chain}
use uscxml.Content.{Element, element, Children, childless, child, text, other, node_of}
use uscxml.Predicates.Walks.{handle_of, in_document_order, document_children}
use uscxml.MicroStep.Init.Marks.{first, index_of, next_index}

-- The `Dom` sees the tree: the tag of each node, and the nodes around it from its parent up.
unfoldable mutual
  pub Describes : Dom → List ℕ → Element → Type 0
  Describes dom ps (element n cs) =
      (dom.ancestors n.handle ≡ ps)
      × ((dom.tag_name n.handle ≡ n.tag_name) × DescribesAll dom (n.handle ∷ ps) cs)

  pub DescribesAll : Dom → List ℕ → Children → Type 0
  DescribesAll dom ps childless = Unit
  DescribesAll dom ps (text t cs) = DescribesAll dom ps cs
  DescribesAll dom ps (other cs) = DescribesAll dom ps cs
  DescribesAll dom ps (child e cs) = Describes dom ps e × DescribesAll dom ps cs

module _ (dom : Dom) (keep : Text → Bool) where
  -- The parent is among the nodes seen, if its tag is listed.
  abbrev pub Known : List ℕ → List ℕ → Type 0
  Known ps seen =
      (p : ℕ) → first ps ≡ some p → keep (dom.tag_name p) ≡ true → is_member p seen ≡ true

  abbrev pub Placed : List ℕ → Element → Type 0
  Placed seen e =
      (keep (dom.tag_name (handle_of e)) ≡ true)
      × (Chain dom (dom.ancestors (handle_of e)) × Known (dom.ancestors (handle_of e)) seen)

  -- Each element of a list is placed behind its parent.
  unfoldable pub Follows : List ℕ → List Element → Type 0
  Follows seen [] = Unit
  Follows seen (e ∷ es) = Placed seen e × Follows (handle_of e ∷ seen) es

  abbrev Within : List ℕ → List ℕ → Type 0
  Within seen seen' = (p : ℕ) → is_member p seen ≡ true → is_member p seen' ≡ true

  Within-cons : (h : ℕ) (seen seen' : List ℕ) → Within seen seen' → Within (h ∷ seen) (h ∷ seen')
  Within-cons h seen seen' w p m = elim (Bool-cases (h == p)) [
    | inl same ↦ rw same refl
    | inr differs ↦ rw differs (w p (rw differs at m))
  ]

  Follows-more :
      (es : List Element) (seen seen' : List ℕ)
      → Within seen seen'
      → Follows seen es
      → Follows seen' es
  unfolding Follows
  Follows-more [] seen seen' w f = tt
  Follows-more (e ∷ es) seen seen' w ((k, (c, q)), f) = (
    (k, (c, λ p h t. w p (q p h t))),
    Follows-more es (handle_of e ∷ seen) (handle_of e ∷ seen')
        (Within-cons (handle_of e) seen seen' w) f,
  )

  Follows-append :
      (xs ys : List Element) (seen : List ℕ)
      → Follows seen xs
      → Follows seen ys
      → Follows seen (xs ++ ys)
  unfolding Follows
  Follows-append [] ys seen f g = g
  Follows-append (x ∷ xs) ys seen (q, f) g = (
    q,
    Follows-append xs ys (handle_of x ∷ seen) f
        (Follows-more ys seen (handle_of x ∷ seen) (λ p m. rw m (ground arith)) g),
  )

  Known-here : (h : ℕ) (ps seen : List ℕ) → Known (h ∷ ps) (h ∷ seen)
  Known-here h ps seen p q t =
      let z : h ≡ p = cc in subst (λ x. is_member x (h ∷ seen) ≡ true) z (ground arith)

  Known-skip : (h : ℕ) (ps seen : List ℕ) → keep (dom.tag_name h) ≡ false → Known (h ∷ ps) seen
  Known-skip h ps seen n p q t = absurd (cc)

  mutual
    unfolding Describes in_document_order Follows Chain

    pub in_document_order-Follows :
        (e : Element) (ps seen : List ℕ)
        → Describes dom ps e
        → Chain dom ps
        → Known ps seen
        → Follows seen (in_document_order keep e)
    in_document_order-Follows (element n cs) ps seen (a, (t, d)) c q =
        elim (Bool-cases (keep n.tag_name)) [
          | inl kept ↦ rw kept (
            (ap keep t ∙ kept, (subst (Chain dom) (sym a) c, subst (λ l. Known l seen) (sym a) q)),
            document_children-Follows n.prefix cs (n.handle ∷ ps) (n.handle ∷ seen) d (a, c)
                (Known-here n.handle ps seen),
          )
          | inr passed ↦ rw passed (
              document_children-Follows n.prefix cs (n.handle ∷ ps) seen d (a, c)
                (Known-skip n.handle ps seen (ap keep t ∙ passed)))
        ]

    document_children-Follows :
        (prefix : Text) (cs : Children) (ps seen : List ℕ)
        → DescribesAll dom ps cs
        → Chain dom ps
        → Known ps seen
        → Follows seen (document_children keep prefix cs)
    document_children-Follows prefix childless ps seen d c q = tt
    document_children-Follows prefix (text t cs) ps seen d c q =
        document_children-Follows prefix cs ps seen d c q
    document_children-Follows prefix (other cs) ps seen d c q =
        document_children-Follows prefix cs ps seen d c q
    document_children-Follows prefix (child e cs) ps seen (d, ds) c q =
        let rest = document_children-Follows prefix cs ps seen ds c q in
        let here = in_document_order-Follows e ps seen d c q in
        elim (Bool-cases (text_eq (node_of e).tag_name (prefix ++ codes "scxml"))) [
          | inl nested ↦ rw nested rest
          | inr plain ↦ rw plain (Follows-append (in_document_order keep e) _ seen here rest)
        ]

  -- Each element of such a list has a listed tag, and the nodes around it are nested.
  pub Follows-at :
      (es : List Element) (seen : List ℕ) (i : ℕ) (e : Element)
      → Follows seen es
      → get_elem? es i ≡ some e
      → (keep (dom.tag_name (handle_of e)) ≡ true) × Chain dom (dom.ancestors (handle_of e))
  unfolding Follows
  Follows-at [] seen i e f h = absurd (cc)
  Follows-at (x ∷ es) seen zero e ((k, (c, q)), f) h =
      let z : x ≡ e = cc in
      subst
        (λ y. (keep (dom.tag_name (handle_of y)) ≡ true) × Chain dom (dom.ancestors (handle_of y)))
        z (k, c)
  Follows-at (x ∷ es) seen (suc i) e (p, f) h = Follows-at es (handle_of x ∷ seen) i e f h

  -- The parent of an element stands before it, unless it was seen before.
  pub Follows-before :
      (es : List Element) (seen : List ℕ) (i k p : ℕ) (e : Element)
      → Follows seen es
      → get_elem? es i ≡ some e
      → first (dom.ancestors (handle_of e)) ≡ some p
      → keep (dom.tag_name p) ≡ true
      → is_member p seen ≡ false
      → index_of es p ≡ some k
      → k < i
  unfolding Follows index_of
  Follows-before [] seen i k p e f h q t m x = absurd (cc)
  Follows-before (y ∷ es) seen zero k p e ((kept, (c, known)), f) h q t m x =
      let z : y ≡ e = cc in
      absurd (cc (known p (ap (λ o. first (dom.ancestors (handle_of o))) z ∙ q) t, m))
  Follows-before (y ∷ es) seen (suc i) k p e (_, f) h q t m x =
      elim (Bool-cases (handle_of y == p)) [
        | inl same ↦
            let r : some 0 ≡ some k = rw same at x in let z : 0 ≡ k = cc in omega (arith, z)
        | inr differs ↦
            let r : next_index (index_of es p) ≡ some k = rw differs at x in
            later (index_of es p) refl r
              (λ j. Follows-before es (handle_of y ∷ seen) i j p e f h q t (rw differs m))
      ]
    where
      later :
          (o : Option ℕ)
          → index_of es p ≡ o
          → next_index o ≡ some k
          → ((j : ℕ) → index_of es p ≡ some j → j < i)
          → k < suc i
      later none r n below = absurd (cc)
      later (some j) r n below = let z : suc j ≡ k = cc in omega (arith, z, below j r)
