-- ===== src/Predicates/Laws.antt =====
-- The least common compound ancestor.
use uscxml.Prelude.{
  ℕ, ◌≡◌, refl, ap, ◌∙◌, sym, Bool, true, false, ◌&&◌, ◌||◌, ◌==◌, ==_iff, Bool-cases, inl, inr,
  ◌⊎◌, if◌then◌else◌, Option, none, some, List, [], ◌∷◌, Text, codes,
}
use uscxml.Predicates.{
  Dom, is_member, all_of, back, is_state, is_compound, is_descendant, is_wrapper, is_end,
  ancestors_up_to, get_proper_ancestors, first_common, find_lcca, get_transition_domain,
  get_source_state,
}
use uscxml.Util.Convenience.{iequals}

-- The ancestors of an ancestor are the ancestors behind it.
unfoldable pub Chain : Dom → List ℕ → Type 0
Chain dom [] = Unit {0}
Chain dom (n ∷ l) = (dom.ancestors n ≡ l) × Chain dom l

module _ (dom : Dom) where
  -- An ancestor of all the states that is a compound state
  unfoldable pub is_common : List ℕ → ℕ → Bool
  is_common states a = is_compound dom a && all_of (λ s. is_descendant dom s a) states

  up_to-stop :
      (n : ℕ) (l : List ℕ) → is_wrapper dom n ≡ false → ancestors_up_to dom none (n ∷ l) ≡ []
  unfolding ancestors_up_to
  up_to-stop n l h = rw h

  up_to-wrap :
      (n : ℕ) (l : List ℕ)
      → is_wrapper dom n ≡ true
      → ancestors_up_to dom none (n ∷ l) ≡ n ∷ ancestors_up_to dom none l
  unfolding ancestors_up_to is_end
  up_to-wrap n l h = rw h

  no_member : (b : ℕ) (l : List ℕ) → l ≡ [] → is_member b l ≡ true → ⊥
  no_member b l e m = apart (sym (ap (is_member b) e) ∙ m)
    where
      apart : false ≡ true → ⊥
      apart p = cc

  up_to-member :
      (l : List ℕ) (b : ℕ) → is_member b (ancestors_up_to dom none l) ≡ true → is_member b l ≡ true
  unfolding ancestors_up_to
  up_to-member [] b h = h
  up_to-member (n ∷ l) b h = elim (Bool-cases (is_wrapper dom n)) [
    | inl wraps ↦ elim (Bool-cases (n == b)) [
      | inl same ↦ rw same
      | inr other ↦
          rw other
            (up_to-member l b (rw other at (sym (ap (is_member b) (up_to-wrap n l wraps)) ∙ h)))
    ]
    | inr stops ↦ absurd (no_member b (ancestors_up_to dom none (n ∷ l)) (up_to-stop n l stops) h)
  ]

  first_common-here :
      (states : List ℕ) (n : ℕ) (l : List ℕ)
      → is_common states n ≡ true
      → first_common dom states (n ∷ l) ≡ some n
  unfolding first_common is_common
  first_common-here states n l h = rw h

  first_common-next :
      (states : List ℕ) (n : ℕ) (l : List ℕ)
      → is_common states n ≡ false
      → first_common dom states (n ∷ l) ≡ first_common dom states l
  unfolding first_common is_common
  first_common-next states n l h = rw h

  -- `a` is the least common compound ancestor as far as `b` tells.
  unfoldable pub IsLeast : List ℕ → ℕ → ℕ → Type 0
  IsLeast states a b = (is_common states a ≡ true) × ((a ≡ b) ⊎ (is_descendant dom a b ≡ true))

  first_common-IsLeast :
      (states l : List ℕ) (b : ℕ)
      → Chain dom l
      → is_common states b ≡ true
      → is_member b (ancestors_up_to dom none l) ≡ true
      → (a : ℕ) × ((first_common dom states (ancestors_up_to dom none l) ≡ some a)
          × IsLeast states a b)
  unfolding ancestors_up_to Chain IsLeast is_descendant
  first_common-IsLeast states [] b c h m = absurd (no_member b [] refl m)
  first_common-IsLeast states (n ∷ l) b (c, d) h m = elim (Bool-cases (is_wrapper dom n)) [
    | inr stops ↦ absurd (no_member b (ancestors_up_to dom none (n ∷ l)) (up_to-stop n l stops) m)
    | inl wraps ↦
        let m2 : (n == b || is_member b (ancestors_up_to dom none l)) ≡ true =
          sym (ap (is_member b) (up_to-wrap n l wraps)) ∙ m in
        let open_up = ap (first_common dom states) (up_to-wrap n l wraps) in
        elim (Bool-cases (is_common states n)) [
          | inl common ↦ (
            n,
            (
              open_up ∙ first_common-here states n (ancestors_up_to dom none l) common,
              (
                common,
                elim (Bool-cases (n == b)) [
                  | inl same ↦ inl ((==_iff n b).0 same)
                  | inr other ↦ inr (ap (is_member b) c ∙ up_to-member l b (rw other at m2))
                ],
              ),
            ),
          )
          | inr no_common ↦
              let n_b : (n == b) ≡ false = differ n b h no_common in
              let (a, (found, least)) = first_common-IsLeast states l b d h (rw n_b at m2) in
              (
                a,
                (
                  open_up
                      ∙ first_common-next states n (ancestors_up_to dom none l) no_common
                      ∙ found,
                  least,
                ),
              )
        ]
  ]
    where
      apart : false ≡ true → ⊥
      apart p = cc

      differ : (n b : ℕ) → is_common states b ≡ true → is_common states n ≡ false → (n == b) ≡ false
      differ n b h k = elim (Bool-cases (n == b)) [
        | inl same ↦ absurd (apart (sym k ∙ ap (is_common states) ((==_iff n b).0 same) ∙ h))
        | inr other ↦ other
      ]

  -- In a tree, where some compound state that `getProperAncestors` gives is an ancestor of all the
  -- states, `findLCCA` finds the least: a compound state that is an ancestor of all the states, and that
  -- is this one or lies below it.
  pub find_lcca-IsLeast :
      (front : ℕ) (others : List ℕ) (b : ℕ)
      → Chain dom (dom.ancestors front)
      → is_common (front ∷ others) b ≡ true
      → is_member b (get_proper_ancestors dom front none) ≡ true
      → (a : ℕ) × ((find_lcca dom front others ≡ some a) × IsLeast (front ∷ others) a b)
  unfolding find_lcca get_proper_ancestors
  find_lcca-IsLeast front others b c h m = elim (Bool-cases (is_state dom false front)) [
    | inr no_state ↦ absurd (no_member b (get_proper_ancestors dom front none) (rw no_state) m)
    | inl yields ↦
        let (a, (found, least)) =
          first_common-IsLeast (front ∷ others) (dom.ancestors front) b c h (rw yields at m) in
        let proper : get_proper_ancestors dom front none
            ≡ ancestors_up_to dom none (dom.ancestors front) =
          rw yields in
        (a, (ap from_list proper ∙ ap chosen found, least))
  ]
    where
      chosen : Option ℕ → Option ℕ
      chosen o = elim o [
        | some a ↦ some a
        | none ↦ back (ancestors_up_to dom none (dom.ancestors front))
      ]

      from_list : List ℕ → Option ℕ
      from_list l = elim (first_common dom (front ∷ others) l) [ some a ↦ some a | none ↦ back l ]

  last_two : (a b c : Bool) → (a && b && c) ≡ true → (b ≡ true) × (c ≡ true)
  last_two true true c h = (refl, h)
  last_two true false c h = absurd (cc)
  last_two false b c h = absurd (cc)

  first_last : (a b c : Bool) → (a && (b && c)) ≡ true → (a ≡ true) × (c ≡ true)
  first_last true true c h = (refl, h)
  first_last true false c h = absurd (cc)
  first_last false b c h = absurd (cc)

  -- `d` is compound and a proper ancestor of the targets.
  unfoldable pub Covers : ℕ → List ℕ → Type 0
  Covers d targets =
      (is_compound dom d ≡ true) × (all_of (λ s. is_descendant dom s d) targets ≡ true)

  -- A transition with targets, some compound state above whose source is an ancestor of its source and of
  -- all its targets, has a domain, internal or external: a compound state that is an ancestor of all its
  -- targets.
  pub get_transition_domain-Covers :
      (t source x : ℕ) (targets : List ℕ) (b : ℕ)
      → get_source_state dom t ≡ some source
      → Chain dom (dom.ancestors source)
      → is_common (source ∷ x ∷ targets) b ≡ true
      → is_member b (get_proper_ancestors dom source none) ≡ true
      → (d : ℕ) × ((get_transition_domain dom t (x ∷ targets) ≡ some d) × Covers d (x ∷ targets))
  unfolding get_transition_domain Covers IsLeast is_common
  get_transition_domain-Covers t source x targets b src c h m = elim (Bool-cases internal) [
    | inl stays ↦
        (source, (ap domain src ∙ rw stays, last_two (iequals type (codes "internal")) _ _ stays))
    | inr leaves ↦
        let (a, (found, least)) = find_lcca-IsLeast source (x ∷ targets) b c h m in
        (a, (ap domain src ∙ rw leaves found, covered a least))
  ]
    where
      type : Text
      type = elim (dom.attr t (codes "type")) [ none ↦ codes "external" | some v ↦ v ]

      internal : Bool
      internal =
          iequals type (codes "internal")
          && is_compound dom source
          && all_of (λ s. is_descendant dom s source) (x ∷ targets)

      domain : Option ℕ → Option ℕ
      domain o = elim o [
        | none ↦ none
        | some source ↦
            if iequals type (codes "internal")
              && is_compound dom source
              && all_of (λ s. is_descendant dom s source) (x ∷ targets)
            then some source
            else find_lcca dom source (x ∷ targets)
      ]

      covered : (a : ℕ) → IsLeast (source ∷ x ∷ targets) a b → Covers a (x ∷ targets)
      covered a (common, _) = first_last (is_compound dom a) (is_descendant dom source a) _ common
