-- ===== src/Util/Strings/Names.antt =====
-- Which event descriptors `nameMatch` looks at.
use uscxml.Prelude.{
  ℕ, suc, ◌≡◌, refl, Bool, true, false, ◌&&◌, ◌||◌, ltb, lt→ltb, List, [], ◌∷◌, ◌++◌, Text, length,
  length-append, Bool-cases, inl, inr, ap, ◌∙◌, sym, arith,
}
use uscxml.Messages.{is_empty}
use uscxml.Util.Strings.{emit, is_space, desc_matches, if_long, match_from, match_skip, name_match}
use uscxml.Util.Strings.Words.{words}

or_false : (b : Bool) → (b || false) ≡ b
or_false true = refl
or_false false = refl

snoc_not_empty : (cur : Text) (c : ℕ) → is_empty (cur ++ c ∷ []) ≡ false
snoc_not_empty [] c = refl
snoc_not_empty (a ∷ cur) c = refl

module _ (boost_iequals : Text → Text → Bool) (name : Text) where
  -- Some word of at least two characters matches.
  unfoldable pub any_long : List Text → Bool
  any_long [] = false
  any_long (w ∷ ws) = (ltb 1 (length w) && desc_matches boost_iequals name w) || any_long ws

  any_long-emit :
      (cur : Text) (ws : List Text)
      → any_long (emit cur ws)
        ≡ (desc_matches boost_iequals name (if_long boost_iequals cur) || any_long ws)
  unfolding any_long desc_matches
  any_long-emit [] ws = refl
  any_long-emit (a ∷ []) ws = refl
  any_long-emit (a ∷ b ∷ cur) ws = rw (lt→ltb 1 (suc (suc (length cur))) (omega arith))

  snoc_long : (cur : Text) (c : ℕ) → is_empty cur ≡ false → ltb 1 (length (cur ++ c ∷ [])) ≡ true
  snoc_long [] c h = cc
  snoc_long (a ∷ cur) c h = lt→ltb 1 _ (omega (arith, length-append cur (c ∷ [])))

  any_long-snoc :
      (cur : Text) (c : ℕ)
      → is_empty cur ≡ false
      → any_long (emit (cur ++ c ∷ []) []) ≡ desc_matches boost_iequals name (cur ++ c ∷ [])
  unfolding any_long
  any_long-snoc [] c h = cc
  any_long-snoc (a ∷ cur) c h = rw (snoc_long (a ∷ cur) c refl) (or_false _)

  mutual
    unfolding match_from match_skip words any_long

    match_from-eq :
        (cur t : Text)
        → is_empty cur ≡ false
        → is_empty t ≡ false
        → match_from boost_iequals name cur t ≡ any_long (words is_space cur t)
    match_from-eq cur [] h q = cc
    match_from-eq cur (c ∷ []) h q = elim (Bool-cases (is_space c)) [
      | inl yields ↦ rw (yields, words) (sym (any_long-emit cur [] ∙ or_false _))
      | inr fails ↦ rw (fails, words) (sym (any_long-snoc cur c h))
    ]
    match_from-eq cur (c ∷ d ∷ t) h q = elim (Bool-cases (is_space c)) [
      | inl yields ↦
          rw (yields, match_from, words)
            (ap (λ b. desc_matches boost_iequals name (if_long boost_iequals cur) || b)
                (match_skip-eq (d ∷ t))
              ∙ sym (any_long-emit cur (words is_space [] (d ∷ t))))
      | inr fails ↦
          rw (fails, match_from, words)
            (match_from-eq (cur ++ c ∷ []) (d ∷ t) (snoc_not_empty cur c) refl)
    ]

    match_skip-eq : (t : Text) → match_skip boost_iequals name t ≡ any_long (words is_space [] t)
    match_skip-eq [] = refl
    match_skip-eq (c ∷ []) = elim (Bool-cases (is_space c)) [
      | inl yields ↦ rw (yields, match_skip, words)
      | inr fails ↦ rw (fails, match_skip, words)
    ]
    match_skip-eq (c ∷ d ∷ t) = elim (Bool-cases (is_space c)) [
      | inl yields ↦ rw (yields, match_skip, words) (match_skip-eq (d ∷ t))
      | inr fails ↦ rw (fails, match_skip, words) (match_from-eq (c ∷ []) (d ∷ t) refl refl)
    ]

  match_from-start :
      (a b : ℕ) (t : Text)
      → match_from boost_iequals name [] (a ∷ b ∷ t) ≡ match_skip boost_iequals name (a ∷ b ∷ t)
  unfolding match_from match_skip desc_matches
  match_from-start a b t = elim (Bool-cases (is_space a)) [
    | inl yields ↦ rw (yields, match_from, match_skip)
    | inr fails ↦ rw (fails, match_from, match_skip)
  ]

  -- A text of two characters or more matches the name of an event exactly if it is the name up to
  -- case, or one of its words of two characters or more matches: a descriptor of one character, the
  -- wildcard `*` too, is not looked at.
  pub name_match-eq-words :
      (a b : ℕ) (t : Text)
      → is_empty name ≡ false
      → name_match boost_iequals (a ∷ b ∷ t) name
        ≡ (boost_iequals (a ∷ b ∷ t) name || any_long (words is_space [] (a ∷ b ∷ t)))
  unfolding name_match
  name_match-eq-words a b t h = elim (Bool-cases (boost_iequals (a ∷ b ∷ t) name)) [
    | inl yields ↦ rw (h, yields)
    | inr fails ↦ rw (h, fails) (match_from-start a b t ∙ match_skip-eq (a ∷ b ∷ t))
  ]
