-- ===== src/Util/Strings/Spaces.antt =====
-- `spaceNormalize`: what it writes for a text that ends in white space, and what it loses otherwise.
use uscxml.Prelude.{
  ℕ, ◌≡◌, refl, true, false, [], ◌∷◌, ◌++◌, Text, Bool-cases, inl, inr, ap, ◌∙◌, sym,
}
use uscxml.Messages.{is_empty}
use uscxml.Util.Strings.{emit, is_space, pieces_from, pieces_skip, join_space, space_normalize}
use uscxml.Util.Strings.Words.{words}

pieces_from_space :
    (cur : Text) (a : ℕ) (s : Text)
    → is_empty s ≡ false
    → is_space a ≡ true
    → pieces_from cur (a ∷ s) ≡ emit cur (pieces_skip s)
unfolding pieces_from
pieces_from_space cur a [] h space = cc
pieces_from_space cur a (d ∷ s) h space = rw (space, pieces_from)

pieces_from_visible :
    (cur : Text) (a : ℕ) (s : Text)
    → is_empty s ≡ false
    → is_space a ≡ false
    → pieces_from cur (a ∷ s) ≡ pieces_from (cur ++ a ∷ []) s
unfolding pieces_from
pieces_from_visible cur a [] h visible = cc
pieces_from_visible cur a (d ∷ s) h visible = rw (visible, pieces_from)

skip_space : (a : ℕ) (s : Text) → is_space a ≡ true → pieces_skip (a ∷ s) ≡ pieces_skip s
unfolding pieces_skip
skip_space a s h = rw (h, pieces_skip)

lost_one : (c : ℕ) → is_space c ≡ false → pieces_skip (c ∷ []) ≡ []
unfolding pieces_skip pieces_from
lost_one c h = rw (h, pieces_skip)

not_empty : (t : Text) (k : ℕ) (s : Text) → is_empty (t ++ (k ∷ s)) ≡ false
not_empty [] k s = refl
not_empty (a ∷ t) k s = refl

module _ (k : ℕ) (space : is_space k ≡ true) where
  mutual
    unfolding pieces_from pieces_skip words

    pieces_from_trailing :
        (cur t : Text) → pieces_from cur (t ++ (k ∷ [])) ≡ words is_space cur (t ++ (k ∷ []))
    pieces_from_trailing cur [] = rw (space, words)
    pieces_from_trailing cur (a ∷ t) = elim (Bool-cases (is_space a)) [
      | inl yields ↦
          pieces_from_space cur a (t ++ (k ∷ [])) (not_empty t k []) yields
          ∙ rw (yields, words) (ap (emit cur) (pieces_skip_trailing t))
      | inr fails ↦
          pieces_from_visible cur a (t ++ (k ∷ [])) (not_empty t k []) fails
          ∙ rw (fails, words) (pieces_from_trailing (cur ++ a ∷ []) t)
    ]

    pieces_skip_trailing :
        (t : Text) → pieces_skip (t ++ (k ∷ [])) ≡ words is_space [] (t ++ (k ∷ []))
    pieces_skip_trailing [] = rw (space, words, pieces_skip)
    pieces_skip_trailing (a ∷ t) = elim (Bool-cases (is_space a)) [
      | inl yields ↦ rw (yields, words, pieces_skip) (pieces_skip_trailing t)
      | inr fails ↦ rw (fails, words, pieces_skip) (pieces_from_trailing (a ∷ []) t)
    ]

  -- Of a text that ends in white space `spaceNormalize` writes the words, with one space between them.
  pub space_normalize-trailing :
      (t : Text) → space_normalize (t ++ (k ∷ [])) ≡ join_space (words is_space [] (t ++ (k ∷ [])))
  unfolding space_normalize
  space_normalize-trailing t = ap join_space (pieces_from_trailing [] t)

  end_space : (cur : Text) → pieces_from cur (k ∷ []) ≡ emit cur []
  unfolding pieces_from
  end_space cur = rw (space, pieces_from)

  module _ (c : ℕ) (visible : is_space c ≡ false) where
    mutual
      unfolding pieces_from pieces_skip

      pieces_from_drops :
          (cur t : Text) → pieces_from cur (t ++ (k ∷ c ∷ [])) ≡ pieces_from cur (t ++ (k ∷ []))
      pieces_from_drops cur [] =
          pieces_from_space cur k (c ∷ []) refl space
          ∙ ap (emit cur) (lost_one c visible)
          ∙ sym (end_space cur)
      pieces_from_drops cur (a ∷ t) =
          let long = not_empty t k (c ∷ []) in
          let short = not_empty t k [] in
          elim (Bool-cases (is_space a)) [
            | inl yields ↦
                pieces_from_space cur a (t ++ (k ∷ c ∷ [])) long yields
                ∙ ap (emit cur) (pieces_skip_drops t)
                ∙ sym (pieces_from_space cur a (t ++ (k ∷ [])) short yields)
            | inr fails ↦
                pieces_from_visible cur a (t ++ (k ∷ c ∷ [])) long fails
                ∙ pieces_from_drops (cur ++ a ∷ []) t
                ∙ sym (pieces_from_visible cur a (t ++ (k ∷ [])) short fails)
          ]

      pieces_skip_drops : (t : Text) → pieces_skip (t ++ (k ∷ c ∷ [])) ≡ pieces_skip (t ++ (k ∷ []))
      pieces_skip_drops [] =
          skip_space k (c ∷ []) space ∙ lost_one c visible ∙ sym (skip_space k [] space)
      pieces_skip_drops (a ∷ t) = elim (Bool-cases (is_space a)) [
        | inl yields ↦ rw (yields, pieces_skip) (pieces_skip_drops t)
        | inr fails ↦ rw (fails, pieces_skip) (pieces_from_drops (a ∷ []) t)
      ]

    -- A last word of one character behind white space is lost.
    pub space_normalize_drops :
        (t : Text) → space_normalize (t ++ (k ∷ c ∷ [])) ≡ space_normalize (t ++ (k ∷ []))
    unfolding space_normalize
    space_normalize_drops t = ap join_space (pieces_from_drops [] t)
