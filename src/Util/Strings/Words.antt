-- ===== src/Util/Strings/Words.antt =====
-- What `tokenize` and `spaceNormalize` find in a text.
use uscxml.Prelude.{
  ℕ, ◌≡◌, refl, Bool, true, false, List, [], ◌∷◌, ◌++◌, Text, Bool-cases, inl, inr, ap, arith, ◌∙◌,
}
use mathlib.Core.List.{append_assoc}
use uscxml.Messages.{is_empty}
use uscxml.Util.Strings.{emit, separates, tokens_from, skip_from, tokenize}

-- The longest runs without a separator, in order
unfoldable pub words : (ℕ → Bool) → Text → Text → List Text
words sep cur [] = emit cur []
words sep cur (c ∷ t) = elim (sep c) [
  | true ↦ emit cur (words sep [] t)
  | false ↦ words sep (cur ++ c ∷ []) t
]

emit_last' :
    (cur : Text) (c : ℕ) (rest : List Text) → emit (cur ++ c ∷ []) rest ≡ (cur ++ c ∷ []) ∷ rest
emit_last' [] c rest = refl
emit_last' (a ∷ cur) c rest = refl

emit_last : (cur : Text) (c : ℕ) → (cur ++ c ∷ []) ∷ [] ≡ emit (cur ++ c ∷ []) []
emit_last [] c = refl
emit_last (a ∷ cur) c = refl

module _ (sep : ℕ → Bool) where
  mutual
    unfolding tokens_from skip_from words

    tokens_from-eq-words :
        (cur t : Text) → is_empty t ≡ false → tokens_from sep cur t ≡ words sep cur t
    tokens_from-eq-words cur [] h = cc
    tokens_from-eq-words cur (c ∷ []) h = elim (Bool-cases (sep c)) [
      | inl yields ↦ rw (yields, words)
      | inr fails ↦ rw (fails, words) (emit_last cur c)
    ]
    tokens_from-eq-words cur (c ∷ d ∷ t) h = elim (Bool-cases (sep c)) [
      | inl yields ↦ rw (yields, tokens_from, words) (ap (emit cur) (skip_from-eq-words (d ∷ t)))
      | inr fails ↦
          rw (fails, tokens_from, words) (tokens_from-eq-words (cur ++ c ∷ []) (d ∷ t) refl)
    ]

    skip_from-eq-words : (t : Text) → skip_from sep t ≡ words sep [] t
    skip_from-eq-words [] = refl
    skip_from-eq-words (c ∷ []) = elim (Bool-cases (sep c)) [
      | inl yields ↦ rw (yields, words)
      | inr fails ↦ rw (fails, words)
    ]
    skip_from-eq-words (c ∷ d ∷ t) = elim (Bool-cases (sep c)) [
      | inl yields ↦ rw (yields, skip_from, words) (skip_from-eq-words (d ∷ t))
      | inr fails ↦ rw (fails, skip_from, words) (tokens_from-eq-words (c ∷ []) (d ∷ t) refl)
    ]

-- `tokenize` yields exactly the longest runs of characters that do not separate, in order, and no
-- empty token.
pub tokenize-eq-words :
    (line : Text) (sep : ℕ) (trim : Bool)
    → tokenize line sep trim ≡ words (separates sep trim) [] line
unfolding tokenize tokens_from words
tokenize-eq-words [] sep trim = refl
tokenize-eq-words (c ∷ t) sep trim = tokens_from-eq-words (separates sep trim) [] (c ∷ t) refl

-- Free of separators, and not empty
abbrev pub IsWord : (ℕ → Bool) → Text → Type 0
IsWord sep [] = ⊥
IsWord sep (c ∷ []) = sep c ≡ false
IsWord sep (c ∷ d ∷ t) = (sep c ≡ false) × IsWord sep (d ∷ t)

abbrev pub AllWords : (ℕ → Bool) → List Text → Type 0
AllWords sep [] = Unit
AllWords sep (w ∷ ws) = IsWord sep w × AllWords sep ws

-- Words with a separator behind each
abbrev pub lines : ℕ → List Text → Text
lines k [] = []
lines k (w ∷ ws) = w ++ (k ∷ lines k ws)

words-append :
    (sep : ℕ → Bool) (k : ℕ) (cur w t : Text)
    → sep k ≡ true
    → IsWord sep w
    → words sep cur (w ++ (k ∷ t)) ≡ (cur ++ w) ∷ words sep [] t
unfolding words
words-append sep k cur [] t h v = absurd v
words-append sep k cur (c ∷ []) t h v =
    rw (v, words) (rw (h, words) (emit_last' cur c (words sep [] t)))
words-append sep k cur (c ∷ d ∷ w) t h v =
    rw (v.0, words)
      (words-append sep k (cur ++ c ∷ []) (d ∷ w) t h v.1
        ∙ ap (λ u. u ∷ words sep [] t) (append_assoc cur (c ∷ []) (d ∷ w)))

words-lines :
    (sep : ℕ → Bool) (k : ℕ) (ws : List Text)
    → sep k ≡ true
    → AllWords sep ws
    → words sep [] (lines k ws) ≡ ws
unfolding words
words-lines sep k [] h v = refl
words-lines sep k (w ∷ ws) h v =
    words-append sep k [] w (lines k ws) h v.0 ∙ ap (λ u. w ∷ u) (words-lines sep k ws h v.1)

-- Words that are written with a separator behind each are read back by `tokenize`.
pub tokenize-lines :
    (ws : List Text) (sep : ℕ) (trim : Bool)
    → AllWords (separates sep trim) ws
    → tokenize (lines sep ws) sep trim ≡ ws
tokenize-lines ws sep trim v =
    tokenize-eq-words (lines sep ws) sep trim
    ∙ words-lines (separates sep trim) sep ws (ground arith) v
