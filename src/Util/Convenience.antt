-- ===== src/Util/Convenience.antt =====
-- `iequals`, `equals`, `stringIsTrue`, `escape` and `unescape` of src/uscxml/util/Convenience.cpp, for
-- texts shorter than 2 ^ 32.
use mathlib.Core.Path.{ap₂}
use mathlib.Core.List.{tail}
use uscxml.Prelude.{
  ℕ, ◌+◌, ◌≡◌, ◌≢◌, refl, Bool, true, false, not, ◌&&◌, ◌||◌, ◌==◌, leb, if◌then◌else◌, Option,
  none, some, Option-cases, Bool-cases, [], ◌∷◌, Text, codes, length, arith, inl, inr, ap, map, ◌∙◌,
  ◌↔◌, ==_iff, suc,
}

abbrev head_or : ℕ → Text → ℕ
head_or d [] = d
head_or d (c ∷ t) = c

-- `tolower` of the C locale
abbrev pub to_lower : ℕ → ℕ
to_lower c = if leb b'A' c && leb c b'Z' then c + 32 else c

-- The loop over the characters, for texts of one size
iequals_from : Text → Text → Bool
iequals_from [] [] = true
iequals_from [] (b ∷ t) = true
iequals_from (a ∷ s) [] = true
iequals_from (a ∷ s) (b ∷ t) = if not (to_lower a == to_lower b) then false else iequals_from s t

unfoldable pub iequals : Text → Text → Bool
unfolding iequals_from
iequals a b = if not (length b == length a) then false else iequals_from a b

equals_from : Text → Text → Bool
equals_from [] [] = true
equals_from [] (b ∷ t) = true
equals_from (a ∷ s) [] = true
equals_from (a ∷ s) (b ∷ t) = if not (a == b) then false else equals_from s t

unfoldable pub equals : Text → Text → Bool
unfolding equals_from
equals a b = if not (length b == length a) then false else equals_from a b

unfoldable pub string_is_true : Text → Bool
string_is_true value =
    iequals value (codes "on")
    || iequals value (codes "true")
    || iequals value (codes "1")
    || iequals value (codes "yes")

-- The letter that stands behind the backslash, for the characters that `escape` escapes
unfoldable pub escape_letter : ℕ → Option ℕ
escape_letter c =
    if c == 92
    then some 92
    else if c == 0
    then some b'0'
    else if c == 34
    then some 34
    else if c == 7
    then some b'a'
    else if c == 8
    then some b'b'
    else if c == 12
    then some b'f'
    else if c == 10
    then some b'n'
    else if c == 13
    then some b'r'
    else if c == 9
    then some b't'
    else if c == 11
    then some b'v'
    else none

unfoldable pub escape : Text → Text
unfolding escape_letter
escape [] = []
escape (c ∷ t) = elim (escape_letter c) [ some l ↦ 92 ∷ l ∷ escape t | none ↦ c ∷ escape t ]

-- A letter that stands for nothing leaves the backslash.
unfoldable pub unescape_letter : ℕ → ℕ
unescape_letter d =
    if d == 92
    then 92
    else if d == b'0'
    then 0
    else if d == 34
    then 34
    else if d == b'a'
    then 7
    else if d == b'b'
    then 8
    else if d == b'f'
    then 12
    else if d == b'n'
    then 10
    else if d == b'r'
    then 13
    else if d == b't'
    then 9
    else if d == b'v'
    then 11
    else 92

unfoldable pub unescape : Text → Text
unfolding unescape_letter
unescape [] = []
unescape (c ∷ []) = c ∷ []
unescape (c ∷ d ∷ t) = elim (c == 92) [
  | true ↦ unescape_letter d ∷ unescape t
  | false ↦ c ∷ unescape (d ∷ t)
]

escape_letter-some : (c l : ℕ) → escape_letter c ≡ some l → unescape_letter l ≡ c
unfolding escape_letter unescape_letter
escape_letter-some c l h = ground arith

escape_letter-none : (c : ℕ) → escape_letter c ≡ none → (c == 92) ≡ false
unfolding escape_letter
escape_letter-none c h = ground arith

unescape_plain : (c : ℕ) (t : Text) → (c == 92) ≡ false → unescape (c ∷ t) ≡ c ∷ unescape t
unfolding unescape
unescape_plain c [] h = refl
unescape_plain c (d ∷ t) h = rw (h, unescape)

-- What `escape` writes, `unescape` reads back, whatever the text.
pub unescape-escape : (t : Text) → unescape (escape t) ≡ t
unfolding escape unescape
unescape-escape [] = refl
unescape-escape (c ∷ t) = elim (Option-cases (escape_letter c)) [
  | inl plain ↦
      rw (plain, escape)
        (unescape_plain c (escape t) (escape_letter-none c plain)
          ∙ ap (λ s. c ∷ s) (unescape-escape t))
  | inr (l, special) ↦
      rw (special, escape) (ap₂ ◌∷◌ (escape_letter-some c l special) (unescape-escape t))
]

iequals_from_iff :
    (s t : Text)
    → length t ≡ length s
    → (iequals_from s t ≡ true) ↔ (map to_lower s ≡ map to_lower t)
unfolding iequals_from
iequals_from_iff [] [] h = (λ e. refl, λ e. refl)
iequals_from_iff [] (b ∷ t) h = absurd (omega arith)
iequals_from_iff (a ∷ s) [] h = absurd (omega arith)
iequals_from_iff (a ∷ s) (b ∷ t) h =
    let ih = iequals_from_iff s t (omega arith) in
    elim (Bool-cases (to_lower a == to_lower b)) [
      | inl same ↦
          rw same (
            λ e. ap₂ ◌∷◌ ((==_iff (to_lower a) (to_lower b)).0 same) (ih.0 e),
            λ e. ih.1 (ap tail e),
          )
      | inr other ↦ rw other (λ e. cc, λ e. absurd (ground (arith, ap (λ l. head_or 0 l) e)))
    ]

length-lower : (t : Text) → length (map to_lower t) ≡ length t
length-lower [] = refl
length-lower (c ∷ t) = ap suc (length-lower t)

-- Two texts are equal up to case exactly when they are equal in lower case.
pub iequals_iff : (s t : Text) → (iequals s t ≡ true) ↔ (map to_lower s ≡ map to_lower t)
unfolding iequals
iequals_iff s t = elim (Bool-cases (length t == length s)) [
  | inl same ↦ rw same (iequals_from_iff s t ((==_iff (length t) (length s)).0 same))
  | inr other ↦ rw other (
    λ e. cc,
    λ e.
        absurd
          (omega (arith, ap (λ l. length l) e, length-lower s, length-lower t, different other)),
  )
]
  where
    different : (length t == length s) ≡ false → length t ≢ length s
    different h = λ e. ground arith
