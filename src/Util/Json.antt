-- ===== src/Util/Json.antt =====
-- `Data::jsonEscape` and `Data::jsonUnescape` of src/uscxml/messages/Data.cpp.
use mathlib.Core.Path.{ap₂}
use uscxml.Prelude.{
  ℕ, ◌≡◌, refl, Bool, true, false, ◌==◌, if◌then◌else◌, Option, none, some, Option-cases, [], ◌∷◌,
  Text, arith, inl, inr, map, sym,
}

-- The character behind the backslash, for what `jsonEscape` escapes
unfoldable pub json_letter : ℕ → Option ℕ
json_letter c =
    if c == 9
    then some b't'
    else if c == 11
    then some b'v'
    else if c == 8
    then some b'b'
    else if c == 12
    then some b'f'
    else if c == 10
    then some b'n'
    else if c == 13
    then some b'r'
    else if c == 34
    then some 34
    else if c == 92
    then some 92
    else none

unfoldable pub json_escape : Text → Text
unfolding json_letter
json_escape [] = []
json_escape (c ∷ t) = elim (json_letter c) [
  | some l ↦ 92 ∷ l ∷ json_escape t
  | none ↦ c ∷ json_escape t
]

-- The `switch` for a character behind a backslash
unfoldable pub json_meaning : ℕ → ℕ
json_meaning d =
    if d == 34
    then 34
    else if d == b'/'
    then b'/'
    else if d == b'b'
    then 8
    else if d == b'f'
    then 12
    else if d == b'n'
    then 10
    else if d == b'r'
    then 13
    else if d == b't'
    then 9
    else if d == 92
    then 92
    else d

-- The loop, with its flag `escape`
json_unescape_from : Bool → Text → Text
unfolding json_meaning
json_unescape_from escape [] = []
json_unescape_from true (c ∷ t) = json_meaning c ∷ json_unescape_from false t
json_unescape_from false (c ∷ t) = elim (c == 92) [
  | true ↦ json_unescape_from true t
  | false ↦ c ∷ json_unescape_from false t
]

unfoldable pub json_unescape : Text → Text
unfolding json_unescape_from
json_unescape t = json_unescape_from false t

-- What becomes of a character: a vertical tab comes back as the letter v.
abbrev pub without_tab : ℕ → ℕ
without_tab c = if c == 11 then b'v' else c

json_letter-some : (c l : ℕ) → json_letter c ≡ some l → json_meaning l ≡ without_tab c
unfolding json_letter json_meaning
json_letter-some c l h = ground arith

json_letter-none : (c : ℕ) → json_letter c ≡ none → ((c == 92) ≡ false) × (without_tab c ≡ c)
unfolding json_letter
json_letter-none c h = ground arith

-- Reading back what `jsonEscape` writes gives the text with every vertical tab turned into the
-- letter v, so exactly the texts without one survive.
pub json_unescape-json_escape : (t : Text) → json_unescape (json_escape t) ≡ map without_tab t
unfolding json_escape json_unescape
json_unescape-json_escape [] = refl
json_unescape-json_escape (c ∷ t) = elim (Option-cases (json_letter c)) [
  | inl plain ↦
      let (no_slash, same) = json_letter-none c plain in
      rw (plain, json_escape)
        (rw (no_slash, json_unescape_from) (ap₂ ◌∷◌ (sym same) (json_unescape-json_escape t)))
  | inr (l, special) ↦
      rw (special, json_escape)
        (ap₂ ◌∷◌ (json_letter-some c l special) (json_unescape-json_escape t))
]
