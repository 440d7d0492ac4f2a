-- ===== src/Util/Strings.antt =====
-- `tokenize`, `spaceNormalize` and `nameMatch` of src/uscxml/util/String.cpp. Where the source moves an
-- index `i` behind a `start`, the model walks down the text: the text from `start` up to `i` is the
-- argument `cur`, and the text from `i` on is the last argument. A separator is never the zero that
-- ends a text.
pub mod Words
pub mod Spaces
pub mod Names
use uscxml.Prelude.{
  ℕ, Bool, true, false, not, ◌&&◌, ◌||◌, ◌==◌, leb, ltb, if◌then◌else◌, List, [], ◌∷◌, ◌++◌, Text,
  length,
}
use uscxml.Messages.{is_empty}
use uscxml.Util.Convenience.{iequals}

-- `ISWHITESPACE`, in the C locale
unfoldable pub is_space : ℕ → Bool
is_space c = c == 32 || leb 9 c && leb c 13

-- A token, unless it is empty
abbrev pub emit : Text → List Text → List Text
emit cur rest = if is_empty cur then rest else cur ∷ rest

module _ (sep : ℕ → Bool) where
  unfoldable mutual
    -- The loop of `tokenize`
    pub tokens_from : Text → Text → List Text
    tokens_from cur [] = []
    tokens_from cur (c ∷ []) = if sep c then emit cur [] else (cur ++ c ∷ []) ∷ []
    tokens_from cur (c ∷ d ∷ t) = elim (sep c) [
      | true ↦ emit cur (skip_from (d ∷ t))
      | false ↦ tokens_from (cur ++ c ∷ []) (d ∷ t)
    ]

    -- "skip multiple occurences of seperator and whitespaces", up to the next round of the loop
    pub skip_from : Text → List Text
    skip_from [] = []
    skip_from (c ∷ []) = if sep c then [] else (c ∷ []) ∷ []
    skip_from (c ∷ d ∷ t) = elim (sep c) [
      | true ↦ skip_from (d ∷ t)
      | false ↦ tokens_from (c ∷ []) (d ∷ t)
    ]

-- `line[i] == sep || (trimWhiteSpace && ISWHITESPACE(line[i]))`
abbrev pub separates : ℕ → Bool → ℕ → Bool
separates sep trim c = c == sep || trim && is_space c

unfoldable pub tokenize : Text → ℕ → Bool → List Text
tokenize line sep trim = tokens_from (separates sep trim) [] line

mutual
  -- The loop of `spaceNormalize`, as the pieces that it writes
  pub pieces_from : Text → Text → List Text
  pieces_from cur [] = []
  pieces_from cur (c ∷ []) = if is_space c then emit cur [] else (cur ++ c ∷ []) ∷ []
  pieces_from cur (c ∷ d ∷ t) = elim (is_space c) [
    | true ↦ emit cur (pieces_skip (d ∷ t))
    | false ↦ pieces_from (cur ++ c ∷ []) (d ∷ t)
  ]

  -- "skip whitespaces"; the character behind them is passed over by the loop's `i++`.
  pub pieces_skip : Text → List Text
  pieces_skip [] = []
  pieces_skip (c ∷ t) = elim (is_space c) [ true ↦ pieces_skip t | false ↦ pieces_from (c ∷ []) t ]

-- The pieces with a space between them
unfoldable pub join_space : List Text → Text
join_space [] = []
join_space (w ∷ []) = w
join_space (w ∷ v ∷ ws) = w ++ (32 ∷ join_space (v ∷ ws))

unfoldable pub space_normalize : Text → Text
space_normalize t = join_space (pieces_from [] t)

-- A trailing character is cut off.
unfoldable pub strip_last : ℕ → Text → Text
strip_last k [] = []
strip_last k (c ∷ []) = if c == k then [] else c ∷ []
strip_last k (c ∷ d ∷ t) = c ∷ strip_last k (d ∷ t)

-- `eventName.find(eventDesc) == 0`, and a dot behind
unfoldable pub is_dotted_prefix : Text → Text → Bool
is_dotted_prefix [] [] = false
is_dotted_prefix [] (b ∷ t) = b == b'.'
is_dotted_prefix (a ∷ s) [] = false
is_dotted_prefix (a ∷ s) (b ∷ t) = a == b && is_dotted_prefix s t

module _ (boost_iequals : Text → Text → Bool) where
  -- One descriptor against the name of an event; the empty one is not looked at.
  unfoldable pub desc_matches : Text → Text → Bool
  desc_matches name desc =
      let d = strip_last b'.' (strip_last b'*' desc) in
      if is_empty desc
      then false
      else if is_empty d
      then true
      else if ltb (length name) (length d)
      then false
      else if boost_iequals d name
      then true
      else is_dotted_prefix d name

  -- `i > 0 && start < i - 1`
  abbrev pub if_long : Text → Text
  if_long cur = if ltb 1 (length cur) then cur else []

  mutual
    -- The loop of `nameMatch`
    pub match_from : Text → Text → Text → Bool
    match_from name cur [] = false
    match_from name cur (c ∷ []) =
        if is_space c then desc_matches name (if_long cur) else desc_matches name (cur ++ c ∷ [])
    match_from name cur (c ∷ d ∷ t) = elim (is_space c) [
      | true ↦ desc_matches name (if_long cur) || match_skip name (d ∷ t)
      | false ↦ match_from name (cur ++ c ∷ []) (d ∷ t)
    ]

    pub match_skip : Text → Text → Bool
    match_skip name [] = false
    match_skip name (c ∷ t) = elim (is_space c) [
      | true ↦ match_skip name t
      | false ↦ match_from name (c ∷ []) t
    ]

  unfoldable pub name_match : Text → Text → Bool
  name_match descs name =
      if is_empty descs || is_empty name
      then false
      else if boost_iequals descs name
      then true
      else match_from name [] descs
