-- ===== src/Util/Tests.antt =====
-- The functions on texts at small inputs.
use uscxml.Prelude.{◌≡◌, refl, false, [], ◌∷◌, codes, text_eq}
use uscxml.Util.Convenience.{escape, unescape, unescape-escape}
use uscxml.Util.Json.{json_escape, json_unescape, json_unescape-json_escape}
use uscxml.Util.Strings.{desc_matches, strip_last, is_dotted_prefix, is_space, name_match}
use uscxml.Util.Strings.Words.{words}
use uscxml.Util.Strings.Names.{any_long, name_match-eq-words}

unescape-escape_example : unescape (escape (codes "a\\\"b")) ≡ codes "a\\\"b"
unescape-escape_example = unescape-escape (codes "a\\\"b")

json_unescape-json_escape_example : json_unescape (json_escape (9 ∷ 11 ∷ [])) ≡ 9 ∷ b'v' ∷ []
json_unescape-json_escape_example = json_unescape-json_escape (9 ∷ 11 ∷ [])

-- The wildcard behind another descriptor is not seen.
name_match-eq-words_example : name_match text_eq (codes "foo *") (codes "bar") ≡ false
unfolding any_long words is_space text_eq desc_matches strip_last is_dotted_prefix
name_match-eq-words_example = name_match-eq-words text_eq (codes "bar") b'f' b'o' (codes "o *") refl
