-- ===== src/Prelude/Maps/Sorted.antt =====
-- The keys of a map are in order, and so are distinct.
use mathlib.Core.Path.{◌≡◌, refl}
use mathlib.Core.Bool.{true, false}
use mathlib.Core.List.{List, [], ◌∷◌}
use mathlib.Core.Option.{none}
use native.Mathlib.Omega.{arith}
use uscxml.Prelude.Lists.{Text, text_eq}
use uscxml.Prelude.Maps.{text_lt, find}

text_lt_apart : (s t : Text) → text_lt s t ≡ true → text_eq t s ≡ false
unfolding text_lt text_eq
text_lt_apart s [] p = absurd (cc)
text_lt_apart [] (b ∷ t) p = refl
text_lt_apart (a ∷ s) (b ∷ t) p = ground (arith, text_lt_apart s t)

module _ {A : Type 0} where
  -- Every key is above `k`.
  unfoldable pub Above : Text → List (Text × A) → Type 0
  Above k [] = Unit {0}
  Above k ((j, v) ∷ m) = (text_lt k j ≡ true) × Above k m

  unfoldable pub Sorted : List (Text × A) → Type 0
  Sorted [] = Unit {0}
  Sorted ((k, v) ∷ m) = Above k m × Sorted m

  pub find-Above : (k : Text) (m : List (Text × A)) → Above k m → find k m ≡ none
  unfolding Above find
  find-Above k [] a = refl
  find-Above k ((j, v) ∷ m) (p, a) = rw (text_lt_apart k j p) (find-Above k m a)
