-- ===== src/Prelude/Maps.antt =====
-- `std::map` with texts as keys: the entries in the order of their keys.
pub mod Sorted
use mathlib.Core.Path.{◌≡◌, refl, ap, ◌∙◌, sym, subst}
use mathlib.Core.Bool.{Bool, true, false, ◌||◌, ◌&&◌}
use mathlib.Core.List.{List, [], ◌∷◌}
use mathlib.Core.Option.{Option, none, some}
use mathlib.Core.Logic.{inl, inr}
use uscxml.Prelude.Tests.{if◌then◌else◌, ltb, ◌==◌, Bool-cases}
use uscxml.Prelude.Lists.{Text, text_eq, text_eq_sound, text_eq_refl}

-- The lexicographic order of `std::string`
unfoldable pub text_lt : Text → Text → Bool
text_lt s [] = false
text_lt [] (b ∷ t) = true
text_lt (a ∷ s) (b ∷ t) = ltb a b || (a == b && text_lt s t)

module _ {ℓ} {A : Type ℓ} where
  -- `m.find(k)`
  unfoldable pub find : Text → List (Text × A) → Option A
  find k [] = none
  find k ((j, v) ∷ m) = if text_eq j k then some v else find k m

  -- `m[k] = v`
  unfoldable pub put : Text → A → List (Text × A) → List (Text × A)
  put k v [] = (k, v) ∷ []
  put k v ((j, u) ∷ m) =
      let rest = (j, u) ∷ put k v m in
      if text_eq j k then (k, v) ∷ m else if text_lt k j then (k, v) ∷ (j, u) ∷ m else rest

  -- `m.erase(k)`
  unfoldable pub erase : Text → List (Text × A) → List (Text × A)
  erase k [] = []
  erase k ((j, v) ∷ m) = let rest = erase k m in if text_eq j k then rest else (j, v) ∷ rest

  find_here : (k : Text) (v : A) (m : List (Text × A)) → find k ((k, v) ∷ m) ≡ some v
  unfolding find
  find_here k v m = rw (text_eq_refl k)

  find_there :
      (j k : Text) (v : A) (m : List (Text × A))
      → text_eq j k ≡ false
      → find k ((j, v) ∷ m) ≡ find k m
  unfolding find
  find_there j k v m h = rw h

  find-tail :
      (j l : Text) (u : A) (m n : List (Text × A))
      → find l m ≡ find l n
      → find l ((j, u) ∷ m) ≡ find l ((j, u) ∷ n)
  unfolding find
  find-tail j l u m n h = ap (λ x. if text_eq j l then some u else x) h

  pub find-put_same : (k : Text) (v : A) (m : List (Text × A)) → find k (put k v m) ≡ some v
  unfolding put
  find-put_same k v [] = find_here k v []
  find-put_same k v ((j, u) ∷ m) = elim (Bool-cases (text_eq j k)) [
    | inl same ↦ rw same (find_here k v m)
    | inr other ↦ elim (Bool-cases (text_lt k j)) [
      | inl less ↦ rw (other, less) (find_here k v ((j, u) ∷ m))
      | inr more ↦ rw (other, more) (find_there j k u (put k v m) other ∙ find-put_same k v m)
    ]
  ]

  pub find-put_other :
      (k l : Text) (v : A) (m : List (Text × A))
      → text_eq k l ≡ false
      → find l (put k v m) ≡ find l m
  unfolding put
  find-put_other k l v [] h = find_there k l v [] h
  find-put_other k l v ((j, u) ∷ m) h = elim (Bool-cases (text_eq j k)) [
    | inl same ↦ rw same (
        find_there k l v m h
        ∙ sym (
            find_there j l u m (subst (λ x. text_eq x l ≡ false) (sym (text_eq_sound j k same)) h)))
    | inr other ↦ elim (Bool-cases (text_lt k j)) [
      | inl less ↦ rw (other, less) (find_there k l v ((j, u) ∷ m) h)
      | inr more ↦ rw (other, more) (find-tail j l u (put k v m) m (find-put_other k l v m h))
    ]
  ]

  pub find-erase_same : (k : Text) (m : List (Text × A)) → find k (erase k m) ≡ none
  unfolding erase find
  find-erase_same k [] = refl
  find-erase_same k ((j, v) ∷ m) = elim (Bool-cases (text_eq j k)) [
    | inl same ↦ rw same (find-erase_same k m)
    | inr other ↦ rw (other, find, other) (find-erase_same k m)
  ]

  pub find-erase_other :
      (k l : Text) (m : List (Text × A)) → text_eq k l ≡ false → find l (erase k m) ≡ find l m
  unfolding erase find
  find-erase_other k l [] h = refl
  find-erase_other k l ((j, v) ∷ m) h = elim (Bool-cases (text_eq j k)) [
    | inl same ↦ rw (same, text_eq_sound j k same, h) (find-erase_other k l m h)
    | inr other ↦ rw (other, find, find-erase_other k l m h)
  ]

  pub erase_absent : (k : Text) (m : List (Text × A)) → find k m ≡ none → erase k m ≡ m
  unfolding erase find
  erase_absent k [] h = refl
  erase_absent k ((j, v) ∷ m) h = elim (Bool-cases (text_eq j k)) [
    | inl same ↦ absurd (some_none v (sym (find_head j k v m same) ∙ h))
    | inr other ↦ rw other (ap (λ x. (j, v) ∷ x) (erase_absent k m (rw other at h)))
  ]
    where
      some_none : (x : A) → some x ≡ none → ⊥
      some_none x e = cc

      find_head :
          (j k : Text) (v : A) (m : List (Text × A))
          → text_eq j k ≡ true
          → find k ((j, v) ∷ m) ≡ some v
      find_head j k v m same = rw same

  erase_here : (k : Text) (v : A) (m : List (Text × A)) → find k m ≡ none → erase k ((k, v) ∷ m) ≡ m
  unfolding erase
  erase_here k v m h = rw (text_eq_refl k) (erase_absent k m h)

  pub erase-put :
      (k : Text) (v : A) (m : List (Text × A)) → find k m ≡ none → erase k (put k v m) ≡ m
  unfolding put find erase
  erase-put k v [] h = erase_here k v [] h
  erase-put k v ((j, u) ∷ m) h = elim (Bool-cases (text_eq j k)) [
    | inl same ↦ absurd (some_none u (rw same at h))
    | inr other ↦ elim (Bool-cases (text_lt k j)) [
      | inl less ↦ rw (other, less) (erase_here k v ((j, u) ∷ m) h)
      | inr more ↦ rw (other, more, other) (ap (λ x. (j, u) ∷ x) (erase-put k v m (rw other at h)))
    ]
  ]
    where
      some_none : (x : A) → some x ≡ none → ⊥
      some_none x e = cc
