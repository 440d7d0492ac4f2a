-- ===== src/MicroStep/Init/Marked.antt =====
-- The loop that marks the states of a list.
use uscxml.Prelude.{
  ℕ, zero, suc, ◌≡◌, refl, sym, ◌∙◌, subst, ◌==◌, ==_iff, Bool, true, false, Bool-cases,
  if◌then◌else◌, ◌||◌, Option, none, some, List, [], ◌∷◌, inl, inr, get_elem?, arith,
}
use uscxml.Predicates.{is_member}
use uscxml.Content.{Element}
use uscxml.Predicates.Walks.{handle_of, handles}
use uscxml.MicroStep.Init.Marks.{mark_listed, from_list, is_front, pop_front}

-- No two elements of the list are the same node.
abbrev pub Distinct : List Element → Type 0
Distinct [] = Unit
Distinct (e ∷ es) = (is_member (handle_of e) (handles es) ≡ false) × Distinct es

abbrev pub is_listed : ℕ → List (Option ℕ) → Bool
is_listed h [] = false
is_listed h (none ∷ l) = is_listed h l
is_listed h (some x ∷ l) = x == h || is_listed h l

front_listed :
    (h k : ℕ) (l : List (Option ℕ))
    → is_front k l ≡ true
    → is_listed h l ≡ (k == h || is_listed h (pop_front l))
front_listed h k [] f = cc
front_listed h k (none ∷ l) f = cc
front_listed h k (some x ∷ l) f = rw ((==_iff x k).0 f) refl

listed_more : (a h : ℕ) (l : List ℕ) → is_member h l ≡ true → is_member h (a ∷ l) ≡ true
listed_more a h l m = ground arith

-- Where nothing is left of the list, each of its nodes is one of the states.
listed_there :
    (es : List Element) (l : List (Option ℕ)) (h : ℕ)
    → (mark_listed es l).1 ≡ []
    → is_listed h l ≡ true
    → is_member h (handles es) ≡ true
unfolding mark_listed
listed_there [] l h r m = absurd (apart (subst (λ x. is_listed h x ≡ true) r m))
  where
    apart : is_listed h [] ≡ true → ⊥
    apart x = cc
listed_there (e ∷ es) l h r m = elim (Bool-cases (is_front (handle_of e) l)) [
  | inl hit ↦
      let r' : (mark_listed es (pop_front l)).1 ≡ [] = rw hit at r in
      ground (arith, listed_there es (pop_front l) h r', front_listed h (handle_of e) l hit, m)
  | inr miss ↦
      let r' : (mark_listed es l).1 ≡ [] = rw miss at r in
      listed_more (handle_of e) h (handles es) (listed_there es l h r' m)
]

elem_member :
    (es : List Element) (i : ℕ) (e : Element)
    → get_elem? es i ≡ some e
    → is_member (handle_of e) (handles es) ≡ true
elem_member [] i e h = cc
elem_member (x ∷ es) zero e h =
    let q : x ≡ e = cc in
    subst (λ y. is_member (handle_of y) (handles (x ∷ es)) ≡ true) q (ground arith)
elem_member (x ∷ es) (suc i) e h =
    listed_more (handle_of x) (handle_of e) (handles es) (elem_member es i e h)

module _ (x : Element) (es : List Element) (l : List (Option ℕ)) (d : Distinct (x ∷ es)) where
  front_iff :
      (mark_listed es (if is_front (handle_of x) l then pop_front l else l)).1 ≡ []
      → is_front (handle_of x) l ≡ is_listed (handle_of x) l
  front_iff r = elim (Bool-cases (is_front (handle_of x) l)) [
    | inl hit ↦ ground (arith, front_listed (handle_of x) (handle_of x) l hit)
    | inr miss ↦
        let r' : (mark_listed es l).1 ≡ [] = rw miss at r in
        elim (Bool-cases (is_listed (handle_of x) l)) [
          | inl m ↦ absurd (cc (listed_there es l (handle_of x) r' m, d.0))
          | inr m ↦ rw (miss, m) refl
        ]
  ]

  tail_iff :
      (i : ℕ) (e : Element)
      → get_elem? es i ≡ some e
      → is_listed (handle_of e) (if is_front (handle_of x) l then pop_front l else l)
        ≡ is_listed (handle_of e) l
  tail_iff i e h = elim (Bool-cases (is_front (handle_of x) l)) [
    | inl hit ↦ rw hit (
        sym (
          front_listed (handle_of e) (handle_of x) l hit
          ∙ rw (apart (handle_of x) (handle_of e) refl) refl))
    | inr miss ↦ rw miss refl
  ]
    where
      apart : (a b : ℕ) → handle_of x ≡ a → (a == handle_of e) ≡ false
      apart a b q = elim (Bool-cases (a == handle_of e)) [
        | inl same ↦ absurd (cc (elem_member es i e h, d.0, (==_iff a (handle_of e)).0 same, q))
        | inr other ↦ other
      ]

-- Where nothing is left of the list, a state has its bit exactly if it is in the list.
pub mark_listed_iff :
    (es : List Element) (l : List (Option ℕ)) (i : ℕ) (e : Element)
    → Distinct es
    → (mark_listed es l).1 ≡ []
    → get_elem? es i ≡ some e
    → from_list (mark_listed es l).0 i ≡ is_listed (handle_of e) l
unfolding mark_listed
mark_listed_iff [] l i e d r h = cc
mark_listed_iff (x ∷ es) l zero e d r h =
    let q : x ≡ e = cc in
    subst (λ y. is_front (handle_of x) l ≡ is_listed (handle_of y) l) q (front_iff x es l d r)
mark_listed_iff (x ∷ es) l (suc i) e d r h =
    mark_listed_iff es (if is_front (handle_of x) l then pop_front l else l) i e d.1 r h
    ∙ tail_iff x es l d i e h
