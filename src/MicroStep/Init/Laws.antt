-- ===== src/MicroStep/Init/Laws.antt =====
-- What `init` makes of the states.
use mathlib.Core.Path.{ap₂}
use uscxml.Prelude.{
  ℕ, zero, suc, ◌+◌, ◌<◌, ◌≡◌, refl, ap, sym, ◌∙◌, subst, ◌==◌, ==_iff, ltb, Bool, true, false, not,
  ◌&&◌, ◌||◌, Bool-cases, if◌then◌else◌, Option, none, some, List, [], ◌∷◌, inl, inr, get_elem?,
  get_or, length, arith, upward, lt→ltb,
}
use uscxml.Bits.{Bitset, no_bits, set_at}
use uscxml.Predicates.{Dom, is_member, is_history}
use uscxml.Content.{Element}
use uscxml.Predicates.Walks.{handle_of, same_node}
use uscxml.MicroStep.Tables.{Chart, no_state, state_at, n_states}
use uscxml.MicroStep.Init.{tables, rows_from, compile, all_marked, is_marked, is_nil}
use uscxml.MicroStep.Init.Marks.{mark_listed}
use uscxml.MicroStep.Init.Marked.{Distinct, is_listed, mark_listed_iff}
use uscxml.MicroStep.Init.States.{
  state_elements, state_row, add_child, set_all, climb_from, climb_at, has_history_child, later_or,
  below_parent, get_completion,
}

module _ {ℓ} {A : Type ℓ} where
  elem_below : (l : List A) (i : ℕ) → i < length l → (x : A) × (get_elem? l i ≡ some x)
  elem_below [] i lt = absurd (omega arith)
  elem_below (x ∷ l) zero lt = (x, refl)
  elem_below (x ∷ l) (suc i) lt = elem_below l i (omega arith)

last_round : (m : ℕ → Bool) (n b : ℕ) → (b == n && m n || ltb b n && m b) ≡ (ltb b (suc n) && m b)
last_round m n b = elim (Bool-cases (b == n)) [
  | inl same ↦
      subst (λ x. (x == n && m n || ltb x n && m x) ≡ (ltb x (suc n) && m x))
        (sym ((==_iff b n).0 same)) (ground arith)
  | inr other ↦ rw other (ground (arith, other))
]

if_other :
    (b : Bool) (x h : ℕ)
    → (x == h) ≡ false
    → same_node (if b then some x else none) (some h) ≡ false
if_other true x h e = e
if_other false x h e = refl

later_other :
    (a b : Option ℕ) (h : ℕ)
    → same_node a (some h) ≡ false
    → same_node b (some h) ≡ false
    → same_node (later_or a b) (some h) ≡ false
later_other none b h p q = q
later_other (some x) b h p q = p

module _ (dom : Dom) (scxml : Element) where
  rows_from_at :
      {A : Type 0} (f : ℕ → Element → A) (k : ℕ) (es : List Element) (i : ℕ) (e : Element) (d : A)
      → get_elem? es i ≡ some e
      → get_or (rows_from dom scxml f k es) i d ≡ f (k + i) e
  rows_from_at f k [] i e d h = absurd (cc)
  rows_from_at f k (x ∷ es) zero e d h = ap₂ f (omega arith) (let q : x ≡ e = cc in q)
  rows_from_at f k (x ∷ es) (suc i) e d h =
      rows_from_at f (suc k) es i e d h ∙ ap (λ n. f n e) (omega arith)

  pub set_all-member :
      (ks : List ℕ) (b : Bitset) (j : ℕ) → set_all dom scxml ks b j ≡ (is_member j ks || b j)
  unfolding set_all
  set_all-member [] b j = refl
  set_all-member (k ∷ ks) b j = ground (arith, set_all-member ks (set_at k b) j)

  add_child-member :
      (i : ℕ) (ks : List ℕ) (rows : ℕ → Bitset) (j b : ℕ)
      → add_child dom scxml i ks rows j b ≡ (b == i && is_member j ks || rows j b)
  unfolding add_child
  add_child-member i [] rows j b = ground arith
  add_child-member i (k ∷ ks) rows j b =
      add_child-member i ks (λ l. if l == k then set_at i (rows l) else rows l) j b ∙ ground arith

  -- After `n` rounds, a row has the states below `n` whose climb meets it.
  rounds-member :
      (n k b : ℕ)
      → upward n (λ i rows. add_child dom scxml i (climb_at dom scxml i) rows) (λ j. no_bits) k b
        ≡ (ltb b n && is_member k (climb_at dom scxml b))
  unfolding upward
  rounds-member zero k b = ground arith
  rounds-member (suc n) k b =
      add_child-member n (climb_at dom scxml n) _ k b
      ∙ ap (λ x. b == n && is_member k (climb_at dom scxml n) || x) (rounds-member n k b)
      ∙ last_round (λ i. is_member k (climb_at dom scxml i)) n b

  pub row_at :
      (i : ℕ) (e : Element)
      → get_elem? (state_elements dom scxml) i ≡ some e
      → state_at (tables dom scxml) i ≡ state_row dom scxml i e
  unfolding tables
  row_at i e h =
      rows_from_at (state_row dom scxml) 0 (state_elements dom scxml) i e _ h
      ∙ ap (λ n. state_row dom scxml n e) (omega arith)

  length-rows :
      {A : Type 0} (f : ℕ → Element → A) (k : ℕ) (es : List Element)
      → length (rows_from dom scxml f k es) ≡ length es
  length-rows f k [] = refl
  length-rows f k (e ∷ es) = ap suc (length-rows f (suc k) es)

  pub n_states-tables : n_states (tables dom scxml) ≡ length (state_elements dom scxml)
  unfolding tables
  n_states-tables = length-rows (state_row dom scxml) 0 (state_elements dom scxml)

  pub state_there :
      (i : ℕ)
      → i < n_states (tables dom scxml)
      → (e : Element) × (get_elem? (state_elements dom scxml) i ≡ some e)
  state_there i lt = elem_below (state_elements dom scxml) i (subst (λ n. i < n) n_states-tables lt)

  climb_there :
      (i : ℕ) (e : Element)
      → get_elem? (state_elements dom scxml) i ≡ some e
      → climb_at dom scxml i ≡ climb_from dom scxml e
  climb_there i e h =
      ap (λ o. elim o as (λ _. List ℕ) [ none ↦ [] | some x ↦ climb_from dom scxml x ]) h

  children_of_row :
      (i k : ℕ) (e f : Element)
      → get_elem? (state_elements dom scxml) i ≡ some e
      → i < length (state_elements dom scxml)
      → (state_row dom scxml k f).children i ≡ (state_row dom scxml i e).ancestors k
  unfolding state_row
  children_of_row i k e f h lt =
      rounds-member (length (state_elements dom scxml)) k i
      ∙ rw (lt→ltb i (length (state_elements dom scxml)) lt, climb_there i e h) refl
      ∙ or_false (is_member k (climb_from dom scxml e))
      ∙ sym (set_all-member (climb_from dom scxml e) no_bits k)
    where
      or_false : (b : Bool) → b ≡ (b || false)
      or_false true = refl
      or_false false = refl

  -- A state is among the children of another exactly if that is among its ancestors.
  pub children-ancestors :
      (i k : ℕ)
      → i < n_states (tables dom scxml)
      → k < n_states (tables dom scxml)
      → (state_at (tables dom scxml) k).children i ≡ (state_at (tables dom scxml) i).ancestors k
  children-ancestors i k lt lt' =
      let (e, h) = state_there i lt in
      let (f, h') = state_there k lt' in
      ap (λ r. r.children i) (row_at k f h')
      ∙ children_of_row i k e f h (subst (λ n. i < n) n_states-tables lt)
      ∙ sym (ap (λ r. r.ancestors k) (row_at i e h))

  pub ancestors-member :
      (i k : ℕ) (e : Element)
      → get_elem? (state_elements dom scxml) i ≡ some e
      → (state_at (tables dom scxml) i).ancestors k ≡ is_member k (climb_from dom scxml e)
  unfolding state_row
  ancestors-member i k e h =
      ap (λ r. r.ancestors k) (row_at i e h)
      ∙ set_all-member (climb_from dom scxml e) no_bits k
      ∙ or_false (is_member k (climb_from dom scxml e))
    where
      or_false : (b : Bool) → (b || false) ≡ b
      or_false true = refl
      or_false false = refl

  rows_from_out :
      {A : Type 0} (f : ℕ → Element → A) (k : ℕ) (es : List Element) (i : ℕ) (d : A)
      → get_elem? es i ≡ none
      → get_or (rows_from dom scxml f k es) i d ≡ d
  rows_from_out f k [] i d h = refl
  rows_from_out f k (x ∷ es) zero d h = absurd (cc)
  rows_from_out f k (x ∷ es) (suc i) d h = rows_from_out f (suc k) es i d h

  pub no_ancestors :
      (i k : ℕ)
      → get_elem? (state_elements dom scxml) i ≡ none
      → (state_at (tables dom scxml) i).ancestors k ≡ false
  unfolding tables
  no_ancestors i k h =
      ap (λ r. r.ancestors k)
        (rows_from_out (state_row dom scxml) 0 (state_elements dom scxml) i no_state h)

  -- The state that `getHistoryCompletion` leaves at a history is another one.
  history_child-other :
      (history : Element) (es : List Element)
      → same_node (has_history_child dom scxml history es) (some (handle_of history)) ≡ false
  unfolding has_history_child
  history_child-other history [] = refl
  history_child-other history (e ∷ es) =
      later_other (has_history_child dom scxml history es) _ (handle_of history)
        (history_child-other history es)
        (elim (Bool-cases (handle_of e == handle_of history)) [
          | inl same ↦ rw same refl
          | inr other ↦
              if_other
                (not (handle_of e == handle_of history)
                  && below_parent dom scxml history e
                  && is_history dom (handle_of e))
                (handle_of e) (handle_of history) other
        ])

  -- No state is marked as having a history within: `init` compares the wrong two states.
  pub has_history_never :
      (i : ℕ)
      → i < n_states (tables dom scxml)
      → (state_at (tables dom scxml) i).has_history ≡ false
  unfolding state_row
  has_history_never i lt =
      let (e, h) = state_there i lt in
      ap (λ r. r.has_history) (row_at i e h)
      ∙ rw (history_child-other e (state_elements dom scxml))
          (and_false (is_history dom (handle_of e)))
    where
      and_false : (b : Bool) → (b && false) ≡ false
      and_false true = refl
      and_false false = refl

  if_some : (b : Bool) (c d : Chart) → (if b then some d else none) ≡ some c → (b ≡ true) × (d ≡ c)
  if_some true c d h = (refl, cc)
  if_some false c d h = absurd (cc)

  pub compile-tables :
      (c : Chart)
      → compile dom scxml ≡ some c
      → (all_marked dom scxml (get_completion dom scxml) (state_elements dom scxml) ≡ true)
        × (tables dom scxml ≡ c)
  unfolding compile
  compile-tables c h =
      let (both, same) = if_some _ c (tables dom scxml) h in (and_left _ _ both, same)
    where
      and_left : (a b : Bool) → (a && b) ≡ true → a ≡ true
      and_left a b h = ground arith

  nil_of : (l : List (Option ℕ)) → is_nil l ≡ true → l ≡ []
  nil_of [] h = refl
  nil_of (x ∷ l) h = absurd (cc)

  all_marked_at :
      (f : Element → List (Option ℕ)) (es : List Element) (i : ℕ) (e : Element)
      → all_marked dom scxml f es ≡ true
      → get_elem? es i ≡ some e
      → (mark_listed (state_elements dom scxml) (f e)).1 ≡ []
  all_marked_at f [] i e m h = absurd (cc)
  all_marked_at f (x ∷ es) zero e m h =
      let q : x ≡ e = cc in
      nil_of _ (subst (λ y. is_marked dom scxml (f y) ≡ true) q (ground arith))
  all_marked_at f (x ∷ es) (suc i) e m h = all_marked_at f es i e (ground arith) h

  -- Where `init` gives tables, one state completes another exactly if it is in the list that `getCompletion`
  -- gives of that, provided that no two states are the same node.
  pub compile-completion :
      (c : Chart) (i j : ℕ) (e f : Element)
      → compile dom scxml ≡ some c
      → Distinct (state_elements dom scxml)
      → get_elem? (state_elements dom scxml) i ≡ some e
      → get_elem? (state_elements dom scxml) j ≡ some f
      → (state_at c i).completion j ≡ is_listed (handle_of f) (get_completion dom scxml e)
  unfolding state_row
  compile-completion c i j e f h d hi hj =
      let (marked, same) = compile-tables c h in
      ap (λ t. (state_at t i).completion j) (sym same)
      ∙ ap (λ r. r.completion j) (row_at i e hi)
      ∙ mark_listed_iff (state_elements dom scxml) (get_completion dom scxml e) j f d
          (all_marked_at (get_completion dom scxml) (state_elements dom scxml) i e marked hi) hj
