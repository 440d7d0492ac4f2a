-- ===== src/MicroStep/Entry/Complete.antt =====
-- How `FastMicroStep::step` completes the states of the entry set.
use uscxml.Prelude.{
  ℕ, Bool, ◌<◌, ◌≡◌, ◌≢◌, refl, true, not, ◌||◌, arith, ◌==◌, upward, upward_inv, first_below,
  Bool-cases, Option-cases, inl, inr, ==_iff, ap, ◌∙◌, subst, sym, any_below_witness,
}
use uscxml.Bits.{Bitset, clear_at, ◌∪◌, ◌∩◌, intersects}
use uscxml.MicroStep.Tables.{Chart, Kind, state_at, trans_at, n_states, n_trans, is_history_kind}
use uscxml.MicroStep.Entry.{
  Entry, add_first_ancestors, add_all_ancestors, default_history, add_nested, add_nested_histories,
  complete_history, complete_initial, complete_compound, complete_kind, complete_state,
  complete_descendants,
}

abbrev Grows : Bitset → Bitset → Type 0
Grows e e' = (b : ℕ) → e b ≡ true → e' b ≡ true

-- A loop whose rounds lose no bit loses no bit.
upward-Grows :
    (n : ℕ) (body : ℕ → Bitset → Bitset) (e : Bitset)
    → ((i : ℕ) (r : Bitset) → Grows r (body i r))
    → Grows e (upward n body e)
upward-Grows n body e keep =
    upward_inv (λ _ r. Grows e r) body n (λ i r lt g b h. keep i r b (g b h)) e (λ b h. h)

module _ (c : Chart) where
  add_first_ancestors-Grows : (i : ℕ) (bits e : Bitset) → Grows e (add_first_ancestors c i bits e)
  unfolding add_first_ancestors
  add_first_ancestors-Grows i bits e b h = ground arith

  add_all_ancestors-Grows : (i : ℕ) (bits e : Bitset) → Grows e (add_all_ancestors c i bits e)
  unfolding add_all_ancestors
  add_all_ancestors-Grows i bits e = upward-Grows (n_states c) _ e (λ k r b h. ground arith)

  default_history-Grows : (i j : ℕ) (s : Entry) → Grows s.states (default_history c i j s).states
  unfolding default_history
  default_history-Grows i j s b h = ground (
    arith,
    add_first_ancestors-Grows i (trans_at c j).target (s.states ∪ (trans_at c j).target) b,
  )

  add_nested-Grows : (j : ℕ) (e : Bitset) → Grows e (add_nested c j e)
  unfolding add_nested
  add_nested-Grows j e = upward-Grows (n_states c) _ e (λ k r b h. ground arith)

  add_nested_histories-Grows : (i : ℕ) (e : Bitset) → Grows e (add_nested_histories c i e)
  unfolding add_nested_histories
  add_nested_histories-Grows i e =
      upward-Grows (n_states c) _ e (λ j r b h. ground (arith, add_nested-Grows j r b))

  module _ (config history exit_set : Bitset) where
    complete_history-Grows :
        (i : ℕ) (s : Entry) → Grows s.states (complete_history c config history exit_set i s).states
    unfolding complete_history
    complete_history-Grows i s b h =
        elim (Option-cases (first_below (n_trans c) (λ j. (trans_at c j).source == i))) [
          | inl missing ↦ rw missing (ground (arith, nested_kept))
          | inr (j, found) ↦ rw found (ground (arith, nested_kept, default_history-Grows i j s b h))
        ]
      where
        nested_kept :
            add_nested_histories c i (s.states ∪ ((state_at c i).completion ∩ history)) b ≡ true
        nested_kept =
            add_nested_histories-Grows i (s.states ∪ ((state_at c i).completion ∩ history)) b
              (ground arith)

    complete_initial_keeps :
        (i b : ℕ) (s : Entry)
        → b ≢ i
        → s.states b ≡ true
        → (complete_initial c config history exit_set i s).states b ≡ true
    unfolding complete_initial
    complete_initial_keeps i b s ne h =
        upward_inv (λ _ s'. s'.states b ≡ true) _ (n_trans c)
          (λ j s' lt k. ground (
            arith,
            add_all_ancestors-Grows i (trans_at c j).target
                (clear_at i s'.states ∪ (trans_at c j).target) b,
          ))
          s h

    complete_compound-Grows :
        (i : ℕ) (s : Entry)
        → Grows s.states (complete_compound c config history exit_set i s).states
    unfolding complete_compound
    complete_compound-Grows i s b h = ground (
      arith,
      add_first_ancestors-Grows i (state_at c i).completion (s.states ∪ (state_at c i).completion)
          b,
    )

    abbrev after : ℕ → Entry → Bitset
    after i s = (complete_state c config history exit_set i s).states

    complete_kind_keeps :
        (k : Kind) (i b : ℕ) (s : Entry)
        → (k ≡ Kind.initial → b ≢ i)
        → s.states b ≡ true
        → (complete_kind c config history exit_set k i s).states b ≡ true
    unfolding complete_kind
    complete_kind_keeps Kind.final i b s ne h = h
    complete_kind_keeps Kind.atomic i b s ne h = h
    complete_kind_keeps Kind.parallel i b s ne h = ground arith
    complete_kind_keeps Kind.history_shallow i b s ne h = complete_history-Grows i s b h
    complete_kind_keeps Kind.history_deep i b s ne h = complete_history-Grows i s b h
    complete_kind_keeps Kind.initial i b s ne h = complete_initial_keeps i b s (ne refl) h
    complete_kind_keeps Kind.compound i b s ne h = complete_compound-Grows i s b h

    -- Only an `<initial>` element is ever taken out again.
    pub complete_state_keeps :
        (i b : ℕ) (s : Entry)
        → (state_at c b).kind ≢ Kind.initial
        → s.states b ≡ true
        → after i s b ≡ true
    unfolding complete_state
    complete_state_keeps i b s proper h = elim (Bool-cases (s.states i)) [
      | inr absent ↦ rw (absent, after) h
      | inl present ↦
          rw (present, after)
            (complete_kind_keeps (state_at c i).kind i b s
              (λ e same. proper (ap (λ k. (state_at c k).kind) same ∙ e)) h)
    ]

    -- A property that the visit of `i` gives, and that every later visit keeps
    visited {ℓ} :
        (P : Bitset → Type ℓ) (i : ℕ) (s : Entry)
        → i < n_states c
        → s.states i ≡ true
        → (state_at c i).kind ≢ Kind.initial
        → ((r : Entry) → r.states i ≡ true → P (after i r))
        → ((k : ℕ) (r : Entry) → P r.states → P (after k r))
        → P (complete_descendants c config history exit_set s).states
    unfolding complete_descendants
    visited P i s lt present proper gives keeps =
        (upward_inv (λ k r. (r.states i ≡ true) × (i < k → P r.states)) _ (n_states c)
            (λ k r _ v. (
              complete_state_keeps k i r proper v.0,
              λ le. elim (Bool-cases (k == i)) [
                | inl same ↦ subst (λ j. P (after j r)) (sym ((==_iff k i).0 same)) (gives r v.0)
                | inr other ↦ keeps k r (v.1 (ground arith))
              ],
            ))
            s (present, λ none_yet. absurd (omega arith))).1
          lt

    pub after_parallel :
        (i b : ℕ) (s : Entry)
        → s.states i ≡ true
        → (state_at c i).kind ≡ Kind.parallel
        → (state_at c i).completion b ≡ true
        → after i s b ≡ true
    unfolding complete_state complete_kind
    after_parallel i b s present parallel h = rw (present, after, parallel) (ground arith)

    -- Every state that completes a parallel state of the entry set is in the result, unless it is an
    -- `<initial>` element.
    pub complete_descendants_parallel :
        (i b : ℕ) (s : Entry)
        → i < n_states c
        → s.states i ≡ true
        → (state_at c i).kind ≡ Kind.parallel
        → (state_at c i).completion b ≡ true
        → (state_at c b).kind ≢ Kind.initial
        → (complete_descendants c config history exit_set s).states b ≡ true
    complete_descendants_parallel i b s lt present parallel completes proper =
        visited (λ e. e b ≡ true) i s lt present (λ e. cc)
          (λ r h. after_parallel i b r h parallel completes)
          (λ k r h. complete_state_keeps k b r proper h)

    abbrev pub ChildIn : ℕ → Bitset → Type 0
    ChildIn i e = (b : ℕ) × ((state_at c i).children b ≡ true) × (e b ≡ true)

    after_compound :
        (i d : ℕ) (s : Entry)
        → s.states i ≡ true
        → (state_at c i).kind ≡ Kind.compound
        → (state_at c i).completion d ≡ true
        → (state_at c i).children d ≡ true
        → (not (intersects (n_states c) config (state_at c i).children)
            || intersects (n_states c) exit_set (state_at c i).children)
          ≡ true
        → ChildIn i (after i s)
    unfolding complete_state complete_kind complete_compound
    after_compound i d s present compound completes child inactive =
        elim (Bool-cases (intersects (n_states c) s.states (state_at c i).children)) [
          | inl some_child ↦
              let (b, _, h) =
                any_below_witness (n_states c) (s.states ∩ (state_at c i).children) some_child in
              (b, ground arith, rw (present, after, compound, some_child) (ground arith))
          | inr no_child ↦ (
            d,
            child,
            rw (present, after, compound, no_child, inactive)
                (ground (
                  arith,
                  add_first_ancestors-Grows i (state_at c i).completion
                      (s.states ∪ (state_at c i).completion) d,
                )),
          )
        ]

    -- A compound state of the entry set with no descendant that stays active has a descendant in the
    -- result, if its completion has one and none of its descendants is an `<initial>` element.
    pub complete_descendants_compound :
        (i d : ℕ) (s : Entry)
        → i < n_states c
        → s.states i ≡ true
        → (state_at c i).kind ≡ Kind.compound
        → (state_at c i).completion d ≡ true
        → (state_at c i).children d ≡ true
        → ((b : ℕ) → (state_at c i).children b ≡ true → (state_at c b).kind ≢ Kind.initial)
        → (not (intersects (n_states c) config (state_at c i).children)
            || intersects (n_states c) exit_set (state_at c i).children)
          ≡ true
        → ChildIn i (complete_descendants c config history exit_set s).states
    complete_descendants_compound i d s lt present compound completes child proper inactive =
        visited (ChildIn i) i s lt present (λ e. cc)
          (λ r h. after_compound i d r h compound completes child inactive)
          (λ k r (b, h, q). (b, h, complete_state_keeps k b r (proper b h) q))

    abbrev is_recorded : ℕ → Bool
    is_recorded i =
        intersects (n_states c) (state_at c i).completion history || config (state_at c i).parent

    complete_history_recorded :
        (i b : ℕ) (s : Entry)
        → is_recorded i ≡ true
        → (state_at c i).completion b ≡ true
        → history b ≡ true
        → (complete_history c config history exit_set i s).states b ≡ true
    unfolding complete_history
    complete_history_recorded i b s recorded covered remembered =
        ground
          (arith, add_nested_histories-Grows i (s.states ∪ ((state_at c i).completion ∩ history)) b)

    after_history :
        (i b : ℕ) (s : Entry)
        → s.states i ≡ true
        → is_history_kind (state_at c i).kind ≡ true
        → (complete_history c config history exit_set i s).states b ≡ true
        → after i s b ≡ true
    unfolding complete_state complete_kind
    after_history i b s present hist h = rw (present, after) (by_kind (state_at c i).kind hist)
      where
        by_kind :
            (k : Kind)
            → is_history_kind k ≡ true
            → (complete_kind c config history exit_set k i s).states b ≡ true
        by_kind Kind.history_deep q = h
        by_kind Kind.history_shallow q = h
        by_kind Kind.atomic q = cc
        by_kind Kind.parallel q = cc
        by_kind Kind.compound q = cc
        by_kind Kind.final q = cc
        by_kind Kind.initial q = cc

    -- A history state of the entry set that has a record, or whose parent is active, brings back every
    -- state that it covers and that is recorded, unless it is an `<initial>` element.
    pub complete_descendants_history :
        (i b : ℕ) (s : Entry)
        → i < n_states c
        → s.states i ≡ true
        → is_history_kind (state_at c i).kind ≡ true
        → (intersects (n_states c) (state_at c i).completion history
            || config (state_at c i).parent)
          ≡ true
        → (state_at c i).completion b ≡ true
        → history b ≡ true
        → (state_at c b).kind ≢ Kind.initial
        → (complete_descendants c config history exit_set s).states b ≡ true
    complete_descendants_history i b s lt present hist recorded covered remembered proper =
        visited (λ e. e b ≡ true) i s lt present (λ e. cc (ap is_history_kind e))
          (λ r h.
            after_history i b r h hist
              (complete_history_recorded i b r recorded covered remembered))
          (λ k r h. complete_state_keeps k b r proper h)
