-- ===== src/MicroStep/Entry/Later.antt =====
-- What a visit of `ESTABLISH_ENTRYSET` adds stands behind the state visited.
use uscxml.Prelude.{
  ℕ, ◌<◌, ◌≡◌, ◌⊎◌, refl, true, false, not, ◌&&◌, ◌||◌, arith, ltb, ◌==◌, upward_inv, first_below,
  first_below_found, Option-cases, inl, inr, ==_iff, ap, ◌∙◌, if_rule,
}
use uscxml.Bits.{Bitset, clear_at, ◌∪◌, ◌∩◌, ∪_cases, intersects}
use uscxml.MicroStep.Tables.{
  Chart, Kind, state_at, trans_at, n_states, n_trans, is_history_kind, is_pseudo,
}
use uscxml.MicroStep.Entry.{
  Entry, add_first_ancestors, add_all_ancestors, default_history, complete_history,
  complete_initial, complete_compound, complete_kind, complete_state,
}
use uscxml.MicroStep.Entry.Upward.{IsUpward, IsRegular}

-- A chart in document order: what completes a state, and the targets of a default transition, stand behind it, and
-- what is around these and not around the state as well. The regions of a parallel state are proper states, and a
-- transition that leaves one leaves the parallel state.
pub record IsLayered (c : Chart) : Type 0 where
  pub bounded : (i b : ℕ) → (state_at c i).completion b ≡ true → b < n_states c
  pub later : (i b : ℕ) → (state_at c i).completion b ≡ true → i < b
  pub defaults_later :
      (i j b : ℕ)
      → is_history_kind (state_at c i).kind ≡ true
      → (trans_at c j).source ≡ i
      → (trans_at c j).target b ≡ true
      → i < b
  pub inner :
      (i j b a : ℕ)
      → (state_at c i).kind ≡ Kind.initial
      → (trans_at c j).source ≡ i
      → (trans_at c j).target b ≡ true
      → (state_at c b).ancestors a ≡ true
      → ((state_at c i).ancestors a ≡ true) ⊎ (i < a)
  pub regions :
      (i b : ℕ)
      → (state_at c i).kind ≡ Kind.parallel
      → (state_at c i).completion b ≡ true
      → is_pseudo (state_at c b).kind ≡ false
  pub whole :
      (j i b : ℕ)
      → (state_at c i).kind ≡ Kind.parallel
      → (state_at c i).completion b ≡ true
      → (trans_at c j).exit_set b ≡ true
      → (trans_at c j).exit_set i ≡ true

module _ (c : Chart) (regular : IsRegular c) (layered : IsLayered c)
    (config history exit_set : Bitset) where
  -- What a visit of `i` adds stands behind `i`.
  abbrev pub AddsLater : ℕ → Bitset → Bitset → Type 0
  AddsLater i e r = (a : ℕ) → r a ≡ true → (e a ≡ true) ⊎ (i < a)

  AddsLater-∪ :
      (i : ℕ) (e r bits : Bitset)
      → AddsLater i e r
      → ((b : ℕ) → bits b ≡ true → (e b ≡ true) ⊎ (i < b))
      → AddsLater i e (r ∪ bits)
  AddsLater-∪ i e r bits v fresh a h = elim (∪_cases r bits a h) [
    | inl old ↦ v a old
    | inr new ↦ fresh a new
  ]

  compound_later :
      (i : ℕ) (s : Entry)
      → i < n_states c
      → s.states i ≡ true
      → is_pseudo (state_at c i).kind ≡ false
      → IsUpward c (s.states)
      → AddsLater i (s.states) (complete_compound c config history exit_set i s).states
  unfolding complete_compound add_first_ancestors
  compound_later i s lt present proper up =
      let added =
        AddsLater-∪ i (s.states) (s.states) (state_at c i).completion (λ a h. inl h)
          (λ b h. inr (layered.later i b h)) in
      if_rule (λ (r : Entry). AddsLater i (s.states) (r.states))
        (not (intersects (n_states c) (s.states) (state_at c i).children)
          && (not (intersects (n_states c) config (state_at c i).children)
              || intersects (n_states c) exit_set (state_at c i).children))
        (λ _.
          if_rule (AddsLater i (s.states))
            (not (intersects (n_states c) (state_at c i).completion (state_at c i).children))
            (λ _.
              elim (Option-cases
                (first_below (n_states c) (λ k. ltb i k && (state_at c i).completion k))) [
                  | inl missing ↦ rw (missing, add_first_ancestors) added
                  | inr (k, found) ↦
                      rw (found, add_first_ancestors)
                        (AddsLater-∪ i (s.states) (s.states ∪ (state_at c i).completion)
                          (state_at c k).ancestors added
                          (around k
                            (first_below_found (n_states c)
                              (λ l. ltb i l && (state_at c i).completion l) found).1))
                ])
            (λ _. added))
        (λ _. λ a h. inl h)
    where
      around :
          (k : ℕ)
          → (ltb i k && (state_at c i).completion k) ≡ true
          → (a : ℕ) → (state_at c k).ancestors a ≡ true
          → (s.states a ≡ true) ⊎ (i < a)
      around k q a h = elim (regular.below i k a proper (ground arith) h) [
        | inl same ↦ inl (ap (s.states) same ∙ present)
        | inr above ↦ inl (up i a lt present above)
      ]

  history_later :
      (i : ℕ) (s : Entry)
      → is_history_kind (state_at c i).kind ≡ true
      → AddsLater i (s.states) (complete_history c config history exit_set i s).states
  unfolding complete_history default_history
  history_later i s hist =
      if_rule (λ (r : Entry). AddsLater i (s.states) (r.states))
        (not (intersects (n_states c) (state_at c i).completion history)
          && not (config (state_at c i).parent))
        (λ _. elim (Option-cases (first_below (n_trans c) (λ j. (trans_at c j).source == i))) [
          | inl missing ↦ rw missing (λ a h. inl h)
          | inr (j, found) ↦
              rw (found, regular.shallow i)
                (AddsLater-∪ i (s.states) (s.states) (trans_at c j).target (λ a h. inl h)
                  (λ b h. inr (
                    layered.defaults_later i j b hist
                      ((==_iff (trans_at c j).source i).0
                        (first_below_found (n_trans c) (λ l. (trans_at c l).source == i) found).1)
                      h)))
        ])
        (λ _. rw (regular.shallow i) (
          AddsLater-∪ i (s.states) (s.states) ((state_at c i).completion ∩ history) (λ a h. inl h)
            (λ b h. inr (layered.later i b (ground arith)))))

  initial_later :
      (i : ℕ) (s : Entry)
      → i < n_states c
      → s.states i ≡ true
      → (state_at c i).kind ≡ Kind.initial
      → IsUpward c (s.states)
      → AddsLater i (s.states) (complete_initial c config history exit_set i s).states
  unfolding complete_initial add_all_ancestors
  initial_later i s lt present initial up =
      upward_inv (λ _ (r : Entry). AddsLater i (s.states) (r.states)) _ (n_trans c)
        (λ j r _ v.
          if_rule (λ (q : Entry). AddsLater i (s.states) (q.states)) ((trans_at c j).source == i)
            (λ same. climbs j r ((==_iff (trans_at c j).source i).0 same) v) (λ _. v))
        s (λ a h. inl h)
    where
      climbs :
          (j : ℕ) (r : Entry)
          → (trans_at c j).source ≡ i
          → AddsLater i (s.states) (r.states)
          → AddsLater i (s.states) (
              add_all_ancestors c i
                (trans_at c j).target
                (clear_at i (r.states) ∪ (trans_at c j).target))
      climbs j r source v =
          upward_inv (λ _ e. AddsLater i (s.states) e) _ (n_states c)
            (λ k e _ w.
              if_rule (AddsLater i (s.states)) (ltb i k && (trans_at c j).target k)
                (λ q. AddsLater-∪ i (s.states) e (state_at c k).ancestors w (λ a h.
                  elim (layered.inner i j k a initial source (ground arith) h) [
                    | inl above ↦ inl (up i a lt present above)
                    | inr behind ↦ inr behind
                  ]))
                (λ _. w))
            _
            (AddsLater-∪ i (s.states) (clear_at i (r.states)) (trans_at c j).target
              (λ a h. v a (ground arith)) (λ b h. inr (regular.behind i j b initial source h)))

  kind_later :
      (k : Kind) (i : ℕ) (s : Entry)
      → (state_at c i).kind ≡ k
      → i < n_states c
      → s.states i ≡ true
      → IsUpward c (s.states)
      → AddsLater i (s.states) (complete_kind c config history exit_set k i s).states
  unfolding complete_kind
  kind_later Kind.final i s e lt present up = λ a h. inl h
  kind_later Kind.atomic i s e lt present up = λ a h. inl h
  kind_later Kind.parallel i s e lt present up =
      AddsLater-∪ i (s.states) (s.states) (state_at c i).completion (λ a h. inl h)
        (λ b h. inr (layered.later i b h))
  kind_later Kind.history_shallow i s e lt present up = history_later i s (ap is_history_kind e)
  kind_later Kind.history_deep i s e lt present up = history_later i s (ap is_history_kind e)
  kind_later Kind.initial i s e lt present up = initial_later i s lt present e up
  kind_later Kind.compound i s e lt present up = compound_later i s lt present (ap is_pseudo e) up

  pub state_later :
      (i : ℕ) (s : Entry)
      → i < n_states c
      → IsUpward c (s.states)
      → AddsLater i (s.states) (complete_state c config history exit_set i s).states
  unfolding complete_state
  state_later i s lt up =
      if_rule (λ (r : Entry). AddsLater i (s.states) (r.states)) (s.states i)
        (λ present. kind_later (state_at c i).kind i s refl lt present up) (λ _. λ a h. inl h)
