-- ===== src/MicroStep/Entry/Establish.antt =====
-- `ESTABLISH_ENTRYSET` of `FastMicroStep::step` gives a set with all ancestors of its states.
use uscxml.Prelude.{
  ℕ, ◌<◌, ◌≡◌, refl, true, false, not, ◌&&◌, ◌||◌, arith, ◌==◌, upward_inv, first_below,
  first_below_found, Option-cases, inl, inr, ==_iff, ap, ◌∙◌, if_rule,
}
use uscxml.Bits.{Bitset, clear_at, ◌∪◌, ◌∩◌, ∪_cases, intersects}
use uscxml.MicroStep.Tables.{
  Chart, Kind, state_at, trans_at, n_states, n_trans, is_history_kind, is_pseudo,
}
use uscxml.MicroStep.Entry.{
  add_ancestors, Entry, is_deep, add_all_ancestors, default_history, complete_history,
  complete_initial, complete_compound, complete_kind, complete_state, complete_descendants,
  establish_entry_set,
}
use uscxml.MicroStep.Entry.Laws.{add_ancestors-Climbed}
use uscxml.MicroStep.Entry.Upward.{
  IsUpward, IsRegular, IsUpward-add, add_first_ancestors-IsUpward, add_all_ancestors-IsUpward,
}

module _ (c : Chart) (regular : IsRegular c) (config history exit_set : Bitset) where
  abbrev Upward : Entry → Type 0
  Upward s = IsUpward c (s.states)

  -- The ancestors of what is beside a history of the set are there.
  beside_history :
      (i : ℕ) (e bits : Bitset)
      → i < n_states c
      → e i ≡ true
      → ((b a : ℕ)
          → bits b ≡ true
          → (state_at c b).ancestors a ≡ true
          → (state_at c i).ancestors a ≡ true)
      → IsUpward c e
      → IsUpward c (e ∪ bits)
  beside_history i e bits lt present within up =
      IsUpward-add c regular e bits up (λ b a h q. up i a lt present (within b a h q))

  default_history-Upward :
      (i j : ℕ) (s : Entry)
      → i < n_states c
      → s.states i ≡ true
      → is_history_kind (state_at c i).kind ≡ true
      → (trans_at c j).source ≡ i
      → Upward s
      → Upward (default_history c i j s)
  unfolding default_history
  default_history-Upward i j s lt present hist source up =
      let added =
        beside_history i (s.states) (trans_at c j).target lt present
          (λ b a h q. regular.defaults i j b a hist source h q) up in
      if_rule (IsUpward c)
        (is_deep (state_at c i).kind
          && not (intersects (n_states c) (trans_at c j).target (state_at c i).children))
        (λ _. add_first_ancestors-IsUpward c regular i (trans_at c j).target _ added) (λ _. added)

  complete_history-Upward :
      (i : ℕ) (s : Entry)
      → i < n_states c
      → s.states i ≡ true
      → is_history_kind (state_at c i).kind ≡ true
      → Upward s
      → Upward (complete_history c config history exit_set i s)
  unfolding complete_history
  complete_history-Upward i s lt present hist up =
      if_rule Upward
        (not (intersects (n_states c) (state_at c i).completion history)
          && not (config (state_at c i).parent))
        (λ _. elim (Option-cases (first_below (n_trans c) (λ j. (trans_at c j).source == i))) [
          | inl missing ↦ rw missing up
          | inr (j, found) ↦ rw found (
              default_history-Upward i j s lt present hist
                ((==_iff (trans_at c j).source i).0
                  (first_below_found (n_trans c) (λ l. (trans_at c l).source == i) found).1)
                up)
        ])
        (λ _. rw (regular.shallow i) (
          beside_history i (s.states) ((state_at c i).completion ∩ history) lt present
            (λ b a h q. regular.beside i b a hist (ground arith) q) up))

  initial_round :
      (i j : ℕ) (s : Entry)
      → (state_at c i).kind ≡ Kind.initial
      → (trans_at c j).source ≡ i
      → Upward s
      → IsUpward c (
          add_all_ancestors c i
            (trans_at c j).target
            (clear_at i (s.states) ∪ (trans_at c j).target))
  initial_round i j s initial source up =
      add_all_ancestors-IsUpward c regular i (trans_at c j).target _
        (λ b h. regular.behind i j b initial source h)
        (λ b a lt h q. elim (∪_cases (clear_at i (s.states)) (trans_at c j).target b h) [
          | inr target ↦ inr (target, omega arith)
          | inl old ↦ inl (
              ground (
                arith,
                up b a lt (ground arith) q,
                regular.leaf i b (ap is_pseudo initial),
                q,
                ap (λ n. (state_at c b).ancestors n),
              ))
        ])

  complete_initial-Upward :
      (i : ℕ) (s : Entry)
      → (state_at c i).kind ≡ Kind.initial
      → Upward s
      → Upward (complete_initial c config history exit_set i s)
  unfolding complete_initial
  complete_initial-Upward i s initial up =
      upward_inv (λ _ r. Upward r) _ (n_trans c)
        (λ j r _ v.
          if_rule Upward ((trans_at c j).source == i)
            (λ same. initial_round i j r initial ((==_iff (trans_at c j).source i).0 same) v)
            (λ _. v))
        s up

  completion-IsUpward :
      (i : ℕ) (s : Entry)
      → i < n_states c
      → s.states i ≡ true
      → is_pseudo (state_at c i).kind ≡ false
      → Upward s
      → IsUpward c (s.states ∪ (state_at c i).completion)
  completion-IsUpward i s lt present proper up =
      IsUpward-add c regular (s.states) (state_at c i).completion up (λ b a h q.
        elim (regular.below i b a proper h q) [
          | inl same ↦ ap (s.states) same ∙ present
          | inr above ↦ up i a lt present above
        ])

  complete_compound-Upward :
      (i : ℕ) (s : Entry)
      → i < n_states c
      → s.states i ≡ true
      → is_pseudo (state_at c i).kind ≡ false
      → Upward s
      → Upward (complete_compound c config history exit_set i s)
  unfolding complete_compound
  complete_compound-Upward i s lt present proper up =
      let added = completion-IsUpward i s lt present proper up in
      if_rule Upward
        (not (intersects (n_states c) (s.states) (state_at c i).children)
          && (not (intersects (n_states c) config (state_at c i).children)
              || intersects (n_states c) exit_set (state_at c i).children))
        (λ _.
          if_rule (IsUpward c)
            (not (intersects (n_states c) (state_at c i).completion (state_at c i).children))
            (λ _. add_first_ancestors-IsUpward c regular i (state_at c i).completion _ added)
            (λ _. added))
        (λ _. up)

  complete_kind-Upward :
      (k : Kind) (i : ℕ) (s : Entry)
      → (state_at c i).kind ≡ k
      → i < n_states c
      → s.states i ≡ true
      → Upward s
      → Upward (complete_kind c config history exit_set k i s)
  unfolding complete_kind
  complete_kind-Upward Kind.final i s e lt present up = up
  complete_kind-Upward Kind.atomic i s e lt present up = up
  complete_kind-Upward Kind.parallel i s e lt present up =
      completion-IsUpward i s lt present (ap is_pseudo e) up
  complete_kind-Upward Kind.history_shallow i s e lt present up =
      complete_history-Upward i s lt present (ap is_history_kind e) up
  complete_kind-Upward Kind.history_deep i s e lt present up =
      complete_history-Upward i s lt present (ap is_history_kind e) up
  complete_kind-Upward Kind.initial i s e lt present up = complete_initial-Upward i s e up
  complete_kind-Upward Kind.compound i s e lt present up =
      complete_compound-Upward i s lt present (ap is_pseudo e) up

  pub complete_state-Upward :
      (i : ℕ) (s : Entry)
      → i < n_states c
      → Upward s
      → Upward (complete_state c config history exit_set i s)
  unfolding complete_state
  complete_state-Upward i s lt up =
      if_rule Upward (s.states i)
        (λ present. complete_kind-Upward (state_at c i).kind i s refl lt present up) (λ _. up)

  pub add_ancestors-IsUpward : (target : Bitset) → IsUpward c (add_ancestors c target)
  add_ancestors-IsUpward target i a lt h q =
      (add_ancestors-Climbed c (regular.nested) target).closed i a lt h q

  -- In a regular chart, the entry set has the ancestors of its states, whatever the targets.
  pub establish_entry_set-IsUpward :
      (target ts : Bitset)
      → IsUpward c (establish_entry_set c config history exit_set target ts).states
  unfolding establish_entry_set complete_descendants
  establish_entry_set-IsUpward target ts =
      upward_inv (λ _ r. Upward r) (complete_state c config history exit_set) (n_states c)
        (λ i r lt v. complete_state-Upward i r lt v) _ (add_ancestors-IsUpward target)
