-- ===== src/MicroStep/Step/Laws.antt =====
-- What a microstep does to the configuration, and what every step keeps.
use uscxml.Prelude.{
  ℕ, ◌<◌, ◌≡◌, refl, true, false, not, ◌&&◌, ◌||◌, arith, upward_inv, downward_inv, Bool-cases, inl,
  inr, ◌∙◌, if_rule,
}
use uscxml.Bits.{Bitset}
use uscxml.MicroStep.Tables.{Chart, Callbacks, Micro, state_at, n_states, n_trans, is_pseudo}
use uscxml.MicroStep.Select.{select_transitions}
use uscxml.MicroStep.Entry.{establish_entry_set}
use uscxml.MicroStep.Leave.{exit_state, exit_states, take_transition, take_transitions}
use uscxml.MicroStep.Leave.Laws.{exit_states-configuration}
use uscxml.MicroStep.Enter.{enter_states}
use uscxml.MicroStep.Enter.Laws.{
  enter_states-configuration, enter_states-joins, enter_states-Progress, AllStarted,
}
use uscxml.MicroStep.Step.{Status, perform, select_and_perform, begin, step}
use uscxml.MicroStep.Step.Rule.{step-Keeps}

module _ {W : Type 0} (cb : Callbacks W) (c : Chart) where
  -- What the exit of states and the taking of transitions leave alone
  record Leaves (m m' : Micro W) : Type 0 where
    fewer : (b : ℕ) → m'.configuration b ≡ true → m.configuration b ≡ true
    started : m'.initialized_data ≡ m.initialized_data
    invoked : m'.invocations ≡ m.invocations
    recorded : m'.history ≡ m.history

  Leaves-refl : (m : Micro W) → Leaves m m
  Leaves-refl m = record { fewer = λ b h. h; started = refl; invoked = refl; recorded = refl }

  Leaves-trans : {m m' m'' : Micro W} → Leaves m m' → Leaves m' m'' → Leaves m m''
  Leaves-trans v w = record {
    fewer = λ b h. v.fewer b (w.fewer b h);
    started = w.started ∙ v.started;
    invoked = w.invoked ∙ v.invoked;
    recorded = w.recorded ∙ v.recorded;
  }

  exit_state-Leaves : (x : Bitset) (i : ℕ) (m : Micro W) → Leaves m (exit_state cb c x i m)
  unfolding exit_state
  exit_state-Leaves x i m = elim (Bool-cases (x i && m.configuration i)) [
    | inr stays ↦ rw stays (Leaves-refl m)
    | inl goes ↦
        rw goes
          (record { fewer = λ b h. ground arith; started = refl; invoked = refl; recorded = refl })
  ]

  exit_states-Leaves : (x : Bitset) (m : Micro W) → Leaves m (exit_states cb c x m)
  unfolding exit_states
  exit_states-Leaves x m =
      downward_inv (λ _ m'. Leaves m m') (exit_state cb c x) (n_states c)
        (λ i m' lt v. Leaves-trans v (exit_state-Leaves x i m')) m (Leaves-refl m)

  take_transition-configuration :
      (ts : Bitset) (i : ℕ) (m : Micro W)
      → (take_transition cb c ts i m).configuration ≡ m.configuration
  unfolding take_transition
  take_transition-configuration ts i m = ground arith

  take_transition-Leaves :
      (ts : Bitset) (i : ℕ) (m : Micro W) → Leaves m (take_transition cb c ts i m)
  unfolding take_transition
  take_transition-Leaves ts i m = record {
    fewer = λ b h. ground arith;
    started = ground arith;
    invoked = ground arith;
    recorded = ground arith;
  }

  take_transitions-configuration :
      (ts : Bitset) (m : Micro W) → (take_transitions cb c ts m).configuration ≡ m.configuration
  unfolding take_transitions
  take_transitions-configuration ts m =
      upward_inv (λ _ m'. m'.configuration ≡ m.configuration) (take_transition cb c ts) (n_trans c)
        (λ i m' lt v. take_transition-configuration ts i m' ∙ v) m refl

  take_transitions-Leaves : (ts : Bitset) (m : Micro W) → Leaves m (take_transitions cb c ts m)
  unfolding take_transitions
  take_transitions-Leaves ts m =
      upward_inv (λ _ m'. Leaves m m') (take_transition cb c ts) (n_trans c)
        (λ i m' lt v. Leaves-trans v (take_transition-Leaves ts i m')) m (Leaves-refl m)

  -- A microstep leaves the exit set and enters the proper states of the entry set, whatever the
  -- executable content does.
  pub perform-configuration :
      (x target ts : Bitset) (m : Micro W) (b : ℕ)
      → b < n_states c
      → let e = establish_entry_set c m.configuration m.history x target ts in
        (perform cb c x target ts m).0.configuration b
        ≡ ((m.configuration b && not (x b)) || (e.states b && not (is_pseudo (state_at c b).kind)))
  unfolding perform
  perform-configuration x target ts m b lt =
      let e = establish_entry_set c m.configuration m.history x target ts in
      let m1 = exit_states cb c x m in
      let m2 = take_transitions cb c (e.transitions) m1 in
      enter_states-configuration cb c (e.states) (e.transitions) m2 b lt
      ∙ rw
          (
            take_transitions-configuration (e.transitions) m1,
            exit_states-configuration cb c x m b lt,
          )
          refl

  -- The active states are states of the table, none of them is a history or an `<initial>` element,
  -- and the data of each has been initialised.
  pub record Inv (m : Micro W) : Type 0 where
    pub proper :
        (b : ℕ)
        → m.configuration b ≡ true
        → (b < n_states c) × (is_pseudo (state_at c b).kind ≡ false)
    pub all_started : AllStarted cb c m

  -- The invariant reads two fields.
  pub transport-Inv :
      {m m' : Micro W}
      → m'.configuration ≡ m.configuration
      → m'.initialized_data ≡ m.initialized_data
      → Inv m
      → Inv m'
  transport-Inv p q v = record {
    proper = λ b h. v.proper b (rw p at h);
    all_started = λ b h. rw q (v.all_started b (rw p at h));
  }

  Leaves-Inv : {m m' : Micro W} → Leaves m m' → Inv m → Inv m'
  Leaves-Inv l v = record {
    proper = λ b h. v.proper b (l.fewer b h);
    all_started = λ b h. rw (l.started) (v.all_started b (l.fewer b h));
  }

  enter_states-Inv : (es ts : Bitset) (m : Micro W) → Inv m → Inv (enter_states cb c es ts m)
  enter_states-Inv es ts m v = record {
    proper = λ b h. elim (enter_states-joins cb c es ts m b h) [
      | inl old ↦ v.proper b old
      | inr (fresh, lt) ↦ (lt, ground arith)
    ];
    all_started = (enter_states-Progress cb c es ts m).all_started v.all_started;
  }

  perform-Inv : (x target ts : Bitset) (m : Micro W) → Inv m → Inv (perform cb c x target ts m).0
  unfolding perform
  perform-Inv x target ts m v =
      let e = establish_entry_set c m.configuration m.history x target ts in
      let m1 = exit_states cb c x m in
      let v1 = Leaves-Inv (exit_states-Leaves x m) v in
      let v2 = Leaves-Inv (take_transitions-Leaves (e.transitions) m1) v1 in
      transport-Inv refl refl (enter_states-Inv (e.states) (e.transitions) _ v2)

  -- The same of what a handler returns
  abbrev Inv' : Micro W × Status → Type 0
  Inv' r = Inv (r.0)

  pub select_and_perform-Inv : (m : Micro W) → Inv m → Inv' (select_and_perform cb c m)
  unfolding select_and_perform
  select_and_perform-Inv m v =
      let s = select_transitions cb c m.configuration m.event m.world in
      if_rule Inv' (s.found || m.flags.transition_found)
        (λ _. perform-Inv _ _ _ _ (transport-Inv refl refl v)) (λ _. transport-Inv refl refl v)

  pub begin-Inv : (m : Micro W) → Inv m → Inv' (begin cb c m)
  unfolding begin
  begin-Inv m v = perform-Inv _ _ _ _ (transport-Inv refl refl v)

  -- Every step keeps the invariant, on every path through it, as long as the callbacks return: the active states
  -- are within the table, no history or <initial> elements, and marked as initialised.
  pub step-Inv : (block_ms : ℕ) (m : Micro W) → Inv m → Inv (step cb c block_ms m).0
  step-Inv block_ms m v =
      step-Keeps cb c Inv (λ m' m'' p q u. transport-Inv p q u) select_and_perform-Inv begin-Inv
        block_ms m v
