-- ===== src/MicroStep/Enter/Laws.antt =====
-- What the entry of states makes active.
use uscxml.Prelude.{
  ℕ, zero, suc, ◌<◌, ◌≡◌, ◌⊎◌, refl, Bool, true, not, ◌&&◌, ◌||◌, ◌==◌, arith, ltb, upward,
  upward_inv, Bool-cases, inl, inr, ◌∙◌, ap,
}
use uscxml.Bits.{Bitset, set_at}
use uscxml.MicroStep.Tables.{Chart, Callbacks, Micro, state_at, n_states, is_pseudo, is_final}
use uscxml.MicroStep.Done.{handle_final, is_top_level}
use uscxml.MicroStep.Enter.{initialize, activate, enter_state, enter_states}

module _ {W : Type 0} (cb : Callbacks W) (c : Chart) where
  -- Final states change the flags and the world only.
  pub record Keeps (m m' : Micro W) : Type 0 where
    pub active : m'.configuration ≡ m.configuration
    pub started : m'.initialized_data ≡ m.initialized_data
    pub invoked : m'.invocations ≡ m.invocations
    pub recorded : m'.history ≡ m.history

  Keeps-refl : (m : Micro W) → Keeps m m
  Keeps-refl m = record { active = refl; started = refl; invoked = refl; recorded = refl }

  handle_final-Keeps : (i : ℕ) (m : Micro W) → Keeps m (handle_final c cb i m)
  unfolding handle_final
  handle_final-Keeps i m = elim (Bool-cases (is_final (state_at c i).kind)) [
    | inr other ↦ rw other (Keeps-refl m)
    | inl final ↦ elim (Bool-cases (is_top_level c cb i)) [
      | inl top ↦
          rw (final, top)
            (record { active = refl; started = refl; invoked = refl; recorded = refl })
      | inr inner ↦
          rw (final, inner)
            (record { active = refl; started = refl; invoked = refl; recorded = refl })
    ]
  ]

  -- What an entry changes besides the flags and the world
  pub record Activates (i : ℕ) (m m' : Micro W) : Type 0 where
    pub active : m'.configuration ≡ set_at i m.configuration
    pub started : (b : ℕ) → m'.initialized_data b ≡ (m.initialized_data b || b == i)
    pub invoked : m'.invocations ≡ m.invocations
    pub recorded : m'.history ≡ m.history

  activate-Activates : (ts : Bitset) (i : ℕ) (m : Micro W) → Activates i m (activate cb c ts i m)
  unfolding activate initialize
  activate-Activates ts i m = elim (Bool-cases (m.initialized_data i)) [
    | inl old ↦ rw old (record {
      active = refl;
      started = λ b. ground (arith, ap m.initialized_data);
      invoked = refl;
      recorded = refl;
    })
    | inr new ↦
        rw new
          (record { active = refl; started = λ b. ground arith; invoked = refl; recorded = refl })
  ]

  -- A proper state of the entry set
  abbrev pub joins : Bitset → ℕ → Bool
  joins es b = es b && not (is_pseudo (state_at c b).kind)

  enter_state-configuration :
      (es ts : Bitset) (i : ℕ) (m : Micro W) (b : ℕ)
      → (enter_state cb c es ts i m).configuration b ≡ (m.configuration b || (joins es b && b == i))
  unfolding enter_state
  enter_state-configuration es ts i m b =
      let k = handle_final-Keeps i (activate cb c ts i m) in
      let a = activate-Activates ts i m in
      elim (Bool-cases (es i && not (m.configuration i) && not (is_pseudo (state_at c i).kind))) [
        | inl yields ↦
            rw (yields, k.active, a.active) (ground (arith, ap (joins es) {x = b} {y = i}))
        | inr fails ↦
            rw fails
              (ground (arith, ap (joins es) {x = b} {y = i}, ap m.configuration {x = b} {y = i}))
      ]

  enter_below :
      (es ts : Bitset) (n : ℕ) (m : Micro W) (b : ℕ)
      → (upward n (enter_state cb c es ts) m).configuration b
        ≡ (m.configuration b || (joins es b && ltb b n))
  unfolding upward
  enter_below es ts zero m b = ground arith
  enter_below es ts (suc n) m b =
      enter_state-configuration es ts n (upward n (enter_state cb c es ts) m) b
      ∙ ground (arith, enter_below es ts n m b)

  -- Exactly the proper states of the entry set become active.
  pub enter_states-configuration :
      (es ts : Bitset) (m : Micro W) (b : ℕ)
      → b < n_states c
      → (enter_states cb c es ts m).configuration b ≡ (m.configuration b || joins es b)
  unfolding enter_states
  enter_states-configuration es ts m b lt = enter_below es ts (n_states c) m b ∙ ground arith

  -- Nothing outside the table becomes active, nor does a history or an `<initial>` element.
  pub enter_states-joins :
      (es ts : Bitset) (m : Micro W) (b : ℕ)
      → (enter_states cb c es ts m).configuration b ≡ true
      → (m.configuration b ≡ true) ⊎ ((joins es b ≡ true) × (b < n_states c))
  unfolding enter_states
  enter_states-joins es ts m b h = elim (Bool-cases (m.configuration b)) [
    | inl old ↦ inl old
    | inr new ↦ inr (ground (arith, enter_below es ts (n_states c) m b))
  ]

  -- The data of each active state has been initialised.
  abbrev pub AllStarted : Micro W → Type 0
  AllStarted m = (b : ℕ) → m.configuration b ≡ true → m.initialized_data b ≡ true

  pub record Progress (m m' : Micro W) : Type 0 where
    pub all_started : AllStarted m → AllStarted m'
    pub invoked : m'.invocations ≡ m.invocations
    pub recorded : m'.history ≡ m.history

  enter_state-Progress :
      (es ts : Bitset) (i : ℕ) (m : Micro W) → Progress m (enter_state cb c es ts i m)
  unfolding enter_state
  enter_state-Progress es ts i m =
      let k = handle_final-Keeps i (activate cb c ts i m) in
      let a = activate-Activates ts i m in
      elim (Bool-cases (es i && not (m.configuration i) && not (is_pseudo (state_at c i).kind))) [
        | inr fails ↦ rw fails (record { all_started = λ h. h; invoked = refl; recorded = refl })
        | inl yields ↦ rw yields (record {
          all_started = λ h b active.
              rw (k.started, a.started b)
                (ground (arith, h b, (rw (k.active, a.active) at active)));
          invoked = k.invoked ∙ a.invoked;
          recorded = k.recorded ∙ a.recorded;
        })
      ]

  pub enter_states-Progress :
      (es ts : Bitset) (m : Micro W) → Progress m (enter_states cb c es ts m)
  unfolding enter_states
  enter_states-Progress es ts m =
      upward_inv (λ _ m'. Progress m m') (enter_state cb c es ts) (n_states c)
        (λ i m' lt v.
          let w = enter_state-Progress es ts i m' in
          record {
            all_started = λ h. w.all_started (v.all_started h);
            invoked = w.invoked ∙ v.invoked;
            recorded = w.recorded ∙ v.recorded;
          })
        m (record { all_started = λ h. h; invoked = refl; recorded = refl })
