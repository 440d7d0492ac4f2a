-- ===== src/MicroStep/Select/Laws.antt =====
-- Which transitions the selection loop of `FastMicroStep::step` takes.
use uscxml.Prelude.{ℕ, suc, ◌<◌, ◌≡◌, inl, inr, true, false, arith, upward_inv, Bool-cases, ◌∙◌, ap}
use uscxml.Bits.{Bitset, no_bits, set_at, ◌∪◌, set_at_cases, set_at_self, set_at_keeps, ∪_cases}
use uscxml.Messages.{Event}
use uscxml.MicroStep.Tables.{Chart, Callbacks, Transition, trans_at, n_trans}
use uscxml.MicroStep.Select.{
  Selection, start, is_candidate, take_trans, consider, consider_cases, select_transitions,
}

-- `acc` is the union of what the transitions of `ts` have in a column of the table.
pub record Collects (c : Chart) (col : Transition → Bitset) (ts acc : Bitset) : Type 0 where
  pub includes : (j b : ℕ) → ts j ≡ true → col (trans_at c j) b ≡ true → acc b ≡ true
  pub only : (b : ℕ) → acc b ≡ true → (j : ℕ) × (ts j ≡ true) × (col (trans_at c j) b ≡ true)

Collects-none : (c : Chart) (col : Transition → Bitset) → Collects c col no_bits no_bits
Collects-none c col = record {
  includes = λ j b h q. absurd (ground arith);
  only = λ b h. absurd (ground arith);
}

Collects-take :
    (c : Chart) (col : Transition → Bitset) (ts acc : Bitset) (i : ℕ)
    → Collects c col ts acc
    → Collects c col (set_at i ts) (acc ∪ col (trans_at c i))
Collects-take c col ts acc i v = record {
  includes = λ j b h q. elim (set_at_cases i ts j h) [
    | inl e ↦ ground (arith, ap (λ k. col (trans_at c k) b) e)
    | inr old ↦ ground (arith, v.includes j b old q)
  ];
  only = λ b h. elim (∪_cases acc (col (trans_at c i)) b h) [
    | inl old ↦ let (j, t, q) = v.only b old in (j, set_at_keeps i ts j t, q)
    | inr here ↦ (i, set_at_self i ts, here)
  ];
}

module _ {W : Type 0} (cb : Callbacks W) (c : Chart) (config : Bitset) (e : Event) where
  -- What the loop keeps, after the rounds below `i`
  pub record Sound (i : ℕ) (s : Selection W) : Type 0 where
    pub below : (j : ℕ) → s.trans_set j ≡ true → j < i
    pub candidates : (j : ℕ) → s.trans_set j ≡ true → is_candidate cb c config e j ≡ true
    pub consistent :
        (j k : ℕ)
        → j < k
        → s.trans_set j ≡ true
        → s.trans_set k ≡ true
        → (trans_at c j).conflicts k ≡ false
    pub pre_empted : Collects c (λ t. t.conflicts) s.trans_set s.conflicts
    pub targets : Collects c (λ t. t.target) s.trans_set s.target_set
    pub exits : Collects c (λ t. t.exit_set) s.trans_set s.exit_set

  not_pre_empted :
      (i : ℕ) (s : Selection W) (j k : ℕ)
      → Sound i s
      → s.trans_set j ≡ true
      → s.conflicts k ≡ false
      → (trans_at c j).conflicts k ≡ false
  not_pre_empted i s j k v h free = elim (Bool-cases ((trans_at c j).conflicts k)) [
    | inr no_conflict ↦ no_conflict
    | inl conflict ↦ absurd (ground (arith, v.pre_empted.includes j k h conflict))
  ]

  take_trans-Sound :
      (i : ℕ) (s : Selection W)
      → s.conflicts i ≡ false
      → is_candidate cb c config e i ≡ true
      → Sound i s
      → Sound (suc i) (take_trans cb c config e i s)
  unfolding take_trans
  take_trans-Sound i s free candidate v = record {
    below = λ j h. elim (set_at_cases i s.trans_set j h) [
      | inl same ↦ omega arith
      | inr old ↦ omega (arith, v.below j old)
    ];
    candidates = λ j h. elim (set_at_cases i s.trans_set j h) [
      | inl same ↦ ap (is_candidate cb c config e) same ∙ candidate
      | inr old ↦ v.candidates j old
    ];
    consistent = λ j k lt h q. elim (set_at_cases i s.trans_set j h) [
      | inl j_same ↦ elim (set_at_cases i s.trans_set k q) [
        | inl k_same ↦ absurd (omega arith)
        | inr k_old ↦ absurd (omega (arith, v.below k k_old))
      ]
      | inr j_old ↦ elim (set_at_cases i s.trans_set k q) [
        | inl k_same ↦ ap (trans_at c j).conflicts k_same ∙ not_pre_empted i s j i v j_old free
        | inr k_old ↦ v.consistent j k lt j_old k_old
      ]
    ];
    pre_empted = Collects-take c _ s.trans_set s.conflicts i v.pre_empted;
    targets = Collects-take c _ s.trans_set s.target_set i v.targets;
    exits = Collects-take c _ s.trans_set s.exit_set i v.exits;
  }

  same_world : (i : ℕ) (s : Selection W) (w : W) → Sound i s → Sound i (record s { world = w })
  same_world i s w v = record {
    below = v.below;
    candidates = v.candidates;
    consistent = v.consistent;
    pre_empted = v.pre_empted;
    targets = v.targets;
    exits = v.exits;
  }

  Sound-suc : (i : ℕ) (s : Selection W) → Sound i s → Sound (suc i) s
  Sound-suc i s v = record {
    below = λ j h. omega (arith, v.below j h);
    candidates = v.candidates;
    consistent = v.consistent;
    pre_empted = v.pre_empted;
    targets = v.targets;
    exits = v.exits;
  }

  pub consider-Sound :
      (i : ℕ) (s : Selection W) → Sound i s → Sound (suc i) (consider cb c config e i s)
  consider-Sound i s v =
      consider_cases cb c config e (Sound (suc i)) i s (λ w. Sound-suc i _ (same_world i s w v))
        (λ w free candidate. take_trans-Sound i _ free candidate (same_world i s w v))

  pub start-Sound : (w : W) → Sound 0 (start w)
  start-Sound w = record {
    below = λ j h. absurd (ground arith);
    candidates = λ j h. absurd (ground arith);
    consistent = λ j k lt h q. absurd (ground arith);
    pre_empted = Collects-none c _;
    targets = Collects-none c _;
    exits = Collects-none c _;
  }

  pub select_transitions-Sound : (w : W) → Sound (n_trans c) (select_transitions cb c config e w)
  unfolding select_transitions
  select_transitions-Sound w =
      upward_inv Sound (consider cb c config e) (n_trans c) (λ i s lt v. consider-Sound i s v)
        (start w) (start-Sound w)

  -- The target set and the exit set are the unions over the selected transitions.
  pub select_transitions_unions :
      (w : W)
      → let s = select_transitions cb c config e w in
        Collects c (λ t. t.target) s.trans_set s.target_set
        × Collects c (λ t. t.exit_set) s.trans_set s.exit_set
  select_transitions_unions w = let v = select_transitions-Sound w in (v.targets, v.exits)
