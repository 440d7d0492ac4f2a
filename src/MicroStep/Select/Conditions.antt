-- ===== src/MicroStep/Select/Conditions.antt =====
-- Which tests the selected transitions of `FastMicroStep::step` passed, and in which world.
use uscxml.Prelude.{
  ℕ, zero, suc, ◌<◌, ◌≡◌, ◌⊎◌, inl, inr, true, false, ◌==◌, ==_iff, arith, upward, Bool-cases, sym,
  ◌∙◌, ap, refl,
}
use uscxml.Bits.{Bitset, set_at_self}
use uscxml.Messages.{Event, is_empty, is_event}
use uscxml.MicroStep.Tables.{Chart, Callbacks, trans_at, n_trans}
use uscxml.MicroStep.Select.{
  Selection, start, is_candidate, take_trans, holds, consider, consider_cases, select_transitions,
}
use uscxml.MicroStep.Select.Laws.{Sound, select_transitions-Sound, consider-Sound, start-Sound}

module _ {W : Type 0} (cb : Callbacks W) (c : Chart) (config : Bitset) (e : Event) where
  -- The tests of the code for a transition, with the condition evaluated in the world `w`
  pub record Passes (k : ℕ) (w : W) : Type 0 where
    pub proper : ((trans_at c k).is_history ≡ false) × ((trans_at c k).is_initial ≡ false)
    pub active : config (trans_at c k).source ≡ true
    pub matches :
        ((is_empty (trans_at c k).event ≡ true) × (is_event e ≡ false))
        ⊎ ((is_empty (trans_at c k).event ≡ false)
            × ((is_event e ≡ true) × (cb.is_matched e (trans_at c k).event ≡ true)))
    pub yields :
        (is_empty (trans_at c k).cond ≡ true) ⊎ ((cb.is_true (trans_at c k).cond w).0 ≡ true)

  Passes-split :
      (k : ℕ) (w : W)
      → Passes k w
      → (is_candidate cb c config e k ≡ true) × ((holds cb c config e k w).0 ≡ true)
  unfolding is_candidate holds
  Passes-split k w v = (ground (arith, v.proper, v.active, v.matches), ground (arith, v.yields))

  Passes-join :
      (k : ℕ) (w : W)
      → is_candidate cb c config e k ≡ true
      → (holds cb c config e k w).0 ≡ true
      → Passes k w
  unfolding is_candidate holds
  Passes-join k w h q = record {
    proper = (ground arith, ground arith);
    active = ground arith;
    matches = ground arith;
    yields = ground arith;
  }

  module _ (w : W) where
    -- The local variables after the rounds below `k`
    abbrev pub before : ℕ → Selection W
    before k = upward k (consider cb c config e) (start w)

    before-Sound : (k : ℕ) → Sound cb c config e k (before k)
    unfolding upward
    before-Sound zero = start-Sound cb c config e w
    before-Sound (suc k) = consider-Sound cb c config e k (before k) (before-Sound k)

    -- A round decides on its own transition only.
    other_round :
        (i k : ℕ) (s : Selection W)
        → (i == k) ≡ false
        → (consider cb c config e i s).trans_set k ≡ s.trans_set k
    other_round i k s differs =
        consider_cases cb c config e (λ r. r.trans_set k ≡ s.trans_set k) i s (λ v. refl)
          (λ v free candidate. unfold take_trans in ground arith)

    decided : (n k : ℕ) → k < n → (before n).trans_set k ≡ (before (suc k)).trans_set k
    unfolding upward
    decided zero k lt = absurd (omega arith)
    decided (suc n) k lt = elim (Bool-cases (n == k)) [
      | inl same ↦ ap (λ m. (before (suc m)).trans_set k) ((==_iff n k).0 same)
      | inr differs ↦ other_round n k (before n) differs ∙ decided n k (ground arith)
    ]

    undecided : (k : ℕ) → (before k).trans_set k ≡ false
    undecided k = elim (Bool-cases ((before k).trans_set k)) [
      | inl taken ↦ absurd (omega (arith, (before-Sound k).below k taken))
      | inr free ↦ free
    ]

    taken-Passes :
        (k : ℕ) (s : Selection W)
        → s.trans_set k ≡ false
        → (consider cb c config e k s).trans_set k ≡ true
        → Passes k s.world
    unfolding consider take_trans
    taken-Passes k s free h =
        Passes-join k s.world (ground (arith, free, h)) (ground (arith, free, h))

    selected-Passes :
        (k : ℕ)
        → (select_transitions cb c config e w).trans_set k ≡ true
        → Passes k (before k).world
    unfolding select_transitions upward
    selected-Passes k h =
        taken-Passes k (before k) (undecided k)
          (sym (decided (n_trans c) k ((before-Sound (n_trans c)).below k h)) ∙ h)

    -- No two selected transitions are in conflict. Each of them is one of the table and passed the tests of the
    -- code, with its condition evaluated in the world in which its round of the loop found it.
    pub select_transitions_consistent :
        (j k : ℕ)
        → let s = select_transitions cb c config e w in
          s.trans_set j ≡ true
          → s.trans_set k ≡ true
          → j < k
          → ((trans_at c j).conflicts k ≡ false)
            × (Passes j (before j).world × (Passes k (before k).world × (k < n_trans c)))
    select_transitions_consistent j k h q lt =
        let v = select_transitions-Sound cb c config e w in
        (v.consistent j k lt h q, (selected-Passes j h, (selected-Passes k q, v.below k q)))

    -- Pre-empted by a selected transition before it
    abbrev pub Beaten : Bitset → ℕ → Type 0
    Beaten ts k = (j : ℕ) × (j < k) × (ts j ≡ true) × ((trans_at c j).conflicts k ≡ true)

    round_takes :
        (k : ℕ) (s : Selection W)
        → Passes k s.world
        → s.conflicts k ≡ false
        → (consider cb c config e k s).trans_set k ≡ true
    unfolding consider take_trans
    round_takes k s v free =
        let (candidate, yields) = Passes-split k s.world v in
        rw (candidate, free, yields) (set_at_self k s.trans_set)

    kept_to_end :
        (k j : ℕ)
        → k < n_trans c
        → (before k).trans_set j ≡ true
        → j < k
        → (select_transitions cb c config e w).trans_set j ≡ true
    unfolding select_transitions
    kept_to_end k j lt h le = decided (n_trans c) j (omega arith) ∙ sym (decided k j le) ∙ h

    -- A transition of the table that passes the tests of the code, with its condition evaluated in the world in
    -- which its round of the loop finds it, is selected, unless a selected transition before it is in conflict
    -- with it.
    pub select_transitions_maximal :
        (k : ℕ)
        → k < n_trans c
        → Passes k (before k).world
        → let s = select_transitions cb c config e w in
          (s.trans_set k ≡ true) ⊎ Beaten s.trans_set k
    unfolding select_transitions upward
    select_transitions_maximal k lt v = elim (Bool-cases ((before k).conflicts k)) [
      | inl beaten ↦
          let (j, t, q) = (before-Sound k).pre_empted.only k beaten in
          let le = (before-Sound k).below j t in inr (j, le, kept_to_end k j lt t le, q)
      | inr free ↦ inl (decided (n_trans c) k lt ∙ round_takes k (before k) v free)
    ]
