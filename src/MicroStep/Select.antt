-- ===== src/MicroStep/Select.antt =====
-- `SELECT_TRANSITIONS` of `FastMicroStep::step`: the enabled transitions, in the order of the
-- table, each unless an earlier one pre-empts it.
pub mod Laws
pub mod Conditions
use uscxml.Prelude.{
  ℕ, ◌≡◌, Bool, true, false, not, ◌&&◌, ◌||◌, if◌then◌else◌, upward, Bool-cases, inl, inr,
}
use uscxml.Bits.{Bitset, no_bits, set_at, ◌∪◌}
use uscxml.Messages.{Event, is_empty, is_event}
use uscxml.MicroStep.Tables.{Chart, Callbacks, trans_at, n_trans}

-- The local variables of the loop
pub record Selection (W : Type 0) : Type 0 where
  pub conflicts : Bitset
  pub target_set : Bitset
  pub exit_set : Bitset
  pub trans_set : Bitset
  pub found : Bool
  pub world : W

abbrev pub start : {W : Type 0} → W → Selection W
start w = record {
  conflicts = no_bits;
  target_set = no_bits;
  exit_set = no_bits;
  trans_set = no_bits;
  found = false;
  world = w;
}

module _ {W : Type 0} (cb : Callbacks W) (c : Chart) (config : Bitset) (e : Event) where
  -- The tests of the loop that evaluate no expression
  unfoldable pub is_candidate : ℕ → Bool
  is_candidate i =
      not ((trans_at c i).is_history || (trans_at c i).is_initial)
      && config (trans_at c i).source
      && ((is_empty (trans_at c i).event && not (is_event e))
          || (not (is_empty (trans_at c i).event) && is_event e))
      && (not (is_event e) || cb.is_matched e (trans_at c i).event)

  -- The body of the innermost `if`
  unfoldable pub take_trans : ℕ → Selection W → Selection W
  take_trans i s = record s {
    found = true;
    conflicts = s.conflicts ∪ (trans_at c i).conflicts;
    target_set = s.target_set ∪ (trans_at c i).target;
    exit_set = s.exit_set ∪ (trans_at c i).exit_set;
    trans_set = set_at i s.trans_set;
  }

  -- `cond.size() == 0 || isTrue(cond)`
  unfoldable pub holds : ℕ → W → Bool × W
  holds i w = if is_empty (trans_at c i).cond then (true, w) else cb.is_true (trans_at c i).cond w

  -- One round of the loop. The condition is evaluated only if the other tests pass.
  unfoldable pub consider : ℕ → Selection W → Selection W
  unfolding take_trans
  consider i s =
      let (b, w) = holds i s.world in
      let taken = take_trans i (record s { world = w }) in
      let passed = record s { world = w } in
      if is_candidate i && not (s.conflicts i) then (if b then taken else passed) else s

  unfoldable pub select_transitions : W → Selection W
  select_transitions w = upward (n_trans c) consider (start w)

  -- Either a round selects nothing, or it takes its transition, which was a candidate, not
  -- pre-empted, and whose condition held.
  pub consider_cases {ℓ} :
      (P : Selection W → Type ℓ) (i : ℕ) (s : Selection W)
      → ((w : W) → P (record s { world = w }))
      → ((w : W)
          → s.conflicts i ≡ false
          → is_candidate i ≡ true
          → P (take_trans i (record s { world = w })))
      → P (consider i s)
  unfolding consider take_trans
  consider_cases P i s skip take = elim (Bool-cases (is_candidate i)) [
    | inr no_candidate ↦ rw no_candidate (skip s.world)
    | inl candidate ↦ elim (Bool-cases (s.conflicts i)) [
      | inl pre_empted ↦ rw (candidate, pre_empted) (skip s.world)
      | inr free ↦ elim (Bool-cases (holds i s.world).0) [
        | inl yields ↦ rw (candidate, free, yields) (take (holds i s.world).1 free candidate)
        | inr fails ↦ rw (candidate, free, fails) (skip (holds i s.world).1)
      ]
    ]
  ]
