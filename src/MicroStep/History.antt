-- ===== src/MicroStep/History.antt =====
-- `REMEMBER_HISTORY` of `FastMicroStep::step`.
use uscxml.Prelude.{
  ℕ, zero, suc, ◌≡◌, refl, Bool, ◌&&◌, if◌then◌else◌, arith, upward, any_below, Bool-cases, inl,
  inr,
}
use uscxml.Bits.{Bitset, ◌∪◌, ◌∩◌, ◌∖◌}
use uscxml.MicroStep.Tables.{Chart, state_at, n_states, is_history_kind}

module _ (c : Chart) (config exit_set : Bitset) where
  -- A history state whose parent is about to be exited
  unfoldable pub is_recorded : ℕ → Bool
  is_recorded i = is_history_kind (state_at c i).kind && exit_set (state_at c i).parent

  unfoldable pub remember : ℕ → Bitset → Bitset
  remember i h =
      if is_recorded i
      then (h ∖ (state_at c i).completion) ∪ ((state_at c i).completion ∩ config)
      else h

  unfoldable pub remember_history : Bitset → Bitset
  remember_history h = upward (n_states c) remember h

  abbrev pub covers : ℕ → ℕ → Bool
  covers b i = is_recorded i && (state_at c i).completion b

  remember-below :
      (n : ℕ) (h : Bitset) (b : ℕ)
      → upward n remember h b ≡ (if any_below n (covers b) then config b else h b)
  unfolding upward remember any_below
  remember-below zero h b = refl
  remember-below (suc n) h b = elim (Bool-cases (is_recorded n)) [
    | inl yields ↦ rw yields (ground (arith, remember-below n h b))
    | inr fails ↦ rw fails (remember-below n h b)
  ]

  -- A state that some exited parent's history covers is remembered as it is in the configuration;
  -- the record of every other state is unchanged.
  pub remember_history_lem :
      (h : Bitset) (b : ℕ)
      → remember_history h b ≡ (if any_below (n_states c) (covers b) then config b else h b)
  unfolding remember_history
  remember_history_lem h b = remember-below (n_states c) h b
