-- ===== src/MicroStep/Entry/Full.antt =====
-- `ESTABLISH_ENTRYSET` of `FastMicroStep::step` gives a set with all regions of its parallel states.
use uscxml.Prelude.{
  ℕ, suc, ◌<◌, ◌≡◌, ◌≢◌, true, false, arith, ◌==◌, upward_inv, Bool-cases, inl, inr, ==_iff, ap,
  subst, sym,
}
use uscxml.Bits.{Bitset}
use uscxml.MicroStep.Tables.{Chart, Kind, state_at, n_states, is_pseudo}
use uscxml.MicroStep.Entry.{Entry, complete_state, complete_descendants, establish_entry_set}
use uscxml.MicroStep.Entry.Complete.{complete_state_keeps, after_parallel}
use uscxml.MicroStep.Entry.Upward.{IsUpward, IsRegular}
use uscxml.MicroStep.Entry.Establish.{complete_state-Upward, add_ancestors-IsUpward}
use uscxml.MicroStep.Entry.Later.{IsLayered, state_later}

-- A set of states with all regions of its parallel states
abbrev pub IsFull : Chart → Bitset → Type 0
IsFull c e =
    (i b : ℕ)
    → i < n_states c
    → e i ≡ true
    → (state_at c i).kind ≡ Kind.parallel
    → (state_at c i).completion b ≡ true
    → e b ≡ true

module _ (c : Chart) (regular : IsRegular c) (layered : IsLayered c)
    (config history exit_set : Bitset) where
  -- The parallel states below `k` have their regions.
  abbrev FullBelow : ℕ → Bitset → Type 0
  FullBelow k e =
      (i b : ℕ)
      → i < k
      → e i ≡ true
      → (state_at c i).kind ≡ Kind.parallel
      → (state_at c i).completion b ≡ true
      → e b ≡ true

  not_initial : (k : Kind) → is_pseudo k ≡ false → k ≢ Kind.initial
  not_initial k p e = cc (ap is_pseudo e)

  visit-FullBelow :
      (k : ℕ) (s : Entry)
      → k < n_states c
      → IsUpward c (s.states)
      → FullBelow k (s.states)
      → FullBelow (suc k) (complete_state c config history exit_set k s).states
  visit-FullBelow k s lt up full i b le h par comp =
      elim (state_later c regular layered config history exit_set k s lt up i h) [
        | inr behind ↦ absurd (omega (arith, behind, le))
        | inl old ↦ elim (Bool-cases (k == i)) [
          | inl same ↦
              let z = (==_iff k i).0 same in
              subst (λ n. (complete_state c config history exit_set n s).states b ≡ true) (sym z)
                (after_parallel c config history exit_set i b s old par comp)
          | inr differs ↦
              complete_state_keeps c config history exit_set k b s
                (not_initial (state_at c b).kind (layered.regions i b par comp))
                (full i b (ground (arith, le, differs)) old par comp)
        ]
      ]

  -- In a regular chart in document order, the entry set has the regions of its parallel states.
  pub establish_entry_set-IsFull :
      (target ts : Bitset)
      → IsFull c (establish_entry_set c config history exit_set target ts).states
  unfolding establish_entry_set complete_descendants
  establish_entry_set-IsFull target ts =
      (upward_inv (λ k (r : Entry). IsUpward c (r.states) × FullBelow k (r.states))
        (complete_state c config history exit_set) (n_states c)
        (λ k r lt (up, full). (
          complete_state-Upward c regular config history exit_set k r lt up,
          visit-FullBelow k r lt up full,
        ))
        _
        (
          add_ancestors-IsUpward c regular config history exit_set target,
          λ i b le. absurd (omega arith),
        )).1
