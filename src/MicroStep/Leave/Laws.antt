-- ===== src/MicroStep/Leave/Laws.antt =====
-- What the exit of states leaves active, and in which order it is seen.
use uscxml.Prelude.{
  ℕ, zero, suc, ◌<◌, ◌≡◌, refl, not, ◌&&◌, if◌then◌else◌, arith, ltb, List, [], ◌∷◌, downward,
  Bool-cases, inl, inr, ◌∙◌,
}
use uscxml.Bits.{Bitset, clear_at, ◌∩◌}
use uscxml.MicroStep.Tables.{Chart, Callbacks, Micro, n_states}
use uscxml.MicroStep.Leave.{leave_world, exit_state, exit_states}

-- The members below `n`, the greatest first
unfoldable pub listed_down : ℕ → Bitset → List ℕ
listed_down zero b = []
listed_down (suc n) b = if b n then n ∷ listed_down n b else listed_down n b

module _ {W : Type 0} (cb : Callbacks W) (c : Chart) where
  unfoldable pub leave_all : List ℕ → W → W
  leave_all [] w = w
  leave_all (i ∷ is) w = leave_all is (leave_world cb c i w)

  exit_below :
      (x : Bitset) (n b : ℕ) (m : Micro W)
      → (downward n (exit_state cb c x) m).configuration b
        ≡ m.configuration b && not (x b && ltb b n)
  unfolding downward exit_state
  exit_below x zero b m = ground arith
  exit_below x (suc n) b m = exit_below x n b (exit_state cb c x n m) ∙ ground arith

  -- Exactly the states of the exit set are no longer active.
  pub exit_states-configuration :
      (x : Bitset) (m : Micro W) (b : ℕ)
      → b < n_states c
      → (exit_states cb c x m).configuration b ≡ m.configuration b && not (x b)
  unfolding exit_states
  exit_states-configuration x m b lt = exit_below x (n_states c) b m ∙ ground arith

  listed_down_clear :
      (n i : ℕ) (x config : Bitset)
      → n < suc i
      → listed_down n (x ∩ clear_at i config) ≡ listed_down n (x ∩ config)
  unfolding listed_down
  listed_down_clear zero i x config lt = refl
  listed_down_clear (suc n) i x config lt = ground (arith, listed_down_clear n i x config)

  exit_world :
      (x : Bitset) (n : ℕ) (m : Micro W)
      → (downward n (exit_state cb c x) m).world
        ≡ leave_all (listed_down n (x ∩ m.configuration)) m.world
  unfolding downward exit_state listed_down leave_all
  exit_world x zero m = refl
  exit_world x (suc n) m =
      exit_world x n (exit_state cb c x n m) ∙ elim (Bool-cases (x n && m.configuration n)) [
        | inl yields ↦
            rw (yields, exit_state) (rw (listed_down_clear n n x m.configuration (omega arith)))
        | inr fails ↦ rw (fails, exit_state)
      ]

  -- The world sees every active state of the exit set left once, descendants first: in the reverse
  -- of the document order.
  pub exit_states-world :
      (x : Bitset) (m : Micro W)
      → (exit_states cb c x m).world
        ≡ leave_all (listed_down (n_states c) (x ∩ m.configuration)) m.world
  unfolding exit_states
  exit_states-world x m = exit_world x (n_states c) m
