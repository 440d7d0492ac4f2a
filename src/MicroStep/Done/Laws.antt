-- ===== src/MicroStep/Done/Laws.antt =====
-- The climbs of `FastMicroStep::step` over the parents of a final state end.
use uscxml.Prelude.{ℕ, ◌<◌, ◌≡◌, true, false, Option, some, List, [], ◌∷◌}
use uscxml.Bits.{Bitset, any_set}
use uscxml.MicroStep.Tables.{Chart, Callbacks, state_at, n_states, is_parallel}
use uscxml.MicroStep.Done.{depth, remaining, raise_parallel}

-- A state with ancestors has a parent before it in document order.
abbrev pub IsOrdered : Chart → Type 0
IsOrdered c = (i : ℕ) → i < n_states c → 0 < depth c i → (state_at c i).parent < i

abbrev IsSome {ℓ} : {A : Type ℓ} → Option A → Type ℓ
IsSome {A} o = (r : A) × (o ≡ some r)

module _ (c : Chart) (ordered : IsOrdered c) where
  -- The parallel states above `s`, up to the first state that is no parallel one, of which nothing is left open
  pub data Completed (config : Bitset) : ℕ → List ℕ → Type 0 where
    at_top : {s : ℕ} → depth c s ≡ 0 → Completed config s []
    no_parallel :
        {s : ℕ}
        → is_parallel (state_at c (state_at c s).parent).kind ≡ false
        → Completed config s []
    still_open :
        {s : ℕ} {ps : List ℕ} {left : Bitset}
        → is_parallel (state_at c (state_at c s).parent).kind ≡ true
        → remaining c config (state_at c s).parent ≡ some left
        → any_set (n_states c) left ≡ true
        → Completed config (state_at c s).parent ps
        → Completed config s ps
    complete :
        {s : ℕ} {ps : List ℕ} {left : Bitset}
        → is_parallel (state_at c (state_at c s).parent).kind ≡ true
        → remaining c config (state_at c s).parent ≡ some left
        → any_set (n_states c) left ≡ false
        → Completed config (state_at c s).parent ps
        → Completed config s ((state_at c s).parent ∷ ps)

  module _ {W : Type 0} (cb : Callbacks W) where
    -- The done events of states, with their <donedata>, one after the other
    unfoldable pub raise_all : List ℕ → W → W
    raise_all [] w = w
    raise_all (p ∷ ps) w =
        raise_all ps (cb.raise_done (state_at c p).element (state_at c p).done_data w)

    Climbs : ℕ → Bitset → ℕ → W → Type 0
    Climbs fuel config s w =
        (ps : List ℕ) × (Completed config s ps
          × (raise_parallel c cb fuel config s w ≡ some (raise_all ps w)))
