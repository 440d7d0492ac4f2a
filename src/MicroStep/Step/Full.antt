-- ===== src/MicroStep/Step/Full.antt =====
-- Every step of `FastMicroStep::step` keeps the regions of active parallel states active.
use uscxml.Prelude.{ℕ, ◌≡◌, true, false, not, ◌&&◌, ◌||◌, arith, ◌∙◌, sym, if_rule, subst}
use uscxml.Bits.{Bitset, no_bits, ◌∩◌}
use uscxml.MicroStep.Tables.{Chart, Callbacks, Kind, Micro, state_at, is_pseudo}
use uscxml.MicroStep.Select.{select_transitions}
use uscxml.MicroStep.Select.Laws.{select_transitions_unions}
use uscxml.MicroStep.Entry.{establish_entry_set}
use uscxml.MicroStep.Entry.Upward.{IsRegular}
use uscxml.MicroStep.Entry.Later.{IsLayered}
use uscxml.MicroStep.Entry.Full.{IsFull, establish_entry_set-IsFull}
use uscxml.MicroStep.Step.{Status, perform, select_and_perform, begin, step}
use uscxml.MicroStep.Step.Laws.{perform-configuration}
use uscxml.MicroStep.Step.Rule.{step-Keeps}

module _ {W : Type 0} (cb : Callbacks W) (c : Chart) (regular : IsRegular c)
    (layered : IsLayered c) where
  -- An exit set that has a region of an active parallel state has that state.
  abbrev IsWhole : Bitset → Bitset → Type 0
  IsWhole config x =
      (i b : ℕ)
      → config i ≡ true
      → (state_at c i).kind ≡ Kind.parallel
      → (state_at c i).completion b ≡ true
      → x b ≡ true
      → x i ≡ true

  perform-IsFull :
      (x target ts : Bitset) (m : Micro W)
      → IsWhole m.configuration x
      → IsFull c m.configuration
      → IsFull c (perform cb c x target ts m).0.configuration
  perform-IsFull x target ts m whole full i b lt h par comp =
      let e = (establish_entry_set c m.configuration m.history x target ts).states in
      let entered =
        establish_entry_set-IsFull c regular layered m.configuration m.history x target ts in
      perform-configuration cb c x target ts m b (layered.bounded i b comp)
      ∙ remains e (sym (perform-configuration cb c x target ts m i lt) ∙ h)
          (λ k. full i b lt k par comp) (λ k. entered i b lt k par comp) (λ k. whole i b k par comp)
          (layered.regions i b par comp)
    where
      remains :
          (e : Bitset)
          → (m.configuration i && not (x i) || e i && not (is_pseudo (state_at c i).kind)) ≡ true
          → (m.configuration i ≡ true → m.configuration b ≡ true)
          → (e i ≡ true → e b ≡ true)
          → (m.configuration i ≡ true → x b ≡ true → x i ≡ true)
          → is_pseudo (state_at c b).kind ≡ false
          → (m.configuration b && not (x b) || e b && not (is_pseudo (state_at c b).kind)) ≡ true
      remains e h old fresh out proper = ground arith

  select_and_perform-IsFull :
      (m : Micro W)
      → IsFull c m.configuration
      → IsFull c (select_and_perform cb c m).0.configuration
  unfolding select_and_perform
  select_and_perform-IsFull m full =
      let s = select_transitions cb c m.configuration m.event m.world in
      let exits = (select_transitions_unions cb c m.configuration m.event m.world).1 in
      if_rule (λ (r : Micro W × Status). IsFull c (r.0.configuration))
        (s.found || m.flags.transition_found)
        (λ _.
          perform-IsFull (s.exit_set ∩ m.configuration) (s.target_set) (s.trans_set) _
            (λ i b active par comp q.
              let (j, taken, in_exit) = exits.only b (ground arith) in
              ground
                (arith, exits.includes j i taken (layered.whole j i b par comp in_exit), active))
            full)
        (λ _. full)

  begin-IsFull : (m : Micro W) → IsFull c m.configuration → IsFull c (begin cb c m).0.configuration
  unfolding begin
  begin-IsFull m full =
      perform-IsFull no_bits (state_at c 0).completion no_bits _ (λ i b k par comp q. ground arith)
        full

  -- In a regular chart in document order, every step, on each of its paths and whatever the callbacks do, as
  -- long as they return, keeps all regions of the active parallel states active.
  pub step-IsFull :
      (block_ms : ℕ) (m : Micro W)
      → IsFull c m.configuration
      → IsFull c (step cb c block_ms m).0.configuration
  step-IsFull =
      step-Keeps cb c (λ m. IsFull c m.configuration)
        (λ m m' p q full. subst (IsFull c) (sym p) full) select_and_perform-IsFull begin-IsFull
