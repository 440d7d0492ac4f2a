-- ===== src/MicroStep/Step/Upward.antt =====
-- Every step of `FastMicroStep::step` keeps the ancestors of active states active.
use uscxml.Prelude.{ℕ, ◌≡◌, true, not, ◌&&◌, ◌||◌, arith, ◌∙◌, sym, if_rule, subst}
use uscxml.Bits.{Bitset, no_bits, ◌∩◌}
use uscxml.MicroStep.Tables.{Chart, Callbacks, Micro, state_at, is_pseudo}
use uscxml.MicroStep.Select.{select_transitions}
use uscxml.MicroStep.Select.Laws.{select_transitions_unions}
use uscxml.MicroStep.Entry.{establish_entry_set}
use uscxml.MicroStep.Entry.Upward.{IsUpward, IsRegular}
use uscxml.MicroStep.Entry.Establish.{establish_entry_set-IsUpward}
use uscxml.MicroStep.Step.{Status, perform, select_and_perform, begin, step}
use uscxml.MicroStep.Step.Laws.{
  perform-configuration, Inv, transport-Inv, select_and_perform-Inv, begin-Inv,
}
use uscxml.MicroStep.Step.Rule.{step-Keeps}

module _ {W : Type 0} (cb : Callbacks W) (c : Chart) (regular : IsRegular c) where
  -- With each state that it has, an exit set has the active states within it.
  abbrev IsDownward : Bitset → Bitset → Type 0
  IsDownward config x =
      (i a : ℕ) → x a ≡ true → (state_at c i).ancestors a ≡ true → config i ≡ true → x i ≡ true

  perform-IsUpward :
      (x target ts : Bitset) (m : Micro W)
      → IsDownward m.configuration x
      → IsUpward c m.configuration
      → IsUpward c (perform cb c x target ts m).0.configuration
  perform-IsUpward x target ts m down up i a lt h q =
      let e = (establish_entry_set c m.configuration m.history x target ts).states in
      let entered = establish_entry_set-IsUpward c regular m.configuration m.history x target ts in
      perform-configuration cb c x target ts m a (regular.small i a q)
      ∙ remains i a e q (sym (perform-configuration cb c x target ts m i lt) ∙ h)
          (λ k. up i a lt k q) (λ k. entered i a lt k q)
    where
      remains :
          (i a : ℕ) (e : Bitset)
          → (state_at c i).ancestors a ≡ true
          → (m.configuration i && not (x i) || e i && not (is_pseudo (state_at c i).kind)) ≡ true
          → (m.configuration i ≡ true → m.configuration a ≡ true)
          → (e i ≡ true → e a ≡ true)
          → (m.configuration a && not (x a) || e a && not (is_pseudo (state_at c a).kind)) ≡ true
      remains i a e q h old fresh = ground (arith, down i a, regular.leaf a i, q)

  select_and_perform-IsUpward :
      (m : Micro W)
      → Inv cb c m
      → IsUpward c m.configuration
      → IsUpward c (select_and_perform cb c m).0.configuration
  unfolding select_and_perform
  select_and_perform-IsUpward m inv up =
      let s = select_transitions cb c m.configuration m.event m.world in
      let exits = (select_transitions_unions cb c m.configuration m.event m.world).1 in
      if_rule (λ (r : Micro W × Status). IsUpward c (r.0.configuration))
        (s.found || m.flags.transition_found)
        (λ _.
          perform-IsUpward (s.exit_set ∩ m.configuration) (s.target_set) (s.trans_set) _
            (λ i a h q active.
              let (j, taken, in_exit) = exits.only a (ground arith) in
              let inside = regular.exits j i a (inv.proper i active).1 in_exit q in
              ground (arith, exits.includes j i taken inside, active))
            up)
        (λ _. up)

  begin-IsUpward :
      (m : Micro W) → IsUpward c m.configuration → IsUpward c (begin cb c m).0.configuration
  unfolding begin
  begin-IsUpward m up =
      perform-IsUpward no_bits (state_at c 0).completion no_bits _ (λ i a h q k. ground arith) up

  -- In a regular chart, every step, on each of its paths and whatever the callbacks do, as long as they return,
  -- keeps the ancestors of the active states active, if it starts with proper active states as every step keeps
  -- them.
  pub step-IsUpward :
      (block_ms : ℕ) (m : Micro W)
      → Inv cb c m
      → IsUpward c m.configuration
      → IsUpward c (step cb c block_ms m).0.configuration
  step-IsUpward block_ms m inv up =
      (step-Keeps cb c (λ m'. Inv cb c m' × IsUpward c m'.configuration)
        (λ m1 m2 p q (v, u). (transport-Inv cb c p q v, subst (IsUpward c) (sym p) u))
        (λ m' (v, u). (select_and_perform-Inv cb c m' v, select_and_perform-IsUpward m' v u))
        (λ m' (v, u). (begin-Inv cb c m' v, begin-IsUpward m' u)) block_ms m (inv, up)).1
