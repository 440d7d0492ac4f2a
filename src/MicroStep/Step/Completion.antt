-- ===== src/MicroStep/Step/Completion.antt =====
-- How a machine stops.
use uscxml.Prelude.{
  ℕ, zero, suc, Bool, ◌<◌, ◌≡◌, refl, true, false, not, if◌then◌else◌, arith, ◌==◌, downward,
  downward_inv, Bool-cases, inl, inr, ◌∙◌, ap, sym, subst, if_rule,
}
use uscxml.MicroStep.Tables.{Chart, Callbacks, Micro, Notice, n_states}
use uscxml.MicroStep.Step.{Status, finish, complete_state, step}
use uscxml.Bits.{Bitset, clear_at}
use uscxml.MicroStep.Tables.{state_at}
use uscxml.MicroStep.Step.{uninvoke_all}
use uscxml.MicroStep.Leave.{process_all}
use uscxml.MicroStep.Step.Invocations.{run, wanted, run-ends}

module _ {W : Type 0} (cb : Callbacks W) (c : Chart) where
  complete_state-invocations :
      (i b : ℕ) (m : Micro W)
      → (complete_state cb c i m).invocations b ≡ (if b == i then false else m.invocations b)
  unfolding complete_state
  complete_state-invocations i b m = ground (arith, ap m.invocations {x = b} {y = i})

  complete_state-configuration :
      (i : ℕ) (m : Micro W) → (complete_state cb c i m).configuration ≡ m.configuration
  unfolding complete_state
  complete_state-configuration i m = ground arith

  complete_state-initialized :
      (i : ℕ) (m : Micro W) → (complete_state cb c i m).is_initialized ≡ m.is_initialized
  unfolding complete_state
  complete_state-initialized i m = ground arith

  -- What the world sees of the end of a state: its exit handlers if it is active, then the ends of its invocations
  -- if it is marked as invoked
  abbrev pub depart : Bool → Bool → ℕ → W → W
  depart active invoked i w =
      run cb c (wanted cb c false invoked (state_at c i).invokes)
        (if active then process_all cb (state_at c i).on_exit w else w)

  -- The ends of the states below `n`, the last one first
  unfoldable pub farewell : Bitset → Bitset → ℕ → W → W
  farewell config invoked zero w = w
  farewell config invoked (suc n) w = farewell config invoked n (depart (config n) (invoked n) n w)

  complete_state-world :
      (i : ℕ) (m : Micro W)
      → (complete_state cb c i m).world ≡ depart (m.configuration i) (m.invocations i) i m.world
  unfolding complete_state run
  complete_state-world i m = from (m.configuration i) (m.invocations i)
    where
      from :
          (active invoked : Bool)
          → Micro.world (
              if invoked
              then record m {
                invocations = clear_at i m.invocations;
                world =
                    uninvoke_all cb
                      (state_at c i).invokes
                      (if active then process_all cb (state_at c i).on_exit m.world else m.world);
              }
              else record m {
                world = if active then process_all cb (state_at c i).on_exit m.world else m.world;
              })
            ≡ depart active invoked i m.world
      from active true = run-ends cb c (state_at c i).invokes _
      from active false = refl

  -- What the loop of the completion keeps, above the index `i`
  record Ending (m : Micro W) (w : W) (i : ℕ) (m' : Micro W) : Type 0 where
    intact : m'.configuration ≡ m.configuration
    ready : m'.is_initialized ≡ m.is_initialized
    ended : (b : ℕ) → i < suc b → b < n_states c → m'.invocations b ≡ false
    waiting : (b : ℕ) → b < i → m'.invocations b ≡ m.invocations b
    called :
        farewell m.configuration m.invocations i m'.world
        ≡ farewell m.configuration m.invocations (n_states c) w

  complete_state-Ending :
      (m : Micro W) (w : W) (i : ℕ) (m' : Micro W)
      → Ending m w (suc i) m'
      → Ending m w i (complete_state cb c i m')
  unfolding farewell
  complete_state-Ending m w i m' v = record {
    intact = complete_state-configuration i m' ∙ v.intact;
    ready = complete_state-initialized i m' ∙ v.ready;
    ended = λ b le small. elim (Bool-cases (b == i)) [
      | inl same ↦ complete_state-invocations i b m' ∙ rw same refl
      | inr other ↦ complete_state-invocations i b m' ∙ rw other (v.ended b (ground arith) small)
    ];
    waiting = λ b lt. elim (Bool-cases (b == i)) [
      | inl same ↦ absurd (ground arith)
      | inr other ↦ complete_state-invocations i b m' ∙ rw other (v.waiting b (omega arith))
    ];
    called =
        ap (farewell m.configuration m.invocations i) (
          complete_state-world i m'
          ∙ ap (λ a. depart a (m'.invocations i) i m'.world) (ap (λ f. f i) v.intact)
          ∙ ap (λ b. depart (m.configuration i) b i m'.world) (v.waiting i (omega arith)))
        ∙ v.called;
  }

  complete-Ending :
      (m : Micro W) (w : W)
      → Ending m w 0 (downward (n_states c) (complete_state cb c) (record m { world = w }))
  complete-Ending m w =
      downward_inv (Ending m w) (complete_state cb c) (n_states c)
        (λ i m' lt v. complete_state-Ending m w i m' v) (record m { world = w })
        (record {
          intact = refl;
          ready = refl;
          ended = λ b le small. absurd (omega arith);
          waiting = λ b lt. refl;
          called = refl;
        })

  step-final :
      (block_ms : ℕ) (m : Micro W)
      → m.is_initialized ≡ true
      → m.flags.finished ≡ false
      → m.flags.top_level_final ≡ true
      → step cb c block_ms m ≡ finish cb c m
  unfolding step
  step-final block_ms m ready running final =
      if_rule (λ r. r ≡ finish cb c m) (not m.is_initialized) (λ e. cc (ap not ready))
        λ _.
          if_rule (λ r. r ≡ finish cb c m) m.flags.finished (λ e. cc)
            λ _. if_rule (λ r. r ≡ finish cb c m) m.flags.top_level_final (λ _. refl) (λ e. cc)

  step-finished :
      (block_ms : ℕ) (m : Micro W)
      → m.is_initialized ≡ true
      → m.flags.finished ≡ true
      → step cb c block_ms m ≡ (m, Status.finished)
  unfolding step
  step-finished block_ms m ready over =
      if_rule (λ r. r ≡ (m, Status.finished)) (not m.is_initialized) (λ e. cc (ap not ready))
        λ _. if_rule (λ r. r ≡ (m, Status.finished)) m.flags.finished (λ _. refl) (λ e. cc)

  -- No state is marked as invoked, the configuration is intact, the world has seen the ends of all states between
  -- the two notices, and from then on a step changes nothing.
  pub record IsOver (m : Micro W) (r : Micro W × Status) : Type 0 where
    pub status : (r.1) ≡ Status.finished
    pub intact : r.0.configuration ≡ m.configuration
    pub ended : (b : ℕ) → b < n_states c → r.0.invocations b ≡ false
    pub left :
        r.0.world
        ≡ cb.notify Notice.after_completion (
            farewell m.configuration m.invocations
              (n_states c)
              (cb.notify Notice.before_completion m.world))
    pub absorbing : (later : ℕ) → step cb c later (r.0) ≡ r

  finish-IsOver : (m : Micro W) → m.is_initialized ≡ true → IsOver m (finish cb c m)
  unfolding finish farewell
  finish-IsOver m ready =
      let e = complete-Ending m (cb.notify Notice.before_completion m.world) in
      record {
        status = refl;
        intact = e.intact;
        ended = λ b lt. e.ended b (omega arith) lt;
        left = ap (cb.notify Notice.after_completion) e.called;
        absorbing = λ later. step-finished later _ (e.ready ∙ ready) refl;
      }

  -- An initialised machine in a top-level final state finishes in one step, with no state marked as invoked and
  -- the configuration intact. Between the two notices of the completion, the world sees for each state, the last
  -- one first, its exit handlers if it is active and then the ends of its invocations if it is marked as invoked.
  -- From then on a step changes nothing.
  pub step-IsOver :
      (block_ms : ℕ) (m : Micro W)
      → m.is_initialized ≡ true
      → m.flags.finished ≡ false
      → m.flags.top_level_final ≡ true
      → IsOver m (step cb c block_ms m)
  step-IsOver block_ms m ready running final =
      subst (IsOver m) (sym (step-final block_ms m ready running final)) (finish-IsOver m ready)
