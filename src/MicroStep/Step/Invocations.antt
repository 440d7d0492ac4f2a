-- ===== src/MicroStep/Step/Invocations.antt =====
-- When `FastMicroStep::step` starts and ends invocations.
use uscxml.Prelude.{
  ℕ, suc, ◌<◌, ◌≡◌, refl, true, false, not, ◌||◌, if◌then◌else◌, Bool, List, [], ◌∷◌, ◌++◌, zero,
  arith, ◌==◌, upward_inv, Bool-cases, inl, inr, ◌∙◌, ap, sym, if_rule,
}
use uscxml.MicroStep.Tables.{Chart, Callbacks, Micro, Notice, n_states, state_at, is_pristine}
use uscxml.Messages.{is_event}
use uscxml.MicroStep.Select.{select_transitions}
use uscxml.MicroStep.Step.{
  Status, invoke_all, uninvoke_all, finish, manage_invocation, manage_invocations, settle, step,
  conclude, select_and_perform, perform, begin, take_external, take_internal,
}
use uscxml.Bits.{Bitset}

module _ {W : Type 0} (cb : Callbacks W) (c : Chart) where
  manage_invocation-invocations :
      (i b : ℕ) (m : Micro W)
      → (manage_invocation cb c i m).invocations b
        ≡ (if b == i then m.configuration b else m.invocations b)
  unfolding manage_invocation
  manage_invocation-invocations i b m =
      ground (arith, ap m.configuration {x = b} {y = i}, ap m.invocations {x = b} {y = i})

  manage_invocation-configuration :
      (i : ℕ) (m : Micro W) → (manage_invocation cb c i m).configuration ≡ m.configuration
  unfolding manage_invocation
  manage_invocation-configuration i m = ground arith

  -- The calls that a state wants: its invocations are started if it has become active, and ended if it no longer is.
  pub data Call : Type 0 where
    starts ends : ℕ → Call

  abbrev pub each : (ℕ → Call) → List ℕ → List Call
  each f [] = []
  each f (x ∷ xs) = f x ∷ each f xs

  abbrev pub wanted : Bool → Bool → List ℕ → List Call
  wanted true true xs = []
  wanted true false xs = each starts xs
  wanted false true xs = each ends xs
  wanted false false xs = []

  -- Those of the states below `n`, in document order
  unfoldable pub due : Bitset → Bitset → ℕ → List Call
  due config invoked zero = []
  due config invoked (suc n) =
      due config invoked n ++ wanted (config n) (invoked n) (state_at c n).invokes

  unfoldable pub run : List Call → W → W
  run [] w = w
  run (starts x ∷ l) w = run l (cb.invoke x w)
  run (ends x ∷ l) w = run l (cb.uninvoke x w)

  run-append : (l k : List Call) (w : W) → run (l ++ k) w ≡ run k (run l w)
  unfolding run
  run-append [] k w = refl
  run-append (starts x ∷ l) k w = run-append l k (cb.invoke x w)
  run-append (ends x ∷ l) k w = run-append l k (cb.uninvoke x w)

  run-starts : (xs : List ℕ) (w : W) → invoke_all cb xs w ≡ run (each starts xs) w
  unfolding run invoke_all
  run-starts [] w = refl
  run-starts (x ∷ xs) w = run-starts xs (cb.invoke x w)

  pub run-ends : (xs : List ℕ) (w : W) → uninvoke_all cb xs w ≡ run (each ends xs) w
  unfolding run uninvoke_all
  run-ends [] w = refl
  run-ends (x ∷ xs) w = run-ends xs (cb.uninvoke x w)

  manage_invocation-world :
      (i : ℕ) (m : Micro W)
      → (manage_invocation cb c i m).world
        ≡ run (wanted (m.configuration i) (m.invocations i) (state_at c i).invokes) m.world
  unfolding manage_invocation run
  manage_invocation-world i m = elim (Bool-cases (m.configuration i)) [
    | inl active ↦ elim (Bool-cases (m.invocations i)) [
      | inl invoked ↦ rw (active, invoked) refl
      | inr idle ↦ rw (active, idle) (run-starts (state_at c i).invokes m.world)
    ]
    | inr left ↦ elim (Bool-cases (m.invocations i)) [
      | inl invoked ↦ rw (left, invoked) (run-ends (state_at c i).invokes m.world)
      | inr idle ↦ rw (left, idle) refl
    ]
  ]

  -- What the loop keeps, after the states below `i`
  record Managed (m : Micro W) (i : ℕ) (m' : Micro W) : Type 0 where
    same : m'.configuration ≡ m.configuration
    managed : (b : ℕ) → b < i → m'.invocations b ≡ m.configuration b
    waiting : (b : ℕ) → i < suc b → m'.invocations b ≡ m.invocations b
    called : m'.world ≡ run (due m.configuration m.invocations i) m.world

  manage_invocation-Managed :
      (m : Micro W) (i : ℕ) (m' : Micro W)
      → Managed m i m'
      → Managed m (suc i) (manage_invocation cb c i m')
  unfolding due
  manage_invocation-Managed m i m' v = record {
    same = manage_invocation-configuration i m' ∙ v.same;
    managed = λ b le. elim (Bool-cases (b == i)) [
      | inl same ↦ manage_invocation-invocations i b m' ∙ rw (same, v.same) refl
      | inr other ↦ manage_invocation-invocations i b m' ∙ rw other (v.managed b (ground arith))
    ];
    waiting = λ b le. elim (Bool-cases (b == i)) [
      | inl same ↦ absurd (ground arith)
      | inr other ↦ manage_invocation-invocations i b m' ∙ rw other (v.waiting b (ground arith))
    ];
    called =
        manage_invocation-world i m'
        ∙ ap (λ b. run (wanted b (m'.invocations i) (state_at c i).invokes) m'.world)
            (ap (λ f. f i) v.same)
        ∙ ap (λ b. run (wanted (m.configuration i) b (state_at c i).invokes) m'.world)
            (v.waiting i (omega arith))
        ∙ ap (run (wanted (m.configuration i) (m.invocations i) (state_at c i).invokes)) v.called
        ∙ sym (
            run-append (due m.configuration m.invocations i)
              (wanted (m.configuration i) (m.invocations i) (state_at c i).invokes) m.world);
  }

  manage_invocations_lem : (m : Micro W) → Managed m (n_states c) (manage_invocations cb c m)
  unfolding manage_invocations due run
  manage_invocations_lem m =
      upward_inv (Managed m) (manage_invocation cb c) (n_states c)
        (λ i m' lt v. manage_invocation-Managed m i m' v) m
        (record {
          same = refl;
          managed = λ b lt. absurd (omega arith);
          waiting = λ b lt. refl;
          called = refl;
        })

  -- What a machine shows whenever it reports a stable configuration
  pub record Settled (m : Micro W) : Type 0 where
    pub stable : m.flags.stable ≡ true
    pub invoked : (b : ℕ) → b < n_states c → m.invocations b ≡ m.configuration b

  -- The world after the call for an internal event and the calls for the invocations
  abbrev pub settled_world : Micro W → W
  settled_world m =
      run (due m.configuration m.invocations (n_states c)) (cb.dequeue_internal m.world).1

  abbrev pub idle_world : ℕ → Micro W → W
  idle_world block_ms m = (cb.dequeue_external block_ms (settled_world m)).1

  -- What each status of a step from `m` promises
  pub record Outcome (block_ms : ℕ) (m : Micro W) (r : Micro W × Status) : Type 0 where
    pub macrostep :
        (r.1) ≡ Status.macrostepped
        → Settled (r.0) × (r.0.world ≡ cb.notify Notice.on_stable (settled_world m))
    pub idles :
        (r.1) ≡ Status.idle
        → Settled (r.0) × ((r.0.is_cancelled ≡ false) × (r.0.world ≡ idle_world block_ms m))
    pub cancels :
        (r.1) ≡ Status.cancelled
        → Settled (r.0) × ((r.0.flags.top_level_final ≡ true) × (r.0.world ≡ idle_world block_ms m))

  microstep-Outcome :
      (n : ℕ) (m : Micro W) (r : Micro W × Status) → (r.1) ≡ Status.microstepped → Outcome n m r
  microstep-Outcome n m r e = record { macrostep = λ h. cc; idles = λ h. cc; cancels = λ h. cc }

  select_and_perform-Outcome : (n : ℕ) (m m' : Micro W) → Outcome n m (select_and_perform cb c m')
  unfolding select_and_perform perform
  select_and_perform-Outcome n m m' =
      let s = select_transitions cb c m'.configuration m'.event m'.world in
      if_rule (Outcome n m) (s.found || m'.flags.transition_found)
        (λ _. microstep-Outcome n m _ refl) (λ _. microstep-Outcome n m _ refl)

  conclude-Outcome :
      (n : ℕ) (m m' : Micro W)
      → Settled m'
      → m'.world ≡ idle_world n m
      → Outcome n m (conclude cb c m')
  unfolding conclude
  conclude-Outcome n m m' v q =
      if_rule (Outcome n m) m'.is_cancelled
        (λ _. record {
          macrostep = λ h. cc;
          idles = λ h. cc;
          cancels = λ _. (record { stable = v.stable; invoked = v.invoked }, (refl, q));
        })
        (λ goes. record { macrostep = λ h. cc; idles = λ _. (v, (goes, q)); cancels = λ h. cc })

  take_external-Outcome :
      (n : ℕ) (m m' : Micro W)
      → Settled m'
      → m'.world ≡ settled_world m
      → Outcome n m (take_external cb c n m')
  unfolding take_external
  take_external-Outcome n m m' v q =
      if_rule (Outcome n m) (is_event (cb.dequeue_external n m'.world).0)
        (λ _. select_and_perform-Outcome n m _)
        (λ _.
          conclude-Outcome n m _ (record { stable = v.stable; invoked = v.invoked })
            (ap (λ w. (cb.dequeue_external n w).1) q))

  settle-Outcome :
      (n : ℕ) (m m' : Micro W)
      → m'.configuration ≡ m.configuration
      → m'.invocations ≡ m.invocations
      → m'.world ≡ (cb.dequeue_internal m.world).1
      → Outcome n m (settle cb c n m')
  unfolding settle
  settle-Outcome n m m' pc pi pw =
      let m1 = manage_invocations cb c m' in
      let v = manage_invocations_lem m' in
      let invoked : (b : ℕ) → b < n_states c → m1.invocations b ≡ m1.configuration b =
        λ b lt. v.managed b lt ∙ sym (ap (λ f. f b) v.same) in
      let called : m1.world ≡ settled_world m = v.called ∙ rw (pc, pi, pw) refl in
      if_rule (Outcome n m) (m1.flags.stable)
        (λ old. take_external-Outcome n m m1 (record { stable = old; invoked = invoked }) called)
        (λ _. record {
          macrostep = λ _.
              (record { stable = refl; invoked = invoked }, ap (cb.notify Notice.on_stable) called);
          idles = λ h. cc;
          cancels = λ h. cc;
        })

  take_internal-Outcome : (n : ℕ) (m : Micro W) → Outcome n m (take_internal cb c n m)
  unfolding take_internal
  take_internal-Outcome n m =
      if_rule (Outcome n m) (is_event (cb.dequeue_internal m.world).0)
        (λ _. select_and_perform-Outcome n m _) (λ _. settle-Outcome n m _ refl refl refl)

  -- A step reports a macrostep, idling or a cancellation only in a stable configuration in which exactly the active
  -- states are marked as invoked. The world has then seen, between the call for an internal event and what
  -- follows, the invocations of the unmarked active states started and those of the marked inactive ones ended, in
  -- document order; what follows is the notice of the stable configuration for a macrostep, and the call for an
  -- external event otherwise. It idles only if the machine is not cancelled, and a cancelled machine is bound
  -- to finish.
  pub step-Outcome : (block_ms : ℕ) (m : Micro W) → Outcome block_ms m (step cb c block_ms m)
  unfolding step finish begin perform
  step-Outcome block_ms m =
      if_rule (Outcome block_ms m) (not m.is_initialized)
        (λ _. record { macrostep = λ h. cc; idles = λ h. cc; cancels = λ h. cc })
        λ _.
          if_rule (Outcome block_ms m) m.flags.finished
            (λ _. record { macrostep = λ h. cc; idles = λ h. cc; cancels = λ h. cc })
            λ _.
              if_rule (Outcome block_ms m) m.flags.top_level_final
                (λ _. record { macrostep = λ h. cc; idles = λ h. cc; cancels = λ h. cc })
                λ _.
                  if_rule (Outcome block_ms m) (is_pristine m.flags)
                    (λ _. microstep-Outcome block_ms m _ refl)
                    λ _.
                      if_rule (Outcome block_ms m) m.flags.spontaneous
                        (λ _. select_and_perform-Outcome block_ms m _)
                        (λ _. take_internal-Outcome block_ms m)
