-- ===== src/MicroStep/Step/Rule.antt =====
-- What every step of `FastMicroStep::step` keeps, from what the selection and the first microstep keep.
use uscxml.Prelude.{ℕ, ◌≡◌, refl, not, ◌&&◌, upward_inv, downward_inv, if_rule}
use uscxml.MicroStep.Tables.{Chart, Callbacks, Micro, n_states, is_pristine}
use uscxml.Messages.{is_event}
use uscxml.MicroStep.Step.{
  Status, select_and_perform, begin, finish, complete_state, manage_invocation, manage_invocations,
  conclude, take_external, settle, take_internal, step,
}

module _ {W : Type 0} (cb : Callbacks W) (c : Chart) (P : Micro W → Type 0)
    (carries : (m m' : Micro W)
      → m'.configuration ≡ m.configuration
      → m'.initialized_data ≡ m.initialized_data
      → P m
      → P m')
    (selects : (m : Micro W) → P m → P (select_and_perform cb c m).0)
    (begins : (m : Micro W) → P m → P (begin cb c m).0) where
  same :
      {m m' : Micro W}
      → m'.configuration ≡ m.configuration
      → m'.initialized_data ≡ m.initialized_data
      → P m
      → P m'
  same {m} {m'} p q v = carries m m' p q v

  abbrev Keeps : Micro W × Status → Type 0
  Keeps r = P (r.0)

  complete_state-Keeps : (i : ℕ) (m : Micro W) → P m → P (complete_state cb c i m)
  unfolding complete_state
  complete_state-Keeps i m v =
      if_rule P (m.invocations i) (λ _. same refl refl v) (λ _. same refl refl v)

  finish-Keeps : (m : Micro W) → P m → Keeps (finish cb c m)
  unfolding finish
  finish-Keeps m v = same refl refl (
      downward_inv (λ _ m'. P m') (complete_state cb c) (n_states c)
        (λ i m' lt w. complete_state-Keeps i m' w) _ (same refl refl v))

  manage_invocation-Keeps : (i : ℕ) (m : Micro W) → P m → P (manage_invocation cb c i m)
  unfolding manage_invocation
  manage_invocation-Keeps i m v =
      if_rule P (not (m.configuration i) && m.invocations i) (λ _. same refl refl v)
        (λ _.
          if_rule P (m.configuration i && not (m.invocations i)) (λ _. same refl refl v) (λ _. v))

  manage_invocations-Keeps : (m : Micro W) → P m → P (manage_invocations cb c m)
  unfolding manage_invocations
  manage_invocations-Keeps m v =
      upward_inv (λ _ m'. P m') (manage_invocation cb c) (n_states c)
        (λ i m' lt w. manage_invocation-Keeps i m' w) m v

  conclude-Keeps : (m : Micro W) → P m → Keeps (conclude cb c m)
  unfolding conclude
  conclude-Keeps m v = if_rule Keeps m.is_cancelled (λ _. same refl refl v) (λ _. v)

  take_external-Keeps : (block_ms : ℕ) (m : Micro W) → P m → Keeps (take_external cb c block_ms m)
  unfolding take_external
  take_external-Keeps block_ms m v =
      if_rule Keeps (is_event (cb.dequeue_external block_ms m.world).0)
        (λ _. selects _ (same refl refl v)) (λ _. conclude-Keeps _ (same refl refl v))

  settle-Keeps : (block_ms : ℕ) (m : Micro W) → P m → Keeps (settle cb c block_ms m)
  unfolding settle
  settle-Keeps block_ms m v =
      let m1 = manage_invocations cb c m in
      let v1 = manage_invocations-Keeps m v in
      if_rule Keeps (m1.flags.stable) (λ _. take_external-Keeps block_ms m1 v1)
        (λ _. same refl refl v1)

  take_internal-Keeps : (block_ms : ℕ) (m : Micro W) → P m → Keeps (take_internal cb c block_ms m)
  unfolding take_internal
  take_internal-Keeps block_ms m v =
      if_rule Keeps (is_event (cb.dequeue_internal m.world).0) (λ _. selects _ (same refl refl v))
        (λ _. settle-Keeps block_ms _ (same refl refl v))

  -- Every path through a step keeps it.
  pub step-Keeps : (block_ms : ℕ) (m : Micro W) → P m → P (step cb c block_ms m).0
  unfolding step
  step-Keeps block_ms m v =
      if_rule Keeps (not m.is_initialized) (λ _. same refl refl v)
        λ _.
          if_rule Keeps m.flags.finished (λ _. v)
            λ _.
              if_rule Keeps m.flags.top_level_final (λ _. finish-Keeps m v)
                λ _.
                  if_rule Keeps (is_pristine m.flags) (λ _. begins m v)
                    λ _.
                      if_rule Keeps m.flags.spontaneous (λ _. selects _ (same refl refl v))
                        (λ _. take_internal-Keeps block_ms m v)
