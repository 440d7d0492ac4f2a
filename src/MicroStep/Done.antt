-- ===== src/MicroStep/Done.antt =====
-- "handle final states" of `FastMicroStep::step`: which done events the entry of a final state raises.
pub mod Laws
use uscxml.Prelude.{
  ℕ, zero, suc, Bool, true, not, ◌&&◌, ◌==◌, if◌then◌else◌, Option, none, some, upward, ltb,
}
use uscxml.Bits.{Bitset, clear_at, sym_diff, any_set, intersects, count}
use uscxml.MicroStep.Tables.{Chart, Callbacks, Micro, state_at, n_states, is_parallel, is_final}

module _ (c : Chart) where
  abbrev pub depth : ℕ → ℕ
  depth i = count (n_states c) (state_at c i).ancestors

  -- The innermost `while`: a parallel state all of whose children are gone goes as well, and so on
  -- upwards. `top` is `nFinalParent`, `s` is `pState`; the fuel bounds the climb, which is one step
  -- up the tree a round.
  unfoldable pub drop_parallel : ℕ → ℕ → ℕ → Bitset → Option Bitset
  drop_parallel zero top s left = none
  drop_parallel (suc fuel) top s left =
      let p = (state_at c s).parent in
      let emptied = not (intersects (n_states c) left (state_at c p).children) in
      let left' = clear_at p left in
      let above = drop_parallel fuel top p left' in
      if not (ltb 0 (depth s))
      then some left
      else if not (is_parallel (state_at c p).kind)
      then some left
      else if not emptied
      then some left
      else if not (any_set (n_states c) left')
      then some left'
      else if p == top
      then some left'
      else above

  -- An active final state `k` below `top` removes its siblings and its parent.
  unfoldable pub drop_final : ℕ → ℕ → Bitset → Option Bitset
  drop_final top k left =
      let p = (state_at c k).parent in
      drop_parallel (n_states c) top p (clear_at p (sym_diff left (state_at c p).children))

  -- What is left of the children of `top` (`tmpStates`)
  unfoldable pub remaining : Bitset → ℕ → Option Bitset
  remaining config top =
      upward (n_states c)
        (λ k left?. elim left? [
          | none ↦ none
          | some left ↦
              if config k && (state_at c k).ancestors top && is_final (state_at c k).kind
              then drop_final top k left
              else some left
        ])
        (some (state_at c top).children)

  module _ {W : Type 0} (cb : Callbacks W) where
    abbrev pub raise : ℕ → Option ℕ → W → W
    raise s done w = cb.raise_done (state_at c s).element done w

    -- The outer `while`: each parallel state above is done if nothing of it is left.
    unfoldable pub raise_parallel : ℕ → Bitset → ℕ → W → Option W
    raise_parallel zero config s w = none
    raise_parallel (suc fuel) config s w =
        let p = (state_at c s).parent in
        let up = raise_parallel fuel config p in
        if not (ltb 0 (depth s))
        then some w
        else if not (is_parallel (state_at c p).kind)
        then some w
        else elim (remaining config p) [
          | none ↦ none
          | some left ↦
              if any_set (n_states c) left then up w else up (raise p (state_at c p).done_data w)
        ]

    -- "only the topmost scxml is an ancestor"
    unfoldable pub is_top_level : ℕ → Bool
    is_top_level i = depth i == 1 && (state_at c i).ancestors 0

    unfoldable pub raise_done_events : ℕ → Bitset → W → Option W
    raise_done_events i config w =
        raise_parallel (n_states c) config (state_at c i).parent
          (raise (state_at c i).parent (state_at c i).done_data w)

    -- Without fuel the world is left as it is; `raise_done_events` shows that this does not happen.
    unfoldable pub handle_final : ℕ → Micro W → Micro W
    handle_final i m =
        if not (is_final (state_at c i).kind)
        then m
        else if is_top_level i
        then record m { flags = record (m.flags) { top_level_final = true } }
        else record m {
          world = elim (raise_done_events i m.configuration m.world) [
            | none ↦ m.world
            | some w ↦ w
          ];
        }
