-- ===== src/MicroStep/RegularTests.antt =====
-- A regular chart in document order: a state, and a parallel one with a region that has a history
use uscxml.Prelude.{
  ℕ, zero, suc, ◌<◌, ◌≡◌, refl, ◌∙◌, Bool, true, false, ◌==◌, ◌&&◌, ◌||◌, [], ◌∷◌, arith,
}
use uscxml.MicroStep.Tables.{Chart, Kind, state_at, trans_at, n_states, is_pseudo, is_history_kind}
use uscxml.MicroStep.Entry.{is_deep}
use uscxml.MicroStep.Entry.Upward.{IsUpward, IsRegular}
use uscxml.MicroStep.Entry.Later.{IsLayered}
use uscxml.MicroStep.Entry.Full.{IsFull}
use uscxml.MicroStep.Step.{step}
use uscxml.MicroStep.Step.Upward.{step-IsUpward}
use uscxml.MicroStep.Step.Laws.{Inv}
use uscxml.MicroStep.Step.Full.{step-IsFull}
use uscxml.MicroStep.Example.{bits, state, go, log, in_leaf}

abbrev pub tree : Chart
tree = record {
  states =
      state 0 Kind.compound 0 [] (1 ∷ 2 ∷ 3 ∷ 4 ∷ 5 ∷ 6 ∷ []) (1 ∷ [])
      ∷ state 1 Kind.atomic 0 (0 ∷ []) [] []
      ∷ state 2 Kind.parallel 0 (0 ∷ []) (3 ∷ 4 ∷ 5 ∷ 6 ∷ []) (3 ∷ 4 ∷ [])
      ∷ state 3 Kind.atomic 2 (0 ∷ 2 ∷ []) [] []
      ∷ state 4 Kind.compound 2 (0 ∷ 2 ∷ []) (5 ∷ 6 ∷ []) (6 ∷ [])
      ∷ state 5 Kind.history_shallow 4 (0 ∷ 2 ∷ 4 ∷ []) [] (6 ∷ [])
      ∷ state 6 Kind.atomic 4 (0 ∷ 2 ∷ 4 ∷ []) [] []
      ∷ [];
  transitions =
      record go { target = bits (5 ∷ []); exit_set = bits (1 ∷ 2 ∷ 3 ∷ 4 ∷ 6 ∷ []) }
      ∷ record go {
        source = 5;
        target = bits (6 ∷ []);
        exit_set = bits (6 ∷ []);
        is_history = true;
      }
      ∷ [];
}

abbrev above : ℕ → ℕ → Bool
above i a =
    (i == 1 || i == 2) && a == 0
    || (i == 3 || i == 4) && (a == 0 || a == 2)
    || (i == 5 || i == 6) && (a == 0 || a == 2 || a == 4)

abbrev ends : ℕ → ℕ → Bool
ends i b = i == 0 && b == 1 || i == 2 && (b == 3 || b == 4) || (i == 4 || i == 5) && b == 6

above_row : (i a : ℕ) → (state_at tree i).ancestors a ≡ above i a
above_row zero a = ground arith
above_row (suc zero) a = ground arith
above_row (suc (suc zero)) a = ground arith
above_row (suc (suc (suc zero))) a = ground arith
above_row (suc (suc (suc (suc zero)))) a = ground arith
above_row (suc (suc (suc (suc (suc zero))))) a = ground arith
above_row (suc (suc (suc (suc (suc (suc zero)))))) a = ground arith
above_row (suc (suc (suc (suc (suc (suc (suc i))))))) a = ground arith

ends_row : (i b : ℕ) → (state_at tree i).completion b ≡ ends i b
ends_row zero b = ground arith
ends_row (suc zero) b = ground arith
ends_row (suc (suc zero)) b = ground arith
ends_row (suc (suc (suc zero))) b = ground arith
ends_row (suc (suc (suc (suc zero)))) b = ground arith
ends_row (suc (suc (suc (suc (suc zero))))) b = ground arith
ends_row (suc (suc (suc (suc (suc (suc zero)))))) b = ground arith
ends_row (suc (suc (suc (suc (suc (suc (suc i))))))) b = ground arith

tree_kind :
    (i : ℕ)
    → (is_pseudo (state_at tree i).kind ≡ (i == 5))
      × ((is_history_kind (state_at tree i).kind ≡ (i == 5))
          × (is_deep (state_at tree i).kind ≡ false))
tree_kind zero = (ground arith, (ground arith, refl))
tree_kind (suc zero) = (ground arith, (ground arith, refl))
tree_kind (suc (suc zero)) = (ground arith, (ground arith, refl))
tree_kind (suc (suc (suc zero))) = (ground arith, (ground arith, refl))
tree_kind (suc (suc (suc (suc zero)))) = (ground arith, (ground arith, refl))
tree_kind (suc (suc (suc (suc (suc zero))))) = (ground arith, (ground arith, refl))
tree_kind (suc (suc (suc (suc (suc (suc zero)))))) = (ground arith, (ground arith, refl))
tree_kind (suc (suc (suc (suc (suc (suc (suc i))))))) = (ground arith, (ground arith, refl))

no_initial : (i : ℕ) → (state_at tree i).kind ≡ Kind.initial → i < i
no_initial zero h = cc
no_initial (suc zero) h = cc
no_initial (suc (suc zero)) h = cc
no_initial (suc (suc (suc zero))) h = cc
no_initial (suc (suc (suc (suc zero)))) h = cc
no_initial (suc (suc (suc (suc (suc zero))))) h = cc
no_initial (suc (suc (suc (suc (suc (suc zero)))))) h = cc
no_initial (suc (suc (suc (suc (suc (suc (suc i))))))) h = cc

only_parallel : (i : ℕ) → (state_at tree i).kind ≡ Kind.parallel → i ≡ 2
only_parallel zero h = absurd (cc)
only_parallel (suc zero) h = absurd (cc)
only_parallel (suc (suc zero)) h = refl
only_parallel (suc (suc (suc zero))) h = absurd (cc)
only_parallel (suc (suc (suc (suc zero)))) h = absurd (cc)
only_parallel (suc (suc (suc (suc (suc zero))))) h = absurd (cc)
only_parallel (suc (suc (suc (suc (suc (suc zero)))))) h = absurd (cc)
only_parallel (suc (suc (suc (suc (suc (suc (suc i))))))) h = absurd (cc)

default_target :
    (j b : ℕ) → (trans_at tree j).source ≡ 5 → (trans_at tree j).target b ≡ true → b ≡ 6
default_target zero b s t = absurd (omega (arith, s))
default_target (suc zero) b s t = ground arith
default_target (suc (suc j)) b s t = absurd (omega (arith, s))

exits_row :
    (j a : ℕ)
    → (trans_at tree j).exit_set a
      ≡ (j == 0 && (a == 1 || a == 2 || a == 3 || a == 4) || (j == 0 || j == 1) && a == 6)
exits_row zero a = ground arith
exits_row (suc zero) a = ground arith
exits_row (suc (suc j)) a = ground arith

tree-IsRegular : IsRegular tree
tree-IsRegular = record {
  nested = λ i j k p q. ground (arith, above_row i j, above_row j k, above_row i k, p, q);
  small = λ i a h. ground (arith, above_row i a, h);
  below = λ i b a p t h.
      ground (arith, above_row i a, above_row b a, ends_row i b, (tree_kind i).0, p, t, h);
  shallow = λ i. (tree_kind i).1.1;
  beside = λ i b a p t h.
      ground (arith, above_row i a, above_row b a, ends_row i b, (tree_kind i).1.0, p, t, h);
  defaults = λ i j b a p s t h.
      let history : i ≡ 5 = ground (arith, (tree_kind i).1.0, p) in
      let target = default_target j b (s ∙ history) t in
      ground (arith, above_row i a, above_row b a, history, target, h);
  behind = λ i j b e s t. absurd (omega (arith, no_initial i e));
  leaf = λ i b p. ground (arith, above_row b i, (tree_kind i).0, p);
  exits = λ j i a p x h.
      ground (arith, exits_row j a, exits_row j i, above_row i a, (tree_kind i).0, p, x, h);
}

tree-IsLayered : IsLayered tree
tree-IsLayered = record {
  bounded = λ i b t. ground (arith, ends_row i b, t);
  later = λ i b t. ground (arith, ends_row i b, t);
  defaults_later = λ i j b p s t.
      let history : i ≡ 5 = ground (arith, (tree_kind i).1.0, p) in
      let target = default_target j b (s ∙ history) t in omega (arith, history, target);
  inner = λ i j b a e s t h. absurd (omega (arith, no_initial i e));
  regions = λ i b e t. ground (arith, only_parallel i e, ends_row i b, (tree_kind b).0, t);
  whole = λ j i b e t x.
      ground (arith, only_parallel i e, ends_row i b, exits_row j i, exits_row j b, t, x);
}

in_leaf-proper :
    (b : ℕ)
    → in_leaf.configuration b ≡ true
    → (b < n_states tree) × (is_pseudo (state_at tree b).kind ≡ false)
in_leaf-proper zero h = (omega arith, refl)
in_leaf-proper (suc zero) h = (omega arith, refl)
in_leaf-proper (suc (suc b)) h = absurd (ground arith)

in_leaf-Inv : Inv log tree in_leaf
in_leaf-Inv = record { proper = in_leaf-proper; all_started = λ b h. h }

-- The machine enters the parallel state through the history of one of its regions.
step-IsUpward_example : IsUpward tree (step log tree 0 in_leaf).0.configuration
step-IsUpward_example = step-IsUpward log tree tree-IsRegular 0 in_leaf in_leaf-Inv in_leaf-IsUpward
  where
    in_leaf-IsUpward : IsUpward tree in_leaf.configuration
    in_leaf-IsUpward i a lt h q = ground (arith, above_row i a, q, h)

step-IsFull_example : IsFull tree (step log tree 0 in_leaf).0.configuration
step-IsFull_example = step-IsFull log tree tree-IsRegular tree-IsLayered 0 in_leaf in_leaf-IsFull
  where
    in_leaf-IsFull : IsFull tree in_leaf.configuration
    in_leaf-IsFull i b lt h e t = absurd (ground (arith, only_parallel i e, h))
