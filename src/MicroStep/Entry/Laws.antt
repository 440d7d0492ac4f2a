-- ===== src/MicroStep/Entry/Laws.antt =====
-- What the entry set of `FastMicroStep::step` contains.
use uscxml.Prelude.{
  ℕ, suc, ◌<◌, ◌≡◌, ◌⊎◌, true, arith, ◌==◌, upward_inv, Bool-cases, inl, inr, ==_iff, ap,
}
use uscxml.Bits.{Bitset, ∪_cases}
use uscxml.MicroStep.Tables.{Chart, state_at, n_states}
use uscxml.MicroStep.Entry.{add_ancestors_of, add_ancestors}

-- The ancestors of an ancestor are ancestors.
abbrev pub IsNested : Chart → Type 0
IsNested c =
    (i j k : ℕ)
    → (state_at c i).ancestors j ≡ true
    → (state_at c j).ancestors k ≡ true
    → (state_at c i).ancestors k ≡ true

module _ (c : Chart) (nested : IsNested c) (e : Bitset) where
  -- What the loop keeps: bits are added for ancestors of targets only, and the states below `i`
  -- have theirs.
  pub record Climbed (i : ℕ) (r : Bitset) : Type 0 where
    pub grows : (b : ℕ) → e b ≡ true → r b ≡ true
    pub only :
        (b : ℕ)
        → r b ≡ true
        → (e b ≡ true) ⊎ ((j : ℕ) × (e j ≡ true) × ((state_at c j).ancestors b ≡ true))
    pub closed : (j a : ℕ) → j < i → r j ≡ true → (state_at c j).ancestors a ≡ true → r a ≡ true

  add_ancestors_of-Climbed :
      (i : ℕ) (r : Bitset) → Climbed i r → Climbed (suc i) (add_ancestors_of c i r)
  unfolding add_ancestors_of
  add_ancestors_of-Climbed i r v = elim (Bool-cases (r i)) [
    | inr absent ↦ rw absent (record {
      grows = v.grows;
      only = v.only;
      closed = λ j a lt h q. elim (Bool-cases (j == i)) [
        | inl same ↦ absurd (ground (arith, ap r ((==_iff j i).0 same)))
        | inr other ↦ v.closed j a (ground arith) h q
      ];
    })
    | inl present ↦ rw present (record {
      grows = λ b h. ground (arith, v.grows b h);
      only = λ b h. elim (∪_cases r (state_at c i).ancestors b h) [
        | inl old ↦ v.only b old
        | inr fresh ↦ elim (v.only i present) [
          | inl target ↦ inr (i, target, fresh)
          | inr (j, target, above) ↦ inr (j, target, nested j i b above fresh)
        ]
      ];
      closed = λ j a lt h q. elim (∪_cases r (state_at c i).ancestors j h) [
        | inr fresh ↦ ground (arith, nested i j a fresh q)
        | inl old ↦ elim (Bool-cases (j == i)) [
          | inl same ↦ ground (arith, ap (λ k. (state_at c k).ancestors a) ((==_iff j i).0 same))
          | inr other ↦ ground (arith, v.closed j a (ground arith) old q)
        ]
      ];
    })
  ]

  pub add_ancestors-Climbed : Climbed (n_states c) (add_ancestors c e)
  unfolding add_ancestors
  add_ancestors-Climbed =
      upward_inv Climbed (add_ancestors_of c) (n_states c)
        (λ i r lt v. add_ancestors_of-Climbed i r v) e
        (record {
          grows = λ b h. h;
          only = λ b h. inl h;
          closed = λ j a lt h q. absurd (omega arith);
        })

  -- The first loop adds to the targets their ancestors and nothing else, in one pass.
  pub add_ancestors_lem :
      (b : ℕ)
      → ((k : ℕ) → e k ≡ true → k < n_states c)
      → ((add_ancestors c e b ≡ true)
          → (e b ≡ true) ⊎ ((j : ℕ) × (e j ≡ true) × ((state_at c j).ancestors b ≡ true)))
        × ((e b ≡ true) ⊎ ((j : ℕ) × (e j ≡ true) × ((state_at c j).ancestors b ≡ true))
            → add_ancestors c e b ≡ true)
  add_ancestors_lem b small =
      let v = add_ancestors-Climbed in
      (
        v.only b,
        λ h. elim h [
          | inl target ↦ v.grows b target
          | inr (j, target, above) ↦ v.closed j b (small j target) (v.grows j target) above
        ],
      )
