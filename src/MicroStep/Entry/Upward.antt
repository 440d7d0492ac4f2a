-- ===== src/MicroStep/Entry/Upward.antt =====
-- The entry set of `FastMicroStep::step` has the ancestors of its states.
use uscxml.Prelude.{
  ℕ, suc, ◌<◌, ◌≡◌, ◌⊎◌, true, false, ◌&&◌, arith, ltb, ◌==◌, if◌then◌else◌, upward_inv,
  first_below, Bool-cases, Option-cases, inl, inr, ==_iff, ap,
}
use uscxml.Bits.{Bitset, ◌∪◌, ∪_cases}
use uscxml.MicroStep.Tables.{Chart, Kind, state_at, trans_at, n_states, is_history_kind, is_pseudo}
use uscxml.MicroStep.Entry.{is_deep, add_first_ancestors, add_all_ancestors}
use uscxml.MicroStep.Entry.Laws.{IsNested}

-- A set of states with all ancestors of its states
abbrev pub IsUpward : Chart → Bitset → Type 0
IsUpward c e =
    (i a : ℕ) → i < n_states c → e i ≡ true → (state_at c i).ancestors a ≡ true → e a ≡ true

-- A chart without deep histories, where parallel and compound states complete with states right below them, the
-- histories cover states beside them and default to such, and the targets of an `<initial>` element stand behind
-- it. Histories and `<initial>` elements have no states within, and an exit set has the
-- proper states within its states.
pub record IsRegular (c : Chart) : Type 0 where
  pub nested : IsNested c
  pub small : (i a : ℕ) → (state_at c i).ancestors a ≡ true → a < n_states c
  pub below :
      (i b a : ℕ)
      → is_pseudo (state_at c i).kind ≡ false
      → (state_at c i).completion b ≡ true
      → (state_at c b).ancestors a ≡ true
      → (a ≡ i) ⊎ ((state_at c i).ancestors a ≡ true)
  pub shallow : (i : ℕ) → is_deep (state_at c i).kind ≡ false
  pub beside :
      (i b a : ℕ)
      → is_history_kind (state_at c i).kind ≡ true
      → (state_at c i).completion b ≡ true
      → (state_at c b).ancestors a ≡ true
      → (state_at c i).ancestors a ≡ true
  pub defaults :
      (i j b a : ℕ)
      → is_history_kind (state_at c i).kind ≡ true
      → (trans_at c j).source ≡ i
      → (trans_at c j).target b ≡ true
      → (state_at c b).ancestors a ≡ true
      → (state_at c i).ancestors a ≡ true
  pub behind :
      (i j b : ℕ)
      → (state_at c i).kind ≡ Kind.initial
      → (trans_at c j).source ≡ i
      → (trans_at c j).target b ≡ true
      → i < b
  pub leaf : (i b : ℕ) → is_pseudo (state_at c i).kind ≡ true → (state_at c b).ancestors i ≡ false
  pub exits :
      (j i a : ℕ)
      → is_pseudo (state_at c i).kind ≡ false
      → (trans_at c j).exit_set a ≡ true
      → (state_at c i).ancestors a ≡ true
      → (trans_at c j).exit_set i ≡ true

module _ (c : Chart) (regular : IsRegular c) where
  pub IsUpward-add :
      (e bits : Bitset)
      → IsUpward c e
      → ((b a : ℕ) → bits b ≡ true → (state_at c b).ancestors a ≡ true → e a ≡ true)
      → IsUpward c (e ∪ bits)
  IsUpward-add e bits up fresh i a lt h q = elim (∪_cases e bits i h) [
    | inl old ↦ ground (arith, up i a lt old q)
    | inr new ↦ ground (arith, fresh i a new q)
  ]

  pub add_first_ancestors-IsUpward :
      (i : ℕ) (bits e : Bitset) → IsUpward c e → IsUpward c (add_first_ancestors c i bits e)
  unfolding add_first_ancestors
  add_first_ancestors-IsUpward i bits e up =
      elim (Option-cases (first_below (n_states c) (λ k. ltb i k && bits k))) [
        | inl missing ↦ rw (missing, add_first_ancestors) up
        | inr (k, found) ↦
            rw (found, add_first_ancestors)
              (λ b a lt h q. elim (∪_cases e (state_at c k).ancestors b h) [
                | inl old ↦ ground (arith, up b a lt old q)
                | inr new ↦ ground (arith, regular.nested k b a new q)
              ])
      ]

  -- What the loop over the targets keeps: the targets from `k` on may still lack their ancestors.
  abbrev pub Climbing : ℕ → Bitset → ℕ → Bitset → Type 0
  Climbing i bits k r =
      (b a : ℕ)
      → b < n_states c
      → r b ≡ true
      → (state_at c b).ancestors a ≡ true
      → (r a ≡ true) ⊎ ((bits b ≡ true) × (k < suc b))

  climb_round :
      (i k : ℕ) (bits r : Bitset)
      → ((b : ℕ) → bits b ≡ true → i < b)
      → Climbing i bits k r
      → Climbing i bits (suc k) (if ltb i k && bits k then r ∪ (state_at c k).ancestors else r)
  climb_round i k bits r behind v = elim (Bool-cases (ltb i k && bits k)) [
    | inr passed ↦ rw passed (λ b a lt h q. elim (v b a lt h q) [
      | inl there ↦ inl there
      | inr (target, le) ↦ elim (Bool-cases (k == b)) [
        | inl same ↦ absurd (
            ground (
              arith,
              passed,
              behind b target,
              (==_iff k b).0 same,
              target,
              ap bits ((==_iff k b).0 same),
            ))
        | inr differs ↦ inr (target, ground (arith, le, differs))
      ]
    ])
    | inl taken ↦ rw taken (λ b a lt h q. elim (∪_cases r (state_at c k).ancestors b h) [
      | inr new ↦ inl (ground (arith, regular.nested k b a new q))
      | inl old ↦ elim (v b a lt old q) [
        | inl there ↦ inl (ground (arith, there))
        | inr (target, le) ↦ elim (Bool-cases (k == b)) [
          | inl same ↦
              inl (ground (arith, q, ap (λ n. (state_at c n).ancestors a) ((==_iff k b).0 same)))
          | inr differs ↦ inr (target, ground (arith, le, differs))
        ]
      ]
    ])
  ]

  pub add_all_ancestors-IsUpward :
      (i : ℕ) (bits e : Bitset)
      → ((b : ℕ) → bits b ≡ true → i < b)
      → Climbing i bits 0 e
      → IsUpward c (add_all_ancestors c i bits e)
  unfolding add_all_ancestors
  add_all_ancestors-IsUpward i bits e behind v b a lt h q =
      elim (upward_inv (Climbing i bits)
        (λ k r. if ltb i k && bits k then r ∪ (state_at c k).ancestors else r) (n_states c)
        (λ k r _ w. climb_round i k bits r behind w) e v b a lt h q) [
          | inl there ↦ there
          | inr (target, le) ↦ absurd (omega (arith, lt, le))
        ]
