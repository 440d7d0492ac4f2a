-- ===== src/Prelude/Loops.antt =====
-- Counted loops. The last round is the outermost call, so an invariant needs no offset.
use Prim.Native.Nat.{ℕ, zero, suc, ◌<◌}
use mathlib.Core.Path.{◌≡◌}
use mathlib.Core.Logic.{inl, inr}
use mathlib.Core.Bool.{Bool, true, false, ◌||◌}
use mathlib.Core.Option.{Option, none, some}
use native.Mathlib.Omega.{arith}
use uscxml.Prelude.Tests.{if◌then◌else◌, Bool-cases}

-- `for (i = 0; i < n; i++) s = body(i, s);`
unfoldable pub upward {ℓ} : {S : Type ℓ} → ℕ → (ℕ → S → S) → S → S
upward zero body s = s
upward (suc n) body s = body n (upward n body s)

-- `i = n; while (i-- > 0) s = body(i, s);`
unfoldable pub downward {ℓ} : {S : Type ℓ} → ℕ → (ℕ → S → S) → S → S
downward zero body s = s
downward (suc n) body s = downward n body (body n s)

module _ {ℓ κ} {S : Type ℓ} (P : ℕ → S → Type κ) (body : ℕ → S → S) where
  -- What holds at the start and is carried on by every round holds at the end.
  pub upward_inv :
      (n : ℕ)
      → ((i : ℕ) (s : S) → i < n → P i s → P (suc i) (body i s))
      → (s : S) → P 0 s
      → P n (upward n body s)
  unfolding upward
  upward_inv zero keep s h = h
  upward_inv (suc n) keep s h =
      keep n _ (omega arith) (upward_inv n (λ i t lt p. keep i t (omega arith) p) s h)

  pub downward_inv :
      (n : ℕ)
      → ((i : ℕ) (s : S) → i < n → P (suc i) s → P i (body i s))
      → (s : S) → P n s
      → P 0 (downward n body s)
  unfolding downward
  downward_inv zero keep s h = h
  downward_inv (suc n) keep s h =
      downward_inv n (λ i t lt p. keep i t (omega arith) p) (body n s) (keep n s (omega arith) h)

-- The first index below `n` that passes the test: `for (j = 0; j < n; j++) if (p(j)) { …; break; }`.
unfoldable pub first_below : ℕ → (ℕ → Bool) → Option ℕ
first_below zero p = none
first_below (suc n) p = elim (first_below n p) [
  | some j ↦ some j
  | none ↦ if p n then some n else none
]

-- Is there an index below `n` that passes the test?
unfoldable pub any_below : ℕ → (ℕ → Bool) → Bool
any_below zero p = false
any_below (suc n) p = p n || any_below n p

pub any_below_intro : (n : ℕ) (p : ℕ → Bool) (i : ℕ) → i < n → p i ≡ true → any_below n p ≡ true
unfolding any_below
any_below_intro zero p i lt h = absurd (omega arith)
any_below_intro (suc n) p i lt h = ground (arith, any_below_intro n p i)

pub any_below_witness :
    (n : ℕ) (p : ℕ → Bool) → any_below n p ≡ true → (i : ℕ) × (i < n) × (p i ≡ true)
unfolding any_below
any_below_witness zero p h = absurd (ground arith)
any_below_witness (suc n) p h = elim (Bool-cases (p n)) [
  | inl e ↦ (n, omega arith, e)
  | inr e ↦ let (i, lt, q) = any_below_witness n p (ground arith) in (i, omega arith, q)
]

pub first_below_found :
    (n : ℕ) (p : ℕ → Bool) {j : ℕ} → first_below n p ≡ some j → (j < n) × (p j ≡ true)
unfolding first_below
first_below_found zero p h = absurd (ground arith)
first_below_found (suc n) p {j} h = ground (arith, first_below_found n p {j = j})
