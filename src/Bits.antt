-- ===== src/Bits.antt =====
-- Sets of small numbers: `boost::dynamic_bitset` in src/uscxml/interpreter/FastMicroStep.cpp, with the
-- macros of its lines 31 to 36. A set is its characteristic function; what asks for a size
-- (`any`, `intersects`, `count`, comparison) is given the size of the vector.
use uscxml.Prelude.{
  ℕ, zero, suc, ◌+◌, ◌<◌, ◌≡◌, ◌==◌, Bool, true, false, not, ◌&&◌, ◌||◌, xor, if◌then◌else◌, arith,
  any_below, any_below_intro, List, [], ◌∷◌, ◌⊎◌, inl, inr, Bool-cases, ==_iff,
}

abbrev pub Bitset : Type 0
Bitset = ℕ → Bool

-- `bitset(n, false)`, and `reset()`
abbrev pub no_bits : Bitset
no_bits i = false

-- `BIT_SET_AT`
abbrev pub set_at : ℕ → Bitset → Bitset
set_at i b j = if j == i then true else b j

-- `BIT_CLEAR`
abbrev pub clear_at : ℕ → Bitset → Bitset
clear_at i b j = if j == i then false else b j

infixl 36 ◌∩◌ ◌∖◌
infixl 34 ◌∪◌
abbrev pub ◌∪◌ : Bitset → Bitset → Bitset
◌∪◌ a b i = a i || b i

abbrev pub ◌∩◌ : Bitset → Bitset → Bitset
◌∩◌ a b i = a i && b i

-- `a &= ~b`
abbrev pub ◌∖◌ : Bitset → Bitset → Bitset
◌∖◌ a b i = a i && not (b i)

-- `a ^= b`
abbrev pub sym_diff : Bitset → Bitset → Bitset
sym_diff a b i = xor (a i) (b i)

-- `a.any()`, and `BIT_HAS_AND`
abbrev pub any_set : ℕ → Bitset → Bool
any_set n a = any_below n a

abbrev pub intersects : ℕ → Bitset → Bitset → Bool
intersects n a b = any_below n (a ∩ b)

unfoldable pub count : ℕ → Bitset → ℕ
count zero b = 0
count (suc n) b = (if b n then 1 else 0) + count n b

abbrev bool_eq : Bool → Bool → Bool
bool_eq true b = b
bool_eq false b = not b

-- `a == b`
unfoldable pub bits_eq : ℕ → Bitset → Bitset → Bool
bits_eq zero a b = true
bits_eq (suc n) a b = bool_eq (a n) (b n) && bits_eq n a b

-- `find(b) != end()`
unfoldable pub member : ℕ → Bitset → List Bitset → Bool
member n b [] = false
member n b (c ∷ cs) = bits_eq n c b || member n b cs

pub bits_eq_at : (n : ℕ) (a b : Bitset) (i : ℕ) → bits_eq n a b ≡ true → i < n → a i ≡ b i
unfolding bits_eq
bits_eq_at zero a b i h lt = absurd (omega arith)
bits_eq_at (suc n) a b i h lt = ground (arith, bits_eq_at n a b i)

pub count_pos : (n : ℕ) (b : Bitset) (i : ℕ) → i < n → b i ≡ true → 0 < count n b
unfolding count
count_pos zero b i lt h = absurd (omega arith)
count_pos (suc n) b i lt h = ground (arith, count_pos n b i)

pub count_zero : (n : ℕ) (b : Bitset) (i : ℕ) → count n b ≡ 0 → i < n → b i ≡ false
unfolding count
count_zero zero b i h lt = absurd (omega arith)
count_zero (suc n) b i h lt = ground (arith, count_zero n b i)

pub intersects_intro :
    (n : ℕ) (a b : Bitset) (i : ℕ) → i < n → a i ≡ true → b i ≡ true → intersects n a b ≡ true
intersects_intro n a b i lt h k = any_below_intro n (a ∩ b) i lt (ground arith)

pub set_at_cases : (i : ℕ) (b : Bitset) (j : ℕ) → set_at i b j ≡ true → (j ≡ i) ⊎ (b j ≡ true)
set_at_cases i b j h = elim (Bool-cases (j == i)) [
  | inl same ↦ inl ((==_iff j i).0 same)
  | inr other ↦ inr (ground arith)
]

pub set_at_self : (i : ℕ) (b : Bitset) → set_at i b i ≡ true
set_at_self i b = ground arith

pub set_at_keeps : (i : ℕ) (b : Bitset) (j : ℕ) → b j ≡ true → set_at i b j ≡ true
set_at_keeps i b j h = ground arith

pub ∪_cases : (a b : Bitset) (i : ℕ) → (a ∪ b) i ≡ true → (a i ≡ true) ⊎ (b i ≡ true)
∪_cases a b i h = elim (Bool-cases (a i)) [ inl e ↦ inl e | inr e ↦ inr (ground arith) ]
