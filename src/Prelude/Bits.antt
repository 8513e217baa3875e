-- ===== src/Prelude/Bits.antt =====
-- The bitwise or of numbers that share no bit, and the fields of a word.
use Prim.Native.Nat.{
  ℕ, zero, suc, ◌+◌, ◌*◌, ◌/◌, ◌%◌, ◌^◌, ◌≤◌, ◌<◌, max, bit_or, digits, bit_or-bitwise,
}
use mathlib.Core.Path.{◌≡◌, refl, sym, ◌∙◌}
use native.Mathlib.Nat.{
  mul-one, add-zero, add-suc, add-mul-div_right, div-eq_of_lt, mod-eq_of_lt, mul_assoc, pow-suc,
  zero-add, add-mul-mod_self_right,
}
use native.Mathlib.Omega.{arith}

abbrev or_digits : ℕ → ℕ → ℕ → ℕ
or_digits n a b = digits (λ b. b) max n a b

or_digits_fuel : (n m a b : ℕ) → a ≤ n → a ≤ m → or_digits n a b ≡ or_digits m a b
or_digits_fuel zero zero a b p q = refl
or_digits_fuel zero (suc m) zero b p q = refl
or_digits_fuel zero (suc m) (suc a) b p q = absurd (omega arith)
or_digits_fuel (suc n) zero zero b p q = refl
or_digits_fuel (suc n) zero (suc a) b p q = absurd (omega arith)
or_digits_fuel (suc n) (suc m) zero b p q = refl
or_digits_fuel (suc n) (suc m) (suc a) b p q =
    omega (arith, or_digits_fuel n m (suc a / 2) (b / 2) (omega arith) (omega arith))

pub zero-bit_or : (b : ℕ) → bit_or 0 b ≡ b
zero-bit_or b = bit_or-bitwise 0 b

pub bit_or_step : (a b : ℕ) → bit_or a b ≡ bit_or (a / 2) (b / 2) * 2 + max (a % 2) (b % 2)
bit_or_step zero b = omega (arith, zero-bit_or b, zero-bit_or (b / 2))
bit_or_step (suc a) b = omega (
  arith,
  bit_or-bitwise (suc a) b,
  bit_or-bitwise (suc a / 2) (b / 2),
  or_digits_fuel a (suc a / 2) (suc a / 2) (b / 2) (omega arith) (omega arith),
)

pub bit_or-shifted : (k a b : ℕ) → a < 2 ^ k → bit_or a (b * 2 ^ k) ≡ a + b * 2 ^ k
bit_or-shifted zero a b lt =
    let none : a ≡ 0 = omega (arith, lt) in
    rw (none, zero-add (b * 2 ^ 0)) (zero-bit_or (b * 2 ^ 0))
bit_or-shifted (suc k) a b lt =
    let double : b * 2 ^ suc k ≡ b * 2 ^ k * 2 = rw (pow-suc 2 k) (sym (mul_assoc b (2 ^ k) 2)) in
    let rest = bit_or-shifted k (a / 2) b (omega (arith, lt)) in
    let half : b * 2 ^ suc k / 2 ≡ b * 2 ^ k = omega (arith, double) in
    let step : bit_or a (b * 2 ^ suc k)
        ≡ (a / 2 + b * 2 ^ k) * 2 + max (a % 2) (b * 2 ^ suc k % 2) =
      bit_or_step a (b * 2 ^ suc k) ∙ rw (half, rest) refl in
    omega (arith, step, double)

-- A field of a word: what is above it, and what is below it.
module _ (p q : ℕ) (p_pos : 0 < p) (q_pos : 0 < q) where
  pub field_here : (low v : ℕ) → low < p → v < q → (low + v * p) / p % q ≡ v
  field_here low v l h =
      let cut = add-mul-div_right low v p_pos in
      let none = div-eq_of_lt l in rw (cut, none, zero-add v) (mod-eq_of_lt h)

  pub field_below : (word m : ℕ) → (word + m * q * p) / p % q ≡ word / p % q
  field_below word m =
      rw (add-mul-div_right word (m * q) p_pos) (add-mul-mod_self_right (word / p) m q)

pub two_pow-add : (a b : ℕ) → 2 ^ (a + b) ≡ 2 ^ a * 2 ^ b
two_pow-add a zero = rw (add-zero a) (sym (mul-one (2 ^ a)))
two_pow-add a (suc b) =
    rw (add-suc a b, pow-suc 2 (a + b), two_pow-add a b, pow-suc 2 b) (mul_assoc (2 ^ a) (2 ^ b) 2)
