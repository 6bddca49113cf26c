-- ===== src/Base/Bits.antt =====
-- The bit operations of C on fields: a mask is a remainder, and an `or` of two fields a sum.
use Prim.Native.Nat.{
  ℕ, zero, suc, ◌+◌, ◌*◌, ◌/◌, ◌%◌, ◌^◌, ◌-◌, ◌≤◌, ◌<◌, min, max, digits, bit_and, bit_or,
  bit_and-bitwise, bit_or-bitwise,
}
use mathlib.Core.Path.{◌≡◌, refl, sym, ap, ◌∙◌}
use native.Mathlib.Omega.{arith}
use native.Mathlib.Nat.{
  pow-suc, mul_assoc, mul_comm, mul-one, mod-lt, mod-one, mod-eq_of_lt, div-add-mod, one-le-pow,
  mul-add-mod_self_left,
}

-- An operation on the binary digits: `rest` is what is left of the second number where the first has
-- no more digits, `op` the operation on two of them.
module _ (rest : ℕ → ℕ) (op : ℕ → ℕ → ℕ) where
  at_end : (n b : ℕ) → digits rest op n 0 b ≡ rest b
  at_end zero b = refl
  at_end (suc n) b = refl

  -- Digits to spare change nothing.
  digits-more : (n more a b : ℕ) → a ≤ n → digits rest op (more + n) a b ≡ digits rest op n a b
  digits-more zero more zero b le = at_end (more + 0) b
  digits-more zero more (suc a) b le = absurd (omega arith)
  digits-more (suc n) more zero b le = at_end (more + suc n) b
  digits-more (suc n) more (suc a) b le =
      let one_more : more + suc n ≡ suc (more + n) = omega arith in
      ap (λ (k : ℕ). digits rest op k (suc a) b) one_more
      ∙ ap (λ (high : ℕ). high * 2 + op (suc a % 2) (b % 2))
          (digits-more n more (suc a / 2) (b / 2) (omega arith))

  -- The operation on all but the last digit of a number that is not 0 has digits enough.
  digits-half :
      (a b : ℕ)
      → digits rest op a (suc a / 2) (b / 2) ≡ digits rest op (suc a / 2) (suc a / 2) (b / 2)
  digits-half a b =
      let spare : a ≡ a - suc a / 2 + suc a / 2 = omega arith in
      ap (λ (n : ℕ). digits rest op n (suc a / 2) (b / 2)) spare
      ∙ digits-more (suc a / 2) (a - suc a / 2) (suc a / 2) (b / 2) (omega arith)

-- The last digit of an `or`.
or-last : (a b : ℕ) → bit_or a b ≡ bit_or (a / 2) (b / 2) * 2 + max (a % 2) (b % 2)
or-last zero b = rw (bit_or-bitwise 0 b, bit_or-bitwise 0 (b / 2)) (omega arith)
or-last (suc a) b =
    let high = digits-half (λ y. y) max a b in
    rw (bit_or-bitwise (suc a) b, bit_or-bitwise (suc a / 2) (b / 2)) (omega (arith, high))

-- The last digit of an `and`.
pub and-last : (a b : ℕ) → bit_and a b ≡ bit_and (a / 2) (b / 2) * 2 + min (a % 2) (b % 2)
and-last zero b = rw (bit_and-bitwise 0 b, bit_and-bitwise 0 (b / 2)) (omega arith)
and-last (suc a) b =
    let high = digits-half (λ y. 0) min a b in
    rw (bit_and-bitwise (suc a) b, bit_and-bitwise (suc a / 2) (b / 2)) (omega (arith, high))

-- No digit of 0 changes the other number, or is left in it.
or_digits : (n a : ℕ) → a ≤ n → digits (λ y. y) max n a 0 ≡ a
or_digits zero a le = omega arith
or_digits (suc n) zero le = refl
or_digits (suc n) (suc a) le = omega (arith, or_digits n (suc a / 2) (omega arith))

and_digits : (n a : ℕ) → digits (λ y. 0) min n a 0 ≡ 0
and_digits zero a = refl
and_digits (suc n) zero = refl
and_digits (suc n) (suc a) = omega (arith, and_digits n (suc a / 2))

-- The low `k` bits are free for another field.
pub or-field : (k a b : ℕ) → b < 2 ^ k → bit_or (a * 2 ^ k) b ≡ a * 2 ^ k + b
or-field zero a b h =
    let z : b ≡ 0 = omega arith in
    rw (z, mul-one a, bit_or-bitwise a 0 ∙ or_digits a a (omega arith)) (omega arith)
or-field (suc k) a b h =
    let p = 2 ^ k in
    let small : b / 2 < p = omega (arith, pow-suc 2 k) in
    let e : a * 2 ^ suc k ≡ a * p * 2 = rw (pow-suc 2 k) (sym (mul_assoc a p 2)) in
    let half : a * p * 2 / 2 ≡ a * p = omega arith in
    let step : bit_or (a * p * 2) b ≡ bit_or (a * p) (b / 2) * 2 + max (a * p * 2 % 2) (b % 2) =
      rw half at (or-last (a * p * 2) b) in
    rw e (omega (arith, step, or-field k a (b / 2) small))

mod_digit : (p a : ℕ) → 0 < p → a % (p * 2) ≡ a / 2 % p * 2 + a % 2
mod_digit p a h =
    let q = a / 2 / p in
    let r = a / 2 % p in
    let lt : r < p = mod-lt (a / 2) h in
    let whole : a ≡ p * 2 * q + (r * 2 + a % 2) =
      omega (arith, div-add-mod (a / 2) p, mul_assoc p 2 q, mul_comm 2 q, mul_assoc p q 2) in
    ap (λ (n : ℕ). n % (p * 2)) whole
    ∙ mul-add-mod_self_left (p * 2) q (r * 2 + a % 2)
    ∙ mod-eq_of_lt (omega arith)

-- A mask of `k` ones.
pub and-mask : (k a : ℕ) → bit_and a (2 ^ k - 1) ≡ a % 2 ^ k
and-mask zero a = bit_and-bitwise a 0 ∙ and_digits a a ∙ sym (mod-one a)
and-mask (suc k) a =
    let p = 2 ^ k in
    let one : 1 ≤ p = one-le-pow k 2 (omega arith) in
    let half : (p * 2 - 1) / 2 ≡ p - 1 = omega arith in
    let step : bit_and a (p * 2 - 1) ≡ bit_and (a / 2) (p - 1) * 2 + min (a % 2) ((p * 2 - 1) % 2) =
      rw half at (and-last a (p * 2 - 1)) in
    rw (pow-suc 2 k) (omega (arith, step, and-mask k (a / 2), mod_digit p a one))
