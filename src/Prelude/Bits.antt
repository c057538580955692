-- ===== src/Prelude/Bits.antt =====
-- Binary digits of native numbers, at every width: `bit a k` is digit `k` of `a`.
use Prim.Native.Nat.{
  ℕ, zero, suc, ◌+◌, ◌-◌, ◌*◌, ◌/◌, ◌%◌, ◌^◌, ◌≤◌, ◌<◌, min, max, differ, digits, bitwise, bit_and,
  bit_or, bit_xor, bit_and-bitwise, bit_or-bitwise, bit_xor-bitwise,
}
use mathlib.Core.Path.{◌≡◌, refl, ap, ◌∙◌}
use mathlib.Core.Logic.{◌≢◌}
use native.Mathlib.Nat.{pow-suc, one-le-pow, le_refl}
use native.Mathlib.Decide.{ℕ_discrete}
use native.Mathlib.Omega.{arith}
use operating_system_pl_nt.Prelude.Tests.{◌==◌, if◌then◌else◌}

unfoldable pub bit : ℕ → ℕ → ℕ
bit a zero = a % 2
bit a (suc k) = bit (a / 2) k

pub bit-le-one : (k a : ℕ) → bit a k ≤ 1
unfolding bit
bit-le-one zero a = omega arith
bit-le-one (suc k) a = bit-le-one k (a / 2)

-- A digitwise operation by its lowest digit.
module _ (z : ℕ → ℕ) (f : ℕ → ℕ → ℕ) (low : (b : ℕ) → z b ≡ z (b / 2) * 2 + f 0 (b % 2)) where
  -- Fuel that is at least `a` gives the number itself, for each `a` up to `top`.
  enough_digits : (top fuel a b : ℕ) → a ≤ top → a ≤ fuel → digits z f fuel a b ≡ bitwise z f a b
  enough_digits top zero zero b below fuelled = refl
  enough_digits top zero (suc a) b below fuelled = absurd (omega arith)
  enough_digits top (suc fuel) zero b below fuelled = refl
  enough_digits zero (suc fuel) (suc a) b below fuelled = absurd (omega arith)
  enough_digits (suc top) (suc fuel) (suc a) b below fuelled =
      let half : ℕ = suc a / 2 in
      omega (
        arith,
        enough_digits top fuel half (b / 2) (omega arith) (omega arith),
        enough_digits top a half (b / 2) (omega arith) (omega arith),
      )

  bitwise_step : (a b : ℕ) → bitwise z f a b ≡ bitwise z f (a / 2) (b / 2) * 2 + f (a % 2) (b % 2)
  bitwise_step zero b = low b
  bitwise_step (suc a) b =
      omega (arith, enough_digits a a (suc a / 2) (b / 2) (omega arith) (omega arith))

  module _ (small : (x y : ℕ) → x ≤ 1 → y ≤ 1 → f x y ≤ 1) where
    bit-bitwise : (k a b : ℕ) → bit (bitwise z f a b) k ≡ f (bit a k) (bit b k)
    unfolding bit
    bit-bitwise zero a b =
        omega (arith, bitwise_step a b, small (a % 2) (b % 2) (omega arith) (omega arith))
    bit-bitwise (suc k) a b =
        let half : bitwise z f a b / 2 ≡ bitwise z f (a / 2) (b / 2) =
          omega (arith, bitwise_step a b, small (a % 2) (b % 2) (omega arith) (omega arith)) in
        ap (λ n. bit n k) half ∙ bit-bitwise k (a / 2) (b / 2)

pub bit-bit_and : (k a b : ℕ) → bit (bit_and a b) k ≡ min (bit a k) (bit b k)
bit-bit_and k a b =
    ap (λ n. bit n k) (bit_and-bitwise a b)
    ∙ bit-bitwise (λ b. zero) min (λ b. omega arith) (λ x y p q. omega arith) k a b

and_below : (top a b : ℕ) → a ≤ top → bitwise (λ b. zero) min a b ≤ b
and_below zero zero b h = omega arith
and_below zero (suc a) b h = absurd (omega arith)
and_below (suc top) zero b h = omega arith
and_below (suc top) (suc a) b h = omega (
  arith,
  bitwise_step (λ b. zero) min (λ b. omega arith) (suc a) b,
  and_below top (suc a / 2) (b / 2) (omega arith),
)

pub bit_and-below : (a b : ℕ) → bit_and a b ≤ b
bit_and-below a b = omega (arith, bit_and-bitwise a b, and_below a a b (omega arith))

pub bit-bit_or : (k a b : ℕ) → bit (bit_or a b) k ≡ max (bit a k) (bit b k)
bit-bit_or k a b =
    ap (λ n. bit n k) (bit_or-bitwise a b)
    ∙ bit-bitwise (λ b. b) max (λ b. omega arith) (λ x y p q. omega arith) k a b

differ-le : (x y : ℕ) → x ≤ 1 → y ≤ 1 → differ x y ≤ 1
differ-le zero y p q = q
differ-le (suc x) zero p q = p
differ-le (suc x) (suc y) p q = differ-le x y (omega arith) (omega arith)

differ_zero : (x : ℕ) → differ x 0 ≡ x
differ_zero zero = refl
differ_zero (suc x) = refl

differ_one : (x : ℕ) → x ≤ 1 → differ x 1 ≡ 1 - x
differ_one zero h = refl
differ_one (suc zero) h = refl
differ_one (suc (suc x)) h = absurd (omega arith)

pub bit-bit_xor : (k a b : ℕ) → bit (bit_xor a b) k ≡ differ (bit a k) (bit b k)
bit-bit_xor k a b =
    ap (λ n. bit n k) (bit_xor-bitwise a b)
    ∙ bit-bitwise (λ b. b) differ (λ b. omega arith) differ-le k a b

zero-bit : (k : ℕ) → bit 0 k ≡ 0
unfolding bit
zero-bit zero = refl
zero-bit (suc k) = zero-bit k

-- `1 << k`
pub bit-pow : (k j : ℕ) → bit (2 ^ k) j ≡ (if k == j then 1 else 0)
unfolding bit
bit-pow zero zero = refl
bit-pow zero (suc j) = ground (arith, zero-bit j)
bit-pow (suc k) zero = ground (arith, pow-suc 2 k)
bit-pow (suc k) (suc j) =
    let half : 2 ^ suc k / 2 ≡ 2 ^ k = omega (arith, pow-suc 2 k) in
    ap (λ n. bit n j) half ∙ ground (arith, bit-pow k j)

-- `~m` in a word of `n` digits
pub bit-complement : (n j m : ℕ) → j < n → m < 2 ^ n → bit (2 ^ n - 1 - m) j ≡ 1 - bit m j
unfolding bit
bit-complement zero j m h k = absurd (omega arith)
bit-complement (suc n) zero m h k = omega (arith, pow-suc 2 n, one-le-pow n 2)
bit-complement (suc n) (suc j) m h k =
    let half : (2 ^ suc n - 1 - m) / 2 ≡ 2 ^ n - 1 - m / 2 = omega (arith, pow-suc 2 n) in
    ap (λ n. bit n j) half ∙ bit-complement n j (m / 2) (omega arith) (omega (arith, pow-suc 2 n))

eq-zero_of_bits : (n a : ℕ) → a ≤ n → ((k : ℕ) → bit a k ≡ 0) → a ≡ 0
unfolding bit
eq-zero_of_bits zero a h all = omega arith
eq-zero_of_bits (suc n) zero h all = refl
eq-zero_of_bits (suc n) (suc a) h all =
    let rest : suc a / 2 ≡ 0 = eq-zero_of_bits n (suc a / 2) (omega arith) (λ k. all (suc k)) in
    omega (arith, all 0)

-- `a & (1 << k)` is nonzero exactly where digit `k` is 1.
pub bit_and-pow : (a k : ℕ) → (bit_and a (2 ^ k) == 0) ≡ (bit a k == 0)
bit_and-pow a k = elim (ℕ_discrete (bit a k) 0) [
  | yes off ↦
      let none_left : bit_and a (2 ^ k) ≡ 0 =
        eq-zero_of_bits _ _ (le_refl (bit_and a (2 ^ k)))
          (λ j. ground (arith, bit-bit_and j a (2 ^ k), bit-pow k j)) in
      ground arith
  | no on ↦
      let left : bit_and a (2 ^ k) ≢ 0 = λ e. on (
        ground (
          arith,
          ap (λ n. bit n k) e,
          zero-bit k,
          bit-bit_and k a (2 ^ k),
          bit-pow k k,
          bit-le-one k a,
        )) in
      ground arith
]

pub pow_lt : (k n : ℕ) → k < n → 2 ^ k < 2 ^ n
pow_lt k zero h = absurd (omega arith)
pow_lt zero (suc n) h = omega (arith, pow-suc 2 n, one-le-pow n 2)
pow_lt (suc k) (suc n) h = omega (arith, pow-suc 2 n, pow-suc 2 k, pow_lt k n (omega arith))

-- One digit set, cleared or flipped.
pub bit-mark : (a k j : ℕ) → bit (bit_or a (2 ^ k)) j ≡ (if k == j then 1 else bit a j)
bit-mark a k j = ground (arith, bit-bit_or j a (2 ^ k), bit-pow k j, bit-le-one j a)

pub bit-reset :
    (n a k j : ℕ)
    → k < n
    → j < n
    → bit (bit_and a (2 ^ n - 1 - 2 ^ k)) j ≡ (if k == j then 0 else bit a j)
bit-reset n a k j h i = ground (
  arith,
  bit-bit_and j a (2 ^ n - 1 - 2 ^ k),
  bit-complement n j (2 ^ k) i (pow_lt k n h),
  bit-pow k j,
  bit-le-one j a,
)

pub bit-flip : (a k j : ℕ) → bit (bit_xor a (2 ^ k)) j ≡ (if k == j then 1 - bit a j else bit a j)
bit-flip a k j = ground (
  arith,
  bit-bit_xor j a (2 ^ k),
  bit-pow k j,
  differ_one (bit a j) (bit-le-one j a),
  differ_zero (bit a j),
)
