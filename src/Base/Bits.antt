-- ===== src/Base/Bits.antt =====
-- Binary digits of a word, and what the bitwise operations do to each of them, at every width.
use Prim.Native.Nat.{ℕ, zero, suc, ◌+◌, ◌-◌, ◌*◌, ◌/◌, ◌%◌, ◌^◌, ◌≤◌, ◌<◌, min, max}
use Prim.Native.Nat.{bit_and, bit_or, bit_xor, digits, bitwise, differ}
use Prim.Native.Nat.{bit_and-bitwise, bit_or-bitwise, bit_xor-bitwise}
use mathlib.Core.Path.{◌≡◌, refl, ap, ◌∙◌, sym}
use native.Mathlib.Nat.{le_refl, pow-suc, pow-succ', pow-le-pow_right}
use native.Mathlib.Nat.{div-add-mod', one-le-pow, div-div-eq-div-mul, div-eq_of_lt}
use native.Mathlib.Omega.{arith}
use lasagne.Base.Tests.{◌==◌, if◌then◌else◌}

-- Digit `k` of `x`, from the lowest, which is digit 0.
abbrev pub bit : ℕ → ℕ → ℕ
bit x k = x / 2 ^ k % 2

module _ (z : ℕ → ℕ) (f : ℕ → ℕ → ℕ) where
  fuel_irrelevant : (n m a b : ℕ) → a ≤ n → a ≤ m → digits z f n a b ≡ digits z f m a b
  fuel_irrelevant n zero zero b p q = go n
    where
      go : (n : ℕ) → digits z f n 0 b ≡ z b
      go zero = refl
      go (suc n) = refl
  fuel_irrelevant n zero (suc a) b p q = absurd (omega arith)
  fuel_irrelevant zero (suc m) zero b p q = refl
  fuel_irrelevant zero (suc m) (suc a) b p q = absurd (omega arith)
  fuel_irrelevant (suc n) (suc m) zero b p q = refl
  fuel_irrelevant (suc n) (suc m) (suc a) b p q =
      rw (fuel_irrelevant n m (suc a / 2) (b / 2) (omega arith) (omega arith))

  lowest_digit :
      (x y : ℕ)
      → bitwise z f (suc x) y ≡ f (suc x % 2) (y % 2) + 2 * bitwise z f (suc x / 2) (y / 2)
  lowest_digit x y =
      let half = suc x / 2 in
      omega (arith, fuel_irrelevant x half half (y / 2) (omega arith) (omega arith))

pub bit_xor_step : (a b : ℕ) → bit_xor a b ≡ bit_xor (a / 2) (b / 2) * 2 + differ (a % 2) (b % 2)
bit_xor_step zero b = simp bit_xor-bitwise (omega arith)
bit_xor_step (suc a) b =
    let e = lowest_digit (λ d. d) differ a b in simp bit_xor-bitwise (omega (arith, e))

pub bit_or_step : (x y : ℕ) → bit_or x y ≡ max (x % 2) (y % 2) + 2 * bit_or (x / 2) (y / 2)
bit_or_step zero y = simp bit_or-bitwise (omega arith)
bit_or_step (suc x) y =
    let e = lowest_digit (λ d. d) max x y in simp bit_or-bitwise (omega (arith, e))

pub bit_and_step : (x y : ℕ) → bit_and x y ≡ min (x % 2) (y % 2) + 2 * bit_and (x / 2) (y / 2)
bit_and_step zero y = simp bit_and-bitwise (omega arith)
bit_and_step (suc x) y =
    let e = lowest_digit (λ d. 0) min x y in simp bit_and-bitwise (omega (arith, e))

pub differ_digit : (a b : ℕ) → a < 2 → b < 2 → differ a b ≡ (a + b) % 2
differ_digit zero zero p q = refl
differ_digit zero (suc zero) p q = refl
differ_digit zero (suc (suc b)) p q = absurd (omega arith)
differ_digit (suc zero) zero p q = refl
differ_digit (suc zero) (suc zero) p q = refl
differ_digit (suc zero) (suc (suc b)) p q = absurd (omega arith)
differ_digit (suc (suc a)) b p q = absurd (omega arith)

pub bit-suc : (x k : ℕ) → bit x (suc k) ≡ bit (x / 2) k
bit-suc x k = rw (pow-succ' 2 k, ← div-div-eq-div-mul x 2 (2 ^ k)) refl

pub bit_zero : (x : ℕ) → bit x 0 ≡ x % 2
bit_zero x = omega arith

-- Each digit of `^`, `|` and `&` is that of the two digits.
pub bit-bit_xor : (k a b : ℕ) → bit (bit_xor a b) k ≡ (bit a k + bit b k) % 2
bit-bit_xor zero a b =
    omega (arith, bit_xor_step a b, differ_digit (a % 2) (b % 2) (omega arith) (omega arith))
bit-bit_xor (suc k) a b =
    rw (bit-suc (bit_xor a b) k, bit-suc a k, bit-suc b k)
      (ap (λ x. bit x k) half ∙ bit-bit_xor k (a / 2) (b / 2))
  where
    half : bit_xor a b / 2 ≡ bit_xor (a / 2) (b / 2)
    half = omega (arith, bit_xor_step a b, differ_digit (a % 2) (b % 2) (omega arith) (omega arith))

pub bit-bit_or : (k a b : ℕ) → bit (bit_or a b) k ≡ max (bit a k) (bit b k)
bit-bit_or zero a b = omega (arith, bit_or_step a b)
bit-bit_or (suc k) a b =
    rw (bit-suc (bit_or a b) k, bit-suc a k, bit-suc b k)
      (ap (λ x. bit x k) half ∙ bit-bit_or k (a / 2) (b / 2))
  where
    half : bit_or a b / 2 ≡ bit_or (a / 2) (b / 2)
    half = omega (arith, bit_or_step a b)

pub bit-bit_and : (k a b : ℕ) → bit (bit_and a b) k ≡ min (bit a k) (bit b k)
bit-bit_and zero a b = omega (arith, bit_and_step a b)
bit-bit_and (suc k) a b =
    rw (bit-suc (bit_and a b) k, bit-suc a k, bit-suc b k)
      (ap (λ x. bit x k) half ∙ bit-bit_and k (a / 2) (b / 2))
  where
    half : bit_and a b / 2 ≡ bit_and (a / 2) (b / 2)
    half = omega (arith, bit_and_step a b)

bit-zero : (k : ℕ) → bit 0 k ≡ 0
bit-zero zero = refl
bit-zero (suc k) = bit-suc 0 k ∙ bit-zero k

-- A power of two has one digit that is set.
pub bit-pow : (n k : ℕ) → bit (2 ^ n) k ≡ (if n == k then 1 else 0)
bit-pow zero zero = refl
bit-pow zero (suc k) = ground (arith, bit-suc 1 k, bit-zero k)
bit-pow (suc n) zero = ground (arith, pow-suc 2 n)
bit-pow (suc n) (suc k) = ground (arith, bit-suc (2 ^ suc n) k, half, bit-pow n k)
  where
    half : 2 ^ suc n / 2 ≡ 2 ^ n
    half = omega (arith, pow-suc 2 n)

-- A number below `2 ^ n` has no digit from `n` on.
pub bit-lt : (n x k : ℕ) → x < 2 ^ n → n ≤ k → bit x k ≡ 0
bit-lt n x k h le =
    ap (λ y. y % 2) (div-eq_of_lt (omega (arith, pow-le-pow_right {n = 2} (omega arith) le)))

-- Words below `2 ^ n` are equal when their first `n` digits are.
pub bits_ext : (n x y : ℕ) → x < 2 ^ n → y < 2 ^ n → ((k : ℕ) → k < n → bit x k ≡ bit y k) → x ≡ y
bits_ext zero x y p q h = omega arith
bits_ext (suc n) x y p q h = omega (
  arith,
  h 0 (omega arith),
  bits_ext n (x / 2) (y / 2) (omega (arith, pow-suc 2 n)) (omega (arith, pow-suc 2 n)) rest,
)
  where
    rest : (k : ℕ) → k < n → bit (x / 2) k ≡ bit (y / 2) k
    rest k l = sym (bit-suc x k) ∙ h (suc k) (omega arith) ∙ bit-suc y k

-- The three operations keep a width.
pub bit_or-lt : (n a b : ℕ) → a < 2 ^ n → b < 2 ^ n → bit_or a b < 2 ^ n
bit_or-lt zero zero zero p q = omega arith
bit_or-lt zero zero (suc b) p q = absurd (omega arith)
bit_or-lt zero (suc a) b p q = absurd (omega arith)
bit_or-lt (suc n) a b p q = omega (
  arith,
  bit_or_step a b,
  pow-suc 2 n,
  bit_or-lt n (a / 2) (b / 2) (omega (arith, pow-suc 2 n)) (omega (arith, pow-suc 2 n)),
)

pub bit_xor-lt : (n a b : ℕ) → a < 2 ^ n → b < 2 ^ n → bit_xor a b < 2 ^ n
bit_xor-lt zero zero zero p q = omega arith
bit_xor-lt zero zero (suc b) p q = absurd (omega arith)
bit_xor-lt zero (suc a) b p q = absurd (omega arith)
bit_xor-lt (suc n) a b p q = omega (
  arith,
  bit_xor_step a b,
  pow-suc 2 n,
  differ_digit (a % 2) (b % 2) (omega arith) (omega arith),
  bit_xor-lt n (a / 2) (b / 2) (omega (arith, pow-suc 2 n)) (omega (arith, pow-suc 2 n)),
)

pub bit_and-le : (n a b : ℕ) → a ≤ n → bit_and a b ≤ a
bit_and-le n zero b p = simp bit_and-bitwise (omega arith)
bit_and-le zero (suc a) b p = absurd (omega arith)
bit_and-le (suc n) (suc a) b p =
    omega (arith, bit_and_step (suc a) b, bit_and-le n (suc a / 2) (b / 2) (omega arith))

bit_and-zero : (n a : ℕ) → a ≤ n → bit_and a 0 ≡ 0
bit_and-zero n zero p = refl
bit_and-zero zero (suc a) p = absurd (omega arith)
bit_and-zero (suc n) (suc a) p =
    omega (arith, bit_and_step (suc a) 0, bit_and-zero n (suc a / 2) (omega arith))

pub double_block : (q k : ℕ) → q * 2 ^ suc k ≡ 2 * (q * 2 ^ k)
double_block q k = omega (arith, ap (λ (t : ℕ). q * t) (pow-suc 2 k))

masked_fields : (k q r : ℕ) → r < 2 ^ k → bit_and (q * 2 ^ k + r) (2 ^ k - 1) ≡ r
masked_fields zero q r h = omega (arith, bit_and-zero (q * 1 + r) (q * 1 + r) (le_refl _))
masked_fields (suc k) q r h = ground (
  arith,
  bit_and_step (q * 2 ^ suc k + r) (2 ^ suc k - 1),
  double_block q k,
  pow-suc 2 k,
  masked_fields k q (r / 2) (omega (arith, pow-suc 2 k)),
)

-- A mask of `k` low digits is the remainder by `2 ^ k`.
pub bit_and_mask : (k a : ℕ) → bit_and a (2 ^ k - 1) ≡ a % 2 ^ k
bit_and_mask k a =
    ground (arith, one-le-pow k 2, masked_fields k (a / 2 ^ k) (a % 2 ^ k), div-add-mod' a (2 ^ k))
