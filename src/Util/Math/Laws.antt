-- ===== src/Util/Math/Laws.antt =====
-- `ceil_to_power_of_two` and `log2` of kernel/include/util/math.h against powers of two.
use native.Mathlib.Nat.{pow-suc, one-le-pow, pow-le-pow_right}
use lasagne.Base.{
  ℕ, zero, suc, ◌/◌, ◌^◌, ◌≤◌, ◌<◌, ◌≡◌, ◌≢◌, refl, ap, arith, Bool-cases, ltb, ltb→lt,
  ltb_false→le, ==_false→ne, ==→eq, inl, inr, none, some, ◌==◌,
}
use lasagne.Util.Math.{count_trailing, highest, ceil_to_power_of_two, log2}

-- The highest digit brackets a positive number between two powers of two.
highest_bounds :
    (fuel x : ℕ)
    → 0 < x
    → x < 2 ^ fuel
    → (2 ^ highest fuel x ≤ x) × (x < 2 ^ suc (highest fuel x)) × (highest fuel x < fuel)
unfolding highest
highest_bounds zero x p h = absurd (omega arith)
highest_bounds (suc fuel) x p h = ground (
  arith,
  highest_bounds fuel (x / 2),
  pow-suc 2 fuel,
  pow-suc 2 (highest fuel (x / 2)),
  pow-suc 2 (suc (highest fuel (x / 2))),
)

-- Where trailing zeros reach the highest digit, the number is a power of two.
eq-pow-highest :
    (fuel x : ℕ)
    → 0 < x
    → x < 2 ^ fuel
    → count_trailing fuel x ≡ highest fuel x
    → x ≡ 2 ^ highest fuel x
unfolding count_trailing highest
eq-pow-highest zero x p h e = absurd (omega arith)
eq-pow-highest (suc fuel) x p h e =
    ground (arith, eq-pow-highest fuel (x / 2), pow-suc 2 fuel, pow-suc 2 (highest fuel (x / 2)))

pow_both : (fuel k : ℕ) → k < fuel → (count_trailing fuel (2 ^ k) ≡ k) × (highest fuel (2 ^ k) ≡ k)
unfolding count_trailing highest
pow_both zero k h = absurd (omega arith)
pow_both (suc fuel) zero h = (refl, refl)
pow_both (suc fuel) (suc k) h =
    let half : 2 ^ suc k / 2 ≡ 2 ^ k = omega (arith, pow-suc 2 k) in
    ground (arith, half, pow-suc 2 k, pow_both fuel k, one-le-pow k 2)

below_pow : (j k x : ℕ) → 2 ^ k ≤ x → x < 2 ^ j → k < j
below_pow j k x p q = elim (Bool-cases (ltb k j)) [
  | inl e ↦ ltb→lt k j e
  | inr e ↦ absurd (omega (arith, pow-le-pow_right {n = 2} (omega arith) (ltb_false→le k j e)))
]

-- A number that is no power of two lies above `2 ^ k` only if its highest digit does.
highest-lt_of_le :
    (n j : ℕ)
    → 0 < n
    → n < 2 ^ 64
    → count_trailing 64 n ≢ highest 64 n
    → n ≤ 2 ^ j
    → highest 64 n < j
highest-lt_of_le n j p h ne le = elim (Bool-cases (n == 2 ^ j)) [
  | inl e ↦ absurd (ground (arith, pow_both 64 j, below_pow 64 j n))
  | inr e ↦ below_pow j (highest 64 n) n (highest_bounds 64 n p h).0 (ground arith)
]

-- `ceil_to_power_of_two` of a positive number up to `2 ^ 30` is the least power of two that is
-- not below it.
pub ceil_to_power_of_two_lem :
    (n : ℕ)
    → 0 < n
    → n ≤ 2 ^ 30
    → (k : ℕ) × (ceil_to_power_of_two n ≡ some (2 ^ k))
      × (n ≤ 2 ^ k)
      × ((j : ℕ) → n ≤ 2 ^ j → k ≤ j)
unfolding ceil_to_power_of_two
ceil_to_power_of_two_lem n p h =
    let small : n < 2 ^ 64 = omega arith in
    let (lo, hi, fits) = highest_bounds 64 n p small in
    elim (Bool-cases (count_trailing 64 n == highest 64 n)) [
      | inl e ↦ (
        highest 64 n,
        ground (arith, below_pow 31 (highest 64 n) n),
        omega (arith, eq-pow-highest 64 n p small (==→eq _ _ e)),
        λ j le. omega (
          arith,
          below_pow (suc j) (highest 64 n) n lo (omega (arith, pow-suc 2 j, one-le-pow j 2)),
        ),
      )
      | inr e ↦ (
        suc (highest 64 n),
        ground (arith, highest-lt_of_le n 30),
        omega arith,
        λ j le. highest-lt_of_le n j p small (==_false→ne _ _ e) le,
      )
    ]

-- From `2 ^ 30 + 1` to `2 ^ 64 - 1`, `ceil_to_power_of_two` has no defined result: the `int` that
-- it shifts overflows.
pub ceil_to_power_of_two_overflow :
    (n : ℕ) → 2 ^ 30 < n → n < 2 ^ 64 → ceil_to_power_of_two n ≡ none
unfolding ceil_to_power_of_two
ceil_to_power_of_two_overflow n p h =
    let (lo, hi, fits) = highest_bounds 64 n (omega arith) h in
    let high : 29 < highest 64 n = omega (arith, below_pow (suc (highest 64 n)) 30 n) in
    elim (Bool-cases (count_trailing 64 n == highest 64 n)) [
      | inl e ↦ ground (arith, eq-pow-highest 64 n, exact (highest 64 n))
      | inr e ↦ ground arith
    ]
  where
    exact : (k : ℕ) → 2 ^ 30 < 2 ^ k → k ≢ 30
    exact k lt e = omega (arith, ap (λ (t : ℕ). 2 ^ t) e)

-- On a power of two below `2 ^ 64`, `log2` is the exponent.
pub log2-pow : (k : ℕ) → k < 64 → log2 (2 ^ k) ≡ some k
unfolding log2
log2-pow k h = ground (arith, pow_both 64 k, one-le-pow k 2)

-- A power of two that fits is left as it is.
pub ceil_to_power_of_two-pow : (k : ℕ) → k ≤ 30 → ceil_to_power_of_two (2 ^ k) ≡ some (2 ^ k)
unfolding ceil_to_power_of_two
ceil_to_power_of_two-pow k h = ground (arith, pow_both 64 k, one-le-pow k 2)
