-- ===== src/Base/Fields.antt =====
-- A word as a high field `q * 2 ^ k` and a low one `r < 2 ^ k`: the bitwise operations work on
-- each field alone.
use Prim.Native.Nat.{
  ℕ, zero, suc, ◌≤◌, min, max, differ, ◌+◌, ◌-◌, ◌*◌, ◌/◌, ◌%◌, ◌^◌, ◌<◌, bit_and, bit_or, bit_xor,
  bit_or-bitwise,
}
use mathlib.Core.Path.{◌≡◌, refl, ◌∙◌}
use native.Mathlib.Nat.{pow-suc, le_refl, one-le-pow, div-add-mod', mod-lt, mod-eq_of_lt}
use native.Mathlib.Omega.{arith}
use lasagne.Base.Tests.{◌==◌, if◌then◌else◌}
use lasagne.Base.Bits.{
  differ_digit, bit_and_step, bit_or_step, bit_xor_step, bit_and_mask, double_block,
}

abbrev word : ℕ → ℕ → ℕ → ℕ
word k q r = q * 2 ^ k + r

half_word : (k q r : ℕ) → (word (suc k) q r / 2 ≡ word k q (r / 2)) × (word (suc k) q r % 2 ≡ r % 2)
half_word k q r = omega (arith, double_block q k)

-- Stated once for an operation that works digit by digit.
module _ (op digit : ℕ → ℕ → ℕ)
    (step : (a b : ℕ) → op a b ≡ op (a / 2) (b / 2) * 2 + digit (a % 2) (b % 2))
    (nothing : op 0 0 ≡ 0) where
  op_fields :
      (k q p r s : ℕ)
      → r < 2 ^ k
      → s < 2 ^ k
      → op (q * 2 ^ k + r) (p * 2 ^ k + s) ≡ op q p * 2 ^ k + op r s
  op_fields zero q p zero zero hr hs =
      let e : q * 1 + 0 ≡ q = omega arith in
      let e' : p * 1 + 0 ≡ p = omega arith in rw (e, e', nothing) (omega arith)
  op_fields zero q p zero (suc s) hr hs = absurd (omega arith)
  op_fields zero q p (suc r) s hr hs = absurd (omega arith)
  op_fields (suc k) q p r s hr hs = ground (
    arith,
    step (word (suc k) q r) (word (suc k) p s),
    step r s,
    half_word k q r,
    half_word k p s,
    double_block (op q p) k,
    pow-suc 2 k,
    op_fields k q p (r / 2) (s / 2),
  )

pub bit_or_fields :
    (k q p r s : ℕ)
    → r < 2 ^ k
    → s < 2 ^ k
    → bit_or (q * 2 ^ k + r) (p * 2 ^ k + s) ≡ bit_or q p * 2 ^ k + bit_or r s
bit_or_fields = op_fields bit_or max (λ a b. omega (arith, bit_or_step a b)) refl

pub bit_and_fields :
    (k q p r s : ℕ)
    → r < 2 ^ k
    → s < 2 ^ k
    → bit_and (q * 2 ^ k + r) (p * 2 ^ k + s) ≡ bit_and q p * 2 ^ k + bit_and r s
bit_and_fields = op_fields bit_and min (λ a b. omega (arith, bit_and_step a b)) refl

pub bit_xor_fields :
    (k q p r s : ℕ)
    → r < 2 ^ k
    → s < 2 ^ k
    → bit_xor (q * 2 ^ k + r) (p * 2 ^ k + s) ≡ bit_xor q p * 2 ^ k + bit_xor r s
bit_xor_fields = op_fields bit_xor differ bit_xor_step refl

pub bit_and-zero_right : (a : ℕ) → bit_and a 0 ≡ 0
bit_and-zero_right a = bit_and_mask 0 a ∙ omega arith

pub bit_or-zero_right : (a : ℕ) → bit_or a 0 ≡ a
bit_or-zero_right a = go a a (le_refl a)
  where
    go : (n a : ℕ) → a ≤ n → bit_or a 0 ≡ a
    go n zero h = refl
    go zero (suc a) h = absurd (omega arith)
    go (suc n) (suc a) h = omega (arith, bit_or_step (suc a) 0, go n (suc a / 2) (omega arith))

pub bit_or-zero_left : (a : ℕ) → bit_or 0 a ≡ a
bit_or-zero_left a = simp bit_or-bitwise refl

pub bit_xor-zero_right : (a : ℕ) → bit_xor a 0 ≡ a
bit_xor-zero_right a = go a a (le_refl a)
  where
    go : (n a : ℕ) → a ≤ n → bit_xor a 0 ≡ a
    go n zero h = refl
    go zero (suc a) h = absurd (omega arith)
    go (suc n) (suc a) h = omega (
      arith,
      bit_xor_step (suc a) 0,
      differ_digit (suc a % 2) 0 (omega arith) (omega arith),
      go n (suc a / 2) (omega arith),
    )

-- `^ 1` exchanges an even number with the odd one behind it.
pub bit_xor-one : (a : ℕ) → bit_xor a 1 ≡ (if a % 2 == 0 then a + 1 else a - 1)
bit_xor-one a = ground (
  arith,
  bit_xor_step a 1,
  differ_digit (a % 2) 1 (omega arith) (omega arith),
  bit_xor-zero_right (a / 2),
)

-- Joining a low field to a high one is their sum, in either order.
pub bit_or-join : (k q r : ℕ) → r < 2 ^ k → bit_or (q * 2 ^ k) r ≡ q * 2 ^ k + r
bit_or-join k q r h =
    let e : q * 2 ^ k + 0 ≡ q * 2 ^ k = omega arith in
    let e' : 0 * 2 ^ k + r ≡ r = omega arith in
    let f = bit_or_fields k q 0 0 r (one-le-pow k 2 (omega arith)) h in
    cc (f, e, e', bit_or-zero_right q, bit_or-zero_left r)

pub bit_or-join_low : (k q r : ℕ) → r < 2 ^ k → bit_or r (q * 2 ^ k) ≡ q * 2 ^ k + r
bit_or-join_low k q r h =
    let e : q * 2 ^ k + 0 ≡ q * 2 ^ k = omega arith in
    let e' : 0 * 2 ^ k + r ≡ r = omega arith in
    let f = bit_or_fields k 0 q r 0 h (one-le-pow k 2 (omega arith)) in
    cc (f, e, e', bit_or-zero_left q, bit_or-zero_right r)

-- Clearing the low field, by a mask of `m` digits above it.
pub bit_and-high :
    (m k x : ℕ) → x / 2 ^ k < 2 ^ m → bit_and x ((2 ^ m - 1) * 2 ^ k) ≡ x / 2 ^ k * 2 ^ k
bit_and-high m k x h =
    let pos = one-le-pow k 2 (omega arith) in
    let e : (2 ^ m - 1) * 2 ^ k + 0 ≡ (2 ^ m - 1) * 2 ^ k = omega arith in
    let f = bit_and_fields k (x / 2 ^ k) (2 ^ m - 1) (x % 2 ^ k) 0 (mod-lt x pos) pos in
    let g : bit_and (x / 2 ^ k) (2 ^ m - 1) ≡ x / 2 ^ k =
      bit_and_mask m (x / 2 ^ k) ∙ mod-eq_of_lt h in
    ground (arith, f, e, g, div-add-mod' x (2 ^ k), bit_and-zero_right (x % 2 ^ k))
