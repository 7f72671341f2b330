-- ===== src/Util/Math.antt =====
-- kernel/include/util/math.h: powers of two. A `long` argument is not negative here.
-- `__builtin_ctzl` and `__builtin_clzl` are the compiler's; both are undefined at 0, which is
-- `none`, and so is `1 << b` where the `int` 1 is shifted past bit 30.
pub mod Laws
use lasagne.Base.{
  ℕ, zero, suc, ◌+◌, ◌-◌, ◌/◌, ◌%◌, ◌^◌, Option, none, some, ◌==◌, leb, if◌then◌else◌,
}

-- Trailing zeros of a number below `2 ^ fuel`.
unfoldable pub count_trailing : ℕ → ℕ → ℕ
count_trailing zero x = 0
count_trailing (suc fuel) x =
    let rest = suc (count_trailing fuel (x / 2)) in if x % 2 == 1 then 0 else rest

-- The position of the highest digit of a number below `2 ^ fuel`.
unfoldable pub highest : ℕ → ℕ → ℕ
highest zero x = 0
highest (suc fuel) x = let rest = suc (highest fuel (x / 2)) in if x / 2 == 0 then 0 else rest

unfoldable pub ctzl : ℕ → Option ℕ
ctzl x = if x == 0 then none else some (count_trailing 64 x)

unfoldable pub clzl : ℕ → Option ℕ
clzl x = if x == 0 then none else some (63 - highest 64 x)

-- `1 << b` on `int`.
unfoldable pub shift_one : ℕ → Option ℕ
shift_one b = if leb b 30 then some (2 ^ b) else none

infixl 5 ◌>>=◌
abbrev pub ◌>>=◌ {ℓ κ} : {A : Type ℓ} {B : Type κ} → Option A → (A → Option B) → Option B
none >>= f = none
some a >>= f = f a

unfoldable pub ceil_to_power_of_two : ℕ → Option ℕ
unfolding ctzl clzl shift_one
ceil_to_power_of_two number = do
  a ← ctzl number
  z ← clzl number
  let b = 63 - z
  shift_one (if a == b then b else b + 1)

unfoldable pub log2 : ℕ → Option ℕ
unfolding ctzl
log2 number = ctzl number
