-- ===== src/Util/Bitmap/Laws.antt =====
-- What the bitmap helpers of kernel/include/util/bitmap.h do to the bit that they name, and to
-- every other bit of the buffer.
use lasagne.Base.{
  ℕ, zero, suc, ◌-◌, ◌/◌, ◌%◌, ◌^◌, ◌≤◌, ◌<◌, ◌≡◌, refl, inl, inr, arith, Bool, true, false, ◌==◌,
  if◌then◌else◌, Bool-cases, ==→eq, bit, List, length, set, length-set, get_or-set_self,
  get_or-set_ne, bit-bit_and, bit-bit_or, bit-bit_xor, bit-pow, bit_and_mask, bit_and, bit_or,
  bit_xor,
}
use lasagne.Util.Bitmap.{byte_at, flip_bit, get_bit, set_bit, reset_bit}

-- The narrowing to a byte keeps the eight lowest digits.
bit-byte : (k x : ℕ) → k < 8 → bit (x % 2 ^ 8) k ≡ bit x k
bit-byte zero x h = omega arith
bit-byte (suc zero) x h = omega arith
bit-byte (suc (suc zero)) x h = omega arith
bit-byte (suc (suc (suc zero))) x h = omega arith
bit-byte (suc (suc (suc (suc zero)))) x h = omega arith
bit-byte (suc (suc (suc (suc (suc zero))))) x h = omega arith
bit-byte (suc (suc (suc (suc (suc (suc zero)))))) x h = omega arith
bit-byte (suc (suc (suc (suc (suc (suc (suc zero))))))) x h = omega arith
bit-byte (suc (suc (suc (suc (suc (suc (suc (suc k)))))))) x h = absurd (omega arith)

every : (test : ℕ → Bool) → (bound : ℕ) → Bool
every test zero = true
every test (suc last) = if test last then every test last else false

every-at : (test : ℕ → Bool) (bound k : ℕ) → k < bound → every test bound ≡ true → test k ≡ true
unfolding every
every-at test zero k l e = absurd (omega arith)
every-at test (suc last) k l e = ground (arith, every-at test last k)

abbrev mask_digit : ℕ → ℕ → Bool
mask_digit o k = bit (2 ^ 8 - 1 - 2 ^ o) k == (if o == k then 0 else 1)

mask_table : every (λ o. every (mask_digit o) 8) 8 ≡ true
unfolding every
mask_table = refl

-- The mask of `reset_bit` has every digit but one.
bit-mask : (o k : ℕ) → o < 8 → k < 8 → bit (2 ^ 8 - 1 - 2 ^ o) k ≡ (if o == k then 0 else 1)
bit-mask o k ho hk =
    let row = every-at (λ w. every (mask_digit w) 8) 8 o ho mask_table in
    ==→eq _ _ (every-at (mask_digit o) 8 k hk row)

get_bit-bit : (buffer : List ℕ) (n : ℕ) → get_bit buffer n ≡ bit (byte_at buffer (n / 8)) (n % 8)
unfolding get_bit
get_bit-bit buffer n = omega (arith, bit_and_mask 1 (byte_at buffer (n / 8) / 2 ^ (n % 8)))

-- A store that changes one digit of a byte changes one bit of the buffer.
module _ (op : ℕ → ℕ → ℕ) (change : ℕ → ℕ)
    (digit : (x o k : ℕ)
      → o < 8
      → k < 8
      → bit (op x o % 2 ^ 8) k ≡ (if o == k then change (bit x k) else bit x k)) where
  abbrev store : List ℕ → ℕ → List ℕ
  store buffer i = set buffer (i / 8) (op (byte_at buffer (i / 8)) (i % 8) % 2 ^ 8)

  get_bit-store :
      (buffer : List ℕ) (i j : ℕ)
      → i / 8 < length buffer
      → get_bit (store buffer i) j
        ≡ (if i == j then change (get_bit buffer j) else get_bit buffer j)
  get_bit-store buffer i j h = elim (Bool-cases (i / 8 == j / 8)) [
    | inl e ↦ ground (
      arith,
      get_bit-bit (store buffer i) j,
      get_bit-bit buffer j,
      get_or-set_self buffer (i / 8) (op (byte_at buffer (i / 8)) (i % 8) % 2 ^ 8) 0,
      digit (byte_at buffer (i / 8)) (i % 8) (j % 8),
    )
    | inr e ↦ ground (
      arith,
      get_bit-bit (store buffer i) j,
      get_bit-bit buffer j,
      get_or-set_ne buffer (i / 8) (j / 8) (op (byte_at buffer (i / 8)) (i % 8) % 2 ^ 8) 0,
    )
  ]

digit-flip :
    (x o k : ℕ)
    → o < 8
    → k < 8
    → bit (bit_xor x (2 ^ o) % 2 ^ 8) k ≡ (if o == k then 1 - bit x k else bit x k)
digit-flip x o k ho hk =
    ground (arith, bit-byte k (bit_xor x (2 ^ o)), bit-bit_xor k x (2 ^ o), bit-pow o k)

digit-set :
    (x o k : ℕ) → o < 8 → k < 8 → bit (bit_or x (2 ^ o) % 2 ^ 8) k ≡ (if o == k then 1 else bit x k)
digit-set x o k ho hk =
    ground (arith, bit-byte k (bit_or x (2 ^ o)), bit-bit_or k x (2 ^ o), bit-pow o k)

digit-reset :
    (x o k : ℕ)
    → o < 8
    → k < 8
    → bit (bit_and x (2 ^ 8 - 1 - 2 ^ o) % 2 ^ 8) k ≡ (if o == k then 0 else bit x k)
digit-reset x o k ho hk = ground (
  arith,
  bit-byte k (bit_and x (2 ^ 8 - 1 - 2 ^ o)),
  bit-bit_and k x (2 ^ 8 - 1 - 2 ^ o),
  bit-mask o k,
)

-- `flip_bit` inverts the bit that it names, which must lie in the buffer, and leaves every other
-- bit of the buffer.
get_bit-flip_bit :
    (buffer : List ℕ) (i j : ℕ)
    → i / 8 < length buffer
    → get_bit (flip_bit buffer i) j ≡ (if i == j then 1 - get_bit buffer j else get_bit buffer j)
unfolding flip_bit
get_bit-flip_bit = get_bit-store (λ x o. bit_xor x (2 ^ o)) (λ x. 1 - x) digit-flip

-- `set_bit` makes the bit that it names 1, which must lie in the buffer, and leaves every other
-- bit of the buffer.
get_bit-set_bit :
    (buffer : List ℕ) (i j : ℕ)
    → i / 8 < length buffer
    → get_bit (set_bit buffer i) j ≡ (if i == j then 1 else get_bit buffer j)
unfolding set_bit
get_bit-set_bit = get_bit-store (λ x o. bit_or x (2 ^ o)) (λ x. 1) digit-set

-- `reset_bit` makes the bit that it names 0, which must lie in the buffer, and leaves every other
-- bit of the buffer.
get_bit-reset_bit :
    (buffer : List ℕ) (i j : ℕ)
    → i / 8 < length buffer
    → get_bit (reset_bit buffer i) j ≡ (if i == j then 0 else get_bit buffer j)
unfolding reset_bit
get_bit-reset_bit = get_bit-store (λ x o. bit_and x (2 ^ 8 - 1 - 2 ^ o)) (λ x. 0) digit-reset

-- A bit that is read is 0 or 1.
pub get_bit-le : (buffer : List ℕ) (n : ℕ) → get_bit buffer n ≤ 1
get_bit-le buffer n = omega (arith, get_bit-bit buffer n)

pub length-flip_bit : (buffer : List ℕ) (n : ℕ) → length (flip_bit buffer n) ≡ length buffer
unfolding flip_bit
length-flip_bit buffer n = length-set buffer (n / 8) _

pub length-set_bit : (buffer : List ℕ) (n : ℕ) → length (set_bit buffer n) ≡ length buffer
unfolding set_bit
length-set_bit buffer n = length-set buffer (n / 8) _

pub length-reset_bit : (buffer : List ℕ) (n : ℕ) → length (reset_bit buffer n) ≡ length buffer
unfolding reset_bit
length-reset_bit buffer n = length-set buffer (n / 8) _

-- A bit of the buffer after a change of the bit `i`, which must lie in the buffer: `flip_bit` inverts that bit, `set_bit`
-- makes it 1 and `reset_bit` makes it 0, and each leaves every other bit as it was.
pub changed_bits :
    (buffer : List ℕ) (i j : ℕ)
    → i / 8 < length buffer
    → (get_bit (flip_bit buffer i) j ≡ (if i == j then 1 - get_bit buffer j else get_bit buffer j))
      × (get_bit (set_bit buffer i) j ≡ (if i == j then 1 else get_bit buffer j))
      × (get_bit (reset_bit buffer i) j ≡ (if i == j then 0 else get_bit buffer j))
changed_bits buffer i j h =
    (get_bit-flip_bit buffer i j h, get_bit-set_bit buffer i j h, get_bit-reset_bit buffer i j h)
