-- ===== src/Util/Bitmap.antt =====
-- kernel/include/util/bitmap.h: single bits of a byte buffer. A buffer is the list of its bytes,
-- a bit's number is not negative, and each store narrows an `int` to `uint8_t`.
pub mod Laws
use lasagne.Base.{ℕ, ◌+◌, ◌-◌, ◌/◌, ◌%◌, ◌^◌, bit_and, bit_or, bit_xor, List, get_or, set}

-- `buffer[index]`; a read past the end, which C leaves undefined, is 0 here, and a store is lost.
abbrev pub byte_at : List ℕ → ℕ → ℕ
byte_at buffer index = get_or buffer index 0

unfoldable pub flip_bit : List ℕ → ℕ → List ℕ
flip_bit buffer n =
    let index = n / 8 in
    let offset = n % 8 in set buffer index (bit_xor (byte_at buffer index) (2 ^ offset) % 2 ^ 8)

unfoldable pub get_bit : List ℕ → ℕ → ℕ
get_bit buffer n =
    let index = n / 8 in let offset = n % 8 in bit_and (byte_at buffer index / 2 ^ offset) 1

pub set_bit : List ℕ → ℕ → List ℕ
set_bit buffer n =
    let index = n / 8 in
    let offset = n % 8 in set buffer index (bit_or (byte_at buffer index) (2 ^ offset) % 2 ^ 8)

-- The low byte of `~(1 << offset)` is `255 - 2 ^ offset`; the byte that it is joined to has no
-- higher digits.
pub reset_bit : List ℕ → ℕ → List ℕ
reset_bit buffer n =
    let index = n / 8 in
    let offset = n % 8 in
    set buffer index (bit_and (byte_at buffer index) (2 ^ 8 - 1 - 2 ^ offset) % 2 ^ 8)
