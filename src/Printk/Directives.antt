-- ===== src/Printk/Directives.antt =====
-- What each directive of kernel/core/printk.c prints.
use lasagne.Base.{ℕ, ◌-◌, ◌%◌, ◌^◌, ◌<◌, List, [], ◌∷◌, ltb, if◌then◌else◌}
use lasagne.Printk.{Arg, num, str, print_ulong, print_hex}

-- A directive with its argument: a number's 32-bit or 64-bit pattern, or a string.
pub data Written : Type 0 where
  int_number long_number unsigned_int unsigned_long hex_int hex_long : ℕ → Written
  string : List ℕ → Written
  percent_sign : Written

-- The directive behind its `%`.
abbrev pub spelled : Written → List ℕ
spelled (int_number w) = b'd' ∷ []
spelled (long_number w) = b'l' ∷ b'd' ∷ []
spelled (unsigned_int w) = b'u' ∷ []
spelled (unsigned_long w) = b'l' ∷ b'u' ∷ []
spelled (hex_int w) = b'x' ∷ []
spelled (hex_long w) = b'l' ∷ b'x' ∷ []
spelled (string s) = b's' ∷ []
spelled percent_sign = b'%' ∷ []

abbrev pub given : Written → List Arg
given (int_number w) = num w ∷ []
given (long_number w) = num w ∷ []
given (unsigned_int w) = num w ∷ []
given (unsigned_long w) = num w ∷ []
given (hex_int w) = num w ∷ []
given (hex_long w) = num w ∷ []
given (string s) = str s ∷ []
given percent_sign = []

-- A number in two's complement of so many bits, in decimal digits.
abbrev pub signed_digits : (bits w : ℕ) → List ℕ
signed_digits bits w =
    if ltb w (2 ^ (bits - 1)) then print_ulong w else b'-' ∷ print_ulong (2 ^ bits - w)

abbrev pub shown : Written → List ℕ
shown (int_number w) = signed_digits 32 (w % 2 ^ 32)
shown (long_number w) = signed_digits 64 (w % 2 ^ 64)
shown (unsigned_int w) = print_ulong (w % 2 ^ 32)
shown (unsigned_long w) = print_ulong w
shown (hex_int w) = print_hex (w % 2 ^ 32) 8
shown (hex_long w) = print_hex w 16
shown (string s) = s
shown percent_sign = b'%' ∷ []

-- The argument of a directive for a signed `long` is a 64-bit pattern.
abbrev pub Fits : Written → Type 0
Fits (long_number w) = w < 2 ^ 64
Fits k = Unit {0}
