-- ===== src/Printk/Numbers.antt =====
-- The numbers that kernel/core/printk.c prints, read back.
use mathlib.Core.List.{reverse, reverse-append}
use native.Mathlib.Nat.{pow-suc}
use lasagne.Base.{
  ℕ, zero, suc, ◌+◌, ◌-◌, ◌*◌, ◌/◌, ◌%◌, ◌^◌, ◌≤◌, ◌<◌, ◌≡◌, refl, ◌∙◌, ap, inl, inr, arith, true,
  false, List, [], ◌∷◌, ◌++◌, ◌==◌, leb, if◌then◌else◌, length, Bool-cases, length-append,
}
use lasagne.Printk.{
  decimal_digits, str_size, print_ulong, print_long, hex_char, hex_digits, hex_chars, print_hex,
}

-- A text read as a number in the base, by the values of its characters.
abbrev pub read : (base : ℕ) → (value : ℕ → ℕ) → ℕ → List ℕ → ℕ
read base value acc [] = acc
read base value acc (c ∷ cs) = read base value (acc * base + value c) cs

-- The value of digits, lowest first.
abbrev total : (base : ℕ) → (value : ℕ → ℕ) → List ℕ → ℕ
total base value [] = 0
total base value (c ∷ cs) = value c + base * total base value cs

module _ (base : ℕ) (value : ℕ → ℕ) where
  read-append :
      (acc : ℕ) (xs ys : List ℕ)
      → read base value acc (xs ++ ys) ≡ read base value (read base value acc xs) ys
  read-append acc [] ys = refl
  read-append acc (x ∷ xs) ys = read-append (acc * base + value x) xs ys

  read-reverse : (xs : List ℕ) → read base value 0 (reverse xs) ≡ total base value xs
  read-reverse [] = refl
  read-reverse (x ∷ xs) =
      ap (read base value 0) (reverse-append (x ∷ []) xs)
      ∙ read-append 0 (reverse xs) (x ∷ [])
      ∙ omega (arith, ap (λ (t : ℕ). t * base) (read-reverse xs))

-- The value of a decimal digit, and of a hexadecimal one in capitals.
abbrev pub decimal : ℕ → ℕ
decimal c = c - b'0'

abbrev pub hexadecimal : ℕ → ℕ
hexadecimal c = if leb c b'9' then c - b'0' else c - b'A' + 10

abbrev pub AllDecimal : List ℕ → Type 0
AllDecimal [] = Unit {0}
AllDecimal (c ∷ cs) = (b'0' ≤ c) × (c ≤ b'9') × AllDecimal cs

AllDecimal-append : (xs ys : List ℕ) → AllDecimal xs → AllDecimal ys → AllDecimal (xs ++ ys)
AllDecimal-append [] ys h k = k
AllDecimal-append (x ∷ xs) ys h k = (h.0, h.1, AllDecimal-append xs ys h.2 k)

AllDecimal-reverse : (xs : List ℕ) → AllDecimal xs → AllDecimal (reverse xs)
AllDecimal-reverse [] h = h
AllDecimal-reverse (x ∷ xs) h =
    rw (reverse-append (x ∷ []) xs)
      (AllDecimal-append (reverse xs) (x ∷ []) (AllDecimal-reverse xs h.2) (h.0, h.1, tt))

length-reverse : (xs : List ℕ) → length (reverse xs) ≡ length xs
length-reverse [] = refl
length-reverse (x ∷ xs) =
    rw (reverse-append (x ∷ []) xs)
      (omega (arith, length-append (reverse xs) (x ∷ []), length-reverse xs))

decimal_digits_lem :
    (fuel n : ℕ)
    → n < 10 ^ fuel
    → (total 10 decimal (decimal_digits fuel n) ≡ n)
      × AllDecimal (decimal_digits fuel n)
      × (length (decimal_digits fuel n) ≤ fuel)
unfolding decimal_digits
decimal_digits_lem zero n h = (omega arith, tt, omega arith)
decimal_digits_lem (suc fuel) n h = elim (Bool-cases (n == 0)) [
  | inl z ↦ rw z (ground arith, tt, omega arith)
  | inr p ↦
      let (v, d, l) = decimal_digits_lem fuel (n / 10) (omega (arith, pow-suc 10 fuel)) in
      rw p (omega (arith, v), (omega arith, omega arith, d), omega (arith, l))
]

-- The digits do not depend on the fuel, once it is enough.
decimal_digits_fuel : (m k n : ℕ) → n < 10 ^ m → m ≤ k → decimal_digits k n ≡ decimal_digits m n
unfolding decimal_digits
decimal_digits_fuel zero zero n h le = refl
decimal_digits_fuel zero (suc k) n h le = let z : (n == 0) ≡ true = ground arith in rw z refl
decimal_digits_fuel (suc m) zero n h le = absurd (omega arith)
decimal_digits_fuel (suc m) (suc k) n h le =
    rw (decimal_digits_fuel m k (n / 10) (omega (arith, pow-suc 10 m)) (omega arith)) refl

-- `print_ulong` prints an `unsigned long` in decimal digits: they read back as the number, and what is stored in
-- `str` takes at most 20 of its 25 places.
pub print_ulong_lem :
    (n : ℕ)
    → n < 2 ^ 64
    → (read 10 decimal 0 (print_ulong n) ≡ n)
      × AllDecimal (print_ulong n)
      × (length (decimal_digits str_size n) ≤ 20)
unfolding print_ulong
print_ulong_lem zero h =
    unfold decimal_digits in (refl, (omega arith, omega arith, tt), omega arith)
print_ulong_lem (suc n) h =
    let p : (suc n == 0) ≡ false = ground arith in
    let (v, d, l) = decimal_digits_lem str_size (suc n) (omega arith) in
    let (_, _, short) = decimal_digits_lem 20 (suc n) (omega arith) in
    let same = decimal_digits_fuel 20 str_size (suc n) (omega arith) (omega arith) in
    rw p (
      read-reverse 10 decimal (decimal_digits str_size (suc n)) ∙ v,
      AllDecimal-reverse _ d,
      rw same short,
    )

-- `print_long` prints the digits of a number that is not negative. Before those of the absolute value
-- of a negative one it prints a minus.
pub print_long_lem :
    (n : ℕ)
    → (n < 2 ^ 63 → (print_long n ≡ print_ulong n) × (read 10 decimal 0 (print_long n) ≡ n))
      × (2 ^ 63 ≤ n
          → n < 2 ^ 64
          → (digits : List ℕ) × (print_long n ≡ b'-' ∷ digits)
            × AllDecimal digits
            × (read 10 decimal 0 digits + n ≡ 2 ^ 64))
unfolding print_long
print_long_lem n = (
  λ h.
      let e : leb (2 ^ 63) n ≡ false = ground arith in
      rw e (refl, (print_ulong_lem n (omega arith)).0),
  λ h k.
      let e : leb (2 ^ 63) n ≡ true = ground arith in
      let (v, d, _) = print_ulong_lem ((2 ^ 64 - n) % 2 ^ 64) (omega arith) in
      (print_ulong ((2 ^ 64 - n) % 2 ^ 64), rw e refl, d, omega (arith, v)),
)

hex_digits_lem :
    (len n : ℕ)
    → n < 16 ^ len
    → (total 16 hexadecimal (hex_chars (hex_digits len n)) ≡ n) × (length (hex_digits len n) ≡ len)
unfolding hex_digits hex_chars hex_char
hex_digits_lem zero n h = (omega arith, refl)
hex_digits_lem (suc len) n h =
    let (v, l) = hex_digits_lem len (n / 16) (omega (arith, pow-suc 16 len)) in
    let digit : hexadecimal (hex_char (n % 16)) ≡ n % 16 = ground arith in
    (omega (arith, v, digit), omega (arith, l))

hex_chars-append : (xs ys : List ℕ) → hex_chars (xs ++ ys) ≡ hex_chars xs ++ hex_chars ys
unfolding hex_chars
hex_chars-append [] ys = refl
hex_chars-append (x ∷ xs) ys = ap (λ (t : List ℕ). hex_char x ∷ t) (hex_chars-append xs ys)

hex_chars-reverse : (xs : List ℕ) → hex_chars (reverse xs) ≡ reverse (hex_chars xs)
unfolding hex_chars
hex_chars-reverse [] = refl
hex_chars-reverse (x ∷ xs) =
    rw
      (
        reverse-append (x ∷ []) xs,
        reverse-append (hex_char x ∷ []) (hex_chars xs),
        hex_chars-append (reverse xs) (x ∷ []),
        hex_chars-reverse xs,
      )
      refl

length-hex_chars : (xs : List ℕ) → length (hex_chars xs) ≡ length xs
unfolding hex_chars
length-hex_chars [] = refl
length-hex_chars (x ∷ xs) = omega (arith, length-hex_chars xs)

-- `print_hex` prints "0x" and then `len` digits, leading zeros included, which read back in base 16
-- as the number, if it is below `16 ^ len`.
pub print_hex_lem :
    (n len : ℕ)
    → n < 16 ^ len
    → (digits : List ℕ) × (print_hex n len ≡ b'0' ∷ b'x' ∷ digits)
      × (length digits ≡ len)
      × (read 16 hexadecimal 0 digits ≡ n)
unfolding print_hex
print_hex_lem n len h =
    let (v, l) = hex_digits_lem len n h in
    let text = hex_chars (hex_digits len n) in
    (
      hex_chars (reverse (hex_digits len n)),
      refl,
      length-hex_chars (reverse (hex_digits len n)) ∙ length-reverse (hex_digits len n) ∙ l,
      ap (read 16 hexadecimal 0) (hex_chars-reverse (hex_digits len n))
          ∙ read-reverse 16 hexadecimal text
          ∙ v,
    )
