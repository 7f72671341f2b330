-- ===== src/Irq/Exception/Flags.antt =====
-- kernel/arch/x64/irq.c: the flags register as it is printed for an exception.

use lasagne.Base.{
  ℕ, zero, suc, ◌+◌, ◌-◌, ◌*◌, ◌/◌, ◌%◌, ◌^◌, ◌<◌, ◌≡◌, refl, inl, inr, arith, false, none, some,
  List, [], ◌∷◌, ◌++◌, map, get_or, ◌==◌, if◌then◌else◌, Bool-cases,
}
use lasagne.Printk.{
  num, codes, printk, format, directive, print_directive, print_long, print_ulong, decimal_digits,
}
use lasagne.Irq.Exception.{has_bit, flag_name, print_flag, print_flags}

-- A name as the processor's manual has it, in small letters for a flag that is 0 and in capitals for one that is 1.
abbrev pub shown : (rflags position : ℕ) → List ℕ → List ℕ
shown rflags position name =
    (if has_bit rflags position then map (λ c. c - 32) name else name) ++ b' ' ∷ []

abbrev pub listing : (rflags : ℕ) → List (ℕ × List ℕ) → List ℕ → List ℕ
listing rflags [] rest = rest
listing rflags ((position, name) ∷ names) rest =
    shown rflags position name ++ listing rflags names rest

-- The flags of the processor above and below the I/O privilege level, by their positions.
abbrev pub high_flags : List (ℕ × List ℕ)
high_flags =
    (21, codes "id")
    ∷ (20, codes "vip")
    ∷ (19, codes "vif")
    ∷ (18, codes "ac")
    ∷ (17, codes "vm")
    ∷ (16, codes "rf")
    ∷ (14, codes "nt")
    ∷ []

abbrev pub low_flags : List (ℕ × List ℕ)
low_flags =
    (11, codes "of")
    ∷ (10, codes "df")
    ∷ (9, codes "if")
    ∷ (8, codes "tf")
    ∷ (7, codes "sf")
    ∷ (6, codes "zf")
    ∷ (4, codes "af")
    ∷ (2, codes "pf")
    ∷ (0, codes "cf")
    ∷ []

-- The digit of the I/O privilege level, bits 12 and 13.
abbrev pub privilege : ℕ → ℕ
privilege rflags = b'0' + rflags / 2 ^ 12 % 4

abbrev pub flags_text : ℕ → List ℕ
flags_text rflags =
    listing rflags high_flags
      (codes "IOPL=" ++ privilege rflags ∷ b' ' ∷ listing rflags low_flags [])

-- A round at the position of a flag.
named_round :
    (rflags i : ℕ) (name : List ℕ)
    → (i == 12) ≡ false
    → get_or flag_name (2 * i) none ≡ some name
    → get_or flag_name (2 * i + 1) none ≡ some (map (λ c. c - 32) name)
    → print_flag rflags i ≡ some (shown rflags i name)
unfolding print_flag printk format directive print_directive
named_round rflags i name e lower upper = elim (Bool-cases (has_bit rflags i)) [
  | inl set ↦ rw (print_flag, set, e, upper) refl
  | inr clear ↦ let q : 2 * i + 0 ≡ 2 * i = omega arith in rw (print_flag, clear, e, q, lower) refl
]

-- A round at a reserved position.
reserved_round :
    (rflags i : ℕ)
    → (i == 12) ≡ false
    → get_or flag_name (2 * i) none ≡ none
    → get_or flag_name (2 * i + 1) none ≡ none
    → print_flag rflags i ≡ some []
unfolding print_flag
reserved_round rflags i e lower upper = elim (Bool-cases (has_bit rflags i)) [
  | inl set ↦ rw (print_flag, set, e, upper) refl
  | inr clear ↦ let q : 2 * i + 0 ≡ 2 * i = omega arith in rw (print_flag, clear, e, q, lower) refl
]

digit :
    (v : ℕ)
    → v < 4
    → printk (codes "IOPL=%d ") (num v ∷ []) ≡ some (codes "IOPL=" ++ (b'0' + v) ∷ b' ' ∷ [])
unfolding printk format directive print_directive print_long print_ulong decimal_digits
digit zero h = refl
digit (suc zero) h = refl
digit (suc (suc zero)) h = refl
digit (suc (suc (suc zero))) h = refl
digit (suc (suc (suc (suc v)))) h = absurd (omega arith)

privilege_round :
    (rflags : ℕ) → print_flag rflags 12 ≡ some (codes "IOPL=" ++ privilege rflags ∷ b' ' ∷ [])
unfolding print_flag
privilege_round rflags =
    let e : rflags / 2 ^ 12 % 2 ^ 32 % 4 ≡ rflags / 2 ^ 12 % 4 = omega arith in
    elim (Bool-cases (has_bit rflags 12)) [
      | inl set ↦ rw (print_flag, set, e, digit (rflags / 2 ^ 12 % 4) (omega arith)) refl
      | inr clear ↦ rw (print_flag, clear, e, digit (rflags / 2 ^ 12 % 4) (omega arith)) refl
    ]

-- The loop over the flags prints, from the highest of the processor's flags down, its name in capitals if the bit
-- at its position is 1 and in small letters if it is 0, each with a space behind it, and in their place the
-- two bits of the I/O privilege level as a digit. The reserved bits print nothing.
pub print_flags_lem : (rflags : ℕ) → print_flags rflags 22 ≡ some (flags_text rflags)
unfolding print_flags
print_flags_lem w =
    rw
      (
        named_round w 21 (codes "id") refl refl refl,
        named_round w 20 (codes "vip") refl refl refl,
        named_round w 19 (codes "vif") refl refl refl,
        named_round w 18 (codes "ac") refl refl refl,
        named_round w 17 (codes "vm") refl refl refl,
        named_round w 16 (codes "rf") refl refl refl,
        reserved_round w 15 refl refl refl,
        named_round w 14 (codes "nt") refl refl refl,
        reserved_round w 13 refl refl refl,
        privilege_round w,
        named_round w 11 (codes "of") refl refl refl,
        named_round w 10 (codes "df") refl refl refl,
        named_round w 9 (codes "if") refl refl refl,
        named_round w 8 (codes "tf") refl refl refl,
        named_round w 7 (codes "sf") refl refl refl,
        named_round w 6 (codes "zf") refl refl refl,
        reserved_round w 5 refl refl refl,
        named_round w 4 (codes "af") refl refl refl,
        reserved_round w 3 refl refl refl,
        named_round w 2 (codes "pf") refl refl refl,
        reserved_round w 1 refl refl refl,
        named_round w 0 (codes "cf") refl refl refl,
      )
      refl
