-- ===== src/Printk.antt =====
-- kernel/core/printk.c: formatted output. `backend` sends each byte to port 0xe9 and to the
-- terminal; a function here returns the bytes that it sends, in order. A `long` is its 64-bit
-- pattern, a string the bytes before its NUL. `none` is a missing argument or one of another kind.
pub mod Numbers
pub mod Format
pub mod Directives
use lasagne.Base.{
  ℕ, zero, suc, ◌+◌, ◌-◌, ◌*◌, ◌/◌, ◌%◌, ◌^◌, Bool, true, false, Option, none, some, List, [], ◌∷◌,
  ◌++◌, ◌==◌, ltb, leb, if◌then◌else◌,
}
use mathlib.Core.List.{reverse}
use Prim.Native.Char.{code}
use Prim.Native.String.{String}

-- `while (n)`: the digits, lowest first, as they are stored in `str`.
unfoldable pub decimal_digits : ℕ → ℕ → List ℕ
decimal_digits zero n = []
decimal_digits (suc fuel) n =
    let rest = (n % 10 + b'0') ∷ decimal_digits fuel (n / 10) in if n == 0 then [] else rest

-- The size of `str`, which bounds the rounds.
abbrev pub str_size : ℕ
str_size = 25

unfoldable pub print_ulong : ℕ → List ℕ
print_ulong n = (if n == 0 then b'0' ∷ [] else []) ++ reverse (decimal_digits str_size n)

unfoldable pub print_long : ℕ → List ℕ
print_long n = if leb (2 ^ 63) n then b'-' ∷ print_ulong ((2 ^ 64 - n) % 2 ^ 64) else print_ulong n

pub hex_char : ℕ → ℕ
hex_char c = if leb c 9 then c + b'0' else c - 10 + b'A'

-- `len` digits, lowest first.
pub hex_digits : ℕ → ℕ → List ℕ
hex_digits zero n = []
hex_digits (suc len) n = (n % 16) ∷ hex_digits len (n / 16)

pub hex_chars : List ℕ → List ℕ
hex_chars [] = []
hex_chars (d ∷ ds) = hex_char d ∷ hex_chars ds

pub print_hex : ℕ → ℕ → List ℕ
print_hex n len = b'0' ∷ b'x' ∷ hex_chars (reverse (hex_digits len n))

pub data Arg : Type 0 where
  num : ℕ → Arg
  str : List ℕ → Arg

-- An `int` argument, widened to `long`.
abbrev pub as_int : ℕ → ℕ
as_int w = if ltb (w % 2 ^ 32) (2 ^ 31) then w % 2 ^ 32 else w % 2 ^ 32 + (2 ^ 64 - 2 ^ 32)

abbrev pub as_uint : ℕ → ℕ
as_uint w = w % 2 ^ 32

abbrev pub then_print : List ℕ → Option (List ℕ) → Option (List ℕ)
then_print out none = none
then_print out (some rest) = some (out ++ rest)

pub data Directive : Type 0 where
  signed unsigned hex text percent long other : Directive

-- The cases of the `switch`.
unfoldable pub directive : ℕ → Directive
directive c =
    if c == b'd'
    then signed
    else if c == b'u'
    then unsigned
    else if c == b'x'
    then hex
    else if c == b's'
    then text
    else if c == b'%'
    then percent
    else if c == b'l'
    then long
    else other

-- What a directive prints, and the arguments left.
unfoldable pub print_directive : Directive → Bool → List Arg → Option (List ℕ × List Arg)
print_directive signed l (num w ∷ args) = some (print_long (if l then w else as_int w), args)
print_directive unsigned l (num w ∷ args) = some (print_ulong (if l then w else as_uint w), args)
print_directive hex l (num w ∷ args) =
    some (if l then print_hex w 16 else print_hex (as_uint w) 8, args)
print_directive text l (str s ∷ args) = some (s, args)
print_directive percent l args = some (b'%' ∷ [], args)
print_directive long l args = some ([], args)
print_directive other l args = some ([], args)
print_directive d l args = none

abbrev pub is_long : Directive → Bool
is_long long = true
is_long d = false

-- The loop, with the variables `specifier` and `l`.
unfoldable pub format : List ℕ → (specifier l : Bool) → List Arg → Option (List ℕ)
format [] specifier l args = some []
format (c ∷ fmt) true l args = elim (print_directive (directive c) l args) [
  | none ↦ none
  | some (out, args') ↦
      then_print out
        (format fmt (is_long (directive c)) (if is_long (directive c) then true else l) args')
]
format (c ∷ fmt) false l args = elim (c == b'%') [
  | true ↦ format fmt true false args
  | false ↦ then_print (c ∷ []) (format fmt false l args)
]

unfoldable pub printk : List ℕ → List Arg → Option (List ℕ)
printk fmt args = format fmt false false args

-- The bytes of a text of the source.
abbrev pub codes : String → List ℕ
codes String.[] = []
codes (String.◌∷◌ c s) = code c ∷ codes s

-- One output after another.
infixr 5 ◌>>◌
abbrev pub ◌>>◌ : Option (List ℕ) → Option (List ℕ) → Option (List ℕ)
none >> rest = none
some out >> rest = then_print out rest
