-- ===== src/Printk/Format.antt =====
-- How kernel/core/printk.c reads its format string.
use lasagne.Base.{
  ℕ, ◌≡◌, ◌≢◌, refl, sym, ◌∙◌, ap, inl, inr, arith, Bool, true, false, Option, none, some, List, [],
  ◌∷◌, ◌++◌, ◌==◌, ==_ne, Bool-cases, Option-cases,
}
use mathlib.Core.List.{append_assoc}
use lasagne.Printk.{Arg, directive, print_directive, then_print, is_long, format, printk}

-- A string without `%`.
abbrev pub Plain : List ℕ → Type 0
Plain [] = Unit {0}
Plain (c ∷ cs) = (c ≢ b'%') × Plain cs

pub then_print-append :
    (xs ys : List ℕ) (r : Option (List ℕ))
    → then_print xs (then_print ys r) ≡ then_print (xs ++ ys) r
then_print-append [] ys none = refl
then_print-append [] ys (some r) = refl
then_print-append (x ∷ xs) ys none = refl
then_print-append (x ∷ xs) ys (some r) =
    ap (λ (t : List ℕ). some (x ∷ t)) (sym (append_assoc xs ys r))

-- What `l` holds when no directive is open has no effect.
format-false :
    (fmt : List ℕ) (l : Bool) (args : List Arg)
    → format fmt false l args ≡ format fmt false false args
unfolding format
format-false [] l args = refl
format-false (c ∷ fmt) l args = elim (Bool-cases (c == b'%')) [
  | inl e ↦ rw (format, e) refl
  | inr e ↦ rw (format, e) (ap (then_print (c ∷ [])) (format-false fmt l args))
]

then_print-nil : (r : Option (List ℕ)) → then_print [] r ≡ r
then_print-nil none = refl
then_print-nil (some r) = refl

format-Plain :
    (text fmt : List ℕ) (args : List Arg)
    → Plain text
    → format (text ++ fmt) false false args ≡ then_print text (format fmt false false args)
unfolding format
format-Plain [] fmt args h = sym (then_print-nil _)
format-Plain (c ∷ cs) fmt args (ne, h) =
    rw (format, ==_ne c b'%' ne, format-Plain cs fmt args h)
      (then_print-append (c ∷ []) cs (format fmt false false args))

-- A directive, and after it the rest of the string as a new call prints it.
abbrev pub directive_then : (c : ℕ) (l : Bool) (fmt : List ℕ) → List Arg → Option (List ℕ)
directive_then c l fmt args = elim (print_directive (directive c) l args) [
  | none ↦ none
  | some (out, args') ↦ then_print out (printk fmt args')
]

not_long : (c : ℕ) → c ≢ b'l' → is_long (directive c) ≡ false
unfolding directive
not_long c ne = ground arith

format-directive :
    (c : ℕ) (l : Bool) (fmt : List ℕ) (args : List Arg)
    → c ≢ b'l'
    → format (c ∷ fmt) true l args ≡ directive_then c l fmt args
unfolding printk format
format-directive c l fmt args ne = elim (Option-cases (print_directive (directive c) l args)) [
  | inl e ↦ rw (format, directive_then, e) refl
  | inr (r, e) ↦
      rw (format, directive_then, e, not_long c ne)
        (ap (then_print (r.0)) (format-false fmt l (r.1)))
]

-- `printk` prints the text before a `%` as it stands. Then it takes the arguments of the directive `c`, which is
-- not `l`, in the width of an `int`, or of a `long` if an `l` stands before `c`. It goes on with the rest of the
-- string as a new call would, on the arguments left.
pub printk-directive :
    (text : List ℕ) (c : ℕ) (fmt : List ℕ) (args : List Arg)
    → Plain text
    → c ≢ b'l'
    → (printk (text ++ (b'%' ∷ c ∷ fmt)) args ≡ then_print text (directive_then c false fmt args))
      × (printk (text ++ (b'%' ∷ b'l' ∷ c ∷ fmt)) args
          ≡ then_print text (directive_then c true fmt args))
unfolding printk format directive print_directive
printk-directive text c fmt args h ne = (
  format-Plain text (b'%' ∷ c ∷ fmt) args h
      ∙ ap (then_print text) (format-directive c false fmt args ne),
  format-Plain text (b'%' ∷ b'l' ∷ c ∷ fmt) args h
      ∙ ap (then_print text) (then_print-nil _ ∙ format-directive c true fmt args ne),
)
