-- ===== src/Irq/Exception/Report.antt =====
-- kernel/arch/x64/irq.c: what `generic_exception_handler` reports of the interrupted code.
use lasagne.Base.{
  ℕ, zero, suc, ◌%◌, ◌^◌, ◌≤◌, ◌<◌, ◌≡◌, refl, sym, ap, inl, inr, arith, Bool, true, false, ◌||◌,
  Option, none, some, List, [], ◌∷◌, ◌++◌, ◌==◌, bit_and, if◌then◌else◌, Bool-cases, length,
}
use mathlib.Core.List.{append_assoc}
use lasagne.Printk.{num, codes, printk, format, directive, print_directive, print_hex, ◌>>◌}
use lasagne.Irq.{Irq, errorcode}
use lasagne.Irq.Exception.{
  IrqStackFrame, IrqState, lookup_name, exception_name, irq_frame, print_selector_error,
  print_page_fault_error, print_error_code_interpretation, print_exception, print_registers,
  has_bit, print_frame, generic_exception_handler,
}
use lasagne.Irq.Exception.Flags.{flags_text, print_flags_lem}

-- The text from the line of RIP on.
abbrev pub report : IrqStackFrame → (cr2 : ℕ) → List ℕ
report f cr2 =
    (codes "RIP = "
      ++ (print_hex f.rip 16 ++ (codes "     CS = " ++ (print_hex f.cs 16 ++ codes "\n"))))
    ++ ((codes "RSP = "
          ++ (print_hex f.rsp 16 ++ (codes "     SS = " ++ (print_hex f.ss 16 ++ codes "\n"))))
        ++ (codes "RFLAGS: " ++ flags_text f.rflags))
    ++ ((codes "\nCR2 = " ++ (print_hex cr2 16 ++ codes "\n")) ++ codes "System halted\n")

-- There is an output.
abbrev Printed : Option (List ℕ) → Type 0
Printed r = (out : List ℕ) × (r ≡ some out)

Printed->> : {a b : Option (List ℕ)} → Printed a → Printed b → Printed (a >> b)
Printed->> (x, p) (y, q) = (x ++ y, rw (p, q) refl)

Printed-if :
    {a b : Option (List ℕ)} (test : Bool) → Printed a → Printed b → Printed (if test then a else b)
Printed-if true p q = p
Printed-if false p q = q

print_frame_lem :
    (f : IrqStackFrame) (cr2 : ℕ)
    → (print_frame f
        >> printk (codes "\nCR2 = %lx\n") (num cr2 ∷ [])
        >> printk (codes "System halted\n") [])
      ≡ some (report f cr2)
unfolding print_frame printk format directive print_directive
print_frame_lem f cr2 = rw (print_flags_lem f.rflags) refl

print_registers-Printed : (regs : IrqState) → Printed (print_registers regs)
unfolding print_registers printk format directive print_directive
print_registers-Printed regs = (_, refl)

print_selector_error-Printed : (error_code : ℕ) → Printed (print_selector_error error_code)
unfolding print_selector_error printk format directive print_directive
print_selector_error-Printed error_code = Printed->> (Printed-if _ (_, refl) (_, refl)) (_, refl)

print_page_fault_error-Printed : (error_code : ℕ) → Printed (print_page_fault_error error_code)
unfolding print_page_fault_error printk format directive print_directive
print_page_fault_error-Printed error_code =
    let p : Printed (
        if has_bit error_code 0
        then printk (codes "present ") []
        else printk (codes "non-present ") []) =
      Printed-if _ (_, refl) (_, refl) in
    let u : Printed (
        if has_bit error_code 2
        then printk (codes "usermode ") []
        else printk (codes "kernel ") []) =
      Printed-if _ (_, refl) (_, refl) in
    let a : Printed (
        if has_bit error_code 1
        then printk (codes "write ") []
        else if has_bit error_code 4
        then printk (codes "instruction fetch ") []
        else printk (codes "read ") []) =
      Printed-if (has_bit error_code 1) (_, refl)
        (Printed-if (has_bit error_code 4) (_, refl) (_, refl)) in
    let r : Printed
        (if has_bit error_code 3 then printk (codes "(reserved field set to 1)") [] else some []) =
      Printed-if _ (_, refl) (_, refl) in
    (p.0 ++ (u.0 ++ (a.0 ++ (r.0 ++ codes "\n"))), rw (p.1, u.1, a.1, r.1) refl)

interpretation-Printed :
    (interrupt error_code : ℕ) → Printed (print_error_code_interpretation interrupt error_code)
unfolding print_error_code_interpretation printk format
interpretation-Printed interrupt error_code =
    let external : Printed
        (if has_bit error_code 0 then printk (codes "external") [] else some []) =
      Printed-if _ (_, refl) (_, refl) in
    Printed-if ((interrupt == 10) || (interrupt == 11) || (interrupt == 12) || (interrupt == 13))
      (print_selector_error-Printed error_code)
      (Printed-if (interrupt == 14) (print_page_fault_error-Printed error_code)
        (Printed-if (interrupt == 17) external ([], refl)))

pub lookup_name_lem :
    (xs : List (List ℕ)) (i : ℕ)
    → (i < length xs → (x : List ℕ) × (lookup_name xs i ≡ some x))
      × (length xs ≤ i → lookup_name xs i ≡ none)
lookup_name_lem [] i = (λ h. absurd (omega arith), λ h. refl)
lookup_name_lem (x ∷ xs) zero = (λ h. (x, refl), λ h. absurd (omega arith))
lookup_name_lem (x ∷ xs) (suc i) =
    let (p, q) = lookup_name_lem xs i in (λ h. p (omega arith), λ h. q (omega arith))

print_exception-Printed :
    (s : Irq) (irq error_code : ℕ) → irq < 31 → Printed (print_exception s irq error_code)
unfolding print_exception printk format directive print_directive
print_exception-Printed s irq error_code h =
    let (name, e) = (lookup_name_lem exception_name irq).0 h in
    let (out, q) = interpretation-Printed (irq % 2 ^ 32) error_code in
    rw (print_exception, e)
      (elim (Bool-cases (bit_and (s.idt_handler irq).flags errorcode == 0)) [
        | inl without ↦ rw without (_, refl)
        | inr with ↦ rw (with, q) (_, refl)
      ])

-- The report on whatever is taken for the frame.
pub reported :
    (s : Irq) (cr2 : ℕ) (regs : IrqState) (error_code : ℕ)
    → regs.irq < 31
    → (heading : List ℕ) × (generic_exception_handler s cr2 regs error_code
        ≡ some (heading ++ report (irq_frame s regs) cr2))
unfolding generic_exception_handler
reported s cr2 regs error_code h =
    let (x, p) = print_exception-Printed s regs.irq error_code h in
    let (y, q) = print_registers-Printed regs in
    (
      x ++ y,
      rw (p, q, print_frame_lem (irq_frame s regs) cr2)
          (ap some (sym (append_assoc x y (report (irq_frame s regs) cr2)))),
    )
