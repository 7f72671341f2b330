-- ===== src/Irq/Exception/Frame.antt =====
-- kernel/arch/x64/irq.c: which words `generic_exception_handler` takes for the frame of the interrupted code, with the
-- tables as `initialize_irq` sets them up.
use lasagne.Base.{
  ℕ, zero, suc, ◌+◌, ◌≤◌, ◌<◌, ◌≡◌, ◌≢◌, refl, ◌∙◌, ap, inl, inr, ◌⊎◌, arith, Bool, true, false,
  not, ◌&&◌, ◌||◌, none, some, List, ◌++◌, ◌==◌, leb, bit_and, if◌then◌else◌, Bool-cases,
}
use lasagne.Irq.{Irq, errorcode, initialize_tables}
use lasagne.Irq.Handlers.{flags_of, initialize_tables_lem}
use lasagne.Irq.Exception.{
  IrqStackFrame, IrqState, exception_name, irq_frame, print_exception, generic_exception_handler,
}
use lasagne.Irq.Exception.Report.{report, reported, lookup_name_lem}

-- The words that the processor pushes for an exception: an error code for some, and the frame.
abbrev pub frame_word : IrqStackFrame → (below : ℕ → ℕ) → ℕ → ℕ
frame_word f below zero = f.rip
frame_word f below (suc zero) = f.cs
frame_word f below (suc (suc zero)) = f.rflags
frame_word f below (suc (suc (suc zero))) = f.rsp
frame_word f below (suc (suc (suc (suc zero)))) = f.ss
frame_word f below (suc (suc (suc (suc (suc n))))) = below n

abbrev pub with_code : (code : ℕ) → (ℕ → ℕ) → ℕ → ℕ
with_code code words zero = code
with_code code words (suc n) = words n

-- The exceptions of the table `exception_name` with an error code, by the processor's manual: double fault,
-- the five from invalid TSS to page fault, alignment check and security exception.
abbrev pub has_error_code : ℕ → Bool
has_error_code i = (i == 8) || (leb 10 i && leb i 14) || (i == 17) || (i == 30)

abbrev pub pushed_words : (vector code : ℕ) → IrqStackFrame → (below : ℕ → ℕ) → ℕ → ℕ
pushed_words vector code f below =
    if has_error_code vector then with_code code (frame_word f below) else frame_word f below

-- The vectors for which the tables and the processor do not agree on the error code.
abbrev pub mistaken : ℕ → Bool
mistaken i = (i == 9) || (i == 17) || (i == 30)

abbrev pub error_coded : ℕ → Bool
error_coded i = leb 8 i && leb i 14

coded : (i : ℕ) → (bit_and (flags_of i) errorcode == 0) ≡ not (error_coded i)
coded i = elim (Bool-cases (error_coded i)) [ inl e ↦ rw e refl | inr e ↦ rw e refl ]

-- The words from the first one or the second one on.
abbrev frame_from : (ℕ → ℕ) → ℕ → IrqStackFrame
frame_from words first = record {
  rip = words first;
  cs = words (first + 1);
  rflags = words (first + 2);
  rsp = words (first + 3);
  ss = words (first + 4);
}

irq_frame_lem :
    (w generic spurious : ℕ) (s : Irq) (regs : IrqState)
    → regs.irq < 31
    → regs.irq ≢ 15
    → irq_frame (initialize_tables w generic spurious s) regs
      ≡ frame_from regs.irq_stack_frame (if error_coded regs.irq then 1 else 0)
unfolding irq_frame
irq_frame_lem w generic spurious s regs h ne =
    let (_, e) = initialize_tables_lem w generic spurious s regs.irq (omega arith) in
    rw (irq_frame, e ne, coded regs.irq)
      (elim (Bool-cases (error_coded regs.irq)) [ inl q ↦ rw q refl | inr q ↦ rw q refl ])

-- After `initialize_tables`, for an exception below 31 of which tables and processor agree on the error code,
-- `generic_exception_handler` ends its output with the registers of the frame that the processor pushed, the flags by
-- their names, and CR2.
pub generic_exception_handler_lem :
    (w generic spurious cr2 code : ℕ) (s : Irq) (regs : IrqState) (f : IrqStackFrame)
    (below : ℕ → ℕ)
    → regs.irq < 31
    → regs.irq ≢ 15
    → mistaken regs.irq ≡ false
    → regs.irq_stack_frame ≡ pushed_words regs.irq code f below
    → (heading : List ℕ) × (generic_exception_handler
          (initialize_tables w generic spurious s)
          cr2
          regs
          (regs.irq_stack_frame 0)
        ≡ some (heading ++ report f cr2))
generic_exception_handler_lem w generic spurious cr2 code s regs f below h ne agree pushed =
    let t = initialize_tables w generic spurious s in
    let (heading, e) = reported t cr2 regs (regs.irq_stack_frame 0) h in
    let same : has_error_code regs.irq ≡ error_coded regs.irq = ground arith in
    let frame : irq_frame t regs ≡ f =
      irq_frame_lem w generic spurious s regs h ne
      ∙ rw (pushed, same)
          (elim (Bool-cases (error_coded regs.irq)) [ inl q ↦ rw q refl | inr q ↦ rw q refl ]) in
    (heading, e ∙ ap (λ g. some (heading ++ report g cr2)) frame)

-- For an alignment check or a security exception, vectors 17 and 30, the processor pushes an error code. After
-- `initialize_tables`, `generic_exception_handler` takes it for RIP, and each word of the frame for the next register.
pub generic_exception_handler-shifted :
    (w generic spurious cr2 code : ℕ) (s : Irq) (regs : IrqState) (f : IrqStackFrame)
    (below : ℕ → ℕ)
    → (regs.irq ≡ 17) ⊎ (regs.irq ≡ 30)
    → regs.irq_stack_frame ≡ pushed_words regs.irq code f below
    → (heading : List ℕ) × (generic_exception_handler
          (initialize_tables w generic spurious s)
          cr2
          regs
          (regs.irq_stack_frame 0)
        ≡ some (
            heading
            ++ report
                (record { rip = code; cs = f.rip; rflags = f.cs; rsp = f.rflags; ss = f.rsp })
                cr2))
generic_exception_handler-shifted w generic spurious cr2 code s regs f below which pushed =
    let t = initialize_tables w generic spurious s in
    let h : regs.irq < 31 = omega (arith, which) in
    let (heading, e) = reported t cr2 regs (regs.irq_stack_frame 0) h in
    let plain : error_coded regs.irq ≡ false = ground arith in
    let has : has_error_code regs.irq ≡ true = ground arith in
    let frame =
      irq_frame_lem w generic spurious s regs h (omega (arith, which))
      ∙ rw (plain, pushed, has) refl in
    (heading, e ∙ ap (λ g. some (heading ++ report g cr2)) frame)

-- `generic_exception_handler` prints and ends for every vector of the table of names. For a vector from 31 on, of which
-- the handler is set up for those to 79, the name is read past the end of the table.
pub generic_exception_handler-none :
    (s : Irq) (cr2 : ℕ) (regs : IrqState) (error_code : ℕ)
    → (regs.irq < 31
        → (out : List ℕ) × (generic_exception_handler s cr2 regs error_code ≡ some out))
      × (31 ≤ regs.irq → generic_exception_handler s cr2 regs error_code ≡ none)
unfolding generic_exception_handler print_exception
generic_exception_handler-none s cr2 regs error_code = (
  λ h. let (heading, e) = reported s cr2 regs error_code h in (_, e),
  λ h. rw (print_exception, (lookup_name_lem exception_name regs.irq).1 h) refl,
)
