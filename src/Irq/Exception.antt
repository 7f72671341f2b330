-- ===== src/Irq/Exception.antt =====
-- kernel/arch/x64/irq.c and kernel/include/irq.h: what is printed for an exception. The words of the stack from the field
-- `irq_stack_frame` of `struct irq_state` on are a function of the word's number. `none` is a read past the
-- end of `exception_name`.
pub mod Flags
pub mod Report
pub mod Frame
use lasagne.Base.{
  ℕ, zero, suc, ◌+◌, ◌*◌, ◌/◌, ◌%◌, ◌^◌, Bool, true, false, ◌||◌, Option, none, some, List, [], ◌∷◌,
  get_or, bit_and, ◌==◌, ltb, if◌then◌else◌,
}
use lasagne.Printk.{Arg, num, str, codes, printk, ◌>>◌}
use lasagne.Irq.{Irq, errorcode}

pub record IrqStackFrame : Type 0 where
  pub rip : ℕ
  pub cs : ℕ
  pub rflags : ℕ
  pub rsp : ℕ
  pub ss : ℕ

pub record IrqState : Type 0 where
  pub rax : ℕ
  pub rbx : ℕ
  pub rcx : ℕ
  pub rdx : ℕ
  pub rsi : ℕ
  pub rdi : ℕ
  pub rbp : ℕ
  pub r8 : ℕ
  pub r9 : ℕ
  pub r10 : ℕ
  pub r11 : ℕ
  pub r12 : ℕ
  pub r13 : ℕ
  pub r14 : ℕ
  pub r15 : ℕ
  pub irq : ℕ
  pub irq_stack_frame : ℕ → ℕ

-- `w & (1 << k)` as a test.
abbrev pub has_bit : (w k : ℕ) → Bool
has_bit w k = if w / 2 ^ k % 2 == 0 then false else true

pub print_selector_error : ℕ → Option (List ℕ)
print_selector_error error_code =
    let type = error_code / 2 % 4 in
    let selector_index = error_code / 2 ^ 3 % 2 ^ 32 in
    let typestring =
      if type == 0
      then codes "GDT"
      else if (type == 1) || (type == 3)
      then codes "IDT"
      else codes "LDT" in
    (if has_bit error_code 0 then printk (codes "external ") [] else some [])
    >> printk (codes "%s selector index %x\n") (str typestring ∷ num selector_index ∷ [])

pub print_page_fault_error : ℕ → Option (List ℕ)
print_page_fault_error error_code =
    (if has_bit error_code 0
      then printk (codes "present ") []
      else printk (codes "non-present ") [])
    >> (if has_bit error_code 2 then printk (codes "usermode ") [] else printk (codes "kernel ") [])
    >> (if has_bit error_code 1
        then printk (codes "write ") []
        else if has_bit error_code 4
        then printk (codes "instruction fetch ") []
        else printk (codes "read ") [])
    >> (if has_bit error_code 3 then printk (codes "(reserved field set to 1)") [] else some [])
    >> printk (codes "\n") []

pub print_error_code_interpretation : (interrupt error_code : ℕ) → Option (List ℕ)
print_error_code_interpretation interrupt error_code =
    if (interrupt == 10) || (interrupt == 11) || (interrupt == 12) || (interrupt == 13)
    then print_selector_error error_code
    else if interrupt == 14
    then print_page_fault_error error_code
    else if interrupt == 17
    then (if has_bit error_code 0 then printk (codes "external") [] else some [])
    else some []

abbrev pub exception_name : List (List ℕ)
exception_name =
    codes "Divide-by-zero Error"
    ∷ codes "Debug"
    ∷ codes "Non-maskable Interrupt"
    ∷ codes "Breakpoint"
    ∷ codes "Overflow"
    ∷ codes "Bound Range Exceeded"
    ∷ codes "Invalid Opcode"
    ∷ codes "Device Not Available"
    ∷ codes "Double Fault"
    ∷ codes "Coprocessor Segment Overrun"
    ∷ codes "Invalid TSS"
    ∷ codes "Segment Not Present"
    ∷ codes "Stack-Segment Fault"
    ∷ codes "General Protection Fault"
    ∷ codes "Page Fault"
    ∷ codes "Reserved"
    ∷ codes "x87 Floating-Point Exception"
    ∷ codes "Alignment Check"
    ∷ codes "Machine Check"
    ∷ codes "SIMD Floating-Point Exception"
    ∷ codes "Virtualization Exception"
    ∷ codes "Reserved"
    ∷ codes "Reserved"
    ∷ codes "Reserved"
    ∷ codes "Reserved"
    ∷ codes "Reserved"
    ∷ codes "Reserved"
    ∷ codes "Reserved"
    ∷ codes "Reserved"
    ∷ codes "Reserved"
    ∷ codes "Security Exception"
    ∷ []

-- `none` is a NULL.
abbrev pub flag_name : List (Option (List ℕ))
flag_name =
    some (codes "cf")
    ∷ some (codes "CF")
    ∷ none
    ∷ none
    ∷ some (codes "pf")
    ∷ some (codes "PF")
    ∷ none
    ∷ none
    ∷ some (codes "af")
    ∷ some (codes "AF")
    ∷ none
    ∷ none
    ∷ some (codes "zf")
    ∷ some (codes "ZF")
    ∷ some (codes "sf")
    ∷ some (codes "SF")
    ∷ some (codes "tf")
    ∷ some (codes "TF")
    ∷ some (codes "if")
    ∷ some (codes "IF")
    ∷ some (codes "df")
    ∷ some (codes "DF")
    ∷ some (codes "of")
    ∷ some (codes "OF")
    ∷ none
    ∷ none
    ∷ none
    ∷ none
    ∷ some (codes "nt")
    ∷ some (codes "NT")
    ∷ none
    ∷ none
    ∷ some (codes "rf")
    ∷ some (codes "RF")
    ∷ some (codes "vm")
    ∷ some (codes "VM")
    ∷ some (codes "ac")
    ∷ some (codes "AC")
    ∷ some (codes "vif")
    ∷ some (codes "VIF")
    ∷ some (codes "vip")
    ∷ some (codes "VIP")
    ∷ some (codes "id")
    ∷ some (codes "ID")
    ∷ []

abbrev pub lookup_name : List (List ℕ) → ℕ → Option (List ℕ)
lookup_name [] i = none
lookup_name (x ∷ xs) zero = some x
lookup_name (x ∷ xs) (suc i) = lookup_name xs i

abbrev pub print_name : Option (List ℕ) → Option (List ℕ)
print_name none = some []
print_name (some name) = printk (codes "%s ") (str name ∷ [])

-- What the loop prints for the bit `i`.
pub print_flag : (rflags i : ℕ) → Option (List ℕ)
print_flag rflags i =
    let index = 2 * i + (if has_bit rflags i then 1 else 0) in
    let iopl = rflags / 2 ^ 12 % 2 ^ 32 % 4 in
    (if i == 12 then printk (codes "IOPL=%d ") (num iopl ∷ []) else some [])
    >> print_name (get_or flag_name index none)

-- The bits below the given one, from the highest.
pub print_flags : (rflags : ℕ) → ℕ → Option (List ℕ)
print_flags rflags zero = some []
print_flags rflags (suc i) = print_flag rflags i >> print_flags rflags i

-- The frame stands one word further where there is an error code.
pub irq_frame : Irq → IrqState → IrqStackFrame
irq_frame s regs =
    let first = if bit_and (s.idt_handler regs.irq).flags errorcode == 0 then 0 else 1 in
    record {
      rip = regs.irq_stack_frame first;
      cs = regs.irq_stack_frame (first + 1);
      rflags = regs.irq_stack_frame (first + 2);
      rsp = regs.irq_stack_frame (first + 3);
      ss = regs.irq_stack_frame (first + 4);
    }

pub print_exception : Irq → (irq error_code : ℕ) → Option (List ℕ)
print_exception s irq error_code = elim (lookup_name exception_name irq) [
  | none ↦ none
  | some name ↦
      printk (codes "Exception #%ld occured: %s\n") (num irq ∷ str name ∷ [])
      >> (if bit_and (s.idt_handler irq).flags errorcode == 0
          then some []
          else (printk (codes "Error code %lx\n") (num error_code ∷ [])
              >> print_error_code_interpretation (irq % 2 ^ 32) error_code))
]

pub print_registers : IrqState → Option (List ℕ)
print_registers regs =
    printk (codes "RAX = %lx    RBX = %lx    RCX = %lx\n")
      (num regs.rax ∷ num regs.rbx ∷ num regs.rcx ∷ [])
    >> printk (codes "RDX = %lx    RSI = %lx    RDI = %lx\n")
        (num regs.rdx ∷ num regs.rsi ∷ num regs.rdi ∷ [])
    >> printk (codes "RBP = %lx     R8 = %lx     R9 = %lx\n")
        (num regs.rbp ∷ num regs.r8 ∷ num regs.r9 ∷ [])
    >> printk (codes "R10 = %lx    R11 = %lx    R12 = %lx\n")
        (num regs.r10 ∷ num regs.r11 ∷ num regs.r12 ∷ [])
    >> printk (codes "R13 = %lx    R14 = %lx    R15 = %lx\n")
        (num regs.r13 ∷ num regs.r14 ∷ num regs.r15 ∷ [])

pub print_frame : IrqStackFrame → Option (List ℕ)
print_frame f =
    printk (codes "RIP = %lx     CS = %lx\n") (num f.rip ∷ num f.cs ∷ [])
    >> printk (codes "RSP = %lx     SS = %lx\n") (num f.rsp ∷ num f.ss ∷ [])
    >> printk (codes "RFLAGS: ") []
    >> print_flags f.rflags 22

-- What is printed before the machine halts.
pub generic_exception_handler : Irq → (cr2 : ℕ) → IrqState → (error_code : ℕ) → Option (List ℕ)
generic_exception_handler s cr2 regs error_code =
    print_exception s regs.irq error_code
    >> print_registers regs
    >> print_frame (irq_frame s regs)
    >> printk (codes "\nCR2 = %lx\n") (num cr2 ∷ [])
    >> printk (codes "System halted\n") []
