-- ===== src/Syscall/Start.antt =====
-- The initialization in kernel/core/syscall.c: the interrupt's vector, and the registers for fast calls. A model-specific
-- register is a function of its number.
use lasagne.Base.{
  ℕ, ◌%◌, ◌^◌, ◌≡◌, ◌≢◌, refl, arith, false, bit, bit_or, bit-bit_or, bit-pow, ◌==◌, if◌then◌else◌,
  ==_ne, Option, List, [], ◌∷◌,
}
use lasagne.Printk.{Arg, num, codes, printk}
use lasagne.Irq.{Irq, user, set_irq_handler}
use lasagne.Task.{rflags_if}
use lasagne.Syscall.{set_star}
use lasagne.Syscall.Star.{HasSegments, set_star_lem}

abbrev pub syscall_int : ℕ
syscall_int = 0x30

abbrev pub ia32_efer : ℕ
ia32_efer = 0xC0000080

abbrev pub ia32_star : ℕ
ia32_star = 0xC0000081

abbrev pub ia32_lstar : ℕ
ia32_lstar = 0xC0000082

abbrev pub ia32_fmask : ℕ
ia32_fmask = 0xC0000084

-- INT_HANDLER_RETVAL
abbrev pub retval : ℕ
retval = 2

abbrev pub Registers : Type 0
Registers = ℕ → ℕ

abbrev pub wrmsr : (msr value : ℕ) → Registers → Registers
wrmsr msr value r = λ n. if n == msr then value else r n

unfoldable pub initialize_int_handler : (syscall_int_handler : ℕ) → Irq → Irq
initialize_int_handler syscall_int_handler s =
    set_irq_handler syscall_int syscall_int_handler (bit_or retval user) s

pub initialize_fast_handler : (syscall_fast_handler : ℕ) → Registers → Registers
initialize_fast_handler syscall_fast_handler r0 =
    let r1 = wrmsr ia32_star (set_star (r0 ia32_star)) r0 in
    let r2 = wrmsr ia32_lstar syscall_fast_handler r1 in
    let r3 = wrmsr ia32_fmask rflags_if r2 in wrmsr ia32_efer (bit_or (r3 ia32_efer) 1) r3

unfoldable pub initialize_syscalls :
    (syscall_int_handler syscall_fast_handler : ℕ) → Irq → Registers → Irq × Registers
unfolding initialize_int_handler initialize_fast_handler
initialize_syscalls syscall_int_handler syscall_fast_handler s r =
    (initialize_int_handler syscall_int_handler s, initialize_fast_handler syscall_fast_handler r)

-- The number is an `int`, and is read as a `long`: this is about a caller that widens it with zeros.
unfoldable pub bad_syscall : (syscall_number : ℕ) → Option (List ℕ)
bad_syscall syscall_number =
    printk (codes "WARNING non-existent syscall #%ld called\n") (num (syscall_number % 2 ^ 32) ∷ [])

-- The registers for fast system calls, made from those before.
pub record AreSet (fast : ℕ) (before after : Registers) : Type 0 where
  pub segments : HasSegments (before ia32_star) (after ia32_star)
  pub target : after ia32_lstar ≡ fast
  pub masked : after ia32_fmask ≡ rflags_if
  pub allowed : (k : ℕ) → bit (after ia32_efer) k ≡ (if k == 0 then 1 else bit (before ia32_efer) k)
  pub others :
      (n : ℕ) → n ≢ ia32_star → n ≢ ia32_lstar → n ≢ ia32_fmask → n ≢ ia32_efer → after n ≡ before n

one_bit : (k x : ℕ) → bit (bit_or x 1) k ≡ (if k == 0 then 1 else bit x k)
one_bit k x = ground (arith, bit-bit_or k x 1, bit-pow 0 k)

-- After `initialize_syscalls` user code may raise the interrupt of the system calls, whose handler gets no error code and leaves a
-- result; the other vectors are as before. Fast calls enter at their handler on the kernel's segments with interrupts
-- off and return to the user's segments, and are switched on by the lowest bit of EFER; the other bits and
-- registers are as before.
pub initialize_syscalls_lem :
    (handler fast : ℕ) (s : Irq) (r : Registers)
    → let (t, after) = initialize_syscalls handler fast s r in
      (t.idt syscall_int ≡ record (s.idt syscall_int) { present = 1; dpl = 3 })
      × (t.idt_handler syscall_int ≡ record { address = handler; flags = 6 })
      × ((i : ℕ) → i ≢ syscall_int → (t.idt i ≡ s.idt i) × (t.idt_handler i ≡ s.idt_handler i))
      × AreSet fast r after
unfolding initialize_syscalls initialize_int_handler initialize_fast_handler set_irq_handler
initialize_syscalls_lem handler fast s r = (
  refl,
  refl,
  λ i ne. let q : (i == syscall_int) ≡ false = ==_ne i syscall_int ne in rw q (refl, refl),
  record {
    segments = set_star_lem (r ia32_star);
    target = refl;
    masked = refl;
    allowed = λ k. one_bit k (r ia32_efer);
    others = λ n a b c d.
        rw (==_ne n ia32_star a, ==_ne n ia32_lstar b, ==_ne n ia32_fmask c, ==_ne n ia32_efer d)
          refl;
  },
)

unfoldable pub sys_printk : (template : List ℕ) → (arg1 arg2 arg3 arg4 arg5 : Arg) → Option (List ℕ)
sys_printk template arg1 arg2 arg3 arg4 arg5 =
    printk template (arg1 ∷ arg2 ∷ arg3 ∷ arg4 ∷ arg5 ∷ [])
