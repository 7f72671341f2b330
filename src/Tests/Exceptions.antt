-- ===== src/Tests/Exceptions.antt =====
-- kernel/arch/x64/irq.c, kernel/arch/x64/io/pit.c and kernel/core/syscall.c: an exception, the timer and the system calls.
use lasagne.Base.{ℕ, suc, ◌*◌, ◌≡◌, ◌≢◌, ◌<◌, ◌≤◌, refl, arith, inl, none, some, List, ◌++◌, length}
use lasagne.Irq.{initialize_tables}
use lasagne.Irq.Exception.{IrqState, IrqStackFrame, print_flags, generic_exception_handler}
use lasagne.Irq.Exception.Flags.{flags_text, print_flags_lem}
use lasagne.Irq.Exception.Report.{report}
use lasagne.Irq.Exception.Frame.{
  pushed_words, generic_exception_handler_lem, generic_exception_handler-shifted,
  generic_exception_handler-none,
}
use lasagne.Syscall.Start.{syscall_int, AreSet, initialize_syscalls, initialize_syscalls_lem}
use lasagne.Task.Boot.{initialize_tasks}
use lasagne.Task.Boot.Started.{started_rota}
use lasagne.Task.Boot.Turns.{IsStarted-IsScheduled, initialize_tasks_lem}
use lasagne.Timer.{Timer}
use lasagne.Timer.Ticks.{RunsAfter, ticks_lem}
use lasagne.Tests.Devices
use lasagne.Tests.Tasks.{blank, objects, distinct}

print_flags_example : print_flags 0x202 22 ≡ some (flags_text 0x202)
print_flags_example = print_flags_lem 0x202

abbrev frame : IrqStackFrame
frame = record { rip = 0x1000; cs = 8; rflags = 0x202; rsp = 0x7000; ss = 16 }

-- The state at an exception of the vector, with the error code 2.
abbrev regs : ℕ → IrqState
regs vector = record {
  rax = 0;
  rbx = 1;
  rcx = 2;
  rdx = 3;
  rsi = 4;
  rdi = 5;
  rbp = 6;
  r8 = 7;
  r9 = 8;
  r10 = 9;
  r11 = 10;
  r12 = 11;
  r13 = 12;
  r14 = 13;
  r15 = 14;
  irq = vector;
  irq_stack_frame = pushed_words vector 2 frame (λ n. 0);
}

generic_exception_handler_example :
    (heading : List ℕ) × (generic_exception_handler
        (initialize_tables 0x100000 3 5 Devices.blank)
        9
        (regs 14)
        ((regs 14).irq_stack_frame 0)
      ≡ some (heading ++ report frame 9))
generic_exception_handler_example =
    generic_exception_handler_lem 0x100000 3 5 9 2 Devices.blank (regs 14) frame (λ n. 0)
      (omega arith) (omega arith) refl refl

generic_exception_handler-shifted_example :
    (heading : List ℕ) × (generic_exception_handler
        (initialize_tables 0x100000 3 5 Devices.blank)
        9
        (regs 17)
        ((regs 17).irq_stack_frame 0)
      ≡ some (
          heading
          ++ report (record { rip = 2; cs = 0x1000; rflags = 8; rsp = 0x202; ss = 0x7000 }) 9))
generic_exception_handler-shifted_example =
    generic_exception_handler-shifted 0x100000 3 5 9 2 Devices.blank (regs 17) frame (λ n. 0)
      (inl refl) refl

generic_exception_handler-none_example :
    (32 < 31 → (out : List ℕ) × (generic_exception_handler Devices.blank 9 (regs 32) 2 ≡ some out))
    × (31 ≤ 32 → generic_exception_handler Devices.blank 9 (regs 32) 2 ≡ none)
generic_exception_handler-none_example = generic_exception_handler-none Devices.blank 9 (regs 32) 2

abbrev timer : Timer
timer = record { pit_ticks = 41; kernel = initialize_tasks objects blank }

ticks_example :
    (n : ℕ) × (n
      < length ((started_rota objects distinct).threads 102)
        * length (started_rota objects distinct).tasks)
    × RunsAfter timer 3 (suc n) 5
unfolding started_rota
ticks_example =
    let i = initialize_tasks_lem objects distinct blank refl refl in
    ticks_lem 3 102 5 timer (started_rota objects distinct) (omega arith)
      (IsStarted-IsScheduled objects distinct blank timer.kernel 3 (omega arith) i) refl refl
      i.second

initialize_syscalls_example :
    let (t, after) = initialize_syscalls 4 5 Devices.blank (λ n. 0x1234) in
    (t.idt syscall_int ≡ record (Devices.blank.idt syscall_int) { present = 1; dpl = 3 })
    × (t.idt_handler syscall_int ≡ record { address = 4; flags = 6 })
    × ((i : ℕ)
        → i ≢ syscall_int
        → (t.idt i ≡ Devices.blank.idt i) × (t.idt_handler i ≡ Devices.blank.idt_handler i))
    × AreSet 5 (λ n. 0x1234) after
initialize_syscalls_example = initialize_syscalls_lem 4 5 Devices.blank (λ n. 0x1234)
