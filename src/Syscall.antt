-- ===== src/Syscall.antt =====
-- kernel/core/syscall.c and kernel/include/syscall.h: system calls by interrupt, and what tells the processor how to make fast ones.
-- `sys_printk` prints, and is a step that leaves the kernel's state as it is. What a handler leaves in the
-- register of results is a parameter. `none` is a failed assertion, or a scheduler whose rounds run out.
pub mod Star
pub mod Yield
pub mod Start
use lasagne.Base.{
  ℕ, zero, suc, ◌+◌, ◌-◌, ◌*◌, ◌^◌, Bool, true, false, Option, none, some, ◌==◌, ltb, if◌then◌else◌,
  bit_and, bit_or,
}
use lasagne.Task.{Thread, Kernel, set_at, preempt, code_segment, user_data_segment}

abbrev pub syscall_by_interrupt : ℕ
syscall_by_interrupt = 0

abbrev pub syscall_by_syscall : ℕ
syscall_by_syscall = 1

-- The entries of `syscall_table`.
abbrev pub syscall_count : ℕ
syscall_count = 2

-- The STAR register in `initialize_fast_handler`.
pub set_star : ℕ → ℕ
set_star star =
    bit_or (bit_or (bit_and star (2 ^ 32 - 1)) (code_segment * 2 ^ 32))
      ((user_data_segment - 8) * 2 ^ 48)

-- Both functions that preempt do the same up to the switch of the stacks.
pub sys_yield : (fuel : ℕ) → Kernel → Option Kernel
sys_yield fuel s =
    let type = (s.threads s.current_thread).syscall_type in
    if type == syscall_by_interrupt
    then preempt fuel s
    else (if type == syscall_by_syscall then preempt fuel s else none)

abbrev pub set_syscall_type : ℕ → Kernel → Kernel
set_syscall_type type s = record s {
  threads =
      set_at s.current_thread (record (s.threads s.current_thread) { syscall_type = type })
        s.threads;
}

-- The handler that the table has for the number.
abbrev pub syscall_handler : (fuel number : ℕ) → Kernel → Option Kernel
syscall_handler fuel number s = if number == 0 then sys_yield fuel s else some s

-- `rax` holds the number and then the result.
pub syscall_int_handler : (fuel rax result : ℕ) → Kernel → Option (ℕ × Kernel)
syscall_int_handler fuel rax result s =
    if ltb rax syscall_count
    then (elim (syscall_handler fuel rax (set_syscall_type syscall_by_interrupt s)) [
      | none ↦ none
      | some t ↦ some (result, t)
    ])
    else some (rax, s)
