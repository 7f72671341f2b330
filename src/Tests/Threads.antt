-- ===== src/Tests/Threads.antt =====
-- kernel/core/task.c and kernel/libc/string.c: a new kernel thread's stack, and a comparison of two strings.
use lasagne.Base.{ℕ, zero, suc, ◌+◌, ◌<◌, arith, ◌==◌, if◌then◌else◌}
use lasagne.Task.{Memory, stack_size, initial_stack}
use lasagne.Task.Stack.{IsInitial, initial_stack_lem}
use lasagne.Libc.{memcmp}
use lasagne.Libc.Compare.{Compared, memcmp-Compared}

abbrev memory : Memory
memory = λ a. 9

initial_stack_example :
    IsInitial 0x10000 0x400000 8 16
      (if 0 == 0 then 0x10000 + stack_size else 0)
      0x5000
      memory
      (initial_stack 0x10000 0x400000 8 16 0 0x5000 memory)
initial_stack_example = initial_stack_lem 0x10000 0x400000 8 16 0 0x5000 memory (omega arith)

abbrev first : ℕ → ℕ
first zero = b'a'
first (suc k) = b'b'

abbrev second : ℕ → ℕ
second zero = b'a'
second (suc k) = b'z'

first_small : (k : ℕ) → first k < 256
first_small zero = omega arith
first_small (suc k) = omega arith

second_small : (k : ℕ) → second k < 256
second_small zero = omega arith
second_small (suc k) = omega arith

memcmp_example : Compared first second 0 2 (memcmp first second 2)
memcmp_example = memcmp-Compared first second 2 first_small second_small
