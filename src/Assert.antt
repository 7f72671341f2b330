-- ===== src/Assert.antt =====
-- kernel/core/assert.c: what the kernel prints before it halts. The loop around `hlt` is left out, and so is the
-- switch of the interrupts.
use lasagne.Base.{ℕ, Option, List, [], ◌∷◌}
use lasagne.Printk.{codes, num, str, printk, ◌>>◌}

unfoldable pub halt : Option (List ℕ)
halt = printk (codes "System halted") []

unfoldable pub assert_backend : (exp file : List ℕ) → (line : ℕ) → Option (List ℕ)
assert_backend exp file line =
    printk (codes "%s:%d: assertion %s failed\n") (str file ∷ num line ∷ str exp ∷ []) >> halt

unfoldable pub panic : (msg : List ℕ) → Option (List ℕ)
panic msg = printk (codes "Kernel panic\n%s\n") (str msg ∷ []) >> halt
