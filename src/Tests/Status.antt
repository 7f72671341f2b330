-- ===== src/Tests/Status.antt =====
-- kernel/core/assert.c and the status of the allocators, printed.
use lasagne.Base.{◌≡◌, refl, some}
use lasagne.Printk.{
  codes, printk, format, print_directive, directive, print_long, print_ulong, decimal_digits,
}
use lasagne.Assert.{halt, assert_backend, panic}
use lasagne.Buddy.{size_from_level}
use lasagne.Buddy.Status.{print_levels}
use lasagne.Tests.Freed.{marked_allocator}

panic-message : panic (codes "no memory") ≡ some (codes "Kernel panic\nno memory\nSystem halted")
unfolding panic halt printk format print_directive directive
panic-message = refl

failed_assertion :
    assert_backend (codes "ptr") (codes "mm/alloc.c") 29
    ≡ some (codes "mm/alloc.c:29: assertion ptr failed\nSystem halted")
unfolding assert_backend halt printk format print_directive directive print_long print_ulong
    decimal_digits
failed_assertion = refl

two_levels : print_levels 2 marked_allocator 1 ≡ some (codes "512: 0\n256: 2\n")
unfolding print_levels size_from_level printk format print_directive directive print_long
    print_ulong decimal_digits
two_levels = refl
