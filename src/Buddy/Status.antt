-- ===== src/Buddy/Status.antt =====
-- `allocator_print_status` of kernel/mm/buddy.c and `print_heap_status` of kernel/mm/alloc.c, as the bytes that are
-- printed. `alloc` is the address of the allocator.
use lasagne.Base.{ℕ, zero, suc, ◌+◌, ◌-◌, ◌%◌, ◌^◌, Option, some, List, [], ◌∷◌}
use lasagne.Printk.{codes, num, printk, ◌>>◌}
use lasagne.Buddy.{Allocator, size_from_level}

-- The loop from the level `i` on, for so many levels.
unfoldable pub print_levels : (rounds : ℕ) → (a : Allocator) → (i : ℕ) → Option (List ℕ)
print_levels zero a i = some []
print_levels (suc n) a i =
    printk (codes "%ld: %ld\n") (num (size_from_level a i) ∷ num (a.free_count i) ∷ [])
    >> print_levels n a (i + 1)

unfoldable pub allocator_print_status : (alloc : ℕ) → Allocator → Option (List ℕ)
allocator_print_status alloc a =
    printk (codes "STATUS OF ALLOCATOR AT %lx\n") (num alloc ∷ [])
    >> printk (codes "Memory:     %lx-%lx\n")
        (num a.memory ∷ num ((a.memory + a.size + (2 ^ 64 - 1)) % 2 ^ 64) ∷ [])
    >> printk (codes "Free space: %ld b\n") (num a.free_size ∷ [])
    >> printk (codes "Leaf size:  %ld b\n") (num a.leaf_size ∷ [])
    >> printk (codes "Free blocks:\n") []
    >> print_levels (a.max_level + 1) a 0

unfoldable pub print_heap_status : (heap_allocator : ℕ) → Allocator → Option (List ℕ)
print_heap_status heap_allocator a = allocator_print_status heap_allocator a
