-- ===== src/Frame/Status.antt =====
-- `print_frame_allocation_info` of kernel/mm/frame.c, as the bytes that are printed.
use lasagne.Base.{◌/◌, ℕ, Option, List, [], ◌∷◌}
use lasagne.Printk.{codes, num, printk, ◌>>◌}
use lasagne.Frame.{Allocator}

unfoldable pub print_frame_allocation_info : Allocator → Option (List ℕ)
print_frame_allocation_info a =
    printk (codes "Begin: %lx\tEnd: %lx\n") (num a.begin ∷ num a.end ∷ [])
    >> printk (codes "Size:  %ld KiB\nCapacity: %ld KiB\n")
        (num (a.size / 1024) ∷ num (a.capacity / 1024) ∷ [])
    >> printk (codes "Free:  %ld KiB\n") (num (a.free / 1024) ∷ [])
