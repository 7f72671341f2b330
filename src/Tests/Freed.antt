-- ===== src/Tests/Freed.antt =====
-- kernel/mm/buddy.c: blocks of the heap of Heap, with its bitmaps, are freed.
use lasagne.Base.{inl, ℕ, zero, suc, ◌+◌, ◌*◌, ◌/◌, ◌^◌, ◌<◌, ◌≡◌, refl, arith, some, [], ◌∷◌}
use lasagne.Buddy.{
  bitmaps_size, Allocator, State, size_from_level, unique_index, allocation_size, deallocate,
  deallocate_fast, init,
}
use lasagne.Util.Bitmap.{get_bit}
use lasagne.Buddy.Index.{IsGeometry, block_at}
use lasagne.Buddy.Coalesce.{IsConsistent}
use lasagne.Buddy.Allocate.{initial}
use lasagne.Buddy.Begin.{whole_memory, init-IsConsistent}
use lasagne.Buddy.Level.{IsBlock, deallocate-deallocate_fast}
use lasagne.Tests.Heap.{allocator, heap}

abbrev pub marked_allocator : Allocator
marked_allocator = record allocator { allocation_bitmap = 6 ∷ []; split_bitmap = 7 ∷ [] }

abbrev marked_state : State
marked_state = record { alloc = marked_allocator; heap = heap }

marked_state-IsGeometry : IsGeometry marked_allocator 7
marked_state-IsGeometry = record {
  leaves = refl;
  whole = refl;
  inside = omega arith;
  narrow = omega arith;
}

block_size : size_from_level marked_allocator 2 ≡ 2 ^ 8
unfolding size_from_level
block_size = refl

last-IsBlock : IsBlock marked_allocator 2 3
unfolding get_bit unique_index
last-IsBlock = record { parent = split_parent; whole = not_split }
  where
    split_parent : (p : ℕ) → 2 ≡ suc p → get_bit (7 ∷ []) (unique_index p (3 / 2)) ≡ 1
    split_parent zero e = absurd (omega arith)
    split_parent (suc zero) e = refl
    split_parent (suc (suc p)) e = absurd (omega arith)

    not_split : (d : ℕ) → 2 + d < 3 → get_bit (7 ∷ []) (unique_index (2 + d) (3 * 2 ^ d)) ≡ 0
    not_split zero h = refl
    not_split (suc d) h = absurd (omega arith)

deallocate_example :
    (allocation_size marked_allocator (block_at marked_allocator 2 3) ≡ 2 ^ 8)
    × (deallocate marked_state (block_at marked_allocator 2 3)
        ≡ deallocate_fast marked_state (block_at marked_allocator 2 3) (2 ^ 8))
deallocate_example =
    deallocate-deallocate_fast marked_state 7 2 3 8 marked_state-IsGeometry (omega arith)
      (omega arith) (omega arith) block_size (omega arith) last-IsBlock

init-IsConsistent_example :
    (a : Allocator) × (init 4096 (2 ^ (3 + 7)) (2 ^ 7) 2048 ≡ some a)
    × IsConsistent
        (record { alloc = a; heap = λ b. record { prev = 0; next = 0 } })
        (whole_memory 4096)
        7
    × (a.free_size ≡ 2 ^ (3 + 7))
    × (a.bitmaps ≡ 2048)
unfolding bitmaps_size
init-IsConsistent_example =
    init-IsConsistent 4096 7 3 2048 (λ b. record { prev = 0; next = 0 }) (omega arith) (omega arith)
      (omega arith) (omega arith) (omega arith) (inl (omega arith)) (omega arith) refl

-- The allocator as it is started, and a request for one leaf.
abbrev started_state : State
started_state = record { alloc = initial 4096 7 3 2048; heap = λ b. record { prev = 0; next = 0 } }
