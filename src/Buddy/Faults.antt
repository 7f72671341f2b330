-- ===== src/Buddy/Faults.antt =====
-- kernel/mm/buddy.c: where the allocator does not do what it means to.
use lasagne.Base.{ℕ, suc, ◌+◌, ◌-◌, ◌≡◌, ◌≢◌, refl, ◌∙◌, ap, arith, some, none, List, [], ◌∷◌}
use lasagne.Buddy.{
  State, Heap, null, size_from_level, find_source, split, split_down, take_source, create_block,
  deallocate_level, deallocate_loop,
}
use lasagne.Buddy.FreeList.{IsFreeList}
use lasagne.Buddy.Ops.{upper_half}

-- A list whose first block has something before it is no free list.
not-IsFreeList :
    (h : Heap) (head : ℕ)
    → head ≢ null
    → (h head).prev ≢ null
    → (xs : List ℕ) → ¬ (IsFreeList h head xs)
not-IsFreeList h head n p [] f = n f.linked
not-IsFreeList h head n p (x ∷ xs) f = p (ap (λ c. (h c).prev) f.linked.0 ∙ f.linked.2)

-- A block of the level above is split once.
create_block_above :
    (s : State) (l : ℕ)
    → s.alloc.free_blocks l ≢ null
    → create_block s (suc l)
      ≡ (s.alloc.free_blocks l, split (take_source s l) (s.alloc.free_blocks l) l)
unfolding create_block find_source split_down
create_block_above s l ne =
    let e : find_source s.alloc.free_blocks (suc l) ≡ some l = ground arith in
    let one : suc l - l ≡ 1 = omega arith in rw (e, create_block, one) refl

-- `create_block` takes the first of two or more blocks of the level above and leaves the `prev` of
-- the second pointing at it: what is left on that level is no free list. The second block is
-- neither the upper half of the first nor at the head of the level below.
pub create_block_stale :
    (s : State) (l b c : ℕ) (rest : List ℕ)
    → IsFreeList s.heap (s.alloc.free_blocks l) (b ∷ c ∷ rest)
    → c ≢ upper_half s b l
    → c ≢ s.alloc.free_blocks (l + 1)
    → (xs : List ℕ)
    → let t = (create_block s (suc l)).1 in ¬ (IsFreeList t.heap (t.alloc.free_blocks l) xs)
create_block_stale s l b c rest f ne ne' xs =
    rw (create_block_above s l (ground (arith, f.linked))) (
      not-IsFreeList t.heap (t.alloc.free_blocks l) (ground (arith, head))
        (ground (arith, head, kept)) xs)
  where
    t : State
    t = split (take_source s l) (s.alloc.free_blocks l) l

    head : t.alloc.free_blocks l ≡ c
    head = unfold split take_source in ground (arith, f.linked)

    half : upper_half (take_source s l) (s.alloc.free_blocks l) l ≡ upper_half s b l
    half = unfold take_source size_from_level in ap (λ x. upper_half s x l) f.linked.0

    next_head : (take_source s l).alloc.free_blocks (l + 1) ≡ s.alloc.free_blocks (l + 1)
    next_head = unfold take_source in ground arith

    same_heap : (take_source s l).heap ≡ s.heap
    same_heap = unfold take_source in refl

    kept : (t.heap c).prev ≡ b
    kept = unfold split in ground (arith, f.linked, half, next_head, same_heap)

-- Freeing the block of level 0, the whole memory, shifts by a negative number.
pub deallocate_level-zero : (s : State) (block : ℕ) → deallocate_level s block 0 ≡ none
unfolding deallocate_level deallocate_loop
deallocate_level-zero s block = refl
