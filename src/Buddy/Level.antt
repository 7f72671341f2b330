-- ===== src/Buddy/Level.antt =====
-- kernel/mm/buddy.c: the level of an allocated block, by the bits of the blocks that are split.
use native.Mathlib.Nat.{
  div-div-eq-div-mul, mul-div_cancel_left, mul_comm, mul_assoc, one-le-pow, mul-le-mul_right,
}
use lasagne.Base.{
  ℕ, zero, suc, ◌+◌, ◌-◌, ◌*◌, ◌/◌, ◌%◌, ◌^◌, ◌≤◌, ◌<◌, ◌≡◌, refl, sym, ◌∙◌, ap, inl, inr, arith,
  some, leb, Bool-cases,
}
use lasagne.Util.Math.Laws.{ceil_to_power_of_two-pow}
use lasagne.Util.Bitmap.{get_bit}
use lasagne.Buddy.{
  Allocator, State, unique_index, size_from_level, index_in_level, split_bit_index, level_from_size,
  allocation_level_from, allocation_level, allocation_size, deallocate_fast, deallocate,
}
use lasagne.Buddy.Index.{
  pow_narrow, IsGeometry, block_at, size_from_level-pow, size_pos, index-block_at, block_end,
  double_size, pow-add,
}
use lasagne.Buddy.Allocate.{level_from_size-size_from_level}

-- Block `i` of a level came from the split of its parent, and neither it nor a first part of it is split.
pub record IsBlock (a : Allocator) (l i : ℕ) : Type 0 where
  pub parent : (p : ℕ) → l ≡ suc p → get_bit a.split_bitmap (unique_index p (i / 2)) ≡ 1
  pub whole :
      (d : ℕ) → l + d < a.max_level → get_bit a.split_bitmap (unique_index (l + d) (i * 2 ^ d)) ≡ 0

module _ {a : Allocator} {leaf : ℕ} (g : IsGeometry a leaf) (l i : ℕ) (le : l ≤ a.max_level)
    (h : i < 2 ^ l) where
  deep_size :
      (d : ℕ) → l + d ≤ a.max_level → size_from_level a l ≡ 2 ^ d * size_from_level a (l + d)
  deep_size d ld =
      let e : a.max_level - l + leaf ≡ d + (a.max_level - (l + d) + leaf) = omega arith in
      size_from_level-pow g l le
      ∙ ap (λ (t : ℕ). 2 ^ t) e
      ∙ pow-add d (a.max_level - (l + d) + leaf)
      ∙ ap (λ (t : ℕ). 2 ^ d * t) (sym (size_from_level-pow g (l + d) ld))

  -- The first part of the block on a deeper level.
  deep_index : (d : ℕ) → l + d ≤ a.max_level → index_in_level a (block_at a l i) (l + d) ≡ i * 2 ^ d
  deep_index d ld =
      let e : block_at a l i ≡ block_at a (l + d) (i * 2 ^ d) =
        ap (λ (t : ℕ). a.memory + t)
          (ap (λ (t : ℕ). i * t) (deep_size d ld)
            ∙ sym (mul_assoc i (2 ^ d) (size_from_level a (l + d)))) in
      let low : i * 2 ^ d < 2 ^ (l + d) = rw (pow-add l d) (
        omega (
          arith,
          mul-le-mul_right {m = i + 1} {n = 2 ^ l} (2 ^ d) (omega arith),
          one-le-pow d 2,
        )) in
      rw e (index-block_at g (l + d) (i * 2 ^ d) ld low)

  parent_index : (p : ℕ) → l ≡ suc p → index_in_level a (block_at a l i) p ≡ i / 2
  unfolding index_in_level
  parent_index p e =
      let lp : suc p ≤ a.max_level = omega arith in
      let twice : size_from_level a p ≡ size_from_level a l * 2 =
        double_size g p lp
        ∙ mul_comm 2 (size_from_level a (suc p))
        ∙ ap (λ (t : ℕ). size_from_level a t * 2) (sym e) in
      let relative : (block_at a l i + 2 ^ 64 - a.memory) % 2 ^ 64 ≡ size_from_level a l * i =
        omega (
          arith,
          block_end g l i le h,
          size_pos g l le,
          g.inside,
          mul_comm i (size_from_level a l),
        ) in
      let half : size_from_level a l * i / (size_from_level a l * 2) ≡ i / 2 =
        rw (← div-div-eq-div-mul (size_from_level a l * i) (size_from_level a l) 2)
          (ap (λ (t : ℕ). t / 2) (mul-div_cancel_left i (size_pos g l le))) in
      rw (relative, twice, half) (omega (arith, h, pow_narrow l (omega (arith, le, g.narrow))))

  allocation_level_from_lem :
      (n : ℕ)
      → l ≤ n
      → n ≤ a.max_level
      → IsBlock a l i
      → allocation_level_from a (block_at a l i) n ≡ l
  unfolding allocation_level_from split_bit_index
  allocation_level_from_lem zero ln nm b = omega arith
  allocation_level_from_lem (suc n) ln nm b = elim (Bool-cases (leb l n)) [
    | inl deeper ↦
        let d = n - l in
        let e : n ≡ l + (n - l) = ground arith in
        let q = deep_index (n - l) (ground arith) in
        let clear = b.whole (n - l) (ground arith) in
        let r : get_bit a.split_bitmap (unique_index n (index_in_level a (block_at a l i) n)) ≡ 0 =
          ap
            (λ (t : ℕ).
              get_bit a.split_bitmap (unique_index t (index_in_level a (block_at a l i) t)))
            e
          ∙ rw q clear in
        rw (allocation_level_from, r) (allocation_level_from_lem n (ground arith) (omega arith) b)
    | inr here ↦
        let e : l ≡ suc n = ground arith in
        rw (allocation_level_from, parent_index n e, b.parent n e) (sym e)
  ]

-- In an allocator over at most `2 ^ 30` leaves, a power of two, take a block that came from the split of its parent and is not split
-- itself, whose size is `2 ^ k`, `k` at most 30. `allocation_size` finds that size from the address alone, and
-- `deallocate` of the address does what `deallocate_fast` does with the size.
pub deallocate-deallocate_fast :
    (s : State) (leaf l i k : ℕ)
    → IsGeometry s.alloc leaf
    → l ≤ s.alloc.max_level
    → s.alloc.max_level + leaf < 64
    → k ≤ 30
    → size_from_level s.alloc l ≡ 2 ^ k
    → i < 2 ^ l
    → IsBlock s.alloc l i
    → (allocation_size s.alloc (block_at s.alloc l i) ≡ 2 ^ k)
      × (deallocate s (block_at s.alloc l i) ≡ deallocate_fast s (block_at s.alloc l i) (2 ^ k))
unfolding allocation_size deallocate deallocate_fast allocation_level
deallocate-deallocate_fast s leaf l i k g le small fits sized h b =
    let found : level_from_size s.alloc (2 ^ k) ≡ some l =
      rw (← sized) (level_from_size-size_from_level g l le small) in
    let level = allocation_level_from_lem g l i le h s.alloc.max_level le (omega arith) b in
    (rw level sized, rw (level, ceil_to_power_of_two-pow k fits, found) refl)
