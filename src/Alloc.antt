-- ===== src/Alloc.antt =====
-- kernel/mm/alloc.c but for `krealloc`, and `memset` of kernel/libc/string_asm.asm: the kernel's heap, a buddy allocator and
-- the bytes of the memory. The allocator's own nodes in free blocks are not among the bytes. `none` is what the allocator's `none` is.
pub mod Start
use lasagne.Base.{
  ℕ, zero, suc, ◌+◌, ◌-◌, Bool, true, false, ◌&&◌, Option, none, some, ◌==◌, ltb, leb,
  if◌then◌else◌,
}
use lasagne.Util.Math.{ceil_to_power_of_two}
use lasagne.Buddy.{State, allocate, deallocate, deallocate_fast, allocation_size}

pub record Heap : Type 0 where
  pub blocks : State
  pub bytes : ℕ → ℕ

-- `rep stosb`
abbrev pub memset : (ptr value num : ℕ) → (ℕ → ℕ) → ℕ → ℕ
memset ptr value num bytes = λ a. if leb ptr a && ltb a (ptr + num) then value else bytes a

pub kalloc : (size : ℕ) → Heap → Option (ℕ × Heap)
kalloc size h = elim (allocate h.blocks size) [
  | none ↦ none
  | some (ptr, blocks) ↦ some (ptr, record h { blocks = blocks })
]

unfoldable pub kfree : (ptr : ℕ) → Heap → Option Heap
kfree ptr h = elim (deallocate h.blocks ptr) [
  | none ↦ none
  | some blocks ↦ some (record h { blocks = blocks })
]

unfoldable pub kzalloc : (size : ℕ) → Heap → Option (ℕ × Heap)
kzalloc size h = elim (kalloc size h) [
  | none ↦ none
  | some (ptr, t) ↦ some (ptr, record t { bytes = memset ptr 0 size t.bytes })
]
