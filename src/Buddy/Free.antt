-- ===== src/Buddy/Free.antt =====
-- kernel/mm/buddy.c: what `allocator_deallocate_level` leaves behind, and the ways to it.

use lasagne.Base.{ℕ, ◌+◌, ◌≡◌, Option, some, List}
use lasagne.Buddy.{State}
use lasagne.Buddy.Index.{block_at}
use lasagne.Buddy.Coalesce.{coalesce, IsConsistent}

-- What freeing block `i` of a level leaves behind.
pub record Freed (s : State) (lists : ℕ → List ℕ) (leaf level i size : ℕ) (r : Option State)
    : Type 0 where
  pub after : State
  pub returns : r ≡ some after
  pub places : block_at after.alloc ≡ block_at s.alloc
  pub consistent : IsConsistent after (coalesce (block_at s.alloc) lists level i) leaf
  pub free_size : after.alloc.free_size ≡ s.alloc.free_size + size

-- The same allocator with another amount of free memory.
abbrev with_free : State → ℕ → State
with_free s n = record s { alloc = record (s.alloc) { free_size = n } }
