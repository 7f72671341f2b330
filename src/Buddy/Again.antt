-- ===== src/Buddy/Again.antt =====
-- kernel/mm/buddy.c: a block that is allocated and freed again.
use lasagne.Base.{ℕ, suc, ◌^◌, ◌≤◌, ◌<◌, ◌≡◌, some, List, ◌∷◌}
use lasagne.Buddy.{State, update, allocate, deallocate_fast}
use lasagne.Buddy.Index.{block_at}
use lasagne.Buddy.Coalesce.{IsConsistent, IsShort}

module _ (s : State) (lists : ℕ → List ℕ) (leaf l i k : ℕ) (rest : List ℕ)
    (c : IsConsistent s lists leaf) (short : IsShort lists) (le : suc l ≤ s.alloc.max_level)
    (h : i < 2 ^ suc l) (e : lists (suc l) ≡ block_at s.alloc (suc l) i ∷ rest) where
  abbrev block : ℕ
  block = block_at s.alloc (suc l) i

  abbrev lists_after : ℕ → List ℕ
  lists_after = update lists (suc l) rest

-- A block that is allocated and freed again.
pub record Restored (s : State) (lists : ℕ → List ℕ) (leaf b size : ℕ) : Type 0 where
  pub taken : State
  pub allocates : allocate s size ≡ some (b, taken)
  pub after : State
  pub frees : deallocate_fast taken b size ≡ some after
  pub consistent : IsConsistent after lists leaf
  pub free_size : after.alloc.free_size ≡ s.alloc.free_size
