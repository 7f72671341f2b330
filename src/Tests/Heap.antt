-- ===== src/Tests/Heap.antt =====
-- kernel/mm/buddy.c on a heap of 1024 bytes at 4096, with leaves of 128 bytes. Two blocks of level 2 are free.
use lasagne.Base.{
  ℕ, zero, suc, ◌+◌, ◌-◌, ◌/◌, ◌^◌, ◌≤◌, ◌<◌, ◌≡◌, ◌≢◌, refl, arith, true, false, some, List, [],
  ◌∷◌, length,
}
use lasagne.Buddy.{
  Heap, Allocator, State, update, size_from_level, unique_index, create_block, bitmaps_size, init,
}
use lasagne.Buddy.FreeList.{has, IsFreeList}
use lasagne.Buddy.Remove.{HasLists}
use lasagne.Buddy.Ops.{IsFresh, upper_half}
use lasagne.Buddy.Allocate.{init_bitmaps}
use lasagne.Buddy.Faults.{create_block_stale}

abbrev heads : ℕ → ℕ
heads zero = 0
heads (suc zero) = 0
heads (suc (suc zero)) = 4096
heads (suc (suc (suc n))) = 0

abbrev counts : ℕ → ℕ
counts zero = 0
counts (suc zero) = 0
counts (suc (suc zero)) = 2
counts (suc (suc (suc n))) = 0

abbrev pub lists : ℕ → List ℕ
lists zero = []
lists (suc zero) = []
lists (suc (suc zero)) = 4096 ∷ 4608 ∷ []
lists (suc (suc (suc n))) = []

abbrev pub heap : Heap
heap =
    update (update (λ b. record { prev = 0; next = 0 }) 4096 (record { prev = 0; next = 4608 }))
      4608 (record { prev = 4096; next = 0 })

abbrev pub allocator : Allocator
allocator = record {
  memory = 4096;
  size = 1024;
  free_size = 512;
  leaf_size = 128;
  max_level = 3;
  bitmap_entries = 8;
  bitmaps = 2048;
  free_blocks = heads;
  free_count = counts;
  split_bitmap = 0 ∷ [];
  allocation_bitmap = 0 ∷ [];
}

abbrev state : State
state = record { alloc = allocator; heap = heap }

abbrev exhausted : State
exhausted = record {
  alloc = record allocator { memory = 2 ^ 64 - 4096; free_blocks = λ l. 0 };
  heap = heap;
}

state-IsFreeList : (l : ℕ) → IsFreeList state.heap (state.alloc.free_blocks l) (lists l)
state-IsFreeList zero = record { linked = refl; distinct = tt }
state-IsFreeList (suc zero) = record { linked = refl; distinct = tt }
state-IsFreeList (suc (suc zero)) = record {
  linked = (refl, omega arith, refl, (refl, omega arith, refl, refl));
  distinct = (refl, (refl, tt));
}
state-IsFreeList (suc (suc (suc n))) = record { linked = refl; distinct = tt }

state-count : (l : ℕ) → state.alloc.free_count l ≡ length (lists l)
state-count zero = refl
state-count (suc zero) = refl
state-count (suc (suc zero)) = refl
state-count (suc (suc (suc n))) = refl

state-apart : (l m b : ℕ) → l ≢ m → has b (lists l) ≡ true → has b (lists m) ≡ false
state-apart l zero b ne h = refl
state-apart l (suc zero) b ne h = refl
state-apart zero (suc (suc zero)) b ne h = absurd (ground arith)
state-apart (suc zero) (suc (suc zero)) b ne h = absurd (ground arith)
state-apart (suc (suc zero)) (suc (suc zero)) b ne h = absurd (ne refl)
state-apart (suc (suc (suc n))) (suc (suc zero)) b ne h = absurd (ground arith)
state-apart l (suc (suc (suc n))) b ne h = refl

pub state-HasLists : HasLists state lists
state-HasLists = record { list = state-IsFreeList; count = state-count; apart = state-apart }

pub fresh_at : (b l : ℕ) → b ≢ 4096 → b ≢ 4608 → has b (lists l) ≡ false
fresh_at b zero p q = refl
fresh_at b (suc zero) p q = refl
fresh_at b (suc (suc zero)) p q = ground arith
fresh_at b (suc (suc (suc n))) p q = refl

block-IsFresh : IsFresh lists 4352
block-IsFresh = (omega arith, λ l. fresh_at 4352 l (omega arith) (omega arith))

half_at : upper_half state 4352 2 ≡ 4480
unfolding size_from_level
half_at = refl

upper_half-IsFresh : IsFresh lists (upper_half state 4352 2)
upper_half-IsFresh = rw half_at (omega arith, λ l. fresh_at 4480 l (omega arith) (omega arith))

init_bitmaps_example :
    (a : Allocator) × (init 4096 (2 ^ (3 + 7)) (2 ^ 7) 2048 ≡ some a)
    × (length a.allocation_bitmap + length a.split_bitmap ≤ bitmaps_size (2 ^ (3 + 7)) (2 ^ 7))
    × ((l i : ℕ)
        → l < 3
        → i < 2 ^ l
        → (unique_index l i / 8 < length a.allocation_bitmap)
          × (unique_index l i / 8 < length a.split_bitmap))
init_bitmaps_example = init_bitmaps 4096 7 3 2048 (omega arith) (omega arith) (omega arith)

far : 4608 ≢ upper_half state 4096 2
unfolding size_from_level
far = omega arith

create_block_stale_example :
    let t = (create_block state 3).1 in ¬ (IsFreeList t.heap (t.alloc.free_blocks 2) (4608 ∷ []))
create_block_stale_example =
    create_block_stale state 2 4096 4608 [] (state-IsFreeList 2) far (omega arith) (4608 ∷ [])
