-- ===== src/Buddy/Allocate.antt =====
-- kernel/mm/buddy.c: `allocator_allocate` where the level has a free block, the level of a size, and the room
-- for the bitmaps.
use native.Mathlib.Nat.{one-le-pow, pow-le-pow_right, div-eq_of_eq-mul_left}
use lasagne.Util.Math.{shift_one}
use lasagne.Base.{
  true, if◌then◌else◌, leb, ℕ, suc, ◌+◌, ◌-◌, ◌/◌, ◌%◌, ◌^◌, ◌≤◌, ◌<◌, ◌≡◌, refl, sym, ◌∙◌, ap,
  arith, Option, some, List, length, replicate, length-replicate, ◌==◌,
}
use lasagne.Util.Math.Laws.{log2-pow}
use lasagne.Buddy.{
  Allocator, State, update, null, size_from_level, level_from_size, unique_index,
  flip_allocation_bit, init, bitmaps_size, bitmap_size,
}
use lasagne.Buddy.Index.{IsGeometry, block_at, size_from_level-pow, unique_index_bounds, pow-add}
use lasagne.Buddy.Remove.{HasLists}

-- In an allocator over at most `2 ^ 30` leaves, a power of two, which fit into 64 bits, the level of a size is the
-- level whose blocks have that size.
pub level_from_size-size_from_level :
    {a : Allocator} {leaf : ℕ} (g : IsGeometry a leaf) (l : ℕ)
    → l ≤ a.max_level
    → a.max_level + leaf < 64
    → level_from_size a (size_from_level a l) ≡ some l
unfolding level_from_size
level_from_size-size_from_level {a} {leaf} g l le small =
    rw
      (
        size_from_level-pow g l le,
        g.whole,
        log2-pow (a.max_level + leaf) small,
        log2-pow (a.max_level - l + leaf) (omega arith),
      )
      (ground arith)

-- What an allocation that succeeds leaves behind.
pub record Allocated (s : State) (lists : ℕ → List ℕ) (b l size : ℕ) (rest : List ℕ)
    (r : Option (ℕ × State)) : Type 0 where
  pub after : State
  pub returns : r ≡ some (b, after)
  pub lists_after : HasLists after (update lists l rest)
  pub free : after.alloc.free_size + size ≡ s.alloc.free_size
  pub marked : after.alloc.allocation_bitmap ≡ (flip_allocation_bit s.alloc b l).allocation_bitmap
  pub places : block_at after.alloc ≡ block_at s.alloc
  pub levels : after.alloc.max_level ≡ s.alloc.max_level
  pub geometry : (leaf : ℕ) → IsGeometry s.alloc leaf → IsGeometry after.alloc leaf

pub IsGeometry-kept :
    (a b : Allocator)
    → b.leaf_size ≡ a.leaf_size
    → b.size ≡ a.size
    → b.max_level ≡ a.max_level
    → b.memory ≡ a.memory
    → (leaf : ℕ) → IsGeometry a leaf
    → IsGeometry b leaf
IsGeometry-kept a b p q r m leaf g = record {
  leaves = p ∙ g.leaves;
  narrow = omega (arith, r, g.narrow);
  whole = q ∙ g.whole ∙ ap (λ (x : ℕ). 2 ^ (x + leaf)) (sym r);
  inside = omega (arith, g.inside);
}

flipped : Allocator → ℕ → ℕ → ℕ → Allocator
flipped a b l size = record (flip_allocation_bit a b l) {
  free_size = ((flip_allocation_bit a b l).free_size + 2 ^ 64 - size) % 2 ^ 64;
}

-- The allocator over `2 ^ m` leaves of `2 ^ leaf` bytes as `init` leaves it.
abbrev pub initial : (memory leaf m bitmaps : ℕ) → Allocator
initial memory leaf m bitmaps = record {
  memory = memory;
  size = 2 ^ (m + leaf);
  free_size = 2 ^ (m + leaf);
  leaf_size = 2 ^ leaf;
  max_level = m;
  bitmap_entries = 2 ^ m - 1;
  bitmaps = bitmaps;
  free_blocks = update (λ i. null) 0 memory;
  free_count = update (λ i. 0) 0 1;
  split_bitmap = replicate (bitmap_size (2 ^ m - 1)) 0;
  allocation_bitmap = replicate (bitmap_size (2 ^ m - 1)) 0;
}

leaves-initial : (m leaf : ℕ) → 2 ^ (m + leaf) / 2 ^ leaf ≡ 2 ^ m
leaves-initial m leaf = div-eq_of_eq-mul_left (one-le-pow leaf 2 (omega arith)) (pow-add m leaf)

pub init_lem :
    (memory leaf m bitmaps : ℕ)
    → m ≤ 30
    → m + leaf < 64
    → init memory (2 ^ (m + leaf)) (2 ^ leaf) bitmaps
      ≡ some (initial memory leaf m (if bitmaps == null then memory else bitmaps))
unfolding init shift_one
init_lem memory leaf m bitmaps narrow small =
    let fits : leb m 30 ≡ true = ground (arith, narrow) in
    rw (leaves-initial m leaf, log2-pow m (omega arith), fits) refl

pub initial-room :
    (m l i : ℕ)
    → m ≤ 30
    → l < m
    → i < 2 ^ l
    → unique_index l i / 8 < length {A = ℕ} (replicate (bitmap_size (2 ^ m - 1)) 0)
initial-room m l i narrow lt h = rw (length-replicate {0}) (
    omega (
      arith,
      unique_index_bounds l i (omega arith) h,
      pow-le-pow_right {n = 2} (omega arith) {i = suc l} {j = m} lt,
    ))

-- For at most `2 ^ 30` leaves, `allocator_bitmaps_size` is enough for the two bitmaps that `allocator_init` lays out, and the bitmaps
-- have a bit for the number of every block above the leaves.
pub init_bitmaps :
    (memory leaf m bitmaps : ℕ)
    → 0 < m
    → m ≤ 30
    → m + leaf < 64
    → (a : Allocator) × (init memory (2 ^ (m + leaf)) (2 ^ leaf) bitmaps ≡ some a)
      × (length a.allocation_bitmap + length a.split_bitmap
          ≤ bitmaps_size (2 ^ (m + leaf)) (2 ^ leaf))
      × ((l i : ℕ)
          → l < m
          → i < 2 ^ l
          → (unique_index l i / 8 < length a.allocation_bitmap)
            × (unique_index l i / 8 < length a.split_bitmap))
unfolding bitmaps_size
init_bitmaps memory leaf m bitmaps pos narrow small = (
  initial memory leaf m (if bitmaps == null then memory else bitmaps),
  init_lem memory leaf m bitmaps narrow small,
  rw (length-replicate {0}, leaves-initial m leaf) (omega (arith, one-le-pow m 2)),
  λ l i lt h. (initial-room m l i narrow lt h, initial-room m l i narrow lt h),
)
