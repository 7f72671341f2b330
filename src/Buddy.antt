-- ===== src/Buddy.antt =====
-- kernel/mm/buddy.c: the buddy allocator behind the kernel heap. Addresses are `uint64_t`; the free
-- blocks hold their own list nodes, so the memory is a function from a block's address to the node
-- that is read there. An array is a function of its index.
-- `none` is what C leaves undefined: `__builtin_ctzl` at 0, a negative level or shift, and a level
-- at or past the end of the arrays. A bit outside a bitmap reads as 0 and its store is lost here.
pub mod Index
pub mod FreeList
pub mod Remove
pub mod Ops
pub mod Allocate
pub mod Faults
pub mod Pairs
pub mod Coalesce
pub mod Free
pub mod Again
pub mod Level
pub mod Begin
pub mod Splits
pub mod Create
pub mod Merge
pub mod Status
use lasagne.Base.{
  ℕ, zero, suc, ◌+◌, ◌-◌, ◌*◌, ◌/◌, ◌%◌, ◌^◌, Bool, true, false, Option, none, some, List, [], ◌∷◌,
  replicate, bit_xor, ◌==◌, ltb, leb, if◌then◌else◌,
}
use lasagne.Util.Math.{ceil_to_power_of_two, log2, shift_one, ◌>>=◌}
use lasagne.Util.Bitmap.{flip_bit, get_bit, set_bit, reset_bit}

abbrev pub max_levels : ℕ
max_levels = 40

-- ALLOCATOR_EMPTY
abbrev pub null : ℕ
null = 0

pub record Node : Type 0 where
  pub prev : ℕ
  pub next : ℕ

abbrev pub Heap : Type 0
Heap = ℕ → Node

pub record Allocator : Type 0 where
  pub memory : ℕ
  pub size : ℕ
  pub free_size : ℕ
  pub leaf_size : ℕ
  pub max_level : ℕ
  pub bitmap_entries : ℕ
  -- Where the two bitmaps begin, of which the content is in the last two fields.
  pub bitmaps : ℕ
  pub free_blocks : ℕ → ℕ
  pub free_count : ℕ → ℕ
  pub split_bitmap : List ℕ
  pub allocation_bitmap : List ℕ

pub record State : Type 0 where
  pub alloc : Allocator
  pub heap : Heap

abbrev pub update {ℓ} : {A : Type ℓ} → (ℕ → A) → ℕ → A → ℕ → A
update f i v = λ j. if j == i then v else f j

abbrev pub is_empty : ℕ → Bool
is_empty block = block == null

-- `block->prev = p` and `block->next = n`.
abbrev pub set_prev : Heap → ℕ → ℕ → Heap
set_prev h block p = update h block (record { prev = p; next = (h block).next })

abbrev pub set_next : Heap → ℕ → ℕ → Heap
set_next h block n = update h block (record { prev = (h block).prev; next = n })

abbrev pub increment : ℕ → ℕ
increment n = (n + 1) % 2 ^ 64

abbrev pub decrement : ℕ → ℕ
decrement n = (n + 2 ^ 64 - 1) % 2 ^ 64

unfoldable pub size_from_level : Allocator → ℕ → ℕ
size_from_level a level = a.size / 2 ^ level

unfoldable pub level_from_size : Allocator → ℕ → Option ℕ
level_from_size a size = do
  whole ← log2 a.size
  part ← log2 size
  if ltb whole part then none else some (whole - part)

-- `1 << b` on `int`, defined in C for `b` up to 30.
abbrev pub int_shift : ℕ → ℕ
int_shift b = 2 ^ b % 2 ^ 32

-- `int` results are their 32-bit patterns.
unfoldable pub unique_index : ℕ → ℕ → ℕ
unique_index level level_index = (int_shift level + (2 ^ 32 - 1) + level_index) % 2 ^ 32

pub index_in_level : Allocator → ℕ → ℕ → ℕ
unfolding size_from_level
index_in_level a block level =
    (block + 2 ^ 64 - a.memory) % 2 ^ 64 / size_from_level a level % 2 ^ 32

-- The callers pass a level above 0.
unfoldable pub allocation_bit_index : Allocator → ℕ → ℕ → ℕ
unfolding unique_index index_in_level
allocation_bit_index a block level = unique_index (level - 1) (index_in_level a block level / 2)

unfoldable pub split_bit_index : Allocator → ℕ → ℕ → ℕ
unfolding unique_index index_in_level
split_bit_index a block level = unique_index level (index_in_level a block level)

unfoldable pub flip_allocation_bit : Allocator → ℕ → ℕ → Allocator
flip_allocation_bit a block level = if level == 0 then a else record a {
  allocation_bitmap = flip_bit a.allocation_bitmap (allocation_bit_index a block level);
}

unfoldable pub get_allocation_bit : Allocator → ℕ → ℕ → ℕ
get_allocation_bit a block level = get_bit a.allocation_bitmap (allocation_bit_index a block level)

-- `1 << bit` is an `int` shift; the rest is computed in `size_t`.
pub calculate_buddy_address : Allocator → ℕ → ℕ → ℕ
calculate_buddy_address a block level =
    let relative = (block + 2 ^ 64 - a.memory) % 2 ^ 64 in
    (bit_xor relative (int_shift (a.max_level - level) * a.leaf_size) + a.memory) % 2 ^ 64

pub remove_from_list : State → ℕ → ℕ → State
remove_from_list s block level =
    let node = s.heap block in
    let h = if is_empty node.next then s.heap else set_prev s.heap node.next node.prev in
    record {
      heap = if is_empty node.prev then h else set_next h node.prev node.next;
      alloc = record (s.alloc) {
        free_blocks =
            if is_empty node.prev
            then update s.alloc.free_blocks level node.next
            else s.alloc.free_blocks;
        free_count = update s.alloc.free_count level (decrement (s.alloc.free_count level));
      };
    }

-- The end of `allocator_deallocate_level`: the block becomes the first of its level's list.
pub add_to_list : State → ℕ → ℕ → State
add_to_list s block level =
    let head = s.alloc.free_blocks level in
    let h = if is_empty head then s.heap else set_prev s.heap head block in
    record {
      heap = update h block (record { prev = null; next = head });
      alloc = record (s.alloc) {
        free_blocks = update s.alloc.free_blocks level block;
        free_count = update s.alloc.free_count level (increment (s.alloc.free_count level));
      };
    }

-- The two bitmap updates leave the lists alone, which are read as they were.
unfoldable pub split : State → ℕ → ℕ → State
split s block level =
    let new_size = size_from_level s.alloc level / 2 in
    let new_level = level + 1 in
    let new_block = (block + new_size) % 2 ^ 64 in
    let a = record (s.alloc) {
      split_bitmap = set_bit s.alloc.split_bitmap (split_bit_index s.alloc block level);
    } in
    let b = flip_allocation_bit a block level in
    let head = s.alloc.free_blocks new_level in
    let h = update s.heap new_block (record { prev = null; next = head }) in
    record {
      heap = if is_empty head then h else set_prev h head new_block;
      alloc = record b {
        free_blocks = update s.alloc.free_blocks new_level new_block;
        free_count = update s.alloc.free_count new_level (increment (s.alloc.free_count new_level));
      };
    }

-- The level of the smallest free block above `level`.
unfoldable pub find_source : (ℕ → ℕ) → ℕ → Option ℕ
find_source free_blocks zero = none
find_source free_blocks (suc l) =
    let rest = find_source free_blocks l in if is_empty (free_blocks l) then rest else some l

-- `while (source_level < level)`, with that many rounds left.
pub split_down : ℕ → State → ℕ → ℕ → State
split_down zero s block level = s
split_down (suc rounds) s block level = split_down rounds (split s block level) block (level + 1)

-- The head of a list is taken, as `create_block` does it.
pub take_source : State → ℕ → State
take_source s level =
    let block = s.alloc.free_blocks level in
    record s {
      alloc = record (s.alloc) {
        free_blocks = update s.alloc.free_blocks level (s.heap block).next;
        free_count = update s.alloc.free_count level (decrement (s.alloc.free_count level));
      };
    }

pub create_block : State → ℕ → ℕ × State
create_block s level = elim (find_source s.alloc.free_blocks level) [
  | none ↦ (null, s)
  | some source ↦
      let block = s.alloc.free_blocks source in
      (block, split_down (level - source) (take_source s source) block source)
]

-- The head of a list is taken, as `allocator_allocate` does it.
unfoldable pub take_head : State → ℕ → State
take_head s level =
    let block = s.alloc.free_blocks level in
    let next = (s.heap block).next in
    record {
      heap = if is_empty next then s.heap else set_prev s.heap next null;
      alloc = record (s.alloc) {
        free_blocks = update s.alloc.free_blocks level next;
        free_count = update s.alloc.free_count level (decrement (s.alloc.free_count level));
      };
    }

unfoldable pub allocate_level : State → ℕ → ℕ → ℕ × State
allocate_level s size level =
    let (block, t) =
      (if is_empty (s.alloc.free_blocks level)
        then create_block s level
        else (s.alloc.free_blocks level, take_head s level)) in
    let a = flip_allocation_bit t.alloc block level in
    (
      block,
      record t {
        alloc =
            if is_empty block
            then a
            else record a { free_size = (a.free_size + 2 ^ 64 - size) % 2 ^ 64 };
      },
    )

unfoldable pub allocate : State → ℕ → Option (ℕ × State)
allocate s requested = do
  size ← ceil_to_power_of_two requested
  if ltb s.alloc.free_size size then some (null, s) else (do
    level ← level_from_size s.alloc size
    if ltb level max_levels then some (allocate_level s size level) else none)

-- One round of the loop of `allocator_deallocate_level` at a level above 0, behind the test:
-- the buddy is free, and the two are joined.
pub join : State → ℕ → ℕ → ℕ × State
join s base level =
    let buddy = calculate_buddy_address s.alloc base level in
    let t = remove_from_list s buddy level in
    let a = record (t.alloc) {
      split_bitmap = reset_bit t.alloc.split_bitmap (split_bit_index t.alloc base (level - 1));
    } in
    ((if ltb base buddy then base else buddy), record t { alloc = a })

-- At level 0 the first round shifts by -1.
unfoldable pub deallocate_loop : ℕ → State → ℕ → Option State
deallocate_loop zero s base = none
deallocate_loop (suc l) s base =
    let a = flip_allocation_bit s.alloc base (suc l) in
    let t = record s { alloc = a } in
    let joined = join t base (suc l) in
    let rest = deallocate_loop l joined.1 joined.0 in
    if get_allocation_bit a base (suc l) == 0
    then (if l == 0 then some (add_to_list joined.1 joined.0 0) else rest)
    else some (add_to_list t base (suc l))

unfoldable pub deallocate_level : State → ℕ → ℕ → Option State
deallocate_level s block level =
    let a = record (s.alloc) {
      free_size = (s.alloc.free_size + size_from_level s.alloc level) % 2 ^ 64;
    } in
    if ltb level max_levels then deallocate_loop level (record s { alloc = a }) block else none

unfoldable pub deallocate_fast : State → ℕ → ℕ → Option State
deallocate_fast s block requested = do
  size ← ceil_to_power_of_two requested
  level ← level_from_size s.alloc size
  deallocate_level s block level

-- The level of the deepest split that encloses the block, plus one.
pub allocation_level_from : Allocator → ℕ → ℕ → ℕ
allocation_level_from a block zero = 0
allocation_level_from a block (suc l) =
    let rest = allocation_level_from a block l in
    if get_bit a.split_bitmap (split_bit_index a block l) == 0 then rest else suc l

unfoldable pub allocation_level : Allocator → ℕ → ℕ
unfolding allocation_level_from
allocation_level a block = allocation_level_from a block a.max_level

pub deallocate : State → ℕ → Option State
deallocate s block = deallocate_level s block (allocation_level s.alloc block)

unfoldable pub allocation_size : Allocator → ℕ → ℕ
allocation_size a block = size_from_level a (allocation_level a block)

unfoldable pub bitmaps_size : ℕ → ℕ → ℕ
bitmaps_size memory_size leaf_size = memory_size / leaf_size * 2

abbrev pub bitmap_size : ℕ → ℕ
bitmap_size entries = entries / 8 + 1

-- The node in the block at `memory` is not written: it is read as it stands in memory. The content of the bitmaps is kept
-- apart from the nodes, as if they lay outside the memory. `none` is a `1 << max_level` that overflows.
pub init : (memory size leaf_size bitmaps : ℕ) → Option Allocator
init memory size leaf_size bitmaps = do
  max_level ← log2 (size / leaf_size)
  leaves ← shift_one max_level
  let entries = leaves - 1
  some (record {
    memory = memory;
    size = size;
    free_size = size;
    leaf_size = leaf_size;
    max_level = max_level;
    bitmap_entries = entries;
    bitmaps = if bitmaps == null then memory else bitmaps;
    free_blocks = update (λ i. null) 0 memory;
    free_count = update (λ i. 0) 0 1;
    split_bitmap = replicate (bitmap_size entries) 0;
    allocation_bitmap = replicate (bitmap_size entries) 0;
  })
