-- ===== src/Frame.antt =====
-- kernel/mm/frame.c: the allocator of physical page frames. Free frames that were given back form
-- a stack that is kept in the free frames themselves: a node is a frame that holds the address of
-- the next node (word 0, `next`) and up to 511 frames (words 1 to 511, `frames`). The node on top
-- is mapped at `current_address` through the page table entry `pte`.
-- A frame's memory is a function from the index of a 64-bit word. `none` is a failed assertion or
-- an access through NULL; either stops the machine. TLB invalidation has no state here, and
-- `zero_frame` maps the frame at a fixed address for the time of the clearing.
pub mod Stack
pub mod Pop
pub mod Push
pub mod Stale
pub mod Space
pub mod Start
pub mod Status
use lasagne.Base.{
  ℕ, zero, suc, ◌+◌, ◌-◌, ◌*◌, ◌%◌, ◌^◌, Bool, true, false, ◌||◌, Option, none, some, List, [], ◌∷◌,
  length, get_or, bit_and, bit_or, ◌==◌, ltb, leb, if◌then◌else◌,
}
use lasagne.MemoryMap.{Area, area}

abbrev pub page_size : ℕ
page_size = 4096

abbrev pub Memory : Type 0
Memory = ℕ → ℕ → ℕ

pub record Allocator : Type 0 where
  pub begin : ℕ
  pub end : ℕ
  pub size : ℕ
  pub capacity : ℕ
  pub free : ℕ
  -- `current` is NULL or `current_address`
  pub current : Bool
  pub count : ℕ
  pub current_map_position : ℕ
  pub pte : ℕ

pub record State : Type 0 where
  pub alloc : Allocator
  pub memory : Memory

infixl 5 ◌>>=◌
abbrev pub ◌>>=◌ {ℓ κ} : {A : Type ℓ} {B : Type κ} → Option A → (A → Option B) → Option B
none >>= f = none
some a >>= f = f a

abbrev pub assert : Bool → Option (Unit {0})
assert true = some tt
assert false = none

-- The result is `int64_t`: a difference of 2 ^ 63 or more is negative, and 0 is returned for it.
pub intersection : ℕ → ℕ → ℕ → ℕ → ℕ
intersection begin_a end_a begin_b end_b =
    let max_begin = if ltb begin_b begin_a then begin_a else begin_b in
    let min_end = if ltb end_a end_b then end_a else end_b in
    let diff = (min_end + 2 ^ 64 - max_begin) % 2 ^ 64 in if ltb diff (2 ^ 63) then diff else 0

total_free : ℕ → ℕ → List Area → ℕ
unfolding intersection
total_free begin end [] = 0
total_free begin end (a ∷ as') =
    (intersection begin end a.begin a.end + total_free begin end as') % 2 ^ 64

-- The index of the first area that ends above `begin`; `old` is kept where there is none.
first_relevant : ℕ → ℕ → ℕ → List Area → ℕ
first_relevant old i begin [] = old
first_relevant old i begin (a ∷ as') =
    if ltb begin a.end then i else first_relevant old (i + 1) begin as'

-- `mem_map.area[i]`; past the areas that are in use it is zeroed memory.
abbrev pub area_at : List Area → ℕ → Area
area_at areas i = get_or areas i (area 0 0)

-- `old` is the position that the structure held before.
unfoldable pub init : List Area → ℕ → ℕ → ℕ → Option Allocator
unfolding total_free first_relevant
init areas old begin end = do
  _ ← assert (begin % page_size == 0)
  _ ← assert (end % page_size == 0)
  _ ← assert (ltb begin end)
  let free = total_free begin end areas
  let position = first_relevant old 0 begin areas
  let start = (area_at areas position).begin
  let begin' = if ltb begin start then start else begin
  some (record {
    begin = begin';
    end = end;
    size = (end + 2 ^ 64 - begin') % 2 ^ 64;
    capacity = free;
    free = free;
    current = false;
    count = 0;
    current_map_position = position;
    pte = 3;
  })

-- The next frame that was never handed out.
unfoldable pub extend : List Area → Allocator → ℕ × Allocator
extend areas a =
    if a.begin == (area_at areas a.current_map_position).end
    then (let b = (area_at areas (a.current_map_position + 1)).begin in
        (
          b,
          record a {
            current_map_position = a.current_map_position + 1;
            begin = (b + 4096) % 2 ^ 64;
          },
        ))
    else (a.begin, record a { begin = (a.begin + 4096) % 2 ^ 64 })

-- `*alloc->current_pte & ~0xFFF`.
pub mapped : ℕ → ℕ
mapped pte = bit_and pte ((2 ^ 52 - 1) * 2 ^ 12)

-- `map`: the new entry, and whether a node is mapped.
pub map_node : ℕ → ℕ → ℕ × Bool
map_node pte addr = if addr == 0 then (pte, false) else (bit_or (bit_and pte 0xFFF) addr, true)

-- A word of the node behind `alloc->current`.
abbrev pub load : State → ℕ → Option ℕ
load s word = if s.alloc.current then some (s.memory (mapped s.alloc.pte) word) else none

abbrev pub write : Memory → ℕ → ℕ → ℕ → Memory
write m frame word value = λ f w. if f == frame then (if w == word then value else m f w) else m f w

abbrev pub store : State → ℕ → ℕ → Option State
store s word value =
    if s.alloc.current
    then some (record s { memory = write s.memory (mapped s.alloc.pte) word value })
    else none

pub zero_frame : Memory → ℕ → Memory
zero_frame m frame = λ f w. if f == frame then 0 else m f w

-- `frame` and the allocator before the last lines of `alloc_frame`.
unfoldable pub take_frame : List Area → State → Option (ℕ × Allocator)
take_frame areas s =
    if ltb 1 s.alloc.count
    then (do
      frame ← load s (s.alloc.count - 2 + 1)
      some (frame, record (s.alloc) { count = s.alloc.count - 1 }))
    else (if s.alloc.count == 1
        then (do
          next ← load s 0
          let (pte, current) = map_node s.alloc.pte next
          some (
            mapped s.alloc.pte,
            record (s.alloc) { pte = pte; current = current; count = if current then 512 else 0 },
          ))
        else some (extend areas s.alloc))

-- Frame 0 is returned when no memory is left.
unfoldable pub alloc_frame : List Area → State → Option (ℕ × State)
alloc_frame areas s = if s.alloc.free == 0 then some (0, s) else (do
  (frame, a) ← take_frame areas s
  _ ← assert (if frame == 2 ^ 64 - 1 then false else true)
  _ ← assert (frame % page_size == 0)
  some (
    frame,
    record {
      alloc = record a { free = (a.free + 2 ^ 64 - page_size) % 2 ^ 64 };
      memory = zero_frame s.memory frame;
    },
  ))

-- The frame is pushed: as a new node, or into the node on top.
pub push_frame : State → ℕ → Option State
push_frame s frame =
    if s.alloc.count == 0 || s.alloc.count == 512
    then (do
      let next = mapped s.alloc.pte
      let (pte, current) = map_node s.alloc.pte frame
      store (record s { alloc = record (s.alloc) { pte = pte; current = current; count = 1 } }) 0
          next)
    else (do
      t ← store s (s.alloc.count - 1 + 1) frame
      some (record t { alloc = record (t.alloc) { count = t.alloc.count + 1 } }))

pub dealloc_frame : State → ℕ → Option State
dealloc_frame s frame = do
  _ ← assert (frame % 4096 == 0)
  t ← push_frame s frame
  let free = (t.alloc.free + page_size) % 2 ^ 64
  _ ← assert (leb free t.alloc.size)
  some (record t { alloc = record (t.alloc) { free = free } })
