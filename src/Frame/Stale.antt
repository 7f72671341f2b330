-- ===== src/Frame/Stale.antt =====
-- kernel/mm/frame.c: when the last node is taken, `map` leaves its address in the page table
-- entry, and the next `dealloc_frame` links the node to that frame as if it were still free.
use lasagne.Base.{
  ℕ, ◌+◌, ◌-◌, ◌%◌, ◌^◌, ◌≤◌, ◌<◌, ◌≡◌, ◌≢◌, refl, ◌∙◌, ap, arith, true, false, some, List,
}
use lasagne.MemoryMap.{Area}
use lasagne.Frame.{
  State, write, mapped, map_node, zero_frame, take_frame, alloc_frame, push_frame, dealloc_frame,
}
use lasagne.Frame.Stack.{IsFrame, mapped_lem, map_node_lem}

-- The stack holds the frame `x` alone: it is the node on top, and there is no node behind it.
pub record IsLast (s : State) (x : ℕ) : Type 0 where
  pub frame : IsFrame x
  pub entry : s.alloc.pte ≡ x + 3
  pub count : s.alloc.count ≡ 1
  pub present : s.alloc.current ≡ true
  pub end : s.memory x 0 ≡ 0
  pub stocked : 4096 ≤ s.alloc.free
  pub room : s.alloc.free ≤ s.alloc.size
  pub small : s.alloc.size < 2 ^ 64

module _ (areas : List Area) (s : State) (x y : ℕ) (l : IsLast s x) (i : IsFrame y)
    (ne : y ≢ x) where
  abbrev taken : State
  taken = record {
    alloc = record (s.alloc) {
      current = false;
      count = 0;
      free = (s.alloc.free + 2 ^ 64 - 4096) % 2 ^ 64;
    };
    memory = zero_frame s.memory x;
  }

  abbrev given : State
  given = record {
    alloc = record (s.alloc) { pte = y + 3; current = true; count = 1; free = s.alloc.free };
    memory = write (zero_frame s.memory x) y 0 x;
  }

  abbrev retaken : State
  retaken = record {
    alloc = record (s.alloc) {
      pte = x + 3;
      current = true;
      count = 512;
      free = (s.alloc.free + 2 ^ 64 - 4096) % 2 ^ 64;
    };
    memory = zero_frame (write (zero_frame s.memory x) y 0 x) y;
  }

  at_x : mapped s.alloc.pte ≡ x
  at_x = ap mapped l.entry ∙ mapped_lem x l.frame.0 l.frame.2

  at_y : mapped (y + 3) ≡ y
  at_y = mapped_lem y i.0 i.2

  first : alloc_frame areas s ≡ some (x, taken)
  unfolding alloc_frame take_frame
  first =
      let e : map_node s.alloc.pte 0 ≡ (s.alloc.pte, false) = unfold map_node in refl in
      ground (arith, at_x, e, l.frame, l.present, l.count, l.end, l.stocked)

  second : dealloc_frame taken y ≡ some given
  unfolding dealloc_frame push_frame
  second =
      let e : map_node s.alloc.pte y ≡ (y + 3, true) =
        ap (λ p. map_node p y) l.entry ∙ map_node_lem x y l.frame.0 i in
      ground (arith, at_x, at_y, e, l.stocked, l.room, l.small)

  third : alloc_frame areas given ≡ some (y, retaken)
  unfolding alloc_frame take_frame
  third =
      let e : map_node (y + 3) x ≡ (x + 3, true) = map_node_lem y x i.0 l.frame in
      let z : given.memory y 0 ≡ x = ground arith in ground (arith, at_y, e, z, l.stocked, l.frame)

  -- Take the last frame `x` of the stack, give back another frame `y` and take it again: the allocator
  -- then has `x`, which is in use, for a node with 511 free frames in it.
  pub stale_node :
      (t u v : State) × (alloc_frame areas s ≡ some (x, t))
      × (dealloc_frame t y ≡ some u)
      × (alloc_frame areas u ≡ some (y, v))
      × (v.alloc.count ≡ 512)
      × (v.alloc.current ≡ true)
      × (mapped v.alloc.pte ≡ x)
  stale_node =
      (taken, given, retaken, first, second, third, refl, refl, mapped_lem x l.frame.0 l.frame.2)
