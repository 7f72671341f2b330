-- ===== src/Tests/Frames.antt =====
-- kernel/mm/frame.c with two free frames in one node, or with the node alone.
use lasagne.Base.{◌≡◌, refl, inl, inr, arith, true, some, List, [], ◌∷◌}
use lasagne.MemoryMap.{Area, area}
use lasagne.Frame.{Memory, Allocator, State, write, mapped, area_at, alloc_frame, dealloc_frame}
use lasagne.Frame.Stack.{IsFrame, Rep}
use lasagne.Frame.Pop.{Popped, alloc_frame_lem}
use lasagne.Frame.Push.{Pushed, dealloc_frame_lem, dealloc_frame-alloc_frame}
use lasagne.Frame.Stale.{IsLast, stale_node}
use lasagne.Frame.Space.{IsWhole, IsInside}

abbrev areas : List Area
areas = area 4096 65536 ∷ area 131072 196608 ∷ []

abbrev allocator : Allocator
allocator = record {
  begin = 65536;
  end = 196608;
  size = 126976;
  capacity = 126976;
  free = 73728;
  current = true;
  count = 2;
  current_map_position = 0;
  pte = 8195;
}

abbrev empty : Memory
empty = λ f w. 0

abbrev two_frames : State
two_frames = record { alloc = allocator; memory = write empty 8192 1 12288 }

abbrev one_frame : State
one_frame = record { alloc = record allocator { count = 1 }; memory = empty }

two_frames-Rep : Rep two_frames (12288 ∷ 8192 ∷ [])
two_frames-Rep = record {
  top = 8192;
  entry = refl;
  whole = refl;
  small = omega arith;
  holds = inr (inr (0, refl, refl, inl (refl, refl, refl, refl)));
  distinct = (refl, (refl, tt));
  frames = ((refl, omega arith, omega arith), ((refl, omega arith, omega arith), tt));
  bounded = omega arith;
  present = inr refl;
}

page_four : IsFrame 16384
page_four = (refl, omega arith, omega arith)

one_frame-IsLast : IsLast one_frame 8192
one_frame-IsLast = record {
  frame = (refl, omega arith, omega arith);
  entry = refl;
  count = refl;
  present = refl;
  end = refl;
  stocked = omega arith;
  room = omega arith;
  small = omega arith;
}

first-IsWhole : IsWhole (area_at areas 0)
first-IsWhole = record { begin = refl; end = refl; nonempty = omega arith; small = omega arith }

second-IsWhole : IsWhole (area_at areas 1)
second-IsWhole = record { begin = refl; end = refl; nonempty = omega arith; small = omega arith }

allocator-IsInside : IsInside allocator (area_at areas 0)
allocator-IsInside = record { whole = refl; from = omega arith; to = omega arith }

alloc_frame_example : Popped two_frames 12288 (8192 ∷ []) (alloc_frame areas two_frames)
alloc_frame_example =
    alloc_frame_lem areas two_frames 12288 (8192 ∷ []) two_frames-Rep (omega arith) (omega arith)

dealloc_frame_example : Pushed two_frames 16384 (12288 ∷ 8192 ∷ []) (dealloc_frame two_frames 16384)
dealloc_frame_example =
    dealloc_frame_lem two_frames 16384 (12288 ∷ 8192 ∷ []) two_frames-Rep page_four refl
      (λ e. absurd (omega arith)) (omega arith) (omega arith)

dealloc_frame-alloc_frame_example :
    (t : State) × (dealloc_frame two_frames 16384 ≡ some t)
    × Popped t 16384 (12288 ∷ 8192 ∷ []) (alloc_frame areas t)
dealloc_frame-alloc_frame_example =
    dealloc_frame-alloc_frame areas two_frames 16384 (12288 ∷ 8192 ∷ []) two_frames-Rep page_four
      refl (λ e. absurd (omega arith)) (omega arith) (omega arith)

stale_node_example :
    (t u v : State) × (alloc_frame areas one_frame ≡ some (8192, t))
    × (dealloc_frame t 16384 ≡ some u)
    × (alloc_frame areas u ≡ some (16384, v))
    × (v.alloc.count ≡ 512)
    × (v.alloc.current ≡ true)
    × (mapped v.alloc.pte ≡ 8192)
stale_node_example = stale_node areas one_frame 8192 16384 one_frame-IsLast page_four (omega arith)
