-- ===== src/Frame/Start.antt =====
-- The first frames of kernel/mm/frame.c, before any is given back.
use lasagne.Base.{
  ℕ, ◌+◌, ◌-◌, ◌%◌, ◌^◌, ◌≡◌, refl, inl, inr, arith, false, Option, some, ◌==◌, ltb, Bool-cases,
  List,
}
use lasagne.MemoryMap.{Area, end_of_last}
use lasagne.Frame.{Allocator, State, area_at, init, extend, take_frame, alloc_frame}

-- `default_frame_allocator` behind `alloc_init`; `kernel_end` is the first frame behind the kernel.
unfoldable pub initialize_frame_allocation : List Area → (old kernel_end : ℕ) → Option Allocator
initialize_frame_allocation areas old kernel_end = init areas old kernel_end (end_of_last areas)

-- No frame was given back, and the areas and the next frame begin at a page.
pub record IsFresh (areas : List Area) (s : State) : Type 0 where
  pub none_free : s.alloc.count ≡ 0
  pub begin : s.alloc.begin % 4096 ≡ 0
  pub areas_aligned : (i : ℕ) → (area_at areas i).begin % 4096 ≡ 0

-- What `alloc_frame` hands out then.
pub record Extended (areas : List Area) (r : Option (ℕ × State)) : Type 0 where
  pub frame : ℕ
  pub after : State
  pub returns : r ≡ some (frame, after)
  pub aligned : frame % 4096 ≡ 0
  pub fresh : IsFresh areas after

extend_lem :
    (areas : List Area) (s : State)
    → IsFresh areas s
    → let (b, a) = extend areas s.alloc in (b % 4096 ≡ 0) × (a.begin % 4096 ≡ 0) × (a.count ≡ 0)
unfolding extend
extend_lem areas s v =
    elim (Bool-cases (s.alloc.begin == (area_at areas s.alloc.current_map_position).end)) [
      | inl e ↦
          let next = v.areas_aligned (s.alloc.current_map_position + 1) in
          rw e (next, omega (arith, next), v.none_free)
      | inr e ↦ rw e (v.begin, omega (arith, v.begin), v.none_free)
    ]

take_frame-extend :
    (areas : List Area) (s : State)
    → s.alloc.count ≡ 0
    → take_frame areas s ≡ some (extend areas s.alloc)
unfolding take_frame
take_frame-extend areas s z =
    let few : ltb 1 s.alloc.count ≡ false = ground arith in
    let not_one : (s.alloc.count == 1) ≡ false = ground arith in rw (few, not_one) refl

pub alloc_frame-Extended :
    (areas : List Area) (s : State) → IsFresh areas s → Extended areas (alloc_frame areas s)
unfolding alloc_frame
alloc_frame-Extended areas s v = elim (Bool-cases (s.alloc.free == 0)) [
  | inl e ↦
      rw (alloc_frame, e)
        (record { frame = 0; after = s; returns = refl; aligned = refl; fresh = v })
  | inr e ↦
      let (aligned, begin, count) = extend_lem areas s v in
      let b = (extend areas s.alloc).0 in
      let top : (b == 2 ^ 64 - 1) ≡ false = ground (arith, aligned) in
      rw (alloc_frame, e, take_frame-extend areas s v.none_free, top, aligned)
        (record {
          frame = b;
          after = _;
          returns = refl;
          aligned = aligned;
          fresh = record { none_free = count; begin = begin; areas_aligned = v.areas_aligned };
        })
]
