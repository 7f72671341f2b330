-- ===== src/Alloc/Start.antt =====
-- `initialize_kernel_heap` of kernel/mm/alloc.c. The nodes that lie in the memory of the heap are those that are read there.
use lasagne.Base.{inl, ℕ, ◌+◌, ◌*◌, ◌%◌, ◌≡◌, refl, arith, Option, none, some, bit_or}
use lasagne.Pages.{FrameSource, Paging, map_rw, map_immediate}
use lasagne.Pages.Range.{map_range}
use lasagne.Pages.Returns.{Supplies, Returns, map_range-Returns}
use lasagne.Buddy.{Heap, State, init, bitmaps_size}
use lasagne.Buddy.Coalesce.{IsConsistent}
use lasagne.Buddy.Begin.{whole_memory, init-IsConsistent}

abbrev pub kernel_heap : ℕ
kernel_heap = 0xffffffff81000000

abbrev pub kernel_heap_size : ℕ
kernel_heap_size = 8 * 1024 * 1024

abbrev pub kernel_heap_leaf : ℕ
kernel_heap_leaf = 64

-- The bitmaps, and behind them the blocks.
map_heap : {F : Type 0} → FrameSource F → Paging F → Option (Paging F)
map_heap g s =
    let bitmap_size = bitmaps_size kernel_heap_size kernel_heap_leaf in
    elim (map_range g kernel_heap bitmap_size (bit_or map_rw map_immediate) s) [
      | none ↦ none
      | some t ↦ map_range g (kernel_heap + bitmap_size) kernel_heap_size map_rw t
    ]

pub initialize_kernel_heap :
    {F : Type 0} → FrameSource F → (nodes : Heap) → Paging F → Option (State × Paging F)
initialize_kernel_heap g nodes s =
    let bitmap_size = bitmaps_size kernel_heap_size kernel_heap_leaf in
    elim (map_heap g s) [
      | none ↦ none
      | some t ↦
          elim (init (kernel_heap + bitmap_size) kernel_heap_size kernel_heap_leaf kernel_heap) [
            | none ↦ none
            | some a ↦ some (record { alloc = a; heap = nodes }, t)
          ]
    ]

-- The kernel's heap behind its initialization, and its pages.
pub record IsHeap {F : Type 0} (P : F → Type 0) (nodes : Heap) (r : Option (State × Paging F))
    : Type 0 where
  pub heap : State
  pub paging : Paging F
  pub returns : r ≡ some (heap, paging)
  pub nodes_kept : heap.heap ≡ nodes
  pub consistent : IsConsistent heap (whole_memory 0xffffffff81040000) 6
  pub free_size : heap.alloc.free_size ≡ 8 * 1024 * 1024
  pub frames_kept : P paging.frames

module _ {F : Type 0} (g : FrameSource F) (P : F → Type 0) (supplies : Supplies g P) where
  map_heap-Returns :
      (s : Paging F) → P s.frames → s.zero_page % 4096 ≡ 0 → Returns P s (map_heap g s)
  unfolding map_heap bitmaps_size
  map_heap-Returns s p z =
      let a =
        map_range-Returns g P supplies kernel_heap 0x40000 (bit_or map_rw map_immediate) s p refl
          z in
      let b =
        map_range-Returns g P supplies 0xffffffff81040000 kernel_heap_size map_rw a.after a.kept
          refl (omega (arith, a.zero_page, z)) in
      record {
        after = b.after;
        returns = rw (map_heap, a.returns) b.returns;
        kept = b.kept;
        zero_page = ground (arith, a.zero_page, b.zero_page);
      }

  -- With frames at hand, a zero page, and a heap whose first words read as 0, `initialize_kernel_heap` maps the pages and returns a
  -- heap of 8 MiB: its one free block is the whole memory behind the bitmaps, and lists, bits and sizes agree.
  pub initialize_kernel_heap_lem :
      (nodes : Heap) (s : Paging F)
      → P s.frames
      → s.zero_page % 4096 ≡ 0
      → nodes 0xffffffff81040000 ≡ record { prev = 0; next = 0 }
      → IsHeap P nodes (initialize_kernel_heap g nodes s)
  unfolding initialize_kernel_heap bitmaps_size
  initialize_kernel_heap_lem nodes s p z node =
      let m = map_heap-Returns s p z in
      let (a, e, c, f, _) =
        init-IsConsistent 0xffffffff81040000 6 17 kernel_heap nodes (omega arith) (omega arith)
          (omega arith) (omega arith) (omega arith) (inl (omega arith)) (omega arith) node in
      record {
        heap = record { alloc = a; heap = nodes };
        paging = m.after;
        returns = rw (initialize_kernel_heap, m.returns, e) refl;
        nodes_kept = refl;
        consistent = c;
        free_size = f;
        frames_kept = m.kept;
      }
