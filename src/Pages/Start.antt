-- ===== src/Pages/Start.antt =====
-- `initialize_virtual_memory` of kernel/mm/pages.c. `clear` fills a frame, to which a page is mapped, with zeros. The table of
-- the interrupts is that of Irq. `zero_frame`, at the end of `get_frame`, leaves the frame in `frame_pte`; that is written here,
-- where it is read, and not elsewhere.
use lasagne.Base.{ℕ, ◌+◌, Option, none, some, bit_or}
use lasagne.Frame.{State, zero_frame}
use lasagne.Irq.{Irq, errorcode, set_irq_handler}
use lasagne.Pages.{FrameSource, Paging, ptes, write, map_page, pg_present, pg_rw}
use lasagne.Pages.Unmap.{unmap_page}

unfoldable pub disable_identity_paging : {F : Type 0} → Paging F → Paging F
disable_identity_paging s =
    let e = ptes 0 s.entries in record s { entries = write e.entry0 0 (write e.entry1 0 s.entries) }

abbrev pub zero_page_v : ℕ
zero_page_v = 0xFFFFFFFF80001000

-- `memset` through the page, with the default allocator.
abbrev pub default_clear : ℕ → State → State
default_clear frame s = record s { memory = zero_frame s.memory frame }

-- The entry through which `zero_frame` clears a frame: that of `zero_page_v`.
abbrev pub frame_pte : ℕ
frame_pte = 0xffffff7fffc00008

-- The steps up to the two that follow the last call of `map_page`.
unfoldable pub make_zero_page :
    {F : Type 0} → FrameSource F → (clear : ℕ → F → F) → Paging F → Option (Paging F)
make_zero_page g clear s = elim (g.get_frame s.frames) [
  | none ↦ none
  | some (zero_page, frames) ↦
      elim (unmap_page g zero_page_v (record s {
        entries = write frame_pte (bit_or zero_page 3) s.entries;
        zero_page = zero_page;
        frames = frames;
      })) [
        | none ↦ none
        | some (old_addr, s1) ↦ elim (map_page g zero_page_v zero_page (pg_present + pg_rw) s1) [
          | none ↦ none
          | some s2 ↦
              map_page g zero_page_v old_addr (pg_present + pg_rw)
                (record s2 { frames = clear zero_page s2.frames })
        ]
      ]
]

unfoldable pub initialize_virtual_memory :
    {F : Type 0}
    → FrameSource F
    → (clear : ℕ → F → F) → (page_fault_handler : ℕ) → Irq
    → Paging F
    → Option (Irq × Paging F)
initialize_virtual_memory g clear page_fault_handler t s = elim (make_zero_page g clear s) [
  | none ↦ none
  | some u ↦ some (set_irq_handler 14 page_fault_handler errorcode t, disable_identity_paging u)
]
