-- ===== src/Tests/Paging.antt =====
-- kernel/mm/pages.c with frames handed out one after another, and the first tables of a small kernel.
use lasagne.Base.{
  ℕ, ◌+◌, ◌-◌, ◌*◌, ◌^◌, ◌≡◌, refl, arith, true, Option, none, some, List, [], ◌∷◌, bit_and, bit_or,
}
use lasagne.Pages.{
  FrameSource, Paging, ptes, write, decrease_counter, map_page, phys_addr_mask, pg_lazy, pg_rw,
  ensure_pt_exists, ensure_level, new_table, table_address,
}
use lasagne.Pages.Unmap.{unmap_page}
use lasagne.Task.{virtual_memory_start, usermode_stack}
use lasagne.Task.Space.{map_usermode_pages}
use lasagne.Pages.Range.{page_fault_handler, map_range, map_pages, convert_flags}
use lasagne.EarlyPaging.{Symbols, Tables, initialize_paging}
use lasagne.EarlyPaging.Sections.{HasSections, KernelMapped, initialize_paging_lem}
use lasagne.Pages.Address.{virtual_at, AreEntries, ptes_lem}
use lasagne.Pages.Map.{Supplies}
use lasagne.Pages.Mapped.{IsMapped, map_page_lem}
use lasagne.Pages.Flags.{entry_of, page_fault_handler_lem, unmap_page-mapped}

abbrev counting : FrameSource ℕ
counting = record { get_frame = λ n. some (n * 4096, n + 1); free_frame = λ frame n. some n }

abbrev paging : (ℕ → ℕ) → Paging ℕ
paging entries = record { entries = entries; frames = 16; zero_page = 4096 }

abbrev empty : Paging ℕ
empty = paging (λ a. 0)

ptes_example : AreEntries (ptes (virtual_at 65535 511 510 0 1 0) (λ a. 0)) 511 510 0 1
ptes_example =
    ptes_lem 65535 511 510 0 1 0 (λ a. 0) (omega arith) (omega arith) (omega arith) (omega arith)
      (omega arith) (omega arith)

counting-Supplies : Supplies counting 3 16
unfolding Supplies
counting-Supplies = (65536, 17, refl, (69632, 18, refl, (73728, 19, refl, tt)))

map_page_example :
    IsMapped
      (ptes (virtual_at 65535 511 510 0 1 0) (λ a. 0))
      (bit_or 0x5000 3)
      (map_page counting (virtual_at 65535 511 510 0 1 0) 0x5000 3 empty)
map_page_example =
    map_page_lem counting 65535 511 510 0 1 0x5000 3 empty (omega arith) (omega arith) (omega arith)
      (omega arith) (omega arith) (omega arith) refl counting-Supplies

abbrev lazy : Paging ℕ
lazy = paging (λ a. entry_of 2048 1 517)

page_fault_handler_example :
    page_fault_handler counting 0x100000 3 lazy
    ≡ some (
      true,
      record lazy {
        frames = 17;
        entries =
            write
              (ptes 0x100000 lazy.entries).entry3
              (entry_of 2048 16 (bit_or (bit_and 517 (2 ^ 12 - 1 - pg_lazy)) pg_rw))
              lazy.entries;
      },
    )
page_fault_handler_example =
    page_fault_handler_lem counting 0x100000 3 2048 1 517 16 17 lazy refl (omega arith)
      (omega arith) (omega arith) (omega arith) refl refl refl refl

-- Every entry is present and counts two.
abbrev two_pages : Paging ℕ
two_pages = paging (λ a. entry_of 2 5 7)

two_count :
    (decrease_counter
      (ptes (virtual_at 0 0 0 0 256 0) two_pages.entries).entry2
      two_pages.entries).0
    ≡ 1
unfolding decrease_counter
two_count = refl

unmap_page_example :
    let e = ptes (virtual_at 0 0 0 0 256 0) two_pages.entries in
    (t : Paging ℕ) × (unmap_page counting (virtual_at 0 0 0 0 256 0) two_pages
      ≡ some (bit_and (two_pages.entries e.entry3) phys_addr_mask, t))
    × (t.entries e.entry3 ≡ two_pages.entries e.entry3)
    × (t.frames ≡ two_pages.frames)
unmap_page_example =
    unmap_page-mapped counting 0 0 0 0 256 two_pages (omega arith) (omega arith) (omega arith)
      (omega arith) (omega arith) (omega arith) (omega (arith, two_count))

abbrev symbols : Symbols
symbols = record {
  pml4t = 0x101000;
  pdpt = 0x102000;
  kernel_pd = 0x103000;
  identity_pd = 0x104000;
  kernel_text = 0x105000;
  kernel_rodata = 0x110000;
  kernel_data = 0x113000;
  kernel_bss = 0x114000;
  kernel_end = 0x120000;
}

abbrev blank_tables : Tables
blank_tables = record { pml4t = λ i. 0; pdpt = λ i. 0; kernel_pd = λ i. 0; kernel_pts = λ i. 0 }

symbols-HasSections : HasSections symbols 0x105 0x110 0x113 0x114 0x120
symbols-HasSections = record {
  at_text = refl;
  at_rodata = refl;
  at_data = refl;
  at_bss = refl;
  at_end = refl;
  order = record {
    before_rodata = omega arith;
    before_data = omega arith;
    before_bss = omega arith;
    before_end = omega arith;
  };
}

initialize_paging_example :
    KernelMapped symbols 0x105 0x110 0x113 0x120 (initialize_paging 513 symbols blank_tables)
initialize_paging_example =
    initialize_paging_lem 513 0x105 0x110 0x113 0x114 0x120 symbols symbols-HasSections
      (omega arith) (omega arith) blank_tables

-- The entries of the code's and the stack's page, and the first entry of the top table.
abbrev usermode_entries : Option (ℕ × Paging ℕ) → List ℕ
usermode_entries none = []
usermode_entries (some (memory, s)) =
    s.entries (ptes virtual_memory_start s.entries).entry3
    ∷ s.entries (ptes usermode_stack s.entries).entry3
    ∷ memory
    ∷ []

usermode_pages :
    usermode_entries (map_usermode_pages counting empty)
    ≡ (19 * 4096 + 7) ∷ (4096 + pg_lazy + 5) ∷ (2 ^ 52 + 16 * 4096 + 7) ∷ []
unfolding map_usermode_pages map_range map_pages page_fault_handler convert_flags map_page
    ensure_pt_exists ensure_level new_table ptes table_address
usermode_pages = refl
