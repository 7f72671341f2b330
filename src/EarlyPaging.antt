-- ===== src/EarlyPaging.antt =====
-- kernel/arch/x64/paging_init32.c: the first page tables, filled in 32-bit mode. The addresses that the linker sets are a record;
-- a table is a function of the index, and the kernel's last tables, which lie one behind the other, are one.
pub mod Loops
pub mod Sections
use lasagne.Base.{
  ℕ, zero, suc, ◌+◌, ◌-◌, ◌*◌, ◌/◌, ◌%◌, ◌^◌, Bool, true, false, Option, none, some, ◌==◌, ltb,
  if◌then◌else◌, bit_or,
}
use lasagne.Frame.{◌>>=◌}
use lasagne.Pages.{pg_present, pg_rw, pg_nx, pg_self}

-- The physical addresses of the tables and of the kernel's sections.
pub record Symbols : Type 0 where
  pub pml4t : ℕ
  pub pdpt : ℕ
  pub kernel_pd : ℕ
  pub identity_pd : ℕ
  pub kernel_text : ℕ
  pub kernel_rodata : ℕ
  pub kernel_data : ℕ
  pub kernel_bss : ℕ
  pub kernel_end : ℕ

pub record Tables : Type 0 where
  pub pml4t : ℕ → ℕ
  pub pdpt : ℕ → ℕ
  pub kernel_pd : ℕ → ℕ
  pub kernel_pts : ℕ → ℕ

-- `current_pte`, as an index, and `current_page`.
pub record Cursor : Type 0 where
  pub pte : ℕ
  pub page : ℕ
  pub table : ℕ → ℕ

abbrev pub pg_global : ℕ
pg_global = 2 ^ 8

abbrev pub present_rw : ℕ
present_rw = pg_present + pg_rw

abbrev pub set_entry : (i value : ℕ) → (ℕ → ℕ) → ℕ → ℕ
set_entry i value table = λ j. if j == i then value else table j

-- A loop over the pages of a section.
pub fill_section : (fuel end flags : ℕ) → Cursor → Option Cursor
fill_section zero end flags c = none
fill_section (suc fuel) end flags c = elim (ltb c.page end) [
  | false ↦ some c
  | true ↦ fill_section fuel end flags (record {
    pte = c.pte + 1;
    page = c.page + 4096;
    table = set_entry c.pte (bit_or c.page flags) c.table;
  })
]

-- The rest of the last table.
pub clean_rest : (fuel end : ℕ) → Cursor → Option Cursor
clean_rest zero end c = none
clean_rest (suc fuel) end c = elim (ltb c.pte end) [
  | false ↦ some c
  | true ↦ clean_rest fuel end (record c { pte = c.pte + 1; table = set_entry c.pte 0 c.table })
]

abbrev pub first_flags : ℕ
first_flags = present_rw + pg_global + pg_nx

abbrev pub text_flags : ℕ
text_flags = pg_present + pg_global

abbrev pub rodata_flags : ℕ
rodata_flags = pg_present + pg_global + pg_nx

abbrev pub data_flags : ℕ
data_flags = present_rw + pg_global + pg_nx

-- What a page table covers.
abbrev pub pt_range : ℕ
pt_range = 512 * 4096

abbrev pub page_tables_for_kernel : Symbols → ℕ
page_tables_for_kernel s =
    if s.kernel_end % pt_range == 0 then s.kernel_end / pt_range else s.kernel_end / pt_range + 1

-- The kernel's page tables, which begin at its end.
pub fill_kernel_pts : (fuel : ℕ) → Symbols → (ℕ → ℕ) → Option Cursor
fill_kernel_pts fuel s table = do
  first ← fill_section fuel s.kernel_text first_flags (record { pte = 0; page = 0; table = table })
  text ← fill_section fuel s.kernel_rodata text_flags first
  rodata ← fill_section fuel s.kernel_data rodata_flags text
  data_ ← fill_section fuel s.kernel_bss data_flags rodata
  bss ← fill_section fuel s.kernel_end data_flags data_
  clean_rest fuel (page_tables_for_kernel s * 512) bss

unfoldable pub fill_kernel_pd : (n : ℕ) → Symbols → (ℕ → ℕ) → ℕ → ℕ
fill_kernel_pd zero s table = table
fill_kernel_pd (suc n) s table =
    set_entry n (bit_or ((s.kernel_end + n * 4096) % 2 ^ 32) present_rw) (fill_kernel_pd n s table)

pub initialize_paging : (fuel : ℕ) → Symbols → Tables → Option Tables
initialize_paging fuel s t =
    let entry = bit_or (bit_or s.pdpt present_rw) (2 ^ 52) in
    let n = page_tables_for_kernel s in
    let pd = fill_kernel_pd n s t.kernel_pd in
    let last = s.kernel_end % pt_range / 4096 in
    elim (fill_kernel_pts fuel s t.kernel_pts) [
      | none ↦ none
      | some c ↦ some (record {
        pml4t =
            set_entry pg_self (bit_or s.pml4t present_rw)
              (set_entry 511 entry (set_entry 0 entry t.pml4t));
        pdpt =
            set_entry 510 (bit_or (bit_or s.kernel_pd present_rw) (n * 2 ^ 52))
              (set_entry 0 (bit_or s.identity_pd present_rw) t.pdpt);
        kernel_pd = set_entry (n - 1) (bit_or (pd (n - 1)) (last * 2 ^ 52)) pd;
        kernel_pts = c.table;
      })
    ]
