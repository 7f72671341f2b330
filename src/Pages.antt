-- ===== src/Pages.antt =====
-- kernel/mm/pages.c and kernel/include/mm/pages.h: mapping of pages through the page tables, which the tables' entry 510 puts into
-- the address space. `entries` is the word at each address there; a table that is new reads as what it is filled
-- with, and one that is not mapped is not read. `invlpg` and `reload_paging` have no effect on it. `none` is a machine that
-- halts.
pub mod Unmap
pub mod Range
pub mod Address
pub mod Map
pub mod Mapped
pub mod Flags
pub mod Start
pub mod Returns
use lasagne.Base.{
  ℕ, zero, suc, ◌+◌, ◌-◌, ◌*◌, ◌/◌, ◌%◌, ◌^◌, Bool, true, false, ◌&&◌, ◌||◌, Option, none, some,
  ◌==◌, ltb, if◌then◌else◌, bit_and, bit_or, bit_xor, List,
}
use lasagne.MemoryMap.{Area}
use lasagne.Frame.{State, alloc_frame, dealloc_frame}

abbrev pub pg_present : ℕ
pg_present = 1

abbrev pub pg_rw : ℕ
pg_rw = 2

abbrev pub pg_user : ℕ
pg_user = 4

-- PG_LAZY, the first bit that the processor ignores.
abbrev pub pg_lazy : ℕ
pg_lazy = 2 ^ 9

abbrev pub pg_nx : ℕ
pg_nx = 2 ^ 63

abbrev pub map_rw : ℕ
map_rw = pg_rw

abbrev pub map_exe : ℕ
map_exe = pg_nx

abbrev pub map_immediate : ℕ
map_immediate = 2 ^ 12

abbrev pub map_user : ℕ
map_user = pg_user

abbrev pub pg_self : ℕ
pg_self = 510

abbrev pub l4pte_mask : ℕ
l4pte_mask = 511 * 2 ^ 39

-- `1L << PG_REFCOUNT_OFFSET`
abbrev pub refcount_one : ℕ
refcount_one = 2 ^ 52

abbrev pub refcount_mask : ℕ
refcount_mask = 1023 * 2 ^ 52

-- 0xFFFFFFFFFF000
abbrev pub phys_addr_mask : ℕ
phys_addr_mask = 2 ^ 52 - 2 ^ 12

-- frame.c, for a state `F` of the frame allocator.
pub record FrameSource (F : Type 0) : Type 0 where
  pub get_frame : F → Option (ℕ × F)
  pub free_frame : ℕ → F → Option F

-- With the default allocator.
abbrev pub default_frames : List Area → FrameSource State
default_frames areas = record {
  get_frame = alloc_frame areas;
  free_frame = λ frame s. dealloc_frame s frame;
}

pub record Paging (F : Type 0) : Type 0 where
  pub entries : ℕ → ℕ
  pub frames : F
  pub zero_page : ℕ

-- struct pt_entries
pub record PtEntries : Type 0 where
  pub entry0 : ℕ
  pub entry1 : ℕ
  pub entry2 : ℕ
  pub entry3 : ℕ
  pub present_mask : ℕ

-- A round of the first loop of `ptes`.
unfoldable pub table_address : ℕ → ℕ
table_address address =
    bit_or (bit_and (address / 2 ^ 9) (2 ^ 64 - 1 - (l4pte_mask + 7)))
      (65535 * 2 ^ 48 + pg_self * 2 ^ 39)

abbrev pub is_present : ℕ → Bool
is_present entry = bit_and entry pg_present == 1

-- The second loop stops at the first entry that is not present.
unfoldable pub ptes : (address : ℕ) → (entries : ℕ → ℕ) → PtEntries
ptes address entries =
    let e3 = table_address address in
    let e2 = table_address e3 in
    let e1 = table_address e2 in
    let e0 = table_address e1 in
    record {
      entry0 = e0;
      entry1 = e1;
      entry2 = e2;
      entry3 = e3;
      present_mask =
          if is_present (entries e0)
          then (if is_present (entries e1)
              then (if is_present (entries e2)
                  then (if is_present (entries e3) then 15 else 7)
                  else 3)
              else 1)
          else 0;
    }

abbrev pub write : (address value : ℕ) → (ℕ → ℕ) → ℕ → ℕ
write address value entries = λ a. if a == address then value else entries a

abbrev pub increase_counter : ℕ → (ℕ → ℕ) → ℕ → ℕ
increase_counter pte entries = write pte ((entries pte + refcount_one) % 2 ^ 64) entries

-- The count, and the entries.
unfoldable pub decrease_counter : ℕ → (ℕ → ℕ) → ℕ × (ℕ → ℕ)
decrease_counter pte entries =
    let value = (entries pte + 2 ^ 64 - refcount_one) % 2 ^ 64 in
    (bit_and value refcount_mask / 2 ^ 52, write pte value entries)

-- `memset` of the page that the address is in.
abbrev pub clear_page : ℕ → (ℕ → ℕ) → ℕ → ℕ
clear_page address entries = λ a. if a / 4096 == address / 4096 then 0 else entries a

-- A round of `ensure_pt_exists` for a table that does not exist: `parent` is the entry whose counter grows.
unfoldable pub new_table :
    {F : Type 0}
    → FrameSource F
    → (entry child : ℕ) → (parent : Option ℕ) → Paging F
    → Option (Paging F)
new_table g entry child parent s = elim (g.get_frame s.frames) [
  | none ↦ none
  | some (frame, frames) ↦
      let cleared =
        clear_page child
          (write entry (bit_or (bit_or (bit_or frame pg_present) pg_rw) pg_user) s.entries) in
      some (record s {
        frames = frames;
        entries = elim parent [ none ↦ cleared | some p ↦ increase_counter p cleared ];
      })
]

-- `mask & 1 << i`
abbrev pub has_level : (mask i : ℕ) → Bool
has_level mask i = mask / 2 ^ i % 2 == 1

unfoldable pub ensure_level :
    {F : Type 0}
    → FrameSource F
    → (e : PtEntries) → (i entry child : ℕ) → Option ℕ
    → Paging F
    → Option (Paging F)
ensure_level g e i entry child parent s =
    if has_level e.present_mask i then some s else new_table g entry child parent s

unfoldable pub ensure_pt_exists :
    {F : Type 0} → FrameSource F → PtEntries → Paging F → Option (Paging F)
ensure_pt_exists g e s = elim (ensure_level g e 0 e.entry0 e.entry1 none s) [
  | none ↦ none
  | some s1 ↦ elim (ensure_level g e 1 e.entry1 e.entry2 (some e.entry0) s1) [
    | none ↦ none
    | some s2 ↦ ensure_level g e 2 e.entry2 e.entry3 (some e.entry1) s2
  ]
]

unfoldable pub map_page :
    {F : Type 0}
    → FrameSource F
    → (virtual physical physical_flags : ℕ) → Paging F
    → Option (Paging F)
map_page g virtual physical physical_flags s =
    if virtual % 4096 == 0 && physical % 4096 == 0
    then (let e = ptes virtual s.entries in
        elim (if has_level e.present_mask 2 then some s else ensure_pt_exists g e s) [
          | none ↦ none
          | some t ↦
              let counted =
                if has_level e.present_mask 3
                then t.entries
                else increase_counter e.entry2 t.entries in
              some (record t { entries = write e.entry3 (bit_or physical physical_flags) counted })
        ])
    else none
