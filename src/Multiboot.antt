-- ===== src/Multiboot.antt =====
-- kernel/arch/x64/multiboot.c and kernel/include/multiboot.h: the boot loader's information. The memory that it is in is two
-- functions of the address, for words of 32 and of 64 bits. `none` is a machine that halts, on a failed
-- assertion or a division by zero, and a loop without end.
pub mod Entries
pub mod Tags
use lasagne.Base.{
  ℕ, zero, suc, ◌+◌, ◌-◌, ◌*◌, ◌/◌, ◌%◌, ◌^◌, Bool, true, false, ◌||◌, Option, none, some, List,
  ◌==◌, ltb, if◌then◌else◌,
}
use lasagne.MemoryMap.{Area, MemoryMap, add_area, sanitize}

pub record Words : Type 0 where
  pub word32 : ℕ → ℕ
  pub word64 : ℕ → ℕ

-- MB_MEMORY_MAP
abbrev pub mb_memory_map : ℕ
mb_memory_map = 6

-- MB_RAM_AVAILABLE
abbrev pub mb_ram_available : ℕ
mb_ram_available = 1

-- MB_RAM_ACPI
abbrev pub mb_ram_acpi : ℕ
mb_ram_acpi = 3

-- sizeof(struct mb_memmap)
abbrev pub memmap_size : ℕ
memmap_size = 16

-- sizeof(struct mb_memmap_entry)
abbrev pub memmap_entry_size : ℕ
memmap_entry_size = 24

abbrev pub is_usable : (type : ℕ) → Bool
is_usable type = type == mb_ram_available || type == mb_ram_acpi

-- The loop over the entries.
unfoldable pub fill_entries : (entries : ℕ) (w : Words) (entry : ℕ) → List Area → Option (List Area)
fill_entries zero w entry areas = some areas
fill_entries (suc n) w entry areas = elim (is_usable (w.word32 (entry + 16))) [
  | true ↦
      elim (add_area (w.word64 entry) ((w.word64 entry + w.word64 (entry + 8)) % 2 ^ 64) areas) [
        | none ↦ none
        | some out ↦ fill_entries n w (entry + memmap_entry_size) out
      ]
  | false ↦ fill_entries n w (entry + memmap_entry_size) areas
]

-- The quotient is an `int`: a negative one has no rounds.
abbrev pub entries_of : (size entry_size : ℕ) → ℕ
entries_of size entry_size =
    let quotient = (size + 2 ^ 64 - memmap_size) % 2 ^ 64 / entry_size % 2 ^ 32 in
    if ltb quotient (2 ^ 31) then quotient else 0

unfoldable pub fill_memory_map : (w : Words) (mb : ℕ) → List Area → Option (List Area)
fill_memory_map w mb areas =
    if w.word32 (mb + 8) == 0
    then none
    else fill_entries (entries_of (w.word32 (mb + 4)) (w.word32 (mb + 8))) w (mb + memmap_size)
        areas

unfoldable pub parse_memory_map : (w : Words) (mb : ℕ) → MemoryMap → Option MemoryMap
parse_memory_map w mb m = elim (fill_memory_map w mb m.areas) [
  | none ↦ none
  | some areas ↦ sanitize areas
]

-- A tag's size up to the next multiple of 8, as a `uint32_t`.
unfoldable pub tag_size : ℕ → ℕ
tag_size size = if size % 8 == 0 then size else (size + (8 - size % 8)) % 2 ^ 32

-- The switch over the type of the tag at `mb`.
unfoldable pub read_tag : (type : ℕ) (w : Words) (mb : ℕ) → MemoryMap → Option MemoryMap
read_tag type w mb m = if type == mb_memory_map then parse_memory_map w mb m else some m

-- The loop over the tags, `size` of whose bytes are left.
unfoldable pub parse_tags : (fuel : ℕ) (w : Words) (mb size : ℕ) → MemoryMap → Option MemoryMap
parse_tags zero w mb size m = none
parse_tags (suc fuel) w mb size m = elim (size == 0) [
  | true ↦ some m
  | false ↦
      let step = tag_size (w.word32 (mb + 4)) in
      elim (read_tag (w.word32 mb) w mb m) [
        | none ↦ none
        | some out ↦ parse_tags fuel w (mb + step) ((size + 2 ^ 32 - step) % 2 ^ 32) out
      ]
]

unfoldable pub parse_multiboot : (fuel : ℕ) (w : Words) (mb : ℕ) → MemoryMap → Option MemoryMap
parse_multiboot fuel w mb m = parse_tags fuel w (mb + 8) ((w.word32 mb + 2 ^ 32 - 8) % 2 ^ 32) m
