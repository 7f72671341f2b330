-- ===== src/Pages/Range.antt =====
-- How kernel/mm/pages.c maps ranges of pages, lazily or at once.
use lasagne.Base.{
  ℕ, zero, suc, ◌+◌, ◌-◌, ◌/◌, ◌%◌, ◌^◌, Bool, true, false, ◌&&◌, Option, none, some, ◌==◌,
  if◌then◌else◌, bit_and, bit_or, bit_xor,
}
use lasagne.Pages.{
  FrameSource, Paging, ptes, write, map_page, pg_present, pg_rw, pg_lazy, map_rw, map_exe,
  map_immediate, map_user, phys_addr_mask,
}

-- The flags that the processor knows.
unfoldable pub convert_flags : ℕ → ℕ
convert_flags flags =
    let output = bit_xor (bit_or (bit_and flags (bit_or map_user map_exe)) pg_present) map_exe in
    if bit_and flags map_rw == 0
    then output
    else (if bit_and flags map_immediate == 0 then bit_or output pg_lazy else bit_or output pg_rw)

-- The rounds of `map_range` from `start + i`; there are as many as pages in `size`, rounded up, for
-- a size of at most `2 ^ 64 - 4096`.
unfoldable pub map_pages :
    {F : Type 0} → FrameSource F → (rounds start physical flags : ℕ) → Paging F → Option (Paging F)
map_pages g zero start physical flags s = some s
map_pages g (suc n) start physical flags s =
    elim (if bit_and flags map_immediate == 0
      then some (physical, s.frames)
      else g.get_frame s.frames) [
        | none ↦ none
        | some (frame, frames) ↦
            elim (map_page g start frame (convert_flags flags) (record s { frames = frames })) [
              | none ↦ none
              | some t ↦ map_pages g n ((start + 4096) % 2 ^ 64) frame flags t
            ]
      ]

unfoldable pub map_range :
    {F : Type 0} → FrameSource F → (start size flags : ℕ) → Paging F → Option (Paging F)
map_range g start size flags s = map_pages g ((size + 4095) / 4096) start s.zero_page flags s

-- The fault that is a write to a lazy page is handled; any other is the exception handler's.
unfoldable pub page_fault_handler :
    {F : Type 0} → FrameSource F → (addr error_code : ℕ) → Paging F → Option (Bool × Paging F)
page_fault_handler g addr error_code s =
    let e = ptes addr s.entries in
    let entry = s.entries e.entry3 in
    if bit_and error_code 1 == 1 && bit_and error_code 2 == 2 && bit_and entry pg_lazy == pg_lazy
    then (elim (g.get_frame s.frames) [
      | none ↦ none
      | some (frame, frames) ↦
          let flags = bit_or (bit_and entry (2 ^ 64 - 1 - (phys_addr_mask + pg_lazy))) pg_rw in
          some (
            true,
            record s { frames = frames; entries = write e.entry3 (bit_or frame flags) s.entries },
          )
    ])
    else some (false, s)
