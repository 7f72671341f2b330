-- ===== src/Pages/Unmap.antt =====
-- How kernel/mm/pages.c takes pages out of the tables.
use lasagne.Base.{
  ℕ, zero, suc, ◌+◌, ◌/◌, ◌%◌, ◌^◌, Bool, true, false, Option, none, some, ◌==◌, if◌then◌else◌,
  bit_and,
}
use lasagne.Pages.{
  FrameSource, Paging, PtEntries, ptes, write, decrease_counter, pg_lazy, phys_addr_mask,
}

-- A round of `clean_pts`; the Boolean tells that the loop goes on.
unfoldable pub clean_level :
    {F : Type 0} → FrameSource F → (entry : ℕ) → Paging F → Option (Bool × Paging F)
clean_level g entry s =
    let (count, entries) = decrease_counter entry s.entries in
    if count == 0
    then (elim (g.free_frame (bit_and (entries entry) phys_addr_mask) s.frames) [
      | none ↦ none
      | some frames ↦ some (true, record s { frames = frames; entries = write entry 0 entries })
    ])
    else some (false, record s { entries = entries })

unfoldable pub clean_pts : {F : Type 0} → FrameSource F → PtEntries → Paging F → Option (Paging F)
clean_pts g e s = elim (clean_level g e.entry2 s) [
  | none ↦ none
  | some (false, s2) ↦ some s2
  | some (true, s2) ↦ elim (clean_level g e.entry1 s2) [
    | none ↦ none
    | some (false, s1) ↦ some s1
    | some (true, s1) ↦ elim (clean_level g e.entry0 s1) [ none ↦ none | some (_, s0) ↦ some s0 ]
  ]
]

-- `e.entries[3] = 0` sets the local pointer, not the entry.
unfoldable pub unmap_page :
    {F : Type 0} → FrameSource F → (virtual : ℕ) → Paging F → Option (ℕ × Paging F)
unmap_page g virtual s =
    if virtual % 4096 == 0
    then (let e = ptes virtual s.entries in
        let physical = bit_and (s.entries e.entry3) phys_addr_mask in
        elim (clean_pts g e s) [ none ↦ none | some t ↦ some (physical, t) ])
    else none

-- A round of `unmap_range`.
unfoldable pub unmap_allocated :
    {F : Type 0} → FrameSource F → (virtual : ℕ) → Paging F → Option (Paging F)
unmap_allocated g virtual s =
    let e = ptes virtual s.entries in
    let is_lazy = bit_and (s.entries e.entry3) pg_lazy == pg_lazy in
    if e.present_mask == 15
    then (elim (unmap_page g virtual s) [
      | none ↦ none
      | some (physical, t) ↦ if is_lazy then some t else (elim (g.free_frame physical t.frames) [
        | none ↦ none
        | some frames ↦ some (record t { frames = frames })
      ])
    ])
    else some s

unfoldable pub unmap_pages :
    {F : Type 0} → FrameSource F → (rounds start : ℕ) → Paging F → Option (Paging F)
unmap_pages g zero start s = some s
unmap_pages g (suc n) start s = elim (unmap_allocated g start s) [
  | none ↦ none
  | some t ↦ unmap_pages g n ((start + 4096) % 2 ^ 64) t
]

unfoldable pub unmap_range :
    {F : Type 0} → FrameSource F → (start size : ℕ) → Paging F → Option (Paging F)
unmap_range g start size s = unmap_pages g ((size + 4095) / 4096) start s
