-- ===== src/Pages/Flags.antt =====
-- The flags of a page in kernel/mm/pages.c: the conversion, lazy pages, and what `unmap_page` leaves.
use lasagne.Base.{
  ℕ, ◌+◌, ◌-◌, ◌*◌, ◌/◌, ◌%◌, ◌^◌, ◌<◌, ◌≡◌, ◌≢◌, refl, sym, ◌∙◌, ap, arith, Bool, true, false,
  ◌&&◌, not, some, if◌then◌else◌, ==_ne, bit_or, bit_and, bit_and_fields, bit_or_fields,
  bit_and-zero_right, bit_or-zero_right, bit_or-zero_left, bit_and_mask, bit_and-le, bit_or-lt,
}
use lasagne.Pages.{
  FrameSource, Paging, ptes, write, decrease_counter, map_rw, map_user, map_immediate, map_exe,
  pg_present, pg_rw, pg_user, pg_lazy, pg_nx, phys_addr_mask,
}
use lasagne.Pages.Unmap.{clean_level, clean_pts, unmap_page}
use lasagne.Pages.Range.{convert_flags, page_fault_handler}
use lasagne.Pages.Address.{virtual_at, ptes_lem}
use lasagne.Pages.Map.{entries-AreApart}

-- The flag if it is given.
abbrev pub flag : Bool → ℕ → ℕ
flag b f = if b then f else 0

-- A page is present, executable and the user's as asked for; one to write to is writable if it is mapped at once, and lazy if not.
pub convert_flags_lem :
    (rw user immediate exe : Bool)
    → convert_flags
        (flag rw map_rw + flag user map_user + flag immediate map_immediate + flag exe map_exe)
      ≡ pg_present
        + flag (rw && immediate) pg_rw
        + flag user pg_user
        + flag (rw && not immediate) pg_lazy
        + flag (not exe) pg_nx
unfolding convert_flags
convert_flags_lem true true true true = refl
convert_flags_lem true true true false = refl
convert_flags_lem true true false true = refl
convert_flags_lem true true false false = refl
convert_flags_lem true false true true = refl
convert_flags_lem true false true false = refl
convert_flags_lem true false false true = refl
convert_flags_lem true false false false = refl
convert_flags_lem false true true true = refl
convert_flags_lem false true true false = refl
convert_flags_lem false true false true = refl
convert_flags_lem false true false false = refl
convert_flags_lem false false true true = refl
convert_flags_lem false false true false = refl
convert_flags_lem false false false true = refl
convert_flags_lem false false false false = refl

-- An entry by its high flags, the number of its frame, and its low flags.
abbrev pub entry_of : (high frame low : ℕ) → ℕ
entry_of high frame low = (high * 2 ^ 40 + frame) * 2 ^ 12 + low

entry_and :
    (high frame low : ℕ)
    → high < 2 ^ 12
    → frame < 2 ^ 40
    → low < 2 ^ 12
    → bit_and (entry_of high frame low) (2 ^ 64 - 1 - (phys_addr_mask + pg_lazy))
      ≡ entry_of high 0 (bit_and low (2 ^ 12 - 1 - pg_lazy))
entry_and high frame low h f l =
    let top : bit_and (high * 2 ^ 40 + frame) (4095 * 2 ^ 40 + 0) ≡ high * 2 ^ 40 =
      bit_and_fields 40 high 4095 frame 0 f (omega arith)
      ∙ omega (arith, bit_and-zero_right frame, bit_and_mask 12 high) in
    bit_and_fields 12 (high * 2 ^ 40 + frame) (4095 * 2 ^ 40 + 0) low (2 ^ 12 - 1 - pg_lazy) l
      (omega arith)
    ∙ omega (arith, top)

entry_or :
    (high new low : ℕ)
    → high < 2 ^ 12
    → new < 2 ^ 40
    → low < 2 ^ 12
    → bit_or (new * 2 ^ 12) (bit_or (entry_of high 0 low) pg_rw)
      ≡ entry_of high new (bit_or low pg_rw)
entry_or high new low h n l =
    let inner : bit_or (entry_of high 0 low) pg_rw ≡ entry_of high 0 (bit_or low pg_rw) =
      bit_or_fields 12 (high * 2 ^ 40 + 0) 0 low pg_rw l (omega arith)
      ∙ omega (arith, bit_or-zero_right (high * 2 ^ 40 + 0)) in
    let outer : bit_or (0 * 2 ^ 40 + new) (high * 2 ^ 40 + 0) ≡ high * 2 ^ 40 + new =
      bit_or_fields 40 0 high new 0 n (omega arith)
      ∙ omega (arith, bit_or-zero_left high, bit_or-zero_right new) in
    let front : new * 2 ^ 12 ≡ (0 * 2 ^ 40 + new) * 2 ^ 12 + 0 = omega arith in
    rw (inner, front)
      (bit_or_fields 12 (0 * 2 ^ 40 + new) (high * 2 ^ 40 + 0) 0 (bit_or low pg_rw) (omega arith)
          (bit_or-lt 12 low pg_rw l (omega arith))
        ∙ omega (arith, outer, bit_or-zero_left (bit_or low pg_rw)))

-- A write to a lazy page, which is a protection violation, gives it a new frame, if there is one:
-- the rest of the entry stays but that it is writable and no longer lazy.
pub page_fault_handler_lem :
    {F : Type 0}
    → (g : FrameSource F) (addr error_code high frame low new : ℕ) (rest : F) (s : Paging F)
    → s.entries (ptes addr s.entries).entry3 ≡ entry_of high frame low
    → high < 2 ^ 12
    → frame < 2 ^ 40
    → low < 2 ^ 12
    → new < 2 ^ 40
    → bit_and error_code 1 ≡ 1
    → bit_and error_code 2 ≡ 2
    → bit_and (entry_of high frame low) pg_lazy ≡ pg_lazy
    → g.get_frame s.frames ≡ some (new * 2 ^ 12, rest)
    → page_fault_handler g addr error_code s
      ≡ some (
        true,
        record s {
          frames = rest;
          entries =
              write
                (ptes addr s.entries).entry3
                (entry_of high new (bit_or (bit_and low (2 ^ 12 - 1 - pg_lazy)) pg_rw))
                s.entries;
        },
      )
unfolding page_fault_handler
page_fault_handler_lem g addr error_code high frame low new rest s e h f l n p w z k =
    let low' = bit_and low (2 ^ 12 - 1 - pg_lazy) in
    rw
      (
        page_fault_handler,
        e,
        p,
        w,
        z,
        k,
        e,
        entry_and high frame low h f l,
        entry_or high new low' h n
            (omega (arith, bit_and-le low low (2 ^ 12 - 1 - pg_lazy) (omega arith))),
      )
      refl

-- For a page that is not in the tables themselves, in a table whose count is above one,
-- `unmap_page` gives back no frame and leaves the page's entry as it was: the page stays mapped.
pub unmap_page-mapped :
    {F : Type 0}
    → (g : FrameSource F) (top i4 i3 i2 i1 : ℕ) (s : Paging F) → top < 2 ^ 16
    → i4 < 2 ^ 9
    → i3 < 2 ^ 9
    → i2 < 2 ^ 9
    → i1 < 2 ^ 9
    → i4 ≢ 510
    → let e = ptes (virtual_at top i4 i3 i2 i1 0) s.entries in
      (decrease_counter e.entry2 s.entries).0 ≢ 0
      → (t : Paging F) × (unmap_page g (virtual_at top i4 i3 i2 i1 0) s
          ≡ some (bit_and (s.entries e.entry3) phys_addr_mask, t))
        × (t.entries e.entry3 ≡ s.entries e.entry3)
        × (t.frames ≡ s.frames)
unfolding unmap_page clean_pts clean_level decrease_counter
unmap_page-mapped g top i4 i3 i2 i1 s h h4 h3 h2 h1 ne c =
    let v = virtual_at top i4 i3 i2 i1 0 in
    let e = ptes v s.entries in
    let d =
      entries-AreApart e i4 i3 i2 i1
        (ptes_lem top i4 i3 i2 i1 0 s.entries h h4 h3 h2 h1 (omega arith)) h4 h3 h2 h1 ne in
    let hv : v % 4096 ≡ 0 = omega arith in
    let apart : e.entry3 ≢ e.entry2 = λ q. d.levels23 (ap (λ (x : ℕ). x / 4096) (sym q)) in
    (
      record s { entries = (decrease_counter e.entry2 s.entries).1 },
      rw (unmap_page, hv, clean_pts, clean_level, ==_ne _ 0 c) refl,
      rw (==_ne e.entry3 e.entry2 apart) refl,
      refl,
    )
