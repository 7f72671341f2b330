-- ===== src/Pages/Returns.antt =====
-- kernel/mm/pages.c: with frames at hand, pages and ranges of pages can be mapped.
use lasagne.Base.{
  ℕ, zero, suc, ◌+◌, ◌/◌, ◌%◌, ◌^◌, ◌≡◌, refl, inl, inr, arith, Option, none, some, ◌==◌, bit_and,
  Bool-cases,
}
use lasagne.Pages.{
  FrameSource, Paging, PtEntries, ptes, new_table, ensure_level, ensure_pt_exists, map_page,
  has_level, map_immediate,
}
use lasagne.Pages.Range.{convert_flags, map_pages, map_range}

-- A frame is handed out in each state with the property, which is kept.
pub record Supplied {F : Type 0} (P : F → Type 0) (r : Option (ℕ × F)) : Type 0 where
  pub frame : ℕ
  pub frames : F
  pub returns : r ≡ some (frame, frames)
  pub aligned : frame % 4096 ≡ 0
  pub kept : P frames

abbrev pub Supplies : {F : Type 0} → FrameSource F → (F → Type 0) → Type 0
Supplies {F} g P = (f : F) → P f → Supplied P (g.get_frame f)

-- A function of this component returns, and the property of the frames is kept.
pub record Returns {F : Type 0} (P : F → Type 0) (s : Paging F) (r : Option (Paging F))
    : Type 0 where
  pub after : Paging F
  pub returns : r ≡ some after
  pub kept : P after.frames
  pub zero_page : after.zero_page ≡ s.zero_page

module _ {F : Type 0} (g : FrameSource F) (P : F → Type 0) (supplies : Supplies g P) where
  ensure_level-Returns :
      (e : PtEntries) (i entry child : ℕ) (parent : Option ℕ) (s : Paging F)
      → P s.frames
      → Returns P s (ensure_level g e i entry child parent s)
  unfolding ensure_level new_table
  ensure_level-Returns e i entry child parent s p = elim (Bool-cases (has_level e.present_mask i)) [
    | inl there ↦ rw there (record { after = s; returns = refl; kept = p; zero_page = refl })
    | inr missing ↦
        let f = supplies s.frames p in
        rw (missing, new_table, f.returns)
          (record { after = _; returns = refl; kept = f.kept; zero_page = refl })
  ]

  ensure_pt_exists-Returns :
      (e : PtEntries) (s : Paging F) → P s.frames → Returns P s (ensure_pt_exists g e s)
  unfolding ensure_pt_exists
  ensure_pt_exists-Returns e s p =
      let a = ensure_level-Returns e 0 e.entry0 e.entry1 none s p in
      let b = ensure_level-Returns e 1 e.entry1 e.entry2 (some e.entry0) a.after a.kept in
      let c = ensure_level-Returns e 2 e.entry2 e.entry3 (some e.entry1) b.after b.kept in
      record {
        after = c.after;
        returns = rw (ensure_pt_exists, a.returns, b.returns) c.returns;
        kept = c.kept;
        zero_page = ground (arith, a.zero_page, b.zero_page, c.zero_page);
      }

  pub map_page-Returns :
      (virtual physical flags : ℕ) (s : Paging F)
      → P s.frames
      → virtual % 4096 ≡ 0
      → physical % 4096 ≡ 0
      → Returns P s (map_page g virtual physical flags s)
  unfolding map_page
  map_page-Returns virtual physical flags s p hv hp =
      let e = ptes virtual s.entries in
      let a = ensure_pt_exists-Returns e s p in
      elim (Bool-cases (has_level e.present_mask 2)) [
        | inl there ↦
            rw (map_page, hv, hp, there)
              (record { after = _; returns = refl; kept = p; zero_page = refl })
        | inr missing ↦
            rw (map_page, hv, hp, missing, a.returns)
              (record { after = _; returns = refl; kept = a.kept; zero_page = a.zero_page })
      ]

  map_pages-Returns :
      (n start physical flags : ℕ) (s : Paging F)
      → P s.frames
      → start % 4096 ≡ 0
      → physical % 4096 ≡ 0
      → Returns P s (map_pages g n start physical flags s)
  unfolding map_pages
  map_pages-Returns zero start physical flags s p hs hp = record {
    after = s;
    returns = refl;
    kept = p;
    zero_page = refl;
  }
  map_pages-Returns (suc n) start physical flags s p hs hp =
      elim (Bool-cases (bit_and flags map_immediate == 0)) [
        | inl later ↦
            let a = map_page-Returns start physical (convert_flags flags) s p hs hp in
            let b =
              map_pages-Returns n ((start + 4096) % 2 ^ 64) physical flags a.after a.kept
                (omega arith) hp in
            rw (map_pages, later, a.returns)
              (record {
                after = b.after;
                returns = b.returns;
                kept = b.kept;
                zero_page = ground (arith, a.zero_page, b.zero_page);
              })
        | inr now ↦
            let f = supplies s.frames p in
            let a =
              map_page-Returns start f.frame (convert_flags flags) (record s { frames = f.frames })
                f.kept hs f.aligned in
            let b =
              map_pages-Returns n ((start + 4096) % 2 ^ 64) f.frame flags a.after a.kept
                (omega arith) f.aligned in
            rw (map_pages, now, f.returns, a.returns)
              (record {
                after = b.after;
                returns = b.returns;
                kept = b.kept;
                zero_page = ground (arith, a.zero_page, b.zero_page);
              })
      ]

  -- `map_range` maps each range that begins at a page, as long as frames are handed out.
  pub map_range-Returns :
      (start size flags : ℕ) (s : Paging F)
      → P s.frames
      → start % 4096 ≡ 0
      → s.zero_page % 4096 ≡ 0
      → Returns P s (map_range g start size flags s)
  unfolding map_range
  map_range-Returns start size flags s p hs hz =
      map_pages-Returns ((size + 4095) / 4096) start s.zero_page flags s p hs hz
