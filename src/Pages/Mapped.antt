-- ===== src/Pages/Mapped.antt =====
-- After `map_page` of kernel/mm/pages.c the page is mapped.
use lasagne.Base.{
  ℕ, ◌/◌, ◌%◌, ◌^◌, ◌<◌, ◌≡◌, ◌≢◌, refl, ◌∙◌, ap, inl, inr, arith, true, false, Option, none, some,
  if◌then◌else◌, Bool-cases, ==_refl, ==_ne, bit_or,
}
use lasagne.Pages.{
  FrameSource, Paging, PtEntries, is_present, ptes, write, increase_counter, new_table, has_level,
  ensure_pt_exists, ensure_level, map_page,
}
use lasagne.Pages.Address.{virtual_at, ptes_lem}
use lasagne.Pages.Map.{
  Supplies, counted_present, new_table-TableMade, AreApart, entries-AreApart, no_table, table3,
  table2, table1, ptes-Depth,
}

-- The entries of the three upper levels are present.
pub record TablesExist (e : PtEntries) (entries : ℕ → ℕ) : Type 0 where
  pub level4 : is_present (entries e.entry0) ≡ true
  pub level3 : is_present (entries e.entry1) ≡ true
  pub level2 : is_present (entries e.entry2) ≡ true

record Ensured {F : Type 0} (e : PtEntries) (result : Option (Paging F)) : Type 0 where
  out : Paging F
  returns : result ≡ some out
  tables : TablesExist e out.entries

module _ {F : Type 0} (g : FrameSource F) (e : PtEntries) (d : AreApart e) where
  level-new :
      (i entry child : ℕ) (parent : Option ℕ) (s : Paging F)
      → has_level e.present_mask i ≡ false
      → ensure_level g e i entry child parent s ≡ new_table g entry child parent s
  unfolding ensure_level
  level-new i entry child parent s h = rw (ensure_level, h) refl

  level-old :
      (i entry child : ℕ) (parent : Option ℕ) (s : Paging F)
      → has_level e.present_mask i ≡ true
      → ensure_level g e i entry child parent s ≡ some s
  unfolding ensure_level
  level-old i entry child parent s h = rw (ensure_level, h) refl

  ensure_chain :
      (s s1 s2 : Paging F)
      → ensure_level g e 0 e.entry0 e.entry1 none s ≡ some s1
      → ensure_level g e 1 e.entry1 e.entry2 (some e.entry0) s1 ≡ some s2
      → ensure_pt_exists g e s ≡ ensure_level g e 2 e.entry2 e.entry3 (some e.entry1) s2
  unfolding ensure_pt_exists
  ensure_chain s s1 s2 p q = rw (ensure_pt_exists, p, q) refl

  ensure_levels :
      (s : Paging F)
      → Supplies g 3 s.frames
      → e.present_mask ≡ 0
      → Ensured e (ensure_pt_exists g e s)
  ensure_levels s f m =
      let a = new_table-TableMade g 2 e.entry0 e.entry1 none s f d.levels01 in
      let b =
        new_table-TableMade g 1 e.entry1 e.entry2 (some e.entry0) a.out a.supplies d.levels12 in
      let c =
        new_table-TableMade g 0 e.entry2 e.entry3 (some e.entry1) b.out b.supplies d.levels23 in
      record {
        out = c.out;
        returns =
            ensure_chain s a.out b.out
              (level-new 0 e.entry0 e.entry1 none s (ap (λ k. has_level k 0) m) ∙ a.returns)
              (level-new 1 e.entry1 e.entry2 (some e.entry0) a.out (ap (λ k. has_level k 1) m)
                ∙ b.returns)
            ∙ level-new 2 e.entry2 e.entry3 (some e.entry1) b.out (ap (λ k. has_level k 2) m)
            ∙ c.returns;
        tables = record {
          level4 = c.others e.entry0 d.levels03 (b.others e.entry0 d.levels02 a.made);
          level3 = c.others e.entry1 d.levels13 b.made;
          level2 = c.made;
        };
      }

  ensure_two :
      (s : Paging F)
      → Supplies g 2 s.frames
      → e.present_mask ≡ 1
      → is_present (s.entries e.entry0) ≡ true
      → Ensured e (ensure_pt_exists g e s)
  ensure_two s f m p =
      let b = new_table-TableMade g 1 e.entry1 e.entry2 (some e.entry0) s f d.levels12 in
      let c =
        new_table-TableMade g 0 e.entry2 e.entry3 (some e.entry1) b.out b.supplies d.levels23 in
      record {
        out = c.out;
        returns =
            ensure_chain s s b.out
              (level-old 0 e.entry0 e.entry1 none s (ap (λ k. has_level k 0) m))
              (level-new 1 e.entry1 e.entry2 (some e.entry0) s (ap (λ k. has_level k 1) m)
                ∙ b.returns)
            ∙ level-new 2 e.entry2 e.entry3 (some e.entry1) b.out (ap (λ k. has_level k 2) m)
            ∙ c.returns;
        tables = record {
          level4 = c.others e.entry0 d.levels03 (b.others e.entry0 d.levels02 p);
          level3 = c.others e.entry1 d.levels13 b.made;
          level2 = c.made;
        };
      }

  ensure_one :
      (s : Paging F)
      → Supplies g 1 s.frames
      → e.present_mask ≡ 3
      → is_present (s.entries e.entry0) ≡ true
      → is_present (s.entries e.entry1) ≡ true
      → Ensured e (ensure_pt_exists g e s)
  ensure_one s f m p q =
      let c = new_table-TableMade g 0 e.entry2 e.entry3 (some e.entry1) s f d.levels23 in
      record {
        out = c.out;
        returns =
            ensure_chain s s s (level-old 0 e.entry0 e.entry1 none s (ap (λ k. has_level k 0) m))
              (level-old 1 e.entry1 e.entry2 (some e.entry0) s (ap (λ k. has_level k 1) m))
            ∙ level-new 2 e.entry2 e.entry3 (some e.entry1) s (ap (λ k. has_level k 2) m)
            ∙ c.returns;
        tables = record {
          level4 = c.others e.entry0 d.levels03 p;
          level3 = c.others e.entry1 d.levels13 q;
          level2 = c.made;
        };
      }

-- The tables of a page that is mapped, and the word of its entry.
pub record IsMapped {F : Type 0} (e : PtEntries) (value : ℕ) (result : Option (Paging F))
    : Type 0 where
  pub out : Paging F
  pub returns : result ≡ some out
  pub tables : TablesExist e out.entries
  pub page : out.entries e.entry3 ≡ value

present_counted :
    {F : Type 0}
    → (e : PtEntries) (t : Paging F) (a : ℕ)
    → is_present
        ((if has_level e.present_mask 3 then t.entries else increase_counter e.entry2 t.entries) a)
      ≡ is_present (t.entries a)
present_counted e t a = elim (Bool-cases (has_level e.present_mask 3)) [
  | inl h ↦ rw h refl
  | inr h ↦ rw h (counted_present e.entry2 a t.entries)
]

module _ {F : Type 0} (g : FrameSource F) (virtual physical flags : ℕ) (s : Paging F)
    (d : AreApart (ptes virtual s.entries)) (hv : virtual % 4096 ≡ 0)
    (hp : physical % 4096 ≡ 0) where
  -- The last lines, once the tables are there.
  IsMapped-after :
      (t : Paging F)
      → TablesExist (ptes virtual s.entries) t.entries
      → (if has_level (ptes virtual s.entries).present_mask 2
          then some s
          else ensure_pt_exists g (ptes virtual s.entries) s)
        ≡ some t
      → IsMapped
          (ptes virtual s.entries)
          (bit_or physical flags)
          (map_page g virtual physical flags s)
  unfolding map_page
  IsMapped-after t w h =
      let e = ptes virtual s.entries in
      let counted =
        if has_level e.present_mask 3 then t.entries else increase_counter e.entry2 t.entries in
      let kept : (a : ℕ)
          → a / 4096 ≢ e.entry3 / 4096
          → is_present (t.entries a) ≡ true
          → is_present (write e.entry3 (bit_or physical flags) counted a) ≡ true =
        λ a ne p.
          rw (==_ne a e.entry3 (λ q. ne (ap (λ (x : ℕ). x / 4096) q)))
            (present_counted e t a ∙ p) in
      record {
        out = record t { entries = write e.entry3 (bit_or physical flags) counted };
        returns = rw (map_page, hv, hp, h) refl;
        tables = record {
          level4 = kept e.entry0 d.levels03 w.level4;
          level3 = kept e.entry1 d.levels13 w.level3;
          level2 = kept e.entry2 d.levels23 w.level2;
        };
        page = rw (==_refl e.entry3) refl;
      }

  IsMapped-Ensured :
      has_level (ptes virtual s.entries).present_mask 2 ≡ false
      → Ensured (ptes virtual s.entries) (ensure_pt_exists g (ptes virtual s.entries) s)
      → IsMapped
          (ptes virtual s.entries)
          (bit_or physical flags)
          (map_page g virtual physical flags s)
  IsMapped-Ensured h v = IsMapped-after v.out v.tables (rw h v.returns)

Supplies-fewer :
    {F : Type 0} → (g : FrameSource F) (f : F) → Supplies g 3 f → Supplies g 2 f × Supplies g 1 f
unfolding Supplies
Supplies-fewer g f (a, r, e, (b, q, i, c)) = ((a, r, e, (b, q, i, tt)), (a, r, e, tt))

-- `map_page` of a page that is not in the tables themselves, to a physical page, makes the tables
-- that are missing, and needs at most three new frames. After it the entries of the three upper
-- levels are present, and the page's entry has the physical address and the flags.
pub map_page_lem :
    {F : Type 0}
    → (g : FrameSource F) (top i4 i3 i2 i1 physical flags : ℕ) (s : Paging F) → top < 2 ^ 16
    → i4 < 2 ^ 9
    → i3 < 2 ^ 9
    → i2 < 2 ^ 9
    → i1 < 2 ^ 9
    → i4 ≢ 510
    → physical % 4096 ≡ 0
    → Supplies g 3 s.frames
    → let v = virtual_at top i4 i3 i2 i1 0 in
      IsMapped (ptes v s.entries) (bit_or physical flags) (map_page g v physical flags s)
map_page_lem g top i4 i3 i2 i1 physical flags s h h4 h3 h2 h1 ne hp f =
    let v = virtual_at top i4 i3 i2 i1 0 in
    let e = ptes v s.entries in
    let d =
      entries-AreApart e i4 i3 i2 i1
        (ptes_lem top i4 i3 i2 i1 0 s.entries h h4 h3 h2 h1 (omega arith)) h4 h3 h2 h1 ne in
    let hv : v % 4096 ≡ 0 = omega arith in
    let less = Supplies-fewer g s.frames f in
    elim (ptes-Depth v s.entries) [
      | no_table m ↦
          IsMapped-Ensured g v physical flags s d hv hp (ap (λ k. has_level k 2) m)
            (ensure_levels g e d s f m)
      | table3 m p ↦
          IsMapped-Ensured g v physical flags s d hv hp (ap (λ k. has_level k 2) m)
            (ensure_two g e d s less.0 m p)
      | table2 m p q ↦
          IsMapped-Ensured g v physical flags s d hv hp (ap (λ k. has_level k 2) m)
            (ensure_one g e d s less.1 m p q)
      | table1 m p q r ↦
          IsMapped-after g v physical flags s d hv hp s
            (record { level4 = p; level3 = q; level2 = r }) (rw m refl)
    ]
