-- ===== src/Pages/Map.antt =====
-- `map_page` of kernel/mm/pages.c makes the tables that a page needs.
use lasagne.Base.{
  ℕ, zero, suc, ◌+◌, ◌/◌, ◌%◌, ◌^◌, ◌<◌, ◌≡◌, ◌≢◌, refl, sym, ◌∙◌, ap, inl, inr, arith, true,
  Option, none, some, ◌==◌, Bool-cases, ==_refl, ==_ne, bit_or, bit_and_mask, bit_or_step,
}
use lasagne.Pages.{
  FrameSource, Paging, PtEntries, table_address, is_present, ptes, write, increase_counter,
  clear_page, new_table, has_level, pg_present, pg_rw, pg_user, refcount_one,
}
use lasagne.Pages.Address.{AreEntries}

-- The allocator hands out so many frames.
unfoldable pub Supplies : {F : Type 0} → FrameSource F → (n : ℕ) → F → Type 0
Supplies g zero f = Unit {0}
Supplies {F} g (suc n) f =
    (frame : ℕ) × (rest : F) × (g.get_frame f ≡ some (frame, rest)) × Supplies g n rest

is_present_odd : (x : ℕ) → is_present x ≡ (x % 2 == 1)
is_present_odd x = ap (λ (y : ℕ). y == 1) (bit_and_mask 1 x)

is_present-counted : (x : ℕ) → is_present ((x + refcount_one) % 2 ^ 64) ≡ is_present x
is_present-counted x =
    is_present_odd ((x + refcount_one) % 2 ^ 64)
    ∙ ap (λ (y : ℕ). y == 1) (omega arith)
    ∙ sym (is_present_odd x)

is_present-table :
    (frame : ℕ) → is_present (bit_or (bit_or (bit_or frame pg_present) pg_rw) pg_user) ≡ true
is_present-table frame =
    let odd : bit_or (bit_or (bit_or frame pg_present) pg_rw) pg_user % 2 ≡ 1 = omega (
      arith,
      bit_or_step (bit_or (bit_or frame pg_present) pg_rw) pg_user,
      bit_or_step (bit_or frame pg_present) pg_rw,
      bit_or_step frame pg_present,
    ) in
    is_present_odd _ ∙ ap (λ (y : ℕ). y == 1) odd

-- The table of `child` is made: its entry is present, and those elsewhere are present as before.
pub record TableMade {F : Type 0} (g : FrameSource F) (n entry child : ℕ) (s : Paging F)
    (result : Option (Paging F)) : Type 0 where
  pub out : Paging F
  pub returns : result ≡ some out
  pub made : is_present (out.entries entry) ≡ true
  pub others :
      (a : ℕ)
      → a / 4096 ≢ child / 4096
      → is_present (s.entries a) ≡ true
      → is_present (out.entries a) ≡ true
  pub supplies : Supplies g n out.frames

pub counted_present :
    (p a : ℕ) (entries : ℕ → ℕ) → is_present (increase_counter p entries a) ≡ is_present (entries a)
counted_present p a entries = elim (Bool-cases (a == p)) [
  | inl e ↦ let q : a ≡ p = ground arith in rw (q, ==_refl p) (is_present-counted (entries p))
  | inr e ↦ rw e refl
]

cleared_present :
    (entry child frame a : ℕ) (entries : ℕ → ℕ)
    → a / 4096 ≢ child / 4096
    → is_present (entries a) ≡ true
    → is_present (
        clear_page child
          (write entry (bit_or (bit_or (bit_or frame pg_present) pg_rw) pg_user) entries)
          a)
      ≡ true
cleared_present entry child frame a entries ne p = elim (Bool-cases (a == entry)) [
  | inl e ↦ rw (==_ne (a / 4096) (child / 4096) ne, e) (is_present-table frame)
  | inr e ↦ rw (==_ne (a / 4096) (child / 4096) ne, e) p
]

pub new_table-TableMade :
    {F : Type 0}
    → (g : FrameSource F) (n entry child : ℕ) (parent : Option ℕ) (s : Paging F)
    → Supplies g (suc n) s.frames
    → entry / 4096 ≢ child / 4096
    → TableMade g n entry child s (new_table g entry child parent s)
unfolding new_table Supplies
new_table-TableMade g n entry child none s (frame, rest, e, more) ne =
    rw (new_table, e)
      (record {
        out = _;
        returns = refl;
        made = rw (==_ne (entry / 4096) (child / 4096) ne, ==_refl entry) (is_present-table frame);
        others = λ a na p. cleared_present entry child frame a s.entries na p;
        supplies = more;
      })
new_table-TableMade g n entry child (some p) s (frame, rest, e, more) ne =
    let cleared =
      clear_page child
        (write entry (bit_or (bit_or (bit_or frame pg_present) pg_rw) pg_user) s.entries) in
    rw (new_table, e)
      (record {
        out = _;
        returns = refl;
        made =
            counted_present p entry cleared
            ∙ rw (==_ne (entry / 4096) (child / 4096) ne, ==_refl entry) (is_present-table frame);
        others = λ a na q.
            counted_present p a cleared ∙ cleared_present entry child frame a s.entries na q;
        supplies = more;
      })

-- The four entries are in different tables.
pub record AreApart (e : PtEntries) : Type 0 where
  pub levels01 : e.entry0 / 4096 ≢ e.entry1 / 4096
  pub levels02 : e.entry0 / 4096 ≢ e.entry2 / 4096
  pub levels03 : e.entry0 / 4096 ≢ e.entry3 / 4096
  pub levels12 : e.entry1 / 4096 ≢ e.entry2 / 4096
  pub levels13 : e.entry1 / 4096 ≢ e.entry3 / 4096
  pub levels23 : e.entry2 / 4096 ≢ e.entry3 / 4096

pub entries-AreApart :
    (e : PtEntries) (i4 i3 i2 i1 : ℕ)
    → AreEntries e i4 i3 i2 i1
    → i4 < 2 ^ 9
    → i3 < 2 ^ 9
    → i2 < 2 ^ 9
    → i1 < 2 ^ 9
    → i4 ≢ 510
    → AreApart e
entries-AreApart e i4 i3 i2 i1 v h4 h3 h2 h1 ne = record {
  levels01 = omega (arith, v.level4, v.level3, ne);
  levels02 = omega (arith, v.level4, v.level2, ne);
  levels03 = omega (arith, v.level4, v.level1, ne);
  levels12 = omega (arith, v.level3, v.level2, ne);
  levels13 = omega (arith, v.level3, v.level1, ne);
  levels23 = omega (arith, v.level2, v.level1, ne);
}

-- How far the tables exist.
pub data Depth (e : PtEntries) (entries : ℕ → ℕ) : Type 0 where
  no_table : e.present_mask ≡ 0 → Depth e entries
  table3 : e.present_mask ≡ 1 → is_present (entries e.entry0) ≡ true → Depth e entries
  table2 :
      e.present_mask ≡ 3
      → is_present (entries e.entry0) ≡ true
      → is_present (entries e.entry1) ≡ true
      → Depth e entries
  table1 :
      has_level e.present_mask 2 ≡ true
      → is_present (entries e.entry0) ≡ true
      → is_present (entries e.entry1) ≡ true
      → is_present (entries e.entry2) ≡ true
      → Depth e entries

pub ptes-Depth : (v : ℕ) (entries : ℕ → ℕ) → Depth (ptes v entries) entries
unfolding ptes
ptes-Depth v entries =
    let e3 = table_address v in
    let e2 = table_address e3 in
    let e1 = table_address e2 in
    let e0 = table_address e1 in
    elim (Bool-cases (is_present (entries e0))) [
      | inr p ↦ no_table (rw p refl)
      | inl p ↦ elim (Bool-cases (is_present (entries e1))) [
        | inr q ↦ table3 (rw (p, q) refl) p
        | inl q ↦ elim (Bool-cases (is_present (entries e2))) [
          | inr r ↦ table2 (rw (p, q, r) refl) p q
          | inl r ↦ elim (Bool-cases (is_present (entries e3))) [
            | inr z ↦ table1 (rw (p, q, r, z) refl) p q r
            | inl z ↦ table1 (rw (p, q, r, z) refl) p q r
          ]
        ]
      ]
    ]
