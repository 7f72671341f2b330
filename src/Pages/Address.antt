-- ===== src/Pages/Address.antt =====
-- The addresses of the entries in kernel/mm/pages.c.
use native.Mathlib.Nat.{pow-suc, one-le-pow}
use lasagne.Base.{
  ℕ, zero, suc, ◌+◌, ◌-◌, ◌*◌, ◌/◌, ◌%◌, ◌^◌, ◌<◌, ◌≡◌, ◌∙◌, ap, arith, bit_and, bit_or,
  bit_and_fields, bit_or_fields, bit_and_mask, bit_and-zero_right, bit_or-zero_right,
  bit_or-zero_left, bit_or_step,
}
use lasagne.Pages.{table_address, l4pte_mask, pg_self, PtEntries, ptes}

-- `q` has fewer bits than the mask.
bit_or_ones : (k q : ℕ) → q < 2 ^ k → bit_or q (2 ^ k - 1) ≡ 2 ^ k - 1
bit_or_ones zero q h = bit_or-zero_right q ∙ omega arith
bit_or_ones (suc k) q h =
    let half : (2 ^ suc k - 1) / 2 ≡ 2 ^ k - 1 = omega (arith, pow-suc 2 k, one-le-pow k 2) in
    bit_or_step q (2 ^ suc k - 1)
    ∙ rw half (
        omega
          (arith, bit_or_ones k (q / 2) (omega (arith, pow-suc 2 k)), pow-suc 2 k, one-le-pow k 2))

-- The address of the first table, of 512 entries that name the tables themselves, at the front of the last bits.
abbrev pub tables : ℕ
tables = (65535 * 2 ^ 9 + pg_self) * 2 ^ 39

-- A round of `ptes` gives the address of the entry of the page that the address is in.
pub table_address_lem : (a : ℕ) → a < 2 ^ 64 → table_address a ≡ tables + a / 2 ^ 12 % 2 ^ 36 * 8
unfolding table_address
table_address_lem a h =
    let b = a / 2 ^ 9 in
    let q = b / 2 ^ 48 in
    let i = b / 2 ^ 39 % 2 ^ 9 in
    let m = b / 2 ^ 3 % 2 ^ 36 in
    let r = b % 2 ^ 3 in
    let split : b ≡ (q * 2 ^ 9 + i) * 2 ^ 39 + (m * 2 ^ 3 + r) = omega arith in
    let high : bit_and (q * 2 ^ 9 + i) (65535 * 2 ^ 9 + 0) ≡ q * 2 ^ 9 =
      bit_and_fields 9 q 65535 i 0 (omega arith) (omega arith)
      ∙ omega (arith, bit_and-zero_right i, bit_and_mask 16 q) in
    let low : bit_and (m * 2 ^ 3 + r) ((2 ^ 36 - 1) * 2 ^ 3 + 0) ≡ m * 2 ^ 3 =
      bit_and_fields 3 m (2 ^ 36 - 1) r 0 (omega arith) (omega arith)
      ∙ omega (arith, bit_and-zero_right r, bit_and_mask 36 m) in
    let cleared : bit_and ((q * 2 ^ 9 + i) * 2 ^ 39 + (m * 2 ^ 3 + r))
          (2 ^ 64 - 1 - (l4pte_mask + 7))
        ≡ (q * 2 ^ 9 + 0) * 2 ^ 39 + m * 2 ^ 3 =
      bit_and_fields 39 (q * 2 ^ 9 + i) (65535 * 2 ^ 9 + 0) (m * 2 ^ 3 + r)
        ((2 ^ 36 - 1) * 2 ^ 3 + 0) (omega arith) (omega arith)
      ∙ omega (arith, high, low) in
    let ones : bit_or (q * 2 ^ 9 + 0) (65535 * 2 ^ 9 + 510) ≡ 65535 * 2 ^ 9 + 510 =
      bit_or_fields 9 q 65535 0 510 (omega arith) (omega arith)
      ∙ omega (arith, bit_or_ones 16 q (omega arith), bit_or-zero_left 510) in
    rw (split, cleared)
      (bit_or_fields 39 (q * 2 ^ 9 + 0) (65535 * 2 ^ 9 + 510) (m * 2 ^ 3) 0 (omega arith)
          (omega arith)
        ∙ omega (arith, ones, bit_or-zero_right (m * 2 ^ 3)))

-- The address that the processor translates by the indices `i4`, `i3`, `i2` and `i1` of the four levels, and then the offset.
abbrev pub virtual_at : (top i4 i3 i2 i1 offset : ℕ) → ℕ
virtual_at top i4 i3 i2 i1 offset =
    ((((top * 2 ^ 9 + i4) * 2 ^ 9 + i3) * 2 ^ 9 + i2) * 2 ^ 9 + i1) * 2 ^ 12 + offset

-- The entry of this index, in the table that the others lead to through the tables themselves.
abbrev pub entry_at : (i4 i3 i2 i1 index : ℕ) → ℕ
entry_at i4 i3 i2 i1 index = virtual_at 65535 i4 i3 i2 i1 (index * 8)

table_address-virtual_at :
    (top i4 i3 i2 i1 offset : ℕ)
    → top < 2 ^ 16
    → i4 < 2 ^ 9
    → i3 < 2 ^ 9
    → i2 < 2 ^ 9
    → i1 < 2 ^ 9
    → offset < 2 ^ 12
    → table_address (virtual_at top i4 i3 i2 i1 offset) ≡ entry_at 510 i4 i3 i2 i1
table_address-virtual_at top i4 i3 i2 i1 offset h h4 h3 h2 h1 ho =
    let m : virtual_at top i4 i3 i2 i1 offset / 2 ^ 12 % 2 ^ 36
        ≡ ((i4 * 2 ^ 9 + i3) * 2 ^ 9 + i2) * 2 ^ 9 + i1 =
      omega arith in
    table_address_lem (virtual_at top i4 i3 i2 i1 offset) (omega arith) ∙ omega (arith, m)

-- The entries that the processor translates by these indices through.
pub record AreEntries (e : PtEntries) (i4 i3 i2 i1 : ℕ) : Type 0 where
  pub level4 : e.entry0 ≡ entry_at 510 510 510 510 i4
  pub level3 : e.entry1 ≡ entry_at 510 510 510 i4 i3
  pub level2 : e.entry2 ≡ entry_at 510 510 i4 i3 i2
  pub level1 : e.entry3 ≡ entry_at 510 i4 i3 i2 i1

-- For an address of 64 bits `ptes` finds the four entries through which the processor translates
-- it: that of each level's index, in the table that the indices above lead to.
pub ptes_lem :
    (top i4 i3 i2 i1 offset : ℕ) (entries : ℕ → ℕ)
    → top < 2 ^ 16
    → i4 < 2 ^ 9
    → i3 < 2 ^ 9
    → i2 < 2 ^ 9
    → i1 < 2 ^ 9
    → offset < 2 ^ 12
    → AreEntries (ptes (virtual_at top i4 i3 i2 i1 offset) entries) i4 i3 i2 i1
unfolding ptes
ptes_lem top i4 i3 i2 i1 offset entries h h4 h3 h2 h1 ho =
    let a = table_address-virtual_at top i4 i3 i2 i1 offset h h4 h3 h2 h1 ho in
    let b =
      table_address-virtual_at 65535 510 i4 i3 i2 (i1 * 8) (omega arith) (omega arith) h4 h3 h2
        (omega arith) in
    let c =
      table_address-virtual_at 65535 510 510 i4 i3 (i2 * 8) (omega arith) (omega arith)
        (omega arith) h4 h3 (omega arith) in
    let d =
      table_address-virtual_at 65535 510 510 510 i4 (i3 * 8) (omega arith) (omega arith)
        (omega arith) (omega arith) h4 (omega arith) in
    record {
      level1 = a;
      level2 = ap table_address a ∙ b;
      level3 = ap table_address (ap table_address a ∙ b) ∙ c;
      level4 = ap table_address (ap table_address (ap table_address a ∙ b) ∙ c) ∙ d;
    }
