-- ===== src/EarlyPaging/Loops.antt =====
-- The loops of kernel/arch/x64/paging_init32.c.
use lasagne.Base.{
  ℕ, zero, suc, ◌+◌, ◌-◌, ◌*◌, ◌≤◌, ◌<◌, ◌≡◌, refl, ◌∙◌, arith, true, Option, some, ◌==◌, ltb,
  Bool-cases, inl, inr, bit_or, ==_refl, ==_ne,
}
use lasagne.EarlyPaging.{Cursor, set_entry, fill_section, clean_rest}

-- The cursor stands at the page `n`.
abbrev pub at : (n : ℕ) → (ℕ → ℕ) → Cursor
at n table = record { pte = n; page = 4096 * n; table = table }

-- The section's pages are in the table, and nothing else changed.
pub record SectionFilled (n m flags : ℕ) (table : ℕ → ℕ) (result : Option Cursor) : Type 0 where
  pub out : ℕ → ℕ
  pub returns : result ≡ some (at m out)
  pub inside : (j : ℕ) → n ≤ j → j < m → out j ≡ bit_or (4096 * j) flags
  pub below : (j : ℕ) → j < n → out j ≡ table j

round :
    (fuel n m flags : ℕ) (table : ℕ → ℕ)
    → n < m
    → fill_section (suc fuel) (4096 * m) flags (at n table)
      ≡ fill_section fuel
          (4096 * m)
          flags
          (at (n + 1) (set_entry n (bit_or (4096 * n) flags) table))
unfolding fill_section
round fuel n m flags table h =
    let e : ltb (4096 * n) (4096 * m) ≡ true = ground arith in
    let next : 4096 * n + 4096 ≡ 4096 * (n + 1) = omega arith in rw (fill_section, e, next) refl

pub fill_section_lem :
    (fuel n m flags : ℕ) (table : ℕ → ℕ)
    → n ≤ m
    → m - n < fuel
    → SectionFilled n m flags table (fill_section fuel (4096 * m) flags (at n table))
unfolding fill_section
fill_section_lem zero n m flags table h l = absurd (omega arith)
fill_section_lem (suc fuel) n m flags table h l = elim (Bool-cases (ltb (4096 * n) (4096 * m))) [
  | inr e ↦
      let q : n ≡ m = ground arith in
      record {
        out = table;
        returns = rw (fill_section, e, q) refl;
        inside = λ j a b. absurd (omega (arith, q));
        below = λ j a. refl;
      }
  | inl e ↦
      let p : n < m = ground arith in
      let k =
        fill_section_lem fuel (n + 1) m flags (set_entry n (bit_or (4096 * n) flags) table)
          (omega (arith, p)) (omega (arith, p)) in
      record {
        out = k.out;
        returns = round fuel n m flags table p ∙ k.returns;
        inside = λ j a b. elim (Bool-cases (j == n)) [
          | inl c ↦
              let q : j ≡ n = ground arith in rw q (k.below n (omega arith) ∙ rw (==_refl n) refl)
          | inr c ↦ k.inside j (ground arith) b
        ];
        below = λ j a. k.below j (omega arith) ∙ rw (==_ne j n (omega arith)) refl;
      }
]

-- The entries from `n` up to `m` are 0, and those below are as they were.
pub record Cleaned (n m : ℕ) (table : ℕ → ℕ) (result : Option Cursor) : Type 0 where
  pub out : Cursor
  pub returns : result ≡ some out
  pub inside : (j : ℕ) → n ≤ j → j < m → out.table j ≡ 0
  pub below : (j : ℕ) → j < n → out.table j ≡ table j

pub clean_rest_lem :
    (fuel n m page : ℕ) (table : ℕ → ℕ)
    → n ≤ m
    → m - n < fuel
    → Cleaned n m table (clean_rest fuel m (record { pte = n; page = page; table = table }))
unfolding clean_rest
clean_rest_lem zero n m page table h l = absurd (omega arith)
clean_rest_lem (suc fuel) n m page table h l = elim (Bool-cases (ltb n m)) [
  | inr e ↦ record {
    out = record { pte = n; page = page; table = table };
    returns = rw (clean_rest, e) refl;
    inside = λ j a b. absurd (ground arith);
    below = λ j a. refl;
  }
  | inl e ↦
      let p : n < m = ground arith in
      let k =
        clean_rest_lem fuel (n + 1) m page (set_entry n 0 table) (omega (arith, p))
          (omega (arith, p)) in
      record {
        out = k.out;
        returns = clean_round fuel n m page table e ∙ k.returns;
        inside = λ j a b. elim (Bool-cases (j == n)) [
          | inl c ↦
              let q : j ≡ n = ground arith in rw q (k.below n (omega arith) ∙ rw (==_refl n) refl)
          | inr c ↦ k.inside j (ground arith) b
        ];
        below = λ j a. k.below j (omega arith) ∙ rw (==_ne j n (omega arith)) refl;
      }
]
  where
    clean_round :
        (fuel n m page : ℕ) (table : ℕ → ℕ)
        → ltb n m ≡ true
        → clean_rest (suc fuel) m (record { pte = n; page = page; table = table })
          ≡ clean_rest fuel m (record { pte = n + 1; page = page; table = set_entry n 0 table })
    clean_round fuel n m page table e = rw (clean_rest, e) refl
