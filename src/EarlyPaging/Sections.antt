-- ===== src/EarlyPaging/Sections.antt =====
-- The kernel's pages after kernel/arch/x64/paging_init32.c, by their sections.
use lasagne.Base.{
  suc, zero, ℕ, ◌*◌, ◌≤◌, ◌<◌, ◌≡◌, refl, ◌∙◌, ap, arith, Option, some, ltb, if◌then◌else◌, ◌+◌,
  ◌-◌, ◌/◌, ◌%◌, ◌^◌, ◌==◌, ==→eq, true, false, Bool-cases, inl, inr, bit_or,
}
use lasagne.Frame.{◌>>=◌}
use lasagne.EarlyPaging.{
  Symbols, Tables, Cursor, fill_section, first_flags, text_flags, rodata_flags, data_flags,
  page_tables_for_kernel, fill_kernel_pts, initialize_paging, fill_kernel_pd, set_entry, pt_range,
}
use lasagne.EarlyPaging.Loops.{at, SectionFilled, fill_section_lem, clean_rest_lem}

-- The flags of a page by the sections' first pages.
pub section_flags : (text rodata data_ j : ℕ) → ℕ
section_flags text rodata data_ j =
    if ltb j text
    then first_flags
    else (if ltb j rodata then text_flags else (if ltb j data_ then rodata_flags else data_flags))

-- The sections stand one behind the other.
pub record AreOrdered (text rodata data_ bss end : ℕ) : Type 0 where
  pub before_rodata : text ≤ rodata
  pub before_data : rodata ≤ data_
  pub before_bss : data_ ≤ bss
  pub before_end : bss ≤ end

-- The sections are whole pages, one behind the other.
pub record HasSections (s : Symbols) (text rodata data_ bss end : ℕ) : Type 0 where
  pub at_text : s.kernel_text ≡ 4096 * text
  pub at_rodata : s.kernel_rodata ≡ 4096 * rodata
  pub at_data : s.kernel_data ≡ 4096 * data_
  pub at_bss : s.kernel_bss ≡ 4096 * bss
  pub at_end : s.kernel_end ≡ 4096 * end
  pub order : AreOrdered text rodata data_ bss end

pub record KernelMapped (s : Symbols) (text rodata data_ end : ℕ) (result : Option Tables)
    : Type 0 where
  pub out : Tables
  pub returns : result ≡ some out
  pub pages :
      (j : ℕ) → j < end → out.kernel_pts j ≡ bit_or (4096 * j) (section_flags text rodata data_ j)
  pub rest : (j : ℕ) → end ≤ j → j < page_tables_for_kernel s * 512 → out.kernel_pts j ≡ 0
  pub tables :
      (i : ℕ)
      → i < page_tables_for_kernel s
      → out.kernel_pd i ≡ (
          if i + 1 == page_tables_for_kernel s
          then bit_or (bit_or (s.kernel_end + i * 4096) 3) (end % 512 * 2 ^ 52)
          else bit_or (s.kernel_end + i * 4096) 3)
  pub directory : out.pdpt 510 ≡ bit_or (bit_or s.kernel_pd 3) (page_tables_for_kernel s * 2 ^ 52)
  pub identity : out.pdpt 0 ≡ bit_or s.identity_pd 3
  pub upper : out.pml4t 511 ≡ bit_or (bit_or s.pdpt 3) (2 ^ 52)
  pub lower : out.pml4t 0 ≡ bit_or (bit_or s.pdpt 3) (2 ^ 52)
  pub self : out.pml4t 510 ≡ bit_or s.pml4t 3

bind_some :
    {A B : Type 0} → (x : Option A) (y : A) (f : A → Option B) → x ≡ some y → (x >>= f) ≡ f y
bind_some x y f e = ap (λ k. k >>= f) e

-- The pages of the sections, filled one after another.
module _ (text rodata data_ bss end : ℕ) (v : AreOrdered text rodata data_ bss end) {table : ℕ → ℕ}
    {ra rb rc rd re : Option Cursor} (a : SectionFilled 0 text first_flags table ra)
    (b : SectionFilled text rodata text_flags a.out rb)
    (c : SectionFilled rodata data_ rodata_flags b.out rc)
    (d : SectionFilled data_ bss data_flags c.out rd)
    (e : SectionFilled bss end data_flags d.out re) where
  pages_by_section :
      (j : ℕ) → j < end → e.out j ≡ bit_or (4096 * j) (section_flags text rodata data_ j)
  unfolding section_flags
  pages_by_section j h = elim (Bool-cases (ltb j text)) [
    | inl p ↦
        let q : j < text = ground arith in
        rw p (
          e.below j (omega (arith, q, v.before_rodata, v.before_data, v.before_bss))
          ∙ d.below j (omega (arith, q, v.before_rodata, v.before_data))
          ∙ c.below j (omega (arith, q, v.before_rodata))
          ∙ b.below j q
          ∙ a.inside j (omega arith) q)
    | inr p ↦ elim (Bool-cases (ltb j rodata)) [
      | inl q ↦
          let k : j < rodata = ground arith in
          rw (p, q)
            (e.below j (omega (arith, k, v.before_data, v.before_bss))
              ∙ d.below j (omega (arith, k, v.before_data))
              ∙ c.below j k
              ∙ b.inside j (ground arith) k)
      | inr q ↦ elim (Bool-cases (ltb j data_)) [
        | inl r ↦
            let k : j < data_ = ground arith in
            rw (p, q, r)
              (e.below j (omega (arith, k, v.before_bss))
                ∙ d.below j k
                ∙ c.inside j (ground arith) k)
        | inr r ↦
            rw (p, q, r)
              (elim (Bool-cases (ltb j bss)) [
                | inl z ↦
                    let k : j < bss = ground arith in e.below j k ∙ d.inside j (ground arith) k
                | inr z ↦ e.inside j (ground arith) h
              ])
      ]
    ]
  ]

-- The kernel's last tables, filled.
record PagesFilled (n text rodata data_ end : ℕ) (result : Option Cursor) : Type 0 where
  out : Cursor
  returns : result ≡ some out
  pages : (j : ℕ) → j < end → out.table j ≡ bit_or (4096 * j) (section_flags text rodata data_ j)
  rest : (j : ℕ) → end ≤ j → j < n → out.table j ≡ 0

fill_kernel_pd_lem :
    (n : ℕ) (s : Symbols) (table : ℕ → ℕ) (i : ℕ)
    → s.kernel_end + n * 4096 ≤ 2 ^ 32
    → i < n
    → fill_kernel_pd n s table i ≡ bit_or (s.kernel_end + i * 4096) 3
unfolding fill_kernel_pd
fill_kernel_pd_lem zero s table i narrow h = absurd (omega arith)
fill_kernel_pd_lem (suc n) s table i narrow h = elim (Bool-cases (i == n)) [
  | inl e ↦
      let same : (s.kernel_end + n * 4096) % 2 ^ 32 ≡ s.kernel_end + n * 4096 = omega arith in
      rw (e, same, ==→eq i n e) refl
  | inr e ↦ rw e (fill_kernel_pd_lem n s table i (omega arith) (ground arith))
]

module _ (fuel text rodata data_ bss end : ℕ) (s : Symbols)
    (v : HasSections s text rodata data_ bss end) (room : page_tables_for_kernel s * 512 < fuel)
    (narrow : s.kernel_end + page_tables_for_kernel s * 4096 ≤ 2 ^ 32) where
  enough_tables : end ≤ page_tables_for_kernel s * 512
  enough_tables = ground (arith, v.at_end)

  fill_kernel_pts_lem :
      (table : ℕ → ℕ)
      → PagesFilled
          (page_tables_for_kernel s * 512)
          text
          rodata
          data_
          end
          (fill_kernel_pts fuel s table)
  unfolding fill_kernel_pts section_flags
  fill_kernel_pts_lem table =
      let m = enough_tables in
      let a = fill_section_lem fuel 0 text first_flags table (omega arith) (
        omega (
          arith, v.order.before_rodata, v.order.before_data, v.order.before_bss, v.order.before_end,
        )) in
      let b =
        fill_section_lem fuel text rodata text_flags a.out v.order.before_rodata
          (omega (arith, v.order.before_data, v.order.before_bss, v.order.before_end)) in
      let c =
        fill_section_lem fuel rodata data_ rodata_flags b.out v.order.before_data
          (omega (arith, v.order.before_bss, v.order.before_end)) in
      let d =
        fill_section_lem fuel data_ bss data_flags c.out v.order.before_bss
          (omega (arith, v.order.before_end)) in
      let e = fill_section_lem fuel bss end data_flags d.out v.order.before_end (omega arith) in
      let f =
        clean_rest_lem fuel end (page_tables_for_kernel s * 512) (4096 * end) e.out m
          (omega arith) in
      record {
        out = f.out;
        returns =
            bind_some _ (at text a.out) _
              (ap (λ k. fill_section fuel k first_flags (at 0 table)) v.at_text ∙ a.returns)
            ∙ bind_some _ (at rodata b.out) _
                (ap (λ k. fill_section fuel k text_flags (at text a.out)) v.at_rodata ∙ b.returns)
            ∙ bind_some _ (at data_ c.out) _
                (ap (λ k. fill_section fuel k rodata_flags (at rodata b.out)) v.at_data ∙ c.returns)
            ∙ bind_some _ (at bss d.out) _
                (ap (λ k. fill_section fuel k data_flags (at data_ c.out)) v.at_bss ∙ d.returns)
            ∙ bind_some _ (at end e.out) _
                (ap (λ k. fill_section fuel k data_flags (at bss d.out)) v.at_end ∙ e.returns)
            ∙ f.returns;
        pages =
            λ j h. f.below j h ∙ pages_by_section text rodata data_ bss end v.order a b c d e j h;
        rest = f.inside;
      }

  last_entries : s.kernel_end % pt_range / 4096 ≡ end % 512
  last_entries = omega (arith, v.at_end)

  tables_lem :
      (table : ℕ → ℕ) (i : ℕ)
      → i < page_tables_for_kernel s
      → (let n = page_tables_for_kernel s in
          let pd = fill_kernel_pd n s table in
          set_entry (n - 1) (bit_or (pd (n - 1)) (s.kernel_end % pt_range / 4096 * 2 ^ 52)) pd i)
        ≡ (if i + 1 == page_tables_for_kernel s
            then bit_or (bit_or (s.kernel_end + i * 4096) 3) (end % 512 * 2 ^ 52)
            else bit_or (s.kernel_end + i * 4096) 3)
  tables_lem table i h =
      let n = page_tables_for_kernel s in
      let filled = fill_kernel_pd_lem n s table i narrow h in
      elim (Bool-cases (i == n - 1)) [
        | inl e ↦
            let at_last = ==→eq i (n - 1) e in
            let q : (i + 1 == n) ≡ true = ground (arith, at_last, h) in
            rw (e, q, last_entries, ← at_last, filled) refl
        | inr e ↦ let q : (i + 1 == n) ≡ false = ground (arith, h) in rw (e, q) filled
      ]

  -- The kernel's sections are whole pages, one behind the other, and there are more rounds than
  -- entries in the kernel's page tables, which end below `2 ^ 32`. Then after `initialize_paging` the entry of each of
  -- the kernel's pages has its address and the flags of its section, and the other entries of these tables are 0. The
  -- kernel's directory names the tables one behind the other, in writable entries, the last with the number of its entries, modulo 512,
  -- and the upper two tables lead to it and to the identity mapping, with themselves as entry 510.
  pub initialize_paging_lem :
      (t : Tables) → KernelMapped s text rodata data_ end (initialize_paging fuel s t)
  unfolding initialize_paging
  initialize_paging_lem t =
      let f = fill_kernel_pts_lem t.kernel_pts in
      rw (initialize_paging, f.returns)
        (record {
          out = _;
          returns = refl;
          pages = f.pages;
          rest = f.rest;
          tables = λ i h. tables_lem t.kernel_pd i h;
          directory = refl;
          identity = refl;
          upper = refl;
          lower = refl;
          self = refl;
        })
