-- ===== src/Multiboot/Entries.antt =====
-- The memory map's entries in kernel/arch/x64/multiboot.c.
use lasagne.Base.{
  ℕ, suc, ◌+◌, ◌*◌, ◌%◌, ◌^◌, ◌≤◌, ◌<◌, ◌≡◌, refl, ◌∙◌, inl, inr, arith, Bool, true, false, ◌&&◌,
  ◌||◌, Option, some, List, [], ◌∷◌, length, if◌then◌else◌, Bool-cases,
}
use lasagne.MemoryMap.{Area, area, map_max, add_area}
use lasagne.MemoryMap.Separated.{inside, covered, IsSeparated, add_area-Merged}
use lasagne.Multiboot.{
  Words, is_usable, memmap_size, memmap_entry_size, fill_entries, entries_of, fill_memory_map,
}

pub record Entry : Type 0 where
  pub base_addr : ℕ
  pub length : ℕ
  pub type : ℕ

-- The entries are in the memory from `at` on.
unfoldable pub HoldsEntries : Words → ℕ → List Entry → Type 0
HoldsEntries w at [] = Unit {0}
HoldsEntries w at (e ∷ es) =
    (w.word64 at ≡ e.base_addr)
    × (w.word64 (at + 8) ≡ e.length)
    × (w.word32 (at + 16) ≡ e.type)
    × HoldsEntries w (at + memmap_entry_size) es

-- A usable entry is not empty and ends within the address space.
unfoldable pub AllFit : List Entry → Type 0
AllFit [] = Unit {0}
AllFit (e ∷ es) =
    (is_usable e.type ≡ true → (0 < e.length) × (e.base_addr + e.length < 2 ^ 64)) × AllFit es

-- The address lies in a usable entry.
pub usable : ℕ → List Entry → Bool
usable p [] = false
usable p (e ∷ es) =
    (is_usable e.type && inside p (area e.base_addr (e.base_addr + e.length))) || usable p es

unfoldable pub number_usable : List Entry → ℕ
number_usable [] = 0
number_usable (e ∷ es) = (if is_usable e.type then 1 else 0) + number_usable es

-- The areas that come out are separated, and cover what those before and the usable entries do.
pub record Filled (es : List Entry) (areas : List Area) (result : Option (List Area)) : Type 0 where
  pub out : List Area
  pub returns : result ≡ some out
  pub separated : IsSeparated out
  pub covers : (p : ℕ) → covered p out ≡ (usable p es || covered p areas)
  pub bounded : length out ≤ number_usable es + length areas

-- A round of the loop.
module _ (e : Entry) (n : ℕ) (w : Words) (at : ℕ) (areas : List Area)
    (ht : w.word32 (at + 16) ≡ e.type) where
  usable_round :
      (out : List Area)
      → is_usable e.type ≡ true
      → w.word64 at ≡ e.base_addr
      → w.word64 (at + 8) ≡ e.length
      → e.base_addr + e.length < 2 ^ 64
      → add_area e.base_addr (e.base_addr + e.length) areas ≡ some out
      → fill_entries (suc n) w at areas ≡ fill_entries n w (at + memmap_entry_size) out
  unfolding fill_entries
  usable_round out u hb hl f m =
      let q : (e.base_addr + e.length) % 2 ^ 64 ≡ e.base_addr + e.length = omega (arith, f) in
      rw (fill_entries, ht, u, hb, hl, q, m) refl

  other_round :
      is_usable e.type ≡ false
      → fill_entries (suc n) w at areas ≡ fill_entries n w (at + memmap_entry_size) areas
  unfolding fill_entries
  other_round u = rw (fill_entries, ht, u) refl

fill_entries-Filled :
    (es : List Entry) (w : Words) (at : ℕ) (areas : List Area)
    → HoldsEntries w at es
    → AllFit es
    → IsSeparated areas
    → number_usable es + length areas ≤ map_max
    → Filled es areas (fill_entries (length es) w at areas)
unfolding fill_entries HoldsEntries AllFit usable number_usable
fill_entries-Filled [] w at areas h f s r = record {
  out = areas;
  returns = refl;
  separated = s;
  covers = λ p. refl;
  bounded = omega arith;
}
fill_entries-Filled (e ∷ es) w at areas (hb, hl, ht, h) (f, fs) s r =
    elim (Bool-cases (is_usable e.type)) [
      | inl u ↦
          let m =
            add_area-Merged e.base_addr (e.base_addr + e.length) areas (omega (arith, (f u).0)) s
              (ground (arith, r, u)) in
          let k =
            fill_entries-Filled es w (at + memmap_entry_size) m.out h fs m.separated
              (ground (arith, r, u, m.bounded)) in
          record {
            out = k.out;
            returns =
                usable_round e (length es) w at areas ht m.out u hb hl (f u).1 m.returns
                ∙ k.returns;
            separated = k.separated;
            covers = λ p. ground (arith, k.covers p, m.covers p, u);
            bounded = ground (arith, k.bounded, m.bounded, u);
          }
      | inr u ↦
          let k =
            fill_entries-Filled es w (at + memmap_entry_size) areas h fs s (ground (arith, r, u)) in
          record {
            out = k.out;
            returns = other_round e (length es) w at areas ht u ∙ k.returns;
            separated = k.separated;
            covers = λ p. ground (arith, k.covers p, u);
            bounded = ground (arith, k.bounded, u);
          }
    ]

-- The header of a memory map with entries of the size that the code expects.
pub record HoldsMemmap (w : Words) (mb : ℕ) (es : List Entry) : Type 0 where
  pub size : w.word32 (mb + 4) ≡ memmap_size + memmap_entry_size * length es
  pub bounded : memmap_size + memmap_entry_size * length es < 2 ^ 32
  pub entry_size : w.word32 (mb + 8) ≡ memmap_entry_size
  pub entries : HoldsEntries w (mb + memmap_size) es

-- A memory map whose entries are 24 bytes long and whose usable ones are not empty, end within the address space and are
-- no more than the map has room for is added whole: nothing fails, the areas stay separated, and an address is covered just
-- where it was before or is in a usable entry.
pub fill_memory_map_lem :
    (w : Words) (mb : ℕ) (es : List Entry) (areas : List Area)
    → HoldsMemmap w mb es
    → AllFit es
    → IsSeparated areas
    → number_usable es + length areas ≤ map_max
    → Filled es areas (fill_memory_map w mb areas)
unfolding fill_memory_map
fill_memory_map_lem w mb es areas h f s r =
    let n : entries_of (memmap_size + memmap_entry_size * length es) memmap_entry_size ≡ length es =
      ground (arith, h.bounded) in
    rw (fill_memory_map, h.entry_size, h.size, n)
      (fill_entries-Filled es w (mb + memmap_size) areas h.entries f s r)
