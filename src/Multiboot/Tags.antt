-- ===== src/Multiboot/Tags.antt =====
-- The loop over the tags in kernel/arch/x64/multiboot.c.
use native.Mathlib.Nat.{add-zero}
use lasagne.Base.{
  ℕ, zero, suc, ◌+◌, ◌-◌, ◌*◌, ◌/◌, ◌%◌, ◌^◌, ◌<◌, ◌≡◌, ◌≢◌, refl, inl, inr, arith, false, Option,
  none, some, List, [], ◌∷◌, length, ◌==◌, Option-cases, ==_ne,
}
use lasagne.MemoryMap.{MemoryMap}
use lasagne.Multiboot.{Words, mb_memory_map, tag_size, read_tag, parse_tags, parse_multiboot}

pub record Tag : Type 0 where
  pub type : ℕ
  pub size : ℕ

-- The size with the padding up to a multiple of 8.
abbrev pub padded : ℕ → ℕ
padded n = (n + 7) / 8 * 8

unfoldable pub total : List Tag → ℕ
total [] = 0
total (t ∷ ts) = padded t.size + total ts

-- The tags are in the memory from `at` on, none of them empty.
unfoldable pub HoldsTags : Words → ℕ → List Tag → Type 0
HoldsTags w at [] = Unit {0}
HoldsTags w at (t ∷ ts) =
    (w.word32 at ≡ t.type)
    × (w.word32 (at + 4) ≡ t.size)
    × (0 < t.size)
    × HoldsTags w (at + padded t.size) ts

-- Each tag is read, in their order.
pub read_tags : Words → ℕ → List Tag → MemoryMap → Option MemoryMap
read_tags w at [] m = some m
read_tags w at (t ∷ ts) m = elim (read_tag t.type w at m) [
  | none ↦ none
  | some out ↦ read_tags w (at + padded t.size) ts out
]

tag_size-padded : (n : ℕ) → padded n < 2 ^ 32 → tag_size n ≡ padded n
unfolding tag_size
tag_size-padded n h = ground arith

parse_tags_lem :
    (fuel : ℕ) (w : Words) (at : ℕ) (ts : List Tag) (m : MemoryMap)
    → HoldsTags w at ts
    → total ts < 2 ^ 32
    → length ts < fuel
    → parse_tags fuel w at (total ts) m ≡ read_tags w at ts m
unfolding parse_tags HoldsTags read_tags total
parse_tags_lem zero w at ts m h b f = absurd (omega arith)
parse_tags_lem (suc fuel) w at [] m h b f = refl
parse_tags_lem (suc fuel) w at (t ∷ ts) m (ht, hs, hz, h) b f =
    let p : tag_size t.size ≡ padded t.size = tag_size-padded t.size (omega (arith, b)) in
    let z : (padded t.size + total ts == 0) ≡ false = ground (arith, hz) in
    let r : (padded t.size + total ts + 2 ^ 32 - padded t.size) % 2 ^ 32 ≡ total ts =
      omega (arith, b) in
    elim (Option-cases (read_tag t.type w at m)) [
      | inl e ↦ rw (parse_tags, z, ht, read_tags, e) refl
      | inr (out, e) ↦
          rw (parse_tags, z, ht, read_tags, e, hs, p, r)
            (parse_tags_lem fuel w (at + padded t.size) ts out h (omega (arith, b)) (omega arith))
    ]

-- With tags that are not empty and whose padded sizes make up the size in the header,
-- `parse_multiboot` reads each tag once, in their order, and ends with the last one: a round more
-- than there are tags is enough.
pub parse_multiboot_lem :
    (fuel : ℕ) (w : Words) (mb : ℕ) (ts : List Tag) (m : MemoryMap)
    → HoldsTags w (mb + 8) ts
    → w.word32 mb ≡ 8 + total ts
    → 8 + total ts < 2 ^ 32
    → length ts < fuel
    → parse_multiboot fuel w mb m ≡ read_tags w (mb + 8) ts m
unfolding parse_multiboot
parse_multiboot_lem fuel w mb ts m h e b f =
    let r : (8 + total ts + 2 ^ 32 - 8) % 2 ^ 32 ≡ total ts = omega (arith, b) in
    rw (parse_multiboot, e, r) (parse_tags_lem fuel w (mb + 8) ts m h (omega (arith, b)) f)

-- Where a tag of size 0 that is no memory map is not at the end, the loop reads it again and
-- again: no number of rounds is enough.
pub parse_tags-endless :
    (fuel : ℕ) (w : Words) (mb size : ℕ) (m : MemoryMap)
    → w.word32 (mb + 4) ≡ 0
    → w.word32 mb ≢ mb_memory_map
    → 0 < size
    → size < 2 ^ 32
    → parse_tags fuel w mb size m ≡ none
unfolding parse_tags tag_size read_tag
parse_tags-endless zero w mb size m z n p l = refl
parse_tags-endless (suc fuel) w mb size m z n p l =
    let q : (size == 0) ≡ false = ground arith in
    let r : (size + 2 ^ 32 - 0) % 2 ^ 32 ≡ size = omega arith in
    let t : tag_size 0 ≡ 0 = refl in
    let e : read_tag (w.word32 mb) w mb m ≡ some m = rw (read_tag, ==_ne _ _ n) refl in
    rw (parse_tags, q, e, z, t, r, add-zero mb) (parse_tags-endless fuel w mb size m z n p l)
