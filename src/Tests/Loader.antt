-- ===== src/Tests/Loader.antt =====
-- kernel/arch/x64/multiboot.c on the information of a boot loader with one usable area.
use lasagne.Base.{ℕ, ◌≡◌, refl, arith, none, List, [], ◌∷◌, ◌==◌, if◌then◌else◌}
use lasagne.MemoryMap.{MemoryMap}
use lasagne.Multiboot.{Words, fill_memory_map, parse_tags, parse_multiboot}
use lasagne.Multiboot.Entries.{
  Entry, HoldsEntries, AllFit, Filled, HoldsMemmap, number_usable, fill_memory_map_lem,
}
use lasagne.Multiboot.Tags.{
  Tag, total, HoldsTags, read_tags, parse_multiboot_lem, parse_tags-endless,
}

abbrev pub word_at : List (ℕ × ℕ) → ℕ → ℕ
word_at [] a = 0
word_at ((b, w) ∷ ws) a = if a == b then w else word_at ws a

-- The header, a memory map with an entry, and the last tag.
abbrev pub words : Words
words = record {
  word32 = word_at ((0, 56) ∷ (8, 6) ∷ (12, 40) ∷ (16, 24) ∷ (40, 1) ∷ (52, 8) ∷ []);
  word64 = word_at ((24, 0x100000) ∷ (32, 0x400000) ∷ []);
}

abbrev entry : Entry
entry = record { base_addr = 0x100000; length = 0x400000; type = 1 }

entry-HoldsMemmap : HoldsMemmap words 8 (entry ∷ [])
unfolding HoldsEntries
entry-HoldsMemmap = record {
  size = refl;
  bounded = omega arith;
  entry_size = refl;
  entries = (refl, refl, refl, tt);
}

entry-AllFit : AllFit (entry ∷ [])
unfolding AllFit
entry-AllFit = (λ u. (omega arith, omega arith), tt)

fill_memory_map_example : Filled (entry ∷ []) [] (fill_memory_map words 8 [])
unfolding number_usable
fill_memory_map_example =
    fill_memory_map_lem words 8 (entry ∷ []) [] entry-HoldsMemmap entry-AllFit tt (omega arith)

abbrev tags : List Tag
tags = record { type = 6; size = 40 } ∷ record { type = 0; size = 8 } ∷ []

abbrev pub no_memory : MemoryMap
no_memory = record { areas = []; physical_end = 0 }

tags-HoldsTags : HoldsTags words 8 tags
unfolding HoldsTags
tags-HoldsTags = (refl, refl, omega arith, (refl, refl, omega arith, tt))

parse_multiboot_example : parse_multiboot 3 words 0 no_memory ≡ read_tags words 8 tags no_memory
unfolding total
parse_multiboot_example =
    parse_multiboot_lem 3 words 0 tags no_memory tags-HoldsTags refl (omega arith) (omega arith)

parse_tags-endless_example :
    parse_tags 1000 (record { word32 = λ a. 0; word64 = λ a. 0 }) 8 16 no_memory ≡ none
parse_tags-endless_example =
    parse_tags-endless 1000 (record { word32 = λ a. 0; word64 = λ a. 0 }) 8 16 no_memory refl
      (omega arith) (omega arith) (omega arith)
