-- ===== src/Tests/Areas.antt =====
-- kernel/mm/memory_map.c on two areas.
use mathlib.Core.List.{Perm}
use lasagne.Base.{ℕ, ◌≤◌, ◌<◌, ◌≡◌, refl, inr, arith, ◌||◌, some, List, [], ◌∷◌, length}
use lasagne.MemoryMap.{map_max, Area, area, MemoryMap, add_area, end_of_last, sanitize}
use lasagne.MemoryMap.Separated.{inside, covered, IsSeparated, add_area_lem}
use lasagne.MemoryMap.Sorted.{All, IsSorted, AllShrunk, IsWide, sanitize_lem}

abbrev areas : List Area
areas = area 65536 131073 ∷ area 4096 40000 ∷ []

areas-IsSeparated : IsSeparated areas
areas-IsSeparated = (omega arith, (inr (omega arith), tt), (omega arith, tt, tt))

areas-AllWide : All IsWide areas
areas-AllWide = ((omega arith, omega arith), ((omega arith, omega arith), tt))

-- The new area fills the gap, and the three become one.
add_area_run : add_area 40000 65536 areas ≡ some (area 4096 131073 ∷ [])
unfolding add_area
add_area_run = refl

add_area_example :
    (out : List Area) × (add_area 40000 65536 areas ≡ some out)
    × IsSeparated out
    × (length out ≤ map_max)
    × (length areas < map_max
        → (p : ℕ) → covered p out ≡ (inside p (area 40000 65536) || covered p areas))
    × (length areas ≡ map_max → out ≡ areas)
add_area_example = add_area_lem 40000 65536 areas (omega arith) areas-IsSeparated (omega arith)

sanitize_example :
    (m : MemoryMap) × (sorted : List Area) × (sanitize areas ≡ some m)
    × Perm sorted areas
    × IsSorted sorted
    × AllShrunk sorted m.areas
    × IsSorted m.areas
    × (m.physical_end ≡ end_of_last m.areas)
sanitize_example = sanitize_lem areas areas-AllWide
