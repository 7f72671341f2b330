-- ===== src/MemoryMap.antt =====
-- kernel/mm/memory_map.c: the map of usable physical memory. `mem_map.area[0 .. count)` is the
-- list `areas`; entries at and past `count` are never read. `none` is a failed assertion, which
-- halts the machine. Addresses are `uint64_t`.
pub mod Separated
pub mod Sorted
use lasagne.Base.{
  ℕ, zero, suc, ◌+◌, ◌-◌, ◌%◌, ◌^◌, min, max, Bool, ◌&&◌, Option, none, some, List, [], ◌∷◌, ◌++◌,
  length, get_or, set, ◌==◌, ltb, leb, if◌then◌else◌,
}

abbrev pub map_max : ℕ
map_max = 32

pub record Area : Type 0 where
  pub begin : ℕ
  pub end : ℕ

abbrev pub area : ℕ → ℕ → Area
area b e = record { begin = b; end = e }

pub record MemoryMap : Type 0 where
  pub areas : List Area
  pub physical_end : ℕ

-- The intervals overlap, or border.
abbrev pub meets : ℕ → ℕ → Area → Bool
meets begin end a = leb begin a.end && leb a.begin end

-- The scan: the index of the first area that meets the interval.
pub find_meeting : ℕ → ℕ → List Area → Option ℕ
find_meeting begin end [] = none
find_meeting begin end (a ∷ as') =
    let rest : Option ℕ = elim (find_meeting begin end as') [
      | none ↦ none
      | some i ↦ some (suc i)
    ] in
    if meets begin end a then some 0 else rest

abbrev pub last_or : Area → List Area → Area
last_or a [] = a
last_or a (b ∷ bs) = last_or b bs

abbrev pub but_last : Area → List Area → List Area
but_last a [] = []
but_last a (b ∷ bs) = a ∷ but_last b bs

-- `count -= 1; if (count) area[i] = area[count];`: the last area takes the place of area `i`.
pub remove_at : ℕ → List Area → List Area
remove_at i [] = []
remove_at zero (a ∷ []) = []
remove_at zero (a ∷ b ∷ bs) = last_or b bs ∷ but_last b bs
remove_at (suc i) (a ∷ as') = a ∷ remove_at i as'

no_area : Area
no_area = area 0 0

-- The loop behind the label `evil_tail_call_optimization`, with a round for each area at most;
-- `none` here is fuel that ran out.
pub merge : ℕ → ℕ → ℕ → List Area → Option (List Area)
unfolding no_area
merge zero begin end areas = none
merge (suc fuel) begin end areas = elim (find_meeting begin end areas) [
  | none ↦ some (areas ++ (area begin end ∷ []))
  | some i ↦
      let hit = get_or areas i no_area in
      merge fuel (if ltb begin hit.begin then begin else hit.begin)
        (if ltb hit.end end then end else hit.end) (remove_at i areas)
]

unfoldable pub add_area : ℕ → ℕ → List Area → Option (List Area)
unfolding merge find_meeting remove_at
add_area begin end areas =
    if ltb begin end
    then (if length areas == map_max
        then some areas
        else merge (suc (length areas)) begin end areas)
    else none

-- The inner loop of the sort: where the least `begin` stands, the first of equals.
pub least_from : List Area → (j : ℕ) → (least : ℕ) → ℕ → ℕ
least_from [] j least at = at
least_from (a ∷ as') j least at =
    least_from as' (suc j) (if ltb a.begin least then a.begin else least)
      (if ltb a.begin least then j else at)

-- The swap of the first area with the one at `k`.
pub swap_first : ℕ → Area → List Area → Area × List Area
swap_first zero a rest = (a, rest)
swap_first (suc k) a rest = (get_or rest k a, set rest k a)

-- The outer loop, one round for each area; the areas before `i` are in place.
pub sort : ℕ → List Area → List Area
unfolding least_from swap_first
sort zero areas = areas
sort (suc n) [] = []
sort (suc n) (a ∷ rest) =
    let (m, rest') = swap_first (least_from rest 1 a.begin 0) a rest in m ∷ sort n rest'

-- Areas shrink to whole pages; `begin` may wrap.
pub align : Area → Area
align a =
    area (if a.begin % 4096 == 0 then a.begin else (a.begin + (4096 - a.begin % 4096)) % 2 ^ 64)
      (if a.end % 4096 == 0 then a.end else a.end - a.end % 4096)

pub align_all : List Area → Option (List Area)
unfolding align
align_all [] = some []
align_all (a ∷ as') =
    if ltb (align a).begin (align a).end
    then (elim (align_all as') [ none ↦ none | some bs ↦ some (align a ∷ bs) ])
    else none

abbrev pub end_of_last : List Area → ℕ
end_of_last [] = 0
end_of_last (a ∷ as') = (last_or a as').end

-- On an empty map `area[-1]` is read; it is 0 here.
unfoldable pub sanitize : List Area → Option MemoryMap
unfolding sort align_all
sanitize areas = elim (align_all (sort (length areas) areas)) [
  | none ↦ none
  | some bs ↦ some (record { areas = bs; physical_end = end_of_last bs })
]
