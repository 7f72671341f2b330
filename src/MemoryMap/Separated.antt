-- ===== src/MemoryMap/Separated.antt =====
-- `mem_map_add_area` of kernel/mm/memory_map.c: what it keeps of the areas, and what it covers.
use lasagne.Base.{
  Bool-cases, ◌==◌, ℕ, zero, suc, ◌≤◌, ◌<◌, ◌≡◌, refl, ap, inl, inr, ◌⊎◌, arith, Bool, true, false,
  ◌&&◌, ◌||◌, Option, none, some, List, [], ◌∷◌, ◌++◌, length, get_or, ltb, leb, if◌then◌else◌,
  Option-cases, length-append,
}
use lasagne.MemoryMap.{
  map_max, add_area, Area, area, meets, find_meeting, last_or, but_last, remove_at, merge, no_area,
}

-- The address `p` lies in the area.
abbrev pub inside : ℕ → Area → Bool
inside p a = leb a.begin p && ltb p a.end

abbrev pub covered : ℕ → List Area → Bool
covered p [] = false
covered p (a ∷ as') = inside p a || covered p as'

-- There is a gap between the areas.
abbrev pub Apart : Area → Area → Type 0
Apart a b = (a.end < b.begin) ⊎ (b.end < a.begin)

abbrev pub AllApart : Area → List Area → Type 0
AllApart a [] = Unit {0}
AllApart a (b ∷ bs) = Apart a b × AllApart a bs

-- Every area is not empty, and there is a gap between any two.
abbrev pub IsSeparated : List Area → Type 0
IsSeparated [] = Unit {0}
IsSeparated (a ∷ as') = (a.begin < a.end) × AllApart a as' × IsSeparated as'

covered-append : (p : ℕ) (xs ys : List Area) → covered p (xs ++ ys) ≡ (covered p xs || covered p ys)
covered-append p [] ys = refl
covered-append p (x ∷ xs) ys = ground (arith, covered-append p xs ys)

covered-but_last :
    (p : ℕ) (a : Area) (as' : List Area)
    → covered p (a ∷ as') ≡ (inside p (last_or a as') || covered p (but_last a as'))
covered-but_last p a [] = refl
covered-but_last p a (b ∷ bs) = ground (arith, covered-but_last p b bs)

covered-remove_at :
    (p i : ℕ) (as' : List Area)
    → i < length as'
    → covered p as' ≡ (inside p (get_or as' i no_area) || covered p (remove_at i as'))
unfolding remove_at no_area
covered-remove_at p i [] h = absurd (omega arith)
covered-remove_at p zero (a ∷ []) h = refl
covered-remove_at p zero (a ∷ b ∷ bs) h = ground (arith, covered-but_last p b bs)
covered-remove_at p (suc i) (a ∷ as') h = ground (arith, covered-remove_at p i as')

length-but_last : (a : Area) (as' : List Area) → length (but_last a as') ≡ length as'
length-but_last a [] = refl
length-but_last a (b ∷ bs) = ap suc (length-but_last b bs)

length-remove_at :
    (i : ℕ) (as' : List Area) → i < length as' → suc (length (remove_at i as')) ≡ length as'
unfolding remove_at
length-remove_at i [] h = absurd (omega arith)
length-remove_at zero (a ∷ []) h = refl
length-remove_at zero (a ∷ b ∷ bs) h = omega (arith, length-but_last b bs)
length-remove_at (suc i) (a ∷ as') h = omega (arith, length-remove_at i as')

-- The last of the areas, and those before it.
AllApart-last :
    (x a : Area) (as' : List Area)
    → AllApart x (a ∷ as')
    → Apart x (last_or a as') × AllApart x (but_last a as')
AllApart-last x a [] h = (h.0, tt)
AllApart-last x a (b ∷ bs) h = let (p, q) = AllApart-last x b bs h.1 in (p, (h.0, q))

IsSeparated-last :
    (a : Area) (as' : List Area)
    → IsSeparated (a ∷ as')
    → IsSeparated (last_or a as' ∷ but_last a as')
IsSeparated-last a [] h = h
IsSeparated-last a (b ∷ bs) h = ground (arith, IsSeparated-last b bs, AllApart-last a b bs)

AllApart-remove_at :
    (x : Area) (i : ℕ) (as' : List Area) → AllApart x as' → AllApart x (remove_at i as')
unfolding remove_at
AllApart-remove_at x i [] h = h
AllApart-remove_at x zero (a ∷ []) h = tt
AllApart-remove_at x zero (a ∷ b ∷ bs) h = AllApart-last x b bs h.1
AllApart-remove_at x (suc i) (a ∷ as') h = (h.0, AllApart-remove_at x i as' h.1)

IsSeparated-remove_at : (i : ℕ) (as' : List Area) → IsSeparated as' → IsSeparated (remove_at i as')
unfolding remove_at
IsSeparated-remove_at i [] h = h
IsSeparated-remove_at zero (a ∷ []) h = tt
IsSeparated-remove_at zero (a ∷ b ∷ bs) h = IsSeparated-last b bs h.2
IsSeparated-remove_at (suc i) (a ∷ as') h =
    (h.0, AllApart-remove_at a i as' h.1, IsSeparated-remove_at i as' h.2)

AllApart-append :
    (x n : Area) (as' : List Area) → AllApart x as' → Apart x n → AllApart x (as' ++ (n ∷ []))
AllApart-append x n [] h k = (k, tt)
AllApart-append x n (a ∷ as') h k = (h.0, AllApart-append x n as' h.1 k)

IsSeparated-append :
    (n : Area) (as' : List Area)
    → n.begin < n.end
    → IsSeparated as'
    → AllApart n as'
    → IsSeparated (as' ++ (n ∷ []))
IsSeparated-append n [] p h k = (p, tt, tt)
IsSeparated-append n (a ∷ as') p h k =
    (h.0, AllApart-append a n as' h.1 (grind arith), IsSeparated-append n as' p h.2 k.1)

find_meeting-none :
    (b e : ℕ) (as' : List Area) → find_meeting b e as' ≡ none → AllApart (area b e) as'
unfolding find_meeting
find_meeting-none b e [] h = tt
find_meeting-none b e (a ∷ as') h = (ground arith, find_meeting-none b e as' (ground arith))

find_meeting-some :
    (b e : ℕ) (as' : List Area) (i : ℕ)
    → find_meeting b e as' ≡ some i
    → (i < length as') × (meets b e (get_or as' i no_area) ≡ true)
unfolding find_meeting no_area
find_meeting-some b e [] i h = cc
find_meeting-some b e (a ∷ as') zero h = (omega arith, ground arith)
find_meeting-some b e (a ∷ as') (suc i) h =
    let (p, q) = find_meeting-some b e as' i (ground arith) in (omega arith, q)

-- What the loop makes of an interval and the areas.
pub record Merged (begin end : ℕ) (areas : List Area) (result : Option (List Area)) : Type 0 where
  pub out : List Area
  pub returns : result ≡ some out
  pub separated : IsSeparated out
  pub covers : (p : ℕ) → covered p out ≡ (inside p (area begin end) || covered p areas)
  pub bounded : length out ≤ suc (length areas)

-- The union of two intervals that meet is the interval that the code takes.
union :
    (p b e : ℕ) (a : Area)
    → meets b e a ≡ true
    → inside p (area (if ltb b a.begin then b else a.begin) (if ltb a.end e then e else a.end))
      ≡ (inside p (area b e) || inside p a)
union p b e a h = ground arith

wider_is_not_empty :
    (b e : ℕ) (a : Area)
    → b < e
    → (if ltb b a.begin then b else a.begin) < (if ltb a.end e then e else a.end)
wider_is_not_empty b e a h = ground arith

merge-Merged :
    (fuel b e : ℕ) (as' : List Area)
    → length as' < fuel
    → b < e
    → IsSeparated as'
    → Merged b e as' (merge fuel b e as')
unfolding merge
merge-Merged zero b e as' f h s = absurd (omega arith)
merge-Merged (suc fuel) b e as' f h s = elim (Option-cases (find_meeting b e as')) [
  | inl eq ↦
      rw (eq, merge)
        (record {
          out = as' ++ (area b e ∷ []);
          returns = refl;
          separated = IsSeparated-append (area b e) as' h s (find_meeting-none b e as' eq);
          covers = λ p. ground (arith, covered-append p as' (area b e ∷ []));
          bounded = omega (arith, length-append {0} as' (area b e ∷ []));
        })
  | inr (i, eq) ↦
      rw (eq, merge)
        (let (lt, hit) = find_meeting-some b e as' i eq in
          let a = get_or as' i no_area in
          let rec =
            merge-Merged fuel (if ltb b a.begin then b else a.begin)
              (if ltb a.end e then e else a.end) (remove_at i as')
              (omega (arith, length-remove_at i as')) (wider_is_not_empty b e a h)
              (IsSeparated-remove_at i as' s) in
          record {
            out = rec.out;
            returns = rec.returns;
            separated = rec.separated;
            covers =
                λ p. ground (arith, rec.covers p, union p b e a hit, covered-remove_at p i as' lt);
            bounded = omega (arith, length-remove_at i as' lt, rec.bounded);
          })
]

-- `mem_map_add_area` of a non-empty interval never fails on a map of separated areas. It keeps
-- them separated and within the limit. With room in the map the result covers just what the map and the
-- interval covered; a full map is left as it is.
pub add_area_lem :
    (b e : ℕ) (areas : List Area)
    → b < e
    → IsSeparated areas
    → length areas ≤ map_max
    → (out : List Area) × (add_area b e areas ≡ some out)
      × IsSeparated out
      × (length out ≤ map_max)
      × (length areas < map_max
          → (p : ℕ) → covered p out ≡ (inside p (area b e) || covered p areas))
      × (length areas ≡ map_max → out ≡ areas)
unfolding add_area
add_area_lem b e areas h s le = elim (Bool-cases (length areas == map_max)) [
  | inl full ↦ (areas, ground arith, s, le, λ lt p. absurd (ground arith), λ eq. refl)
  | inr room ↦
      let m = merge-Merged (suc (length areas)) b e areas (omega arith) h s in
      let bounded : length m.out ≤ map_max = ground (arith, m.bounded) in
      (
        m.out,
        ground (arith, m.returns),
        m.separated,
        bounded,
        λ lt p. m.covers p,
        λ eq. absurd (ground arith),
      )
]

-- An interval that is empty or reversed fails the assertion.
pub add_area-none : (b e : ℕ) (areas : List Area) → e ≤ b → add_area b e areas ≡ none
unfolding add_area
add_area-none b e areas h = ground arith

-- With room in the map, the areas are merged.
pub add_area-Merged :
    (b e : ℕ) (areas : List Area)
    → b < e
    → IsSeparated areas
    → length areas < map_max
    → Merged b e areas (add_area b e areas)
unfolding add_area
add_area-Merged b e areas h s room =
    let l : ltb b e ≡ true = ground arith in
    let f : (length areas == map_max) ≡ false = ground arith in
    rw (l, f) (merge-Merged (suc (length areas)) b e areas (omega arith) h s)
