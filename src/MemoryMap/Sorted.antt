-- ===== src/MemoryMap/Sorted.antt =====
-- `mem_map_sanitize` of kernel/mm/memory_map.c: the sort and the alignment to pages.
use mathlib.Core.List.{Perm}
use mathlib.Core.List.Perm
use lasagne.Base.{
  ℕ, zero, suc, ◌+◌, ◌-◌, ◌%◌, ◌^◌, ◌≤◌, ◌<◌, ◌≡◌, refl, inl, inr, ◌⊎◌, arith, some, List, [], ◌∷◌,
  length, get_or, set, ltb, Bool-cases, length-set,
}
use lasagne.MemoryMap.{
  Area, MemoryMap, least_from, swap_first, sort, align, align_all, end_of_last, sanitize,
}

abbrev pub All : (Area → Type 0) → List Area → Type 0
All P [] = Unit {0}
All P (a ∷ as') = P a × All P as'

-- No area begins below `n`.
abbrev pub AllFrom : ℕ → List Area → Type 0
AllFrom n = All (λ a. n ≤ a.begin)

abbrev pub IsSorted : List Area → Type 0
IsSorted [] = Unit {0}
IsSorted (a ∷ as') = AllFrom a.begin as' × IsSorted as'

AllFrom-le : (n m : ℕ) (as' : List Area) → n ≤ m → AllFrom m as' → AllFrom n as'
AllFrom-le n m [] p h = tt
AllFrom-le n m (a ∷ as') p h = (omega arith, AllFrom-le n m as' p h.1)

module _ (P : Area → Type 0) where
  All-set : (i : ℕ) (a : Area) (as' : List Area) → P a → All P as' → All P (set as' i a)
  All-set i a [] p h = tt
  All-set zero a (x ∷ xs) p h = (p, h.1)
  All-set (suc i) a (x ∷ xs) p h = (h.0, All-set i a xs p h.1)

  All-get_or : (i : ℕ) (a : Area) (as' : List Area) → P a → All P as' → P (get_or as' i a)
  All-get_or i a [] p h = p
  All-get_or zero a (x ∷ xs) p h = h.0
  All-get_or (suc i) a (x ∷ xs) p h = All-get_or i a xs p h.1

  All-swap_first :
      (k : ℕ) (a : Area) (rest : List Area)
      → P a
      → All P rest
      → P (swap_first k a rest).0 × All P (swap_first k a rest).1
  unfolding swap_first
  All-swap_first zero a rest p h = (p, h)
  All-swap_first (suc k) a rest p h = (All-get_or k a rest p h, All-set k a rest p h)

  All-sort : (k : ℕ) (as' : List Area) → All P as' → All P (sort k as')
  unfolding sort
  All-sort zero as' h = h
  All-sort (suc k) [] h = tt
  All-sort (suc k) (a ∷ rest) h =
      let (p, q) = All-swap_first (least_from rest 1 a.begin 0) a rest h.0 h.1 in
      (p, All-sort k _ q)

-- What the inner loop finds: the place it came with, if nothing is less, or the place of the
-- least of the areas that it saw. `d` stands for what is read outside them.
abbrev Least : Area → List Area → ℕ → ℕ → ℕ → ℕ → Type 0
Least d as' j least at r =
    ((r ≡ at) × AllFrom least as')
    ⊎ ((i : ℕ) × (r ≡ j + i)
        × (i < length as')
        × AllFrom (get_or as' i d).begin as'
        × ((get_or as' i d).begin ≤ least))

least_from-Least :
    (d : Area) (as' : List Area) (j least at : ℕ)
    → Least d as' j least at (least_from as' j least at)
unfolding least_from
least_from-Least d [] j least at = inl (refl, tt)
least_from-Least d (a ∷ as') j least at = elim (Bool-cases (ltb a.begin least)) [
  | inl lt ↦
      rw (lt, least_from)
        (elim (least_from-Least d as' (suc j) a.begin j) [
          | inl (e, h) ↦ inr (0, omega arith, omega arith, (omega arith, h), ground arith)
          | inr (i, e, l, h, le) ↦ inr (suc i, omega arith, omega arith, (le, h), ground arith)
        ])
  | inr ge ↦
      rw (ge, least_from)
        (elim (least_from-Least d as' (suc j) least at) [
          | inl (e, h) ↦ inl (e, (ground arith, h))
          | inr (i, e, l, h, le) ↦ inr (suc i, omega arith, omega arith, (ground arith, h), le)
        ])
]

swap-perm :
    (i : ℕ) (a : Area) (rest : List Area)
    → i < length rest
    → Perm (get_or rest i a ∷ set rest i a) (a ∷ rest)
swap-perm i a [] h = absurd (omega arith)
swap-perm zero a (x ∷ xs) h = Perm.swap a x xs
swap-perm (suc i) a (x ∷ xs) h =
    Perm.trans (Perm.swap x _ _)
      (Perm.trans (Perm.cons x (swap-perm i a xs (omega arith))) (Perm.swap a x xs))

-- The area that a round of the sort puts in place, and those that it leaves.
record Picked (a : Area) (rest : List Area) (out : Area × List Area) : Type 0 where
  least : AllFrom out.0.begin out.1
  same : Perm (out.0 ∷ out.1) (a ∷ rest)
  size : length out.1 ≡ length rest

pick-Picked :
    (a : Area) (rest : List Area) → Picked a rest (swap_first (least_from rest 1 a.begin 0) a rest)
unfolding swap_first
pick-Picked a rest = elim (least_from-Least a rest 1 a.begin 0) [
  | inl (e, h) ↦ rw (e, swap_first) (record { least = h; same = Perm.refl _; size = refl })
  | inr (i, e, l, h, le) ↦
      let e' : least_from rest 1 a.begin 0 ≡ suc i = omega arith in
      rw (e', swap_first)
        (record {
          least = All-set _ i a rest le h;
          same = swap-perm i a rest l;
          size = length-set rest i a;
        })
]

-- With a round for each area the sort is a sorting permutation.
pub sort-IsSorted :
    (n : ℕ) (as' : List Area) → length as' ≤ n → IsSorted (sort n as') × Perm (sort n as') as'
unfolding sort
sort-IsSorted zero [] h = (tt, Perm.refl _)
sort-IsSorted zero (a ∷ rest) h = absurd (omega arith)
sort-IsSorted (suc n) [] h = (tt, Perm.refl _)
sort-IsSorted (suc n) (a ∷ rest) h =
    let picked = pick-Picked a rest in
    let (s, p) =
      sort-IsSorted n (swap_first (least_from rest 1 a.begin 0) a rest).1
        (omega (arith, picked.size)) in
    ((All-sort _ n _ picked.least, s), Perm.trans (Perm.cons _ p) picked.same)

-- An area shrunk to whole pages: it is the widest such part of the area, unless `begin` wraps.
pub record IsShrunk (a b : Area) : Type 0 where
  pub begin_whole : b.begin % 4096 ≡ 0
  pub end_whole : b.end % 4096 ≡ 0
  pub begin_up : (a.begin ≤ b.begin) × (b.begin < a.begin + 4096)
  pub end_down : (b.end ≤ a.end) × (a.end < b.end + 4096)

align-IsShrunk : (a : Area) → a.begin ≤ 2 ^ 64 - 4096 → IsShrunk a (align a)
unfolding align
align-IsShrunk a h = ground arith

-- Each area of the second list is the whole pages of its place in the first.
abbrev pub AllShrunk : List Area → List Area → Type 0
AllShrunk [] [] = Unit {0}
AllShrunk [] (b ∷ bs) = ⊥
AllShrunk (a ∷ as') [] = ⊥
AllShrunk (a ∷ as') (b ∷ bs) = IsShrunk a b × (b.begin < b.end) × AllShrunk as' bs

-- The area holds two pages but a byte, so it holds a whole one; its begin does not wrap.
abbrev pub IsWide : Area → Type 0
IsWide a = (a.begin + 8191 ≤ a.end) × (a.begin ≤ 2 ^ 64 - 4096)

align_all-AllShrunk :
    (as' : List Area)
    → All IsWide as'
    → (bs : List Area) × (align_all as' ≡ some bs) × AllShrunk as' bs
unfolding align_all
align_all-AllShrunk [] h = ([], refl, tt)
align_all-AllShrunk (a ∷ as') h =
    let i = align-IsShrunk a h.0.1 in
    let wide : (align a).begin < (align a).end = omega (arith, i.begin_up, i.end_down, h.0.0) in
    let (bs, e, s) = align_all-AllShrunk as' h.1 in (align a ∷ bs, ground arith, (i, wide, s))

AllFrom-AllShrunk :
    (as' bs : List Area) (a b : Area)
    → IsShrunk a b
    → AllFrom a.begin as'
    → AllShrunk as' bs
    → AllFrom b.begin bs
AllFrom-AllShrunk [] [] a b i h s = tt
AllFrom-AllShrunk [] (y ∷ bs) a b i h s = absurd s
AllFrom-AllShrunk (x ∷ as') [] a b i h s = absurd s
AllFrom-AllShrunk (x ∷ as') (y ∷ bs) a b i h s = (
  omega (arith, i.begin_up, s.0.begin_up, i.begin_whole, s.0.begin_whole),
  AllFrom-AllShrunk as' bs a b i h.1 s.2,
)

IsSorted-AllShrunk : (as' bs : List Area) → IsSorted as' → AllShrunk as' bs → IsSorted bs
IsSorted-AllShrunk [] [] h s = tt
IsSorted-AllShrunk [] (y ∷ bs) h s = absurd s
IsSorted-AllShrunk (x ∷ as') [] h s = absurd s
IsSorted-AllShrunk (x ∷ as') (y ∷ bs) h s =
    (AllFrom-AllShrunk as' bs x y s.0 h.0 s.2, IsSorted-AllShrunk as' bs h.1 s.2)

-- `mem_map_sanitize` succeeds when every area is at least 8191 bytes long and begins no later than
-- `2 ^ 64 - 4096`. The result is sorted by `begin`, and its areas are the whole pages of the areas
-- given, up to their order. The physical end is that of the last area.
pub sanitize_lem :
    (areas : List Area)
    → All IsWide areas
    → (m : MemoryMap) × (sorted : List Area) × (sanitize areas ≡ some m)
      × Perm sorted areas
      × IsSorted sorted
      × AllShrunk sorted m.areas
      × IsSorted m.areas
      × (m.physical_end ≡ end_of_last m.areas)
unfolding sanitize
sanitize_lem areas h =
    let (s, p) = sort-IsSorted (length areas) areas (omega arith) in
    let (bs, e, shrunk) =
      align_all-AllShrunk (sort (length areas) areas) (All-sort IsWide (length areas) areas h) in
    (
      record { areas = bs; physical_end = end_of_last bs },
      sort (length areas) areas,
      ground (arith, e),
      p,
      s,
      shrunk,
      IsSorted-AllShrunk _ _ s shrunk,
      refl,
    )
