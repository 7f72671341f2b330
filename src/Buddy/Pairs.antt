-- ===== src/Buddy/Pairs.antt =====
-- kernel/mm/buddy.c: the allocation bits, of which each pair of buddies has one.
use native.Mathlib.Nat.{pow-suc}
use lasagne.Base.{
  ℕ, suc, ◌+◌, ◌-◌, ◌*◌, ◌/◌, ◌%◌, ◌^◌, ◌≤◌, ◌<◌, ◌≡◌, refl, sym, ◌∙◌, ap, inl, inr, arith, true,
  false, not, List, ◌∷◌, length, ◌==◌, if◌then◌else◌, Bool-cases, ==→eq, ==_false→ne,
}
use lasagne.Util.Bitmap.{flip_bit, get_bit}
use lasagne.Util.Bitmap.Laws.{changed_bits, get_bit-le, length-flip_bit}
use lasagne.Buddy.{Allocator, update, unique_index, index_in_level, allocation_bit_index}
use lasagne.Buddy.Index.{IsGeometry, block_at, unique_index_injective, index-block_at}
use lasagne.Buddy.FreeList.{has}

-- 1 for a free block. `at` has the address of each block of each level.
abbrev pub free_bit : (ℕ → ℕ → ℕ) → (ℕ → List ℕ) → ℕ → ℕ → ℕ
free_bit at lists level k = if has (at level k) (lists level) then 1 else 0

-- Each pair's bit lies in the bitmap, and says whether just one of the two is on the free list of their level.
pub record PairBits (at : ℕ → ℕ → ℕ) (max_level : ℕ) (bitmap : List ℕ) (lists : ℕ → List ℕ)
    : Type 0 where
  pub narrow : max_level ≤ 30
  pub room : (l j : ℕ) → l < max_level → j < 2 ^ l → unique_index l j / 8 < length bitmap
  pub bits :
      (l j : ℕ)
      → l < max_level
      → j < 2 ^ l
      → get_bit bitmap (unique_index l j)
        ≡ (free_bit at lists (suc l) (2 * j) + free_bit at lists (suc l) (2 * j + 1)) % 2

-- The list of a level after one block came onto it or left it.
abbrev pub Toggled : (ℕ → ℕ) → (i : ℕ) → (bound : ℕ) → (xs ys : List ℕ) → Type 0
Toggled at i bound xs ys =
    (k : ℕ) → k < bound → has (at k) ys ≡ (if k == i then not (has (at k) xs) else has (at k) xs)

module _ {at : ℕ → ℕ → ℕ} {max_level : ℕ} {bitmap : List ℕ} {lists : ℕ → List ℕ}
    (p : PairBits at max_level bitmap lists) where
  -- The bit of one pair is inverted, and the others are as they were.
  pub flipped_pair :
      (l i m j : ℕ)
      → l < max_level
      → m < max_level
      → i < 2 ^ l
      → j < 2 ^ m
      → get_bit (flip_bit bitmap (unique_index l i)) (unique_index m j) ≡ (
          if m == l
          then (if j == i
              then 1 - get_bit bitmap (unique_index m j)
              else get_bit bitmap (unique_index m j))
          else get_bit bitmap (unique_index m j))
  flipped_pair l i m j hl hm hi hj =
      let (change, _, _) =
        changed_bits bitmap (unique_index l i) (unique_index m j) (p.room l i hl hi) in
      elim (Bool-cases (unique_index l i == unique_index m j)) [
        | inl e ↦
            let (f, g) =
              unique_index_injective l m i j (omega (arith, p.narrow)) (omega (arith, p.narrow)) hi
                hj (==→eq _ _ e) in
            let q : (m == l) ≡ true = ground arith in
            let r : (j == i) ≡ true = ground arith in rw (change, e, q, r) refl
        | inr e ↦
            let q : ((m == l) ≡ true) → (j == i) ≡ false = λ s. elim (Bool-cases (j == i)) [
              | inl t ↦ absurd (
                  ==_false→ne _ _ e (
                    ap (λ (x : ℕ). unique_index x i) (sym (==→eq m l s))
                    ∙ ap (unique_index m) (sym (==→eq j i t))))
              | inr t ↦ t
            ] in
            rw (change, e)
              (elim (Bool-cases (m == l)) [ inl s ↦ rw (s, q s) refl | inr s ↦ rw s refl ])
      ]

  -- A block comes onto its level's list or leaves it, and its pair's bit is inverted: the bits are
  -- again those of the lists.
  pub PairBits-toggle :
      (l i : ℕ) (ys : List ℕ)
      → l < max_level
      → i < 2 ^ suc l
      → Toggled (at (suc l)) i (2 ^ suc l) (lists (suc l)) ys
      → PairBits at max_level (flip_bit bitmap (unique_index l (i / 2))) (update lists (suc l) ys)
  PairBits-toggle l i ys hl hi toggled = record {
    narrow = p.narrow;
    room = λ m j hm hj. rw length-flip_bit (p.room m j hm hj);
    bits = λ m j hm hj.
        flipped_pair l (i / 2) m j hl hm (omega (arith, pow-suc 2 l)) hj
        ∙ elim (Bool-cases (m == l)) [
          | inl s ↦
              let same : m ≡ l = ground arith in
              let r : (l == l) ≡ true = ground arith in
              let r' : (suc l == suc l) ≡ true = ground arith in
              let hj' : j < 2 ^ l = omega (arith, ap (λ (t : ℕ). 2 ^ t) same) in
              let lo = toggled (2 * j) (omega (arith, pow-suc 2 l)) in
              let hi' = toggled (2 * j + 1) (omega (arith, pow-suc 2 l)) in
              let old = rw same at (p.bits m j hm hj) in
              rw (same, r, r') (ground (arith, lo, hi', old, get_bit-le bitmap (unique_index l j)))
          | inr s ↦
              let s' : (suc m == suc l) ≡ false = ground arith in rw (s, s') (p.bits m j hm hj)
        ];
  }

  -- The list of level 0 has no part in it.
  pub PairBits-zero : (ys : List ℕ) → PairBits at max_level bitmap (update lists 0 ys)
  PairBits-zero ys = record {
    narrow = p.narrow;
    room = p.room;
    bits = λ l j hl hj. ground (arith, p.bits l j hl hj);
  }

module _ {a : Allocator} {leaf : ℕ} (g : IsGeometry a leaf) (l i : ℕ) (le : suc l ≤ a.max_level)
    (h : i < 2 ^ suc l) where
  -- The bit of a block below level 0 is that of its pair.
  pub allocation_bit_index-block_at :
      allocation_bit_index a (block_at a (suc l) i) (suc l) ≡ unique_index l (i / 2)
  unfolding allocation_bit_index
  allocation_bit_index-block_at =
      let one : suc l - 1 ≡ l = omega arith in rw (one, index-block_at g (suc l) i le h) refl

  pub block_at_injective :
      (j : ℕ) → j < 2 ^ suc l → block_at a (suc l) i ≡ block_at a (suc l) j → i ≡ j
  block_at_injective j hj e =
      sym (index-block_at g (suc l) i le h)
      ∙ ap (λ b. index_in_level a b (suc l)) e
      ∙ index-block_at g (suc l) j le hj

  pub block_at-eq :
      (j : ℕ) → j < 2 ^ suc l → (block_at a (suc l) i == block_at a (suc l) j) ≡ (i == j)
  block_at-eq j hj = elim (Bool-cases (i == j)) [
    | inl e ↦ rw (e, ==→eq i j e) (ground arith)
    | inr e ↦ elim (Bool-cases (block_at a (suc l) i == block_at a (suc l) j)) [
      | inl q ↦ absurd (==_false→ne i j e (block_at_injective j hj (==→eq _ _ q)))
      | inr q ↦ rw (q, e) refl
    ]
  ]

  -- A block comes in front of its list, or leaves the front.
  pub Toggled-push :
      (xs : List ℕ)
      → has (block_at a (suc l) i) xs ≡ false
      → Toggled (block_at a (suc l)) i (2 ^ suc l) xs (block_at a (suc l) i ∷ xs)
        × Toggled (block_at a (suc l)) i (2 ^ suc l) (block_at a (suc l) i ∷ xs) xs
  Toggled-push xs out = (
    λ k hk. elim (Bool-cases (k == i)) [
      | inl e ↦ rw (==→eq k i e, same, block_at-eq i h, same, out) refl
      | inr e ↦ rw (e, block_at-eq k hk, flip k e) refl
    ],
    λ k hk. elim (Bool-cases (k == i)) [
      | inl e ↦ rw (==→eq k i e, same, block_at-eq i h, same, out) refl
      | inr e ↦ rw (e, block_at-eq k hk, flip k e) refl
    ],
  )
    where
      same : (i == i) ≡ true
      same = ground arith

      flip : (k : ℕ) → (k == i) ≡ false → (i == k) ≡ false
      flip k e = ground arith
