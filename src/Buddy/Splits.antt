-- ===== src/Buddy/Splits.antt =====
-- kernel/mm/buddy.c: a block is split down to the level of a request.
use mathlib.Core.Path.{fun_ext}
use native.Mathlib.Nat.{pow-suc}
use lasagne.Base.{
  ℕ, zero, suc, ◌+◌, ◌*◌, ◌%◌, ◌^◌, ◌≤◌, ◌<◌, ◌≡◌, refl, sym, ◌∙◌, ap, inl, inr, arith, true, false,
  List, ◌∷◌, length, ◌==◌, if◌then◌else◌, Bool-cases, ==→eq,
}
use lasagne.Buddy.{
  Allocator, State, update, size_from_level, allocation_bit_index, flip_allocation_bit, split,
  split_down,
}
use lasagne.Buddy.Index.{IsGeometry, block_at, size_pos, block_end, halves-block_at}
use lasagne.Buddy.FreeList.{has}
use lasagne.Buddy.Remove.{HasLists}
use lasagne.Buddy.Ops.{IsFresh, upper_half, split_lem}
use lasagne.Buddy.Allocate.{IsGeometry-kept}
use lasagne.Buddy.Pairs.{
  PairBits, PairBits-toggle, PairBits-zero, Toggled-push, allocation_bit_index-block_at,
  block_at-eq,
}

-- What `split` leaves of the allocator.
pub record SplitKeeps (s : State) (block l : ℕ) : Type 0 where
  pub places : block_at (split s block l).alloc ≡ block_at s.alloc
  pub levels : (split s block l).alloc.max_level ≡ s.alloc.max_level
  pub free_size : (split s block l).alloc.free_size ≡ s.alloc.free_size
  pub geometry : (leaf : ℕ) → IsGeometry s.alloc leaf → IsGeometry (split s block l).alloc leaf
  pub marked :
      (split s block l).alloc.allocation_bitmap
      ≡ (flip_allocation_bit s.alloc block l).allocation_bitmap

split-SplitKeeps : (s : State) (block l : ℕ) → SplitKeeps s block l
unfolding split flip_allocation_bit size_from_level allocation_bit_index
split-SplitKeeps s block l = elim (Bool-cases (l == 0)) [
  | inl e ↦ record {
    places = rw e refl;
    levels = rw e refl;
    free_size = rw e refl;
    geometry =
        IsGeometry-kept s.alloc (split s block l).alloc (rw e refl) (rw e refl) (rw e refl)
          (rw e refl);
    marked = rw e refl;
  }
  | inr e ↦ record {
    places = rw e refl;
    levels = rw e refl;
    free_size = rw e refl;
    geometry =
        IsGeometry-kept s.alloc (split s block l).alloc (rw e refl) (rw e refl) (rw e refl)
          (rw e refl);
    marked = rw e refl;
  }
]

-- The lists with the block in front of its level's.
abbrev pub with_block : (ℕ → ℕ → ℕ) → (ℕ → List ℕ) → (l i : ℕ) → ℕ → List ℕ
with_block at lists l i = update lists l (at l i ∷ lists l)

-- A block was taken from its list to be split, and its bit is not inverted yet. `a` is the allocator before. No block
-- that begins inside it is free.
pub record IsSplitting (a : Allocator) (s : State) (lists : ℕ → List ℕ) (leaf l i : ℕ)
    : Type 0 where
  pub geometry : IsGeometry s.alloc leaf
  pub places : block_at s.alloc ≡ block_at a
  pub levels : s.alloc.max_level ≡ a.max_level
  pub free_size : s.alloc.free_size ≡ a.free_size
  pub has_lists : HasLists s lists
  pub pairs :
      PairBits
        (block_at a)
        a.max_level
        s.alloc.allocation_bitmap
        (with_block (block_at a) lists l i)
  pub fresh : IsFresh lists (block_at a l i)
  pub inside : (m b : ℕ) → block_at a l i < b → b < block_at a l (i + 1) → has b (lists m) ≡ false

pub update_back :
    (lists : ℕ → List ℕ) (l : ℕ) (ys : List ℕ) → update (update lists l ys) l (lists l) ≡ lists
update_back lists l ys =
    fun_ext
      (λ m. elim (Bool-cases (m == l)) [ inl e ↦ rw (e, ==→eq m l e) refl | inr e ↦ rw e refl ])

-- 1 for a member.
abbrev member : ℕ → List ℕ → ℕ
member b xs = if has b xs then 1 else 0

both_parity :
    (at : ℕ → ℕ) (xs : List ℕ) (i j : ℕ)
    → (at (2 * i) == at (2 * j)) ≡ (i == j)
    → (at (2 * i + 1) == at (2 * j)) ≡ false
    → (at (2 * i) == at (2 * j + 1)) ≡ false
    → (at (2 * i + 1) == at (2 * j + 1)) ≡ (i == j)
    → has (at (2 * i)) xs ≡ false
    → has (at (2 * i + 1)) xs ≡ false
    → let ys = at (2 * i) ∷ at (2 * i + 1) ∷ xs in
      (member (at (2 * j)) xs + member (at (2 * j + 1)) xs) % 2
      ≡ (member (at (2 * j)) ys + member (at (2 * j + 1)) ys) % 2
both_parity at xs i j e0 e1 e2 e3 low high = elim (Bool-cases (i == j)) [
  | inl s ↦ let q = ==→eq i j s in rw (e0, e1, e2, e3, s, rw q at low, rw q at high) refl
  | inr s ↦ rw (e0, e1, e2, e3, s) refl
]

module _ {a : Allocator} {leaf : ℕ} (g : IsGeometry a leaf) where
  -- The bit of the block is inverted: lists and bits agree without it.
  pub flip_pairs :
      (s : State) (lists : ℕ → List ℕ) (l i : ℕ)
      → IsSplitting a s lists leaf l i
      → l ≤ a.max_level
      → i < 2 ^ l
      → PairBits
          (block_at a)
          a.max_level
          (flip_allocation_bit s.alloc (block_at a l i) l).allocation_bitmap
          lists
  unfolding flip_allocation_bit
  flip_pairs s lists zero i v le h =
      rw (update_back lists 0 (block_at a 0 i ∷ lists 0)) at (PairBits-zero v.pairs (lists 0))
  flip_pairs s lists (suc l) i v le h =
      let z : (suc l == 0) ≡ false = ground arith in
      let same : (suc l == suc l) ≡ true = ground arith in
      let place = ap (λ (at : ℕ → ℕ → ℕ). at (suc l) i) v.places in
      let index =
        ap (λ b. allocation_bit_index s.alloc b (suc l)) (sym place)
        ∙ allocation_bit_index-block_at v.geometry l i (omega (arith, v.levels, le)) h in
      let t = (Toggled-push g l i le h (lists (suc l)) (v.fresh.1 (suc l))).1 in
      rw (z, index)
        (rw (update_back lists (suc l) (block_at a (suc l) i ∷ lists (suc l))) at
          (PairBits-toggle v.pairs l i (lists (suc l)) le h (rw same t)))

  -- Both blocks of a pair come onto the list, and its bit stays.
  PairBits-both :
      {bitmap : List ℕ} {lists : ℕ → List ℕ} (l i : ℕ)
      → PairBits (block_at a) a.max_level bitmap lists
      → suc l ≤ a.max_level
      → i < 2 ^ l
      → has (block_at a (suc l) (2 * i)) (lists (suc l)) ≡ false
      → has (block_at a (suc l) (2 * i + 1)) (lists (suc l)) ≡ false
      → PairBits (block_at a) a.max_level bitmap (
          update lists
            (suc l)
            (block_at a (suc l) (2 * i) ∷ block_at a (suc l) (2 * i + 1) ∷ lists (suc l)))
  PairBits-both {bitmap} {lists} l i p le h low high = record {
    narrow = p.narrow;
    room = p.room;
    bits = λ m j hm hj. p.bits m j hm hj ∙ elim (Bool-cases (m == l)) [
      | inl e ↦
          let q = ==→eq m l e in
          let hj' : j < 2 ^ l = omega (arith, ap (λ (t : ℕ). 2 ^ t) q) in
          let z : (suc l == suc l) ≡ true = ground arith in
          let even_lt = λ (x : ℕ) (b : x < 2 ^ l).
            let r : 2 * x < 2 ^ suc l = omega (arith, b, pow-suc 2 l) in r in
          let odd_lt = λ (x : ℕ) (b : x < 2 ^ l).
            let r : 2 * x + 1 < 2 ^ suc l = omega (arith, b, pow-suc 2 l) in r in
          rw (q, z)
            (both_parity (block_at a (suc l)) (lists (suc l)) i j
              (block_at-eq g l (2 * i) le (even_lt i h) (2 * j) (even_lt j hj') ∙ ground arith)
              (block_at-eq g l (2 * i + 1) le (odd_lt i h) (2 * j) (even_lt j hj') ∙ ground arith)
              (block_at-eq g l (2 * i) le (even_lt i h) (2 * j + 1) (odd_lt j hj') ∙ ground arith)
              (block_at-eq g l (2 * i + 1) le (odd_lt i h) (2 * j + 1) (odd_lt j hj')
                ∙ ground arith)
              low high)
      | inr e ↦ let z : (suc m == suc l) ≡ false = ground arith in rw z refl
    ];
  }

update_twice :
    (lists : ℕ → List ℕ) (l : ℕ) (ys : List ℕ) (b : ℕ)
    → update lists l (b ∷ ys) ≡ update (update lists l ys) l (b ∷ update lists l ys l)
update_twice lists l ys b =
    let z : (l == l) ≡ true = ground arith in
    rw z (fun_ext (λ m. elim (Bool-cases (m == l)) [ inl e ↦ rw e refl | inr e ↦ rw e refl ]))

module _ {a : Allocator} {leaf : ℕ} (g : IsGeometry a leaf) {s : State} {lists : ℕ → List ℕ}
    {l i : ℕ} (v : IsSplitting a s lists leaf l i) (le : suc l ≤ a.max_level) (h : i < 2 ^ l) where
  abbrev lower : ℕ
  lower = block_at a (suc l) (2 * i)

  abbrev upper : ℕ
  upper = block_at a (suc l) (2 * i + 1)

  lower_lem : block_at a l i ≡ lower
  lower_lem = (halves-block_at g l i le).0

  upper_lem : upper_half s (block_at a l i) l ≡ upper
  upper_lem =
      let place = λ (j : ℕ). ap (λ (at : ℕ → ℕ → ℕ). at l j) v.places in
      let size : size_from_level s.alloc l ≡ size_from_level a l =
        omega (arith, place 0, place 1) in
      rw size (
        omega (
          arith,
          (halves-block_at g l i le).1,
          block_end g (suc l) (2 * i + 1) le (omega (arith, pow-suc 2 l)),
          size_pos g (suc l) le,
          g.inside,
        ))

  order :
      (lower < upper) × (upper < block_at a l (i + 1)) × (block_at a (suc l) (2 * i + 1) ≡ upper)
  order = omega (arith, size_pos g (suc l) le, (halves-block_at g l (i + 1) le).0)

  upper-IsFresh : IsFresh lists upper
  upper-IsFresh = (
    omega (arith, order),
    λ m. v.inside m upper (omega (arith, order, lower_lem)) (omega (arith, order)),
  )

  lower_out : (m : ℕ) → has lower (lists m) ≡ false
  lower_out m = rw (← lower_lem) (v.fresh.1 m)

  abbrev lists_split : ℕ → List ℕ
  lists_split = update lists (suc l) (upper ∷ lists (suc l))

  pub split_step :
      length (lists (suc l)) + 1 < 2 ^ 64
      → IsSplitting a (split s (block_at a l i) l) lists_split leaf (suc l) (2 * i)
  split_step short =
      let k = split-SplitKeeps s (block_at a l i) l in
      let one : l + 1 ≡ suc l = omega arith in
      let flipped = flip_pairs g s lists l i v (omega arith) h in
      let both = PairBits-both g l i flipped le h (lower_out (suc l)) (upper-IsFresh.1 (suc l)) in
      record {
        geometry = k.geometry leaf v.geometry;
        places = k.places ∙ v.places;
        levels = k.levels ∙ v.levels;
        free_size = k.free_size ∙ v.free_size;
        has_lists =
            rw (upper_lem, one) at
              (split_lem s lists (block_at a l i) l v.has_lists (rw upper_lem upper-IsFresh)
                (rw one short));
        pairs = rw (k.marked, ← update_twice lists (suc l) (upper ∷ lists (suc l)) lower) both;
        fresh = (
          (λ z. v.fresh.0 (lower_lem ∙ z)),
          λ m. elim (Bool-cases (m == suc l)) [
            | inl e ↦ rw e (ground (arith, lower_out (suc l), order))
            | inr e ↦ rw e (lower_out m)
          ],
        );
        inside = λ m b lo hi.
            let old =
              λ (n : ℕ). v.inside n b (omega (arith, lo, lower_lem)) (omega (arith, hi, order)) in
            elim (Bool-cases (m == suc l)) [
              | inl e ↦ rw e (ground (arith, old (suc l), hi))
              | inr e ↦ rw e (old m)
            ];
      }

-- The free lists behind so many splits: each puts the upper half in front of the list of the next level.
unfoldable pub split_lists : (ℕ → ℕ → ℕ) → (rounds : ℕ) → (ℕ → List ℕ) → (l i : ℕ) → ℕ → List ℕ
split_lists at zero lists l i = lists
split_lists at (suc n) lists l i =
    split_lists at n (update lists (suc l) (at (suc l) (2 * i + 1) ∷ lists (suc l))) (suc l) (2 * i)

-- The number of the block on the level so far down.
abbrev pub first_part : (rounds : ℕ) → ℕ → ℕ
first_part zero i = i
first_part (suc n) i = first_part n (2 * i)

pub split_down_lem :
    {a : Allocator} {leaf : ℕ} (g : IsGeometry a leaf) (n : ℕ) (s : State) (lists : ℕ → List ℕ)
    (l i target b : ℕ)
    → IsSplitting a s lists leaf l i
    → l + n ≡ target
    → target ≤ a.max_level
    → i < 2 ^ l
    → b ≡ block_at a l i
    → ((m : ℕ) → l < m → length (lists m) + 1 < 2 ^ 64)
    → IsSplitting a
        (split_down n s b l)
        (split_lists (block_at a) n lists l i)
        leaf
        target
        (first_part n i)
      × (b ≡ block_at a target (first_part n i))
      × (first_part n i < 2 ^ target)
unfolding split_down split_lists
split_down_lem g zero s lists l i target b v e le h q short =
    let same : l ≡ target = omega (arith, e) in rw (← same) (v, q, h)
split_down_lem {a} {leaf} g (suc n) s lists l i target b v e le h q short =
    let one : l + 1 ≡ suc l = omega arith in
    let next = split_step g v (omega (arith, e, le)) h (short (suc l) (omega arith)) in
    let shape =
      split_down_lem g n (split s b l) (lists_split g v (omega (arith, e, le)) h) (suc l) (2 * i)
        target b (rw q next) (omega (arith, e)) le (omega (arith, pow-suc 2 l, h))
        (q ∙ (halves-block_at g l i (omega (arith, e, le))).0)
        (λ m hm. let z : (m == suc l) ≡ false = ground arith in rw z (short m (omega arith))) in
    rw (split_down, one) shape
