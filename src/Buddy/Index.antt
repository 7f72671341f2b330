-- ===== src/Buddy/Index.antt =====
-- kernel/mm/buddy.c: the numbering of blocks and the address of a buddy.
use native.Mathlib.Nat.{
  pow-suc, one-le-pow, pow-le-pow_right, mul_comm, mul_assoc, div-eq_of_eq-mul_left,
  mul-le-mul_right,
}
use lasagne.Base.{
  ℕ, zero, suc, ◌+◌, ◌-◌, ◌*◌, ◌/◌, ◌%◌, ◌^◌, ◌≤◌, ◌<◌, ◌≡◌, sym, ◌∙◌, ap, inl, inr, arith, bit_xor,
  bit_xor_fields, bit_xor-one, Bool-cases, ◌==◌, ltb, ltb→lt, ltb_false→le, if◌then◌else◌,
}
use lasagne.Buddy.{
  int_shift, Allocator, size_from_level, unique_index, index_in_level, calculate_buddy_address,
}

pub pow_narrow : (l : ℕ) → l ≤ 30 → 2 ^ l ≤ 2 ^ 30
pow_narrow l low = pow-le-pow_right {n = 2} (omega arith) {i = l} {j = 30} low

-- The `int` arithmetic does not wrap up to level 30.
unique_index_lem : (l i : ℕ) → l ≤ 30 → i < 2 ^ l → unique_index l i + 1 ≡ 2 ^ l + i
unfolding unique_index
unique_index_lem l i low h = omega (arith, pow_narrow l low, one-le-pow l 2)

-- The numbers of the blocks of one level lie between two powers of two, less one.
pub unique_index_bounds :
    (l i : ℕ)
    → l ≤ 30
    → i < 2 ^ l
    → (2 ^ l ≤ unique_index l i + 1) × (unique_index l i + 1 < 2 ^ suc l)
unique_index_bounds l i low h = omega (arith, pow-suc 2 l, unique_index_lem l i low h)

level_of_index :
    (l m i j : ℕ)
    → l ≤ 30
    → m ≤ 30
    → i < 2 ^ l
    → j < 2 ^ m
    → unique_index l i ≡ unique_index m j
    → l ≤ m
level_of_index l m i j low low' hi hj e = elim (Bool-cases (ltb m l)) [
  | inl lt ↦ absurd (
      omega (
        arith,
        unique_index_bounds l i low hi,
        unique_index_bounds m j low' hj,
        pow-le-pow_right {n = 2} (omega arith) (ltb→lt m l lt),
      ))
  | inr ge ↦ ltb_false→le m l ge
]

-- `unique_index` gives different numbers to different blocks, of one level or of two.
pub unique_index_injective :
    (l m i j : ℕ)
    → l ≤ 30
    → m ≤ 30
    → i < 2 ^ l
    → j < 2 ^ m
    → unique_index l i ≡ unique_index m j
    → (l ≡ m) × (i ≡ j)
unique_index_injective l m i j low low' hi hj e =
    let same : l ≡ m = omega (
      arith,
      level_of_index l m i j low low' hi hj e,
      level_of_index m l j i low' low hj hi (sym e),
    ) in
    (
      same,
      omega (
        arith,
        e,
        ap (λ (t : ℕ). 2 ^ t) same,
        unique_index_lem l i low hi,
        unique_index_lem m j low' hj,
      ),
    )

-- The memory that is managed: `2 ^ max_level` leaves, at most `2 ^ 30`, of `2 ^ leaf` bytes, inside the address space.
pub record IsGeometry (a : Allocator) (leaf : ℕ) : Type 0 where
  pub leaves : a.leaf_size ≡ 2 ^ leaf
  pub whole : a.size ≡ 2 ^ (a.max_level + leaf)
  pub inside : a.memory + a.size ≤ 2 ^ 64
  pub narrow : a.max_level ≤ 30

pub pow-add : (m n : ℕ) → 2 ^ (m + n) ≡ 2 ^ m * 2 ^ n
pow-add m zero = let e : m + 0 ≡ m = omega arith in rw e (omega arith)
pow-add m (suc n) =
    let e : m + suc n ≡ suc (m + n) = omega arith in
    rw (e, pow-suc 2 (m + n), pow-suc 2 n, pow-add m n) (mul_assoc (2 ^ m) (2 ^ n) 2)

xor_block : (b i : ℕ) → bit_xor (i * 2 ^ b) (2 ^ b) ≡ bit_xor i 1 * 2 ^ b
xor_block b i =
    let pos : 0 < 2 ^ b = one-le-pow b 2 (omega arith) in
    let e : i * 2 ^ b + 0 ≡ i * 2 ^ b = omega arith in
    let f : 1 * 2 ^ b + 0 ≡ 2 ^ b = omega arith in
    let z : bit_xor i 1 * 2 ^ b + 0 ≡ bit_xor i 1 * 2 ^ b = omega arith in
    cc (bit_xor_fields b i 1 0 0 pos pos, e, f, z)

-- The address of block `i` of a level.
abbrev pub block_at : Allocator → (level : ℕ) → (i : ℕ) → ℕ
block_at a level i = a.memory + i * size_from_level a level

-- The number of the other half of the block's parent.
abbrev pub sibling : ℕ → ℕ
sibling i = if i % 2 == 0 then i + 1 else i - 1

pub sibling-lt : (l i : ℕ) → i < 2 ^ suc l → sibling i < 2 ^ suc l
sibling-lt l i h = ground (arith, pow-suc 2 l)

module _ {a : Allocator} {leaf : ℕ} (g : IsGeometry a leaf) where
  pub size_from_level-pow :
      (l : ℕ) → l ≤ a.max_level → size_from_level a l ≡ 2 ^ (a.max_level - l + leaf)
  unfolding size_from_level
  size_from_level-pow l le =
      let e : a.max_level + leaf ≡ l + (a.max_level - l + leaf) = omega arith in
      div-eq_of_eq-mul_left (one-le-pow l 2 (omega arith)) (
        g.whole
        ∙ ap (λ (t : ℕ). 2 ^ t) e
        ∙ pow-add l (a.max_level - l + leaf)
        ∙ mul_comm (2 ^ l) (2 ^ (a.max_level - l + leaf)))

  -- The blocks of a level make up the memory.
  pub level_total : (l : ℕ) → l ≤ a.max_level → 2 ^ l * size_from_level a l ≡ a.size
  level_total l le =
      let e : l + (a.max_level - l + leaf) ≡ a.max_level + leaf = omega arith in
      ap (λ (t : ℕ). 2 ^ l * t) (size_from_level-pow l le)
      ∙ sym (pow-add l (a.max_level - l + leaf))
      ∙ ap (λ (t : ℕ). 2 ^ t) e
      ∙ sym g.whole

  pub size_pos : (l : ℕ) → l ≤ a.max_level → 0 < size_from_level a l
  size_pos l le = rw (size_from_level-pow l le) (one-le-pow _ 2 (omega arith))

  -- A block lies inside the memory.
  pub block_end :
      (l i : ℕ)
      → l ≤ a.max_level
      → i < 2 ^ l
      → i * size_from_level a l + size_from_level a l ≤ a.size
  block_end l i le h = omega (
    arith,
    level_total l le,
    mul-le-mul_right {m = i + 1} {n = 2 ^ l} (size_from_level a l) (omega arith),
  )

  -- In an allocator over at most `2 ^ 30` leaves, a power of two, `index_in_level` finds the number of a block from
  -- its address.
  pub index-block_at :
      (l i : ℕ) → l ≤ a.max_level → i < 2 ^ l → index_in_level a (block_at a l i) l ≡ i
  unfolding index_in_level
  index-block_at l i le h =
      let e : (block_at a l i + 2 ^ 64 - a.memory) % 2 ^ 64 ≡ i * size_from_level a l =
        omega (arith, block_end l i le h, size_pos l le, g.inside) in
      let q : (block_at a l i + 2 ^ 64 - a.memory) % 2 ^ 64 / size_from_level a l ≡ i =
        div-eq_of_eq-mul_left (size_pos l le) e in
      rw q (omega (arith, pow_narrow l (omega (arith, le, g.narrow))))

  pub double_size :
      (l : ℕ) → suc l ≤ a.max_level → size_from_level a l ≡ 2 * size_from_level a (suc l)
  double_size l le =
      let e : a.max_level - l + leaf ≡ suc (a.max_level - suc l + leaf) = omega arith in
      size_from_level-pow l (omega arith)
      ∙ ap (λ (t : ℕ). 2 ^ t) e
      ∙ pow-suc 2 (a.max_level - suc l + leaf)
      ∙ omega (arith, size_from_level-pow (suc l) le)

  -- In an allocator over at most `2 ^ 30` leaves, a power of two, `calculate_buddy_address` of a block below level 0
  -- gives the other half of the block's parent.
  pub buddy-block_at :
      (l i : ℕ)
      → suc l ≤ a.max_level
      → i < 2 ^ suc l
      → calculate_buddy_address a (block_at a (suc l) i) (suc l) ≡ block_at a (suc l) (sibling i)
  unfolding calculate_buddy_address
  buddy-block_at l i le h =
      rw (relative, mask, flipped)
        (omega (
          arith,
          block_end (suc l) (sibling i) le (sibling-lt l i h),
          size_pos (suc l) le,
          g.inside,
        ))
    where
      relative : (block_at a (suc l) i + 2 ^ 64 - a.memory) % 2 ^ 64 ≡ i * size_from_level a (suc l)
      relative = omega (arith, block_end (suc l) i le h, size_pos (suc l) le, g.inside)

      shift : int_shift (a.max_level - suc l) ≡ 2 ^ (a.max_level - suc l)
      shift = omega (arith, pow_narrow (a.max_level - suc l) (omega (arith, g.narrow)))

      mask : int_shift (a.max_level - suc l) * a.leaf_size ≡ size_from_level a (suc l)
      mask =
          ap (λ (t : ℕ). t * a.leaf_size) shift
          ∙ ap (λ (t : ℕ). 2 ^ (a.max_level - suc l) * t) g.leaves
          ∙ sym (pow-add (a.max_level - suc l) leaf)
          ∙ sym (size_from_level-pow (suc l) le)

      flipped :
          bit_xor (i * size_from_level a (suc l)) (size_from_level a (suc l))
          ≡ sibling i * size_from_level a (suc l)
      flipped =
          rw (size_from_level-pow (suc l) le)
            (xor_block _ i ∙ ap (λ (t : ℕ). t * 2 ^ (a.max_level - suc l + leaf)) (bit_xor-one i))

  -- In an allocator over at most `2 ^ 30` leaves, a power of two, the lower one of a block below level 0 and its
  -- buddy is the address of their parent.
  pub parent-block_at :
      (l i : ℕ)
      → suc l ≤ a.max_level
      → i < 2 ^ suc l
      → (if ltb (block_at a (suc l) i) (block_at a (suc l) (sibling i))
          then block_at a (suc l) i
          else block_at a (suc l) (sibling i))
        ≡ block_at a l (i / 2)
  parent-block_at l i le h =
      let d = double_size l le in
      let k = i / 2 in
      let p = ap (λ (t : ℕ). k * t) d in
      elim (Bool-cases (i % 2 == 0)) [
        | inl even ↦
            let e : i ≡ 2 * k = ground arith in
            rw even (
              ground
                (arith, p, ap (λ (t : ℕ). t * size_from_level a (suc l)) e, size_pos (suc l) le))
        | inr odd ↦
            let e : i ≡ 2 * k + 1 = ground arith in
            let f : i - 1 ≡ 2 * k = ground arith in
            rw odd (
              ground (
                arith,
                p,
                ap (λ (t : ℕ). t * size_from_level a (suc l)) e,
                ap (λ (t : ℕ). t * size_from_level a (suc l)) f,
                size_pos (suc l) le,
              ))
      ]

  -- The two halves of a block.
  pub halves-block_at :
      (l i : ℕ)
      → suc l ≤ a.max_level
      → (block_at a l i ≡ block_at a (suc l) (2 * i))
        × (block_at a l i + size_from_level a l / 2 ≡ block_at a (suc l) (2 * i + 1))
  halves-block_at l i le =
      let d = double_size l le in omega (arith, d, ap (λ (t : ℕ). i * t) d, size_pos (suc l) le)

  -- In an allocator over at most `2 ^ 30` leaves, a power of two, the buddy of the buddy of a block below level 0 is
  -- the block.
  pub buddy_involution :
      (l i : ℕ)
      → suc l ≤ a.max_level
      → i < 2 ^ suc l
      → calculate_buddy_address a (calculate_buddy_address a (block_at a (suc l) i) (suc l)) (suc l)
        ≡ block_at a (suc l) i
  buddy_involution l i le h =
      rw (buddy-block_at l i le h) (
        buddy-block_at l (sibling i) le (sibling-lt l i h) ∙ ap (block_at a (suc l)) (ground arith))
