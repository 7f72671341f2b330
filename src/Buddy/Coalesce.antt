-- ===== src/Buddy/Coalesce.antt =====
-- kernel/mm/buddy.c: a block that is freed is joined with its buddy as long as that one is free.
use native.Mathlib.Nat.{pow-suc}
use lasagne.Base.{
  ℕ, zero, suc, ◌+◌, ◌-◌, ◌*◌, ◌/◌, ◌%◌, ◌^◌, ◌≤◌, ◌<◌, ◌≡◌, ◌≢◌, refl, sym, ◌∙◌, ap, inl, inr,
  arith, true, false, ◌||◌, some, List, [], ◌∷◌, length, ◌==◌, ltb, if◌then◌else◌, Bool-cases,
  ==→eq, ==_false→ne,
}
use lasagne.Util.Bitmap.{flip_bit, get_bit, reset_bit}
use lasagne.Util.Bitmap.Laws.{changed_bits}
use lasagne.Buddy.{
  State, update, null, unique_index, size_from_level, index_in_level, allocation_bit_index,
  split_bit_index, flip_allocation_bit, get_allocation_bit, calculate_buddy_address,
  remove_from_list, add_to_list, join, deallocate_loop,
}
use lasagne.Buddy.Index.{IsGeometry, block_at, sibling, sibling-lt, buddy-block_at, parent-block_at}
use lasagne.Buddy.FreeList.{has, AllDistinct}
use lasagne.Buddy.Remove.{
  HasLists, erase, has-erase, length-erase, not-has-null, remove_from_list_lem,
}
use lasagne.Buddy.Ops.{IsFresh, add_to_list_lem}
use lasagne.Buddy.Pairs.{
  PairBits, PairBits-toggle, Toggled, free_bit, allocation_bit_index-block_at, block_at_injective,
  Toggled-push,
}

-- The free lists after block `i` of a level is freed, where `at` has the address of each block of each level.
unfoldable pub coalesce : (ℕ → ℕ → ℕ) → (ℕ → List ℕ) → (level i : ℕ) → ℕ → List ℕ
coalesce at lists zero i = update lists 0 (at 0 i ∷ lists 0)
coalesce at lists (suc l) i =
    let buddy = at (suc l) (sibling i) in
    let joined = coalesce at (update lists (suc l) (erase buddy (lists (suc l)))) l (i / 2) in
    if has buddy (lists (suc l))
    then joined
    else update lists (suc l) (at (suc l) i ∷ lists (suc l))

-- The state behind `flip_allocation_bit` of the bit `n`.
abbrev pub marked : State → ℕ → State
marked s n = record s {
  alloc = record (s.alloc) { allocation_bitmap = flip_bit s.alloc.allocation_bitmap n };
}

-- One round at a block below level 0, by the bit `n` that is read.
loop_step :
    (s : State) (l base n : ℕ)
    → allocation_bit_index s.alloc base (suc l) ≡ n
    → let joined = join (marked s n) base (suc l) in
      (get_bit (flip_bit s.alloc.allocation_bitmap n) n ≡ 1
        → deallocate_loop (suc l) s base ≡ some (add_to_list (marked s n) base (suc l)))
      × (get_bit (flip_bit s.alloc.allocation_bitmap n) n ≡ 0
          → deallocate_loop (suc l) s base ≡ (
              if l == 0
              then some (add_to_list joined.1 joined.0 0)
              else deallocate_loop l joined.1 joined.0))
unfolding deallocate_loop flip_allocation_bit get_allocation_bit allocation_bit_index
loop_step s l base n q =
    let z : (suc l == 0) ≡ false = ground arith in
    (λ e. rw (deallocate_loop, z, q, e) refl, λ e. rw (deallocate_loop, z, q, e) refl)

-- The free lists, the allocation bits and the sizes of an allocator over at most `2 ^ 30` leaves, a power of two agree.
pub record IsConsistent (s : State) (lists : ℕ → List ℕ) (leaf : ℕ) : Type 0 where
  pub geometry : IsGeometry s.alloc leaf
  pub has_lists : HasLists s lists
  pub pairs : PairBits (block_at s.alloc) s.alloc.max_level s.alloc.allocation_bitmap lists

-- A free list's length can still be counted when a block is added.
abbrev pub IsShort : (ℕ → List ℕ) → Type 0
IsShort lists = (m : ℕ) → length (lists m) + 1 < 2 ^ 64

-- The state behind the removal of the buddy, and the split bit that is reset.
abbrev pub merged : State → (buddy level bit : ℕ) → State
merged t buddy level bit =
    let u = remove_from_list t buddy level in
    record u { alloc = record (u.alloc) { split_bitmap = reset_bit u.alloc.split_bitmap bit } }

has_self-erase : (b : ℕ) (xs : List ℕ) → AllDistinct xs → has b (erase b xs) ≡ false
has_self-erase b [] d = refl
has_self-erase b (x ∷ xs) d = elim (Bool-cases (x == b)) [
  | inl e ↦ rw e (ground (arith, d.0, ==→eq x b e))
  | inr e ↦ rw (e, e) (has_self-erase b xs d.1)
]

has-erase_ne : (a b : ℕ) (xs : List ℕ) → a ≢ b → has a (erase b xs) ≡ has a xs
has-erase_ne a b [] ne = refl
has-erase_ne a b (x ∷ xs) ne = elim (Bool-cases (x == b)) [
  | inl e ↦ rw e (ground arith)
  | inr e ↦ rw e (ap (λ r. (x == a) || r) (has-erase_ne a b xs ne))
]

module _ {s : State} {lists : ℕ → List ℕ} {leaf : ℕ} (c : IsConsistent s lists leaf) (l i : ℕ)
    (le : suc l ≤ s.alloc.max_level) (h : i < 2 ^ suc l) where
  abbrev pub base : ℕ
  base = block_at s.alloc (suc l) i

  abbrev pub buddy : ℕ
  buddy = block_at s.alloc (suc l) (sibling i)

  abbrev pub pair : ℕ
  pair = unique_index l (i / 2)

  pub half-lt : i / 2 < 2 ^ l
  half-lt = omega (arith, pow-suc 2 l)

  pub pair_lem : allocation_bit_index s.alloc base (suc l) ≡ pair
  pair_lem = allocation_bit_index-block_at c.geometry l i le h

  -- The bit of the pair behind the flip says that the buddy is not free.
  flipped_bit :
      has base (lists (suc l)) ≡ false
      → get_bit (flip_bit s.alloc.allocation_bitmap pair) pair
        ≡ 1 - free_bit (block_at s.alloc) lists (suc l) (sibling i)
  flipped_bit out =
      let (change, _, _) =
        changed_bits s.alloc.allocation_bitmap pair pair (c.pairs.room l (i / 2) le half-lt) in
      let old = c.pairs.bits l (i / 2) le half-lt in
      let same : (pair == pair) ≡ true = ground arith in
      change ∙ elim (Bool-cases (i % 2 == 0)) [
        | inl even ↦
            let e : 2 * (i / 2) ≡ i = ground arith in
            rw (same, even) (ground (arith, rw e at old, ap (λ x. x + 1) e, out))
        | inr odd ↦
            let e : 2 * (i / 2) + 1 ≡ i = ground arith in
            let f : 2 * (i / 2) ≡ i - 1 = ground arith in
            rw (same, odd) (ground (arith, rw (e, f) at old, out))
      ]

  Toggled-erase :
      has buddy (lists (suc l)) ≡ true
      → Toggled
          (block_at s.alloc (suc l))
          (sibling i)
          (2 ^ suc l)
          (lists (suc l))
          (erase buddy (lists (suc l)))
  Toggled-erase free k hk = elim (Bool-cases (k == sibling i)) [
    | inl e ↦
        rw (e, ==→eq k (sibling i) e, free)
          (has_self-erase buddy (lists (suc l)) (c.has_lists.list (suc l)).distinct)
    | inr e ↦ rw e (
        has-erase_ne (block_at s.alloc (suc l) k) buddy (lists (suc l)) (λ q.
          ==_false→ne k (sibling i) e
            (block_at_injective c.geometry l k le hk (sibling i) (sibling-lt l i h) q)))
  ]

  marked-HasLists : HasLists (marked s pair) lists
  marked-HasLists = record {
    list = c.has_lists.list;
    count = c.has_lists.count;
    apart = c.has_lists.apart;
  }

  -- What `join` gives for the block, whose buddy is free: the parent, and the state behind the removal.
  join_lem : join (marked s pair) base (suc l) ≡ (
    block_at s.alloc l (i / 2),
    merged (marked s pair) buddy (suc l) (split_bit_index s.alloc base (suc l - 1)),
  )
  unfolding join calculate_buddy_address split_bit_index index_in_level remove_from_list
  join_lem = rw (buddy-block_at c.geometry l i le h, parent-block_at c.geometry l i le h) refl

  abbrev pub after_join : State
  after_join = merged (marked s pair) buddy (suc l) (split_bit_index s.alloc base (suc l - 1))

  abbrev pub joined_lists : ℕ → List ℕ
  joined_lists = update lists (suc l) (erase buddy (lists (suc l)))

  pub half-sibling : sibling i / 2 ≡ i / 2
  half-sibling = ground arith

  pub joined-IsShort : IsShort lists → has buddy (lists (suc l)) ≡ true → IsShort joined_lists
  joined-IsShort short free m =
      ground (arith, short m, short (suc l), length-erase buddy (lists (suc l)))

  pub after_join-IsConsistent :
      IsShort lists → has buddy (lists (suc l)) ≡ true → IsConsistent after_join joined_lists leaf
  unfolding remove_from_list size_from_level
  after_join-IsConsistent short free =
      let kept =
        remove_from_list_lem (marked s pair) lists buddy (suc l) marked-HasLists free
          (omega (arith, short (suc l))) in
      record {
        geometry = record {
          leaves = c.geometry.leaves;
          narrow = c.geometry.narrow;
          whole = c.geometry.whole;
          inside = c.geometry.inside;
        };
        has_lists = record { list = kept.list; count = kept.count; apart = kept.apart };
        pairs = rw half-sibling at (
            PairBits-toggle c.pairs l (sibling i) (erase buddy (lists (suc l))) le
              (sibling-lt l i h) (Toggled-erase free));
      }

  -- The parent is the block or its buddy, and is on no list behind the removal.
  pub parent-IsFresh :
      IsFresh lists base
      → has buddy (lists (suc l)) ≡ true
      → IsFresh joined_lists (block_at s.alloc l (i / 2))
  parent-IsFresh fresh free =
      rw (← parent-block_at c.geometry l i le h) (elim (Bool-cases (ltb base buddy)) [
        | inl e ↦ rw e (
          fresh.0,
          λ m. ground (arith, fresh.1 m, fresh.1 (suc l), has-erase base buddy (lists (suc l))),
        )
        | inr e ↦ rw e (
          (λ z. ground (
            arith,
            z,
            free,
            not-has-null s.heap null (s.alloc.free_blocks (suc l)) (lists (suc l))
                (c.has_lists.list (suc l)).linked,
          )),
          λ m. elim (Bool-cases (m == suc l)) [
            | inl q ↦
                rw q (has_self-erase buddy (lists (suc l)) (c.has_lists.list (suc l)).distinct)
            | inr q ↦
                rw q (c.has_lists.apart (suc l) m buddy (λ p. ==_false→ne m (suc l) q (sym p)) free)
          ],
        )
      ])

  -- The buddy is not free: the block becomes the first of its list.
  pub push-IsConsistent :
      IsShort lists
      → IsFresh lists base
      → IsConsistent
          (add_to_list (marked s pair) base (suc l))
          (update lists (suc l) (base ∷ lists (suc l)))
          leaf
  unfolding add_to_list size_from_level
  push-IsConsistent short fresh =
      let kept =
        add_to_list_lem (marked s pair) lists base (suc l) marked-HasLists fresh (short (suc l)) in
      record {
        geometry = record {
          leaves = c.geometry.leaves;
          narrow = c.geometry.narrow;
          whole = c.geometry.whole;
          inside = c.geometry.inside;
        };
        has_lists = kept;
        pairs =
            PairBits-toggle c.pairs l i (base ∷ lists (suc l)) le h
              (Toggled-push c.geometry l i le h (lists (suc l)) (fresh.1 (suc l))).0;
      }

  pub step_other :
      IsFresh lists base
      → has buddy (lists (suc l)) ≡ false
      → deallocate_loop (suc l) s base ≡ some (add_to_list (marked s pair) base (suc l))
  step_other fresh other =
      (loop_step s l base pair pair_lem).0 (flipped_bit (fresh.1 (suc l)) ∙ rw other refl)

  pub step_joined :
      IsFresh lists base
      → has buddy (lists (suc l)) ≡ true
      → deallocate_loop (suc l) s base ≡ (
          if l == 0
          then some (add_to_list after_join (block_at s.alloc l (i / 2)) 0)
          else deallocate_loop l after_join (block_at s.alloc l (i / 2)))
  step_joined fresh free =
      (loop_step s l base pair pair_lem).1 (flipped_bit (fresh.1 (suc l)) ∙ rw free refl)
      ∙ rw join_lem refl
