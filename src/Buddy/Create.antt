-- ===== src/Buddy/Create.antt =====
-- kernel/mm/buddy.c: an allocation for which a larger block is split, and the way back.
use mathlib.Core.Path.{fun_ext}
use lasagne.Base.{
  ℕ, ◌+◌, ◌-◌, ◌%◌, ◌^◌, ◌≤◌, ◌<◌, ◌≡◌, refl, sym, ◌∙◌, ap, inl, inr, arith, true, false, Option,
  some, List, [], ◌∷◌, ◌==◌, Bool-cases, ==→eq, ==_false→ne,
}
use lasagne.Buddy.{
  Allocator, State, update, size_from_level, take_source, split_down, flip_allocation_bit,
}
use lasagne.Buddy.Index.{block_at}
use lasagne.Buddy.FreeList.{has, IsFreeList}
use lasagne.Buddy.Remove.{HasLists}
use lasagne.Buddy.Ops.{IsFresh}
use lasagne.Buddy.Allocate.{IsGeometry-kept}
use lasagne.Buddy.Coalesce.{IsConsistent, IsShort}
use lasagne.Buddy.Splits.{IsSplitting, with_block, split_lists, first_part, split_down_lem}

-- The nearest level above the one of the request with a free block has just the block `i`, and no block that begins inside it is free.
pub record HasSource (s : State) (lists : ℕ → List ℕ) (source level i : ℕ) : Type 0 where
  pub above : source < level
  pub deep : level ≤ s.alloc.max_level
  pub number : i < 2 ^ source
  pub only : lists source ≡ block_at s.alloc source i ∷ []
  pub between : (m : ℕ) → source < m → m ≤ level → lists m ≡ []
  pub inside :
      (m b : ℕ)
      → block_at s.alloc source i < b
      → b < block_at s.alloc source (i + 1)
      → has b (lists m) ≡ false

module _ {s : State} {lists : ℕ → List ℕ} {leaf source level i : ℕ} (c : IsConsistent s lists leaf)
    (short : IsShort lists) (v : HasSource s lists source level i) where
  abbrev block : ℕ
  block = block_at s.alloc source i

  abbrev lists_taken : ℕ → List ℕ
  lists_taken = update lists source []

  first : IsFreeList s.heap (s.alloc.free_blocks source) (block ∷ [])
  first = rw v.only at (c.has_lists.list source)

  block-has : has block (lists source) ≡ true
  block-has = rw v.only (ground arith)

  take_source-HasLists : HasLists (take_source s source) lists_taken
  unfolding take_source
  take_source-HasLists = record {
    list = λ m. elim (Bool-cases (m == source)) [
      | inl e ↦ rw e (record {
        linked = ap (λ b. (s.heap b).next) first.linked.0 ∙ first.linked.3;
        distinct = tt;
      })
      | inr e ↦ rw e (c.has_lists.list m)
    ];
    count = λ m. ground (arith, c.has_lists.count m, c.has_lists.count source, v.only);
    apart = λ m n b ne h. ground (arith, c.has_lists.apart m n b ne);
  }

  taken-IsFresh : IsFresh lists_taken block
  taken-IsFresh = (
    first.linked.1,
    λ m. elim (Bool-cases (m == source)) [
      | inl e ↦ rw e refl
      | inr e ↦
          rw e (c.has_lists.apart source m block (λ p. ==_false→ne m source e (sym p)) block-has)
    ],
  )

  put_back : with_block (block_at s.alloc) lists_taken source i ≡ lists
  put_back =
      let z : (source == source) ≡ true = ground arith in
      rw z (
        fun_ext (λ m. elim (Bool-cases (m == source)) [
          | inl e ↦ rw (e, ==→eq m source e, v.only) refl
          | inr e ↦ rw e refl
        ]))

  taken-IsSplitting : IsSplitting s.alloc (take_source s source) lists_taken leaf source i
  unfolding take_source size_from_level
  taken-IsSplitting = record {
    geometry =
        IsGeometry-kept s.alloc (take_source s source).alloc refl refl refl refl leaf c.geometry;
    places = refl;
    levels = refl;
    free_size = refl;
    has_lists = take_source-HasLists;
    pairs = rw put_back c.pairs;
    fresh = taken-IsFresh;
    inside = λ m b lo hi. ground (arith, v.inside m b lo hi);
  }

  abbrev rounds : ℕ
  rounds = level - source

  abbrev lists_after : ℕ → List ℕ
  lists_after = split_lists (block_at s.alloc) rounds lists_taken source i

  abbrev split_state : State
  split_state = split_down rounds (take_source s source) block source

  pub shape :
      IsSplitting s.alloc split_state lists_after leaf level (first_part rounds i)
      × (block ≡ block_at s.alloc level (first_part rounds i))
      × (first_part rounds i < 2 ^ level)
  shape =
      split_down_lem c.geometry rounds (take_source s source) lists_taken source i level block
        taken-IsSplitting (omega (arith, v.above)) v.deep v.number refl
        (λ m lo. ground (arith, short m))

  -- The allocator behind the inversion of the block's bit.
  abbrev marked_alloc : ℕ → Allocator
  marked_alloc size = record (flip_allocation_bit split_state.alloc block level) {
    free_size =
        ((flip_allocation_bit split_state.alloc block level).free_size + 2 ^ 64 - size) % 2 ^ 64;
  }

-- What an allocation leaves behind for which the block `b` was split.
pub record Grown (s : State) (lists_after : ℕ → List ℕ) (leaf b size : ℕ) (r : Option (ℕ × State))
    : Type 0 where
  pub after : State
  pub returns : r ≡ some (b, after)
  pub consistent : IsConsistent after lists_after leaf
  pub free_size : after.alloc.free_size + size ≡ s.alloc.free_size
  pub places : block_at after.alloc ≡ block_at s.alloc
  pub levels : after.alloc.max_level ≡ s.alloc.max_level

-- The free lists behind such an allocation: the source's is empty, and each level below it to that of the request got an upper half.
abbrev pub grown_lists : State → (ℕ → List ℕ) → (source level i : ℕ) → ℕ → List ℕ
grown_lists s lists source level i =
    split_lists (block_at s.alloc) (level - source) (update lists source []) source i
