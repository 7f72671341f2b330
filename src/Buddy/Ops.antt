-- ===== src/Buddy/Ops.antt =====
-- kernel/mm/buddy.c: the operations on the free lists that put a block in front or take the first.
use lasagne.Base.{
  ℕ, ◌+◌, ◌/◌, ◌%◌, ◌^◌, ◌<◌, ◌≡◌, ◌≢◌, refl, ◌∙◌, ap, inl, inr, ◌⊎◌, arith, true, false, List, [],
  ◌∷◌, length, ◌==◌, if◌then◌else◌, Bool-cases, ==_false→ne,
}
use lasagne.Buddy.{
  State, Node, Heap, set_prev, update, is_empty, null, size_from_level, add_to_list, take_head,
  split,
}
use lasagne.Buddy.FreeList.{has, IsFreeList, IsDll-head, head-of, next-of}
use lasagne.Buddy.Remove.{HasLists, level_kept, IsFreeList-cast, not-has-null}

-- The block is on no list.
abbrev pub IsFresh : (ℕ → List ℕ) → ℕ → Type 0
IsFresh lists b = (b ≢ null) × ((l : ℕ) → has b (lists l) ≡ false)

-- A block in front of a list, with the `prev` of the old first block set.
push-IsFreeList :
    (h h' : Heap) (b head : ℕ) (xs : List ℕ)
    → IsFreeList h head xs
    → b ≢ null
    → has b xs ≡ false
    → h' b ≡ record { prev = null; next = head }
    → (head ≢ null → h' head ≡ record { prev = b; next = (h head).next })
    → ((c : ℕ) → c ≢ head → has c xs ≡ true → h' c ≡ h c)
    → IsFreeList h' b (b ∷ xs)
push-IsFreeList h h' b head [] v n out k first same = record {
  linked = (refl, n, ap (λ (w : Node). w.prev) k, ap (λ (w : Node). w.next) k ∙ v.linked);
  distinct = (out, tt);
}
push-IsFreeList h h' b head (x ∷ xs) v n out k first same = record {
  linked = (
    refl,
    n,
    ap (λ (w : Node). w.prev) k,
    rw (ap (λ (w : Node). w.next) k, v.linked.0)
        (IsDll-head h h' null b x xs (refl, v.linked.1, v.linked.2, v.linked.3) v.distinct
          (rw (← v.linked.0) (first (rw v.linked.0 v.linked.1)))
          (λ c ne i. same c (rw v.linked.0 ne) (ground arith))),
  );
  distinct = (out, v.distinct);
}

module _ (s : State) (lists : ℕ → List ℕ) (b l : ℕ) (v : HasLists s lists) (fresh : IsFresh lists b)
    (small : length (lists l) + 1 < 2 ^ 64) where
  apart_push :
      (m n c : ℕ)
      → m ≢ n
      → has c (update lists l (b ∷ lists l) m) ≡ true
      → has c (update lists l (b ∷ lists l) n) ≡ false
  apart_push m n c ne i = ground (arith, v.apart m n c, fresh.1 m, fresh.1 n)

  -- A block that is on no list, put in front of the list of its level. `h` is the memory behind it.
  pushed :
      (h : Heap) (m : ℕ)
      → h b ≡ record { prev = null; next = s.alloc.free_blocks l }
      → (s.alloc.free_blocks l ≢ null
          → h (s.alloc.free_blocks l)
            ≡ record { prev = b; next = (s.heap (s.alloc.free_blocks l)).next })
      → ((c : ℕ) → c ≢ b → c ≢ null → c ≢ s.alloc.free_blocks l → h c ≡ s.heap c)
      → IsFreeList h (update s.alloc.free_blocks l b m) (update lists l (b ∷ lists l) m)
  pushed h m self first same = elim (Bool-cases (m == l)) [
    | inl e ↦ IsFreeList-cast {q = b} {ys = b ∷ lists l} (ground arith) (ground arith) (
        push-IsFreeList s.heap h b (s.alloc.free_blocks l) (lists l) (v.list l) fresh.0 (fresh.1 l)
          self first
          (λ c ne i. same c (ground (arith, fresh.1 l)) (ground (arith, none_null l)) ne))
    | inr e ↦
        IsFreeList-cast {q = s.alloc.free_blocks m} {ys = lists m} (ground arith) (ground arith) (
          level_kept v h m (λ c i.
            same c (ground (arith, fresh.1 m)) (ground (arith, none_null m)) (
              ground (
                arith,
                v.apart m l c (==_false→ne m l e) i,
                none_null m,
                head-of s.heap null (s.alloc.free_blocks l) (lists l) (v.list l).linked,
              ))))
  ]
    where
      none_null : (k : ℕ) → has null (lists k) ≡ false
      none_null k = not-has-null s.heap null (s.alloc.free_blocks k) (lists k) (v.list k).linked

  head_ne : s.alloc.free_blocks l ≢ null → s.alloc.free_blocks l ≢ b
  head_ne ne =
      ground
        (arith, fresh.1 l, head-of s.heap null (s.alloc.free_blocks l) (lists l) (v.list l).linked)

  -- The last lines of `allocator_deallocate_level` put a block that is on no list in front of its
  -- level's list, count it, and leave the other levels alone. That list stays shorter than `2 ^
  -- 64`.
  pub add_to_list_lem : HasLists (add_to_list s b l) (update lists l (b ∷ lists l))
  unfolding add_to_list
  add_to_list_lem = record {
    list = λ m.
        pushed (add_to_list s b l).heap m (ground arith) (λ ne. ground (arith, head_ne ne))
          (λ c p q r. ground arith);
    count = λ m. ground (arith, v.count m, v.count l);
    apart = apart_push;
  }

-- The address of the upper half of a block.
abbrev pub upper_half : State → ℕ → ℕ → ℕ
upper_half s block level = (block + size_from_level s.alloc level / 2) % 2 ^ 64

-- `split` puts the upper half of the block, which must be on no list, in front of the list of the
-- next level, counts it, and leaves the other levels alone. That list stays shorter than `2 ^ 64`.
pub split_lem :
    (s : State) (lists : ℕ → List ℕ) (block level : ℕ)
    → HasLists s lists
    → IsFresh lists (upper_half s block level)
    → length (lists (level + 1)) + 1 < 2 ^ 64
    → HasLists
        (split s block level)
        (update lists (level + 1) (upper_half s block level ∷ lists (level + 1)))
unfolding split
split_lem s lists block level v fresh small = record {
  list = λ m.
      pushed s lists (upper_half s block level) (level + 1) v fresh small (split s block level).heap
        m (ground (arith, ne)) (λ p. ground (arith, ne p)) (λ c p q r. ground arith);
  count = λ m. ground (arith, v.count m, v.count (level + 1));
  apart = apart_push s lists (upper_half s block level) (level + 1) v fresh small;
}
  where
    ne :
        s.alloc.free_blocks (level + 1) ≢ null
        → s.alloc.free_blocks (level + 1) ≢ upper_half s block level
    ne = head_ne s lists (upper_half s block level) (level + 1) v fresh small

-- The memory behind the removal of the first block `head`.
abbrev popped : Heap → ℕ → Heap
popped h head = if is_empty (h head).next then h else set_prev h (h head).next null

popped-IsFreeList :
    (h : Heap) (head b : ℕ) (xs : List ℕ)
    → IsFreeList h head (b ∷ xs)
    → IsFreeList (popped h head) (h head).next xs
popped-IsFreeList h head b [] f = record {
  linked = ap (λ c. (h c).next) f.linked.0 ∙ f.linked.3;
  distinct = tt;
}
popped-IsFreeList h head b (y ∷ ys) f =
    let k : (h head).next ≡ y = ap (λ c. (h c).next) f.linked.0 ∙ f.linked.3.0 in
    IsFreeList-cast {q = y} {ys = y ∷ ys} k refl (record {
      linked =
          IsDll-head h (popped h head) b null y ys (refl, f.linked.3.1, f.linked.3.2, f.linked.3.3)
            f.distinct.1 (ground (arith, k, f.linked.3.1)) (λ c ne i. ground (arith, k));
      distinct = f.distinct.1;
    })

-- `allocator_allocate` takes the first block of a list that has one, and less than `2 ^ 64`: the
-- rest stays a free list, one shorter, and the other levels are left alone.
pub take_head_lem :
    (s : State) (lists : ℕ → List ℕ) (b l : ℕ) (rest : List ℕ)
    → HasLists s lists
    → lists l ≡ b ∷ rest
    → length (lists l) < 2 ^ 64
    → (s.alloc.free_blocks l ≡ b) × HasLists (take_head s l) (update lists l rest)
unfolding take_head
take_head_lem s lists b l rest v e small = (
  first.linked.0,
  record {
    list = λ m. elim (Bool-cases (m == l)) [
      | inl same ↦
          IsFreeList-cast {q = (s.heap (s.alloc.free_blocks l)).next} {ys = rest} (ground arith)
            (ground arith) (popped-IsFreeList s.heap (s.alloc.free_blocks l) b rest first)
      | inr other ↦
          IsFreeList-cast {q = s.alloc.free_blocks m} {ys = lists m} (ground arith) (ground arith) (
            level_kept v (popped s.heap (s.alloc.free_blocks l)) m
              (λ c i. ground (arith, v.apart m l c (==_false→ne m l other) i, second)))
    ];
    count = λ m. ground (arith, v.count m, v.count l, e);
    apart = λ m n c ne i. ground (arith, v.apart m n c, e);
  },
)
  where
    first : IsFreeList s.heap (s.alloc.free_blocks l) (b ∷ rest)
    first = rw e at (v.list l)

    second :
        ((s.heap (s.alloc.free_blocks l)).next ≡ null)
        ⊎ (has (s.heap (s.alloc.free_blocks l)).next (lists l) ≡ true)
    second =
        next-of s.heap null (s.alloc.free_blocks l) (s.alloc.free_blocks l) (lists l)
          (v.list l).linked (ground (arith, e, first.linked.0))
