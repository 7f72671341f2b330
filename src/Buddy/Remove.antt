-- ===== src/Buddy/Remove.antt =====
-- `remove_from_list` of kernel/mm/buddy.c.
use mathlib.Core.Path.{subst}
use lasagne.Base.{
  ℕ, suc, ◌^◌, ◌<◌, ◌≡◌, ◌≢◌, refl, inl, inr, arith, true, false, List, [], ◌∷◌, length, ◌==◌,
  if◌then◌else◌, Bool-cases, ==→eq, ==_false→ne,
}
use lasagne.Buddy.{State, Heap, set_prev, set_next, update, is_empty, null, remove_from_list}
use lasagne.Buddy.FreeList.{has, AllDistinct, IsDll, IsFreeList, IsDll-frame, prev-of, next-of}

abbrev pub erase : ℕ → List ℕ → List ℕ
erase b [] = []
erase b (x ∷ xs) = if x == b then xs else x ∷ erase b xs

-- The memory behind `remove_from_list`.
abbrev pub unlinked : Heap → ℕ → Heap
unlinked h b =
    let k = if is_empty (h b).next then h else set_prev h (h b).next (h b).prev in
    if is_empty (h b).prev then k else set_next k (h b).prev (h b).next

module _ (h : Heap) (b : ℕ) where
  -- The block was the first: what follows it is now the list.
  unlink_first :
      (before : ℕ) (xs : List ℕ)
      → IsDll h before b (b ∷ xs)
      → AllDistinct xs
      → has before xs ≡ false
      → IsDll (unlinked h b) before (h b).next xs
  unlink_first before [] d distinct out = d.3
  unlink_first before (y ∷ ys) (e, n, p, (e', n', p', d)) distinct out =
      let k : (unlinked h b y).next ≡ (h y).next = ground arith in
      (
        e',
        n',
        ground (arith, p),
        rw k (IsDll-frame h (unlinked h b) y (h y).next ys d (λ c i. ground arith)),
      )

  pub IsDll-unlinked :
      (before head : ℕ) (xs : List ℕ)
      → IsDll h before head xs
      → AllDistinct xs
      → has before xs ≡ false
      → has b xs ≡ true
      → IsDll (unlinked h b) before (if head == b then (h b).next else head) (erase b xs)
  IsDll-unlinked before head [] d distinct out i = cc
  IsDll-unlinked before head (x ∷ xs) (e, n, p, d) distinct out i = elim (Bool-cases (x == b)) [
    | inl here ↦
        let first = subst (λ y. IsDll h before y (y ∷ xs)) (==→eq x b here) (refl, n, p, d) in
        rw (here, e, here) (unlink_first before xs first distinct.1 (ground arith))
    | inr there ↦
        let rest = IsDll-unlinked x (h x).next xs d distinct.1 distinct.0 (ground arith) in
        let prev : (unlinked h b x).prev ≡ before =
          ground (arith, p, next-of h x (h x).next b xs d) in
        let next : (unlinked h b x).next ≡ (if (h x).next == b then (h b).next else (h x).next) =
          ground (arith, prev-of h x (h x).next b xs d, next-of h x (h x).next b xs d) in
        rw (there, e, there) (refl, n, prev, rw next rest)
  ]

pub not-has-null :
    (h : Heap) (before head : ℕ) (xs : List ℕ) → IsDll h before head xs → has null xs ≡ false
not-has-null h before head [] d = refl
not-has-null h before head (x ∷ xs) (e, n, p, d) = ground (arith, not-has-null h x (h x).next xs d)

pub has-erase : (a b : ℕ) (xs : List ℕ) → has a (erase b xs) ≡ true → has a xs ≡ true
has-erase a b [] i = i
has-erase a b (x ∷ xs) i = ground (arith, has-erase a b xs)

AllDistinct-erase : (b : ℕ) (xs : List ℕ) → AllDistinct xs → AllDistinct (erase b xs)
AllDistinct-erase b [] d = tt
AllDistinct-erase b (x ∷ xs) d = elim (Bool-cases (x == b)) [
  | inl here ↦ rw here d.1
  | inr there ↦ rw there (ground (arith, has-erase x b xs), AllDistinct-erase b xs d.1)
]

pub length-erase : (b : ℕ) (xs : List ℕ) → has b xs ≡ true → suc (length (erase b xs)) ≡ length xs
length-erase b [] i = cc
length-erase b (x ∷ xs) i = ground (arith, length-erase b xs)

-- Every level's free list, with its length on the books, and no block on two of them.
pub record HasLists (s : State) (lists : ℕ → List ℕ) : Type 0 where
  pub list : (l : ℕ) → IsFreeList s.heap (s.alloc.free_blocks l) (lists l)
  pub count : (l : ℕ) → s.alloc.free_count l ≡ length (lists l)
  pub apart : (l m b : ℕ) → l ≢ m → has b (lists l) ≡ true → has b (lists m) ≡ false

-- The list of a level whose blocks did not change.
pub level_kept :
    {s : State} {lists : ℕ → List ℕ} (v : HasLists s lists) (h' : Heap) (m : ℕ)
    → ((b : ℕ) → has b (lists m) ≡ true → h' b ≡ s.heap b)
    → IsFreeList h' (s.alloc.free_blocks m) (lists m)
level_kept {s} {lists} v h' m same = record {
  linked = IsDll-frame s.heap h' null (s.alloc.free_blocks m) (lists m) (v.list m).linked same;
  distinct = (v.list m).distinct;
}

-- The list of a level that shares no block with what changed.
other_level :
    {s : State} {lists : ℕ → List ℕ} (v : HasLists s lists) (h' : Heap) (l m : ℕ)
    → m ≢ l
    → ((b : ℕ) → has b (lists l) ≡ false → h' b ≡ s.heap b)
    → IsFreeList h' (s.alloc.free_blocks m) (lists m)
other_level v h' l m ne same = level_kept v h' m (λ b i. same b (v.apart m l b ne i))

pub IsFreeList-cast :
    {h : Heap} {p q : ℕ} {xs ys : List ℕ} → p ≡ q → xs ≡ ys → IsFreeList h q ys → IsFreeList h p xs
IsFreeList-cast e f l = rw (e, f) l

IsFreeList-unlinked :
    (h : Heap) (b head : ℕ) (xs : List ℕ)
    → IsFreeList h head xs
    → has b xs ≡ true
    → IsFreeList (unlinked h b) (if head == b then (h b).next else head) (erase b xs)
IsFreeList-unlinked h b head xs v i = record {
  linked =
      IsDll-unlinked h b null head xs v.linked v.distinct (not-has-null h null head xs v.linked) i;
  distinct = AllDistinct-erase b xs v.distinct;
}

-- The first block is told by its `prev`.
first_iff :
    (h : Heap) (b head : ℕ) (xs : List ℕ)
    → IsDll h null head xs
    → has b xs ≡ true
    → is_empty (h b).prev ≡ (head == b)
first_iff h b head xs d i = elim (prev-of h null head b xs d i) [
  | inl (e, p) ↦ ground arith
  | inr (n, p) ↦ ground (arith, not-has-null h null head xs d)
]

-- `remove_from_list` takes a block out of its level's list, from any place in it, and leaves the
-- lists of the other levels alone. The list is shorter than `2 ^ 64`.
pub remove_from_list_lem :
    (s : State) (lists : ℕ → List ℕ) (b l : ℕ)
    → HasLists s lists
    → has b (lists l) ≡ true
    → length (lists l) < 2 ^ 64
    → HasLists (remove_from_list s b l) (update lists l (erase b (lists l)))
unfolding remove_from_list
remove_from_list_lem s lists b l v i small = record {
  list = λ m. elim (Bool-cases (m == l)) [
    | inl same ↦
        let first = first_iff s.heap b (s.alloc.free_blocks l) (lists l) (v.list l).linked i in
        IsFreeList-cast (ground (arith, first)) (ground arith)
          (IsFreeList-unlinked s.heap b (s.alloc.free_blocks l) (lists l) (v.list l) i)
    | inr other ↦
        let ne = ==_false→ne m l other in
        IsFreeList-cast (ground arith) (ground arith) (
          other_level v (unlinked s.heap b) l m ne (λ c out. ground (
            arith,
            prev-of s.heap null (s.alloc.free_blocks l) b (lists l) (v.list l).linked i,
            next-of s.heap null (s.alloc.free_blocks l) b (lists l) (v.list l).linked i,
          )))
  ];
  count = λ m. ground (arith, v.count m, v.count l, length-erase b (lists l));
  apart = λ m n c ne i. ground (arith, v.apart m n c, has-erase c b (lists l));
}
