-- ===== src/Buddy/FreeList.antt =====
-- kernel/mm/buddy.c: the doubly linked list of the free blocks of one level.
use lasagne.Base.{
  ℕ, ◌≡◌, ◌≢◌, refl, sym, ◌∙◌, ap, inl, inr, ◌⊎◌, arith, Bool, true, false, ◌||◌, List, [], ◌∷◌,
  ◌==◌, Bool-cases, ==→eq,
}
use lasagne.Buddy.{Node, Heap, null}

abbrev pub has : ℕ → List ℕ → Bool
has a [] = false
has a (x ∷ xs) = (x == a) || has a xs

abbrev pub AllDistinct : List ℕ → Type 0
AllDistinct [] = Unit {0}
AllDistinct (x ∷ xs) = (has x xs ≡ false) × AllDistinct xs

-- From `head` the `next` pointers lead through `xs` to NULL, and the `prev` pointers lead back to
-- `before`.
abbrev pub IsDll : Heap → (before : ℕ) → (head : ℕ) → List ℕ → Type 0
IsDll h before head [] = head ≡ null
IsDll h before head (x ∷ xs) =
    (head ≡ x) × (x ≢ null) × ((h x).prev ≡ before) × IsDll h x (h x).next xs

-- A free list: nothing stands before its first block, and no block is in it twice.
pub record IsFreeList (h : Heap) (head : ℕ) (xs : List ℕ) : Type 0 where
  pub linked : IsDll h null head xs
  pub distinct : AllDistinct xs

-- The list does not depend on the rest of the memory.
pub IsDll-frame :
    (h h' : Heap) (before head : ℕ) (xs : List ℕ)
    → IsDll h before head xs
    → ((b : ℕ) → has b xs ≡ true → h' b ≡ h b)
    → IsDll h' before head xs
IsDll-frame h h' before head [] d same = d
IsDll-frame h h' before head (x ∷ xs) (e, n, p, d) same =
    let k : h' x ≡ h x = same x (ground arith) in
    (e, n, rw k p, rw k (IsDll-frame h h' x (h x).next xs d (λ b i. same b (ground arith))))

-- A change of what stands before the first block.
pub IsDll-head :
    (h h' : Heap) (before before' x : ℕ) (xs : List ℕ)
    → IsDll h before x (x ∷ xs)
    → AllDistinct (x ∷ xs)
    → h' x ≡ record { prev = before'; next = (h x).next }
    → ((b : ℕ) → b ≢ x → has b xs ≡ true → h' b ≡ h b)
    → IsDll h' before' x (x ∷ xs)
IsDll-head h h' before before' x xs (e, n, p, d) distinct k same = (
  refl,
  n,
  ap (λ (v : Node). v.prev) k,
  rw k (IsDll-frame h h' x (h x).next xs d (λ b i. same b (λ eq. ground arith) i)),
)

-- A block that is not the first stands behind another block of the list.
pub prev-of :
    (h : Heap) (before head b : ℕ) (xs : List ℕ)
    → IsDll h before head xs
    → has b xs ≡ true
    → ((head ≡ b) × ((h b).prev ≡ before)) ⊎ ((head ≢ b) × (has (h b).prev xs ≡ true))
prev-of h before head b [] d i = cc
prev-of h before head b (x ∷ xs) (e, n, p, d) i = elim (Bool-cases (x == b)) [
  | inl here ↦ let eq = ==→eq x b here in inl (e ∙ eq, ap (λ c. (h c).prev) (sym eq) ∙ p)
  | inr there ↦ elim (prev-of h x (h x).next b xs d (ground arith)) [
    | inl (_, q) ↦ inr (ground arith, ground (arith, q))
    | inr (_, q) ↦ inr (ground arith, ground (arith, q))
  ]
]

pub head-of :
    (h : Heap) (before head : ℕ) (xs : List ℕ)
    → IsDll h before head xs
    → (head ≡ null) ⊎ (has head xs ≡ true)
head-of h before head [] d = inl d
head-of h before head (x ∷ xs) (e, n, p, d) = inr (ground arith)

-- What stands behind a block is NULL or a later block.
pub next-of :
    (h : Heap) (before head b : ℕ) (xs : List ℕ)
    → IsDll h before head xs
    → has b xs ≡ true
    → ((h b).next ≡ null) ⊎ (has (h b).next xs ≡ true)
next-of h before head b [] d i = cc
next-of h before head b (x ∷ xs) (e, n, p, d) i = elim (Bool-cases (x == b)) [
  | inl here ↦ elim (head-of h x (h x).next xs d) [
    | inl q ↦ inl (ap (λ c. (h c).next) (sym (==→eq x b here)) ∙ q)
    | inr q ↦
        let k : (h b).next ≡ (h x).next = ap (λ c. (h c).next) (sym (==→eq x b here)) in
        inr (ground (arith, k, q))
  ]
  | inr there ↦ elim (next-of h x (h x).next b xs d (ground arith)) [
    | inl q ↦ inl q
    | inr q ↦ inr (ground (arith, q))
  ]
]
