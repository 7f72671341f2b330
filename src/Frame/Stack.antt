-- ===== src/Frame/Stack.antt =====
-- The free frames of kernel/mm/frame.c as a list, the next one to hand out first, and how the
-- nodes in memory stand for it.
use lasagne.Base.{
  ℕ, suc, ◌+◌, ◌*◌, ◌/◌, ◌%◌, ◌^◌, ◌≤◌, ◌<◌, ◌≡◌, ◌≢◌, ◌∙◌, inl, inr, ◌⊎◌, arith, Bool, true, false,
  ◌||◌, List, [], ◌∷◌, ◌==◌, bit_and, bit_or, bit_and_mask, bit_and-high, bit_or-join_low,
}
use lasagne.Frame.{Memory, State, write, mapped, map_node}

abbrev pub has : ℕ → List ℕ → Bool
has a [] = false
has a (x ∷ xs) = (x == a) || has a xs

abbrev pub AllDistinct : List ℕ → Type 0
AllDistinct [] = Unit {0}
AllDistinct (x ∷ xs) = (has x xs ≡ false) × AllDistinct xs

-- The address of a page, which is not page 0.
abbrev pub IsFrame : ℕ → Type 0
IsFrame f = (f % 4096 ≡ 0) × (0 < f) × (f < 2 ^ 64)

abbrev pub AllFrames : List ℕ → Type 0
AllFrames [] = Unit {0}
AllFrames (x ∷ xs) = IsFrame x × AllFrames xs

-- The node `top`, with `count` frames in it, itself included, and the full nodes behind it hold
-- the frames `xs`.
abbrev pub Holds : Memory → (top : ℕ) → (count : ℕ) → List ℕ → Type 0
Holds m top count [] = count ≡ 0
Holds m top count (x ∷ xs) =
    ((count ≡ 1) × (x ≡ top) × (m top 0 ≡ 0) × (xs ≡ []))
    ⊎ ((count ≡ 1) × (x ≡ top) × (m top 0 ≢ 0) × Holds m (m top 0) 512 xs)
    ⊎ ((n : ℕ) × (count ≡ suc (suc n)) × (x ≡ m top (suc n)) × Holds m top (suc n) xs)

pub record Rep (s : State) (xs : List ℕ) : Type 0 where
  pub top : ℕ
  pub entry : s.alloc.pte ≡ top + 3
  pub whole : top % 4096 ≡ 0
  pub small : top < 2 ^ 64
  pub holds : Holds s.memory top s.alloc.count xs
  pub distinct : AllDistinct xs
  pub frames : AllFrames xs
  pub bounded : s.alloc.count ≤ 512
  pub present : (s.alloc.count ≡ 0) ⊎ (s.alloc.current ≡ true)

module _ (m : Memory) where
  -- The node on top is itself a frame of the stack.
  pub has-top : (top count : ℕ) (xs : List ℕ) → Holds m top count xs → 0 < count → has top xs ≡ true
  has-top top count [] h p = absurd (omega arith)
  has-top top count (x ∷ xs) (inl h) p = ground arith
  has-top top count (x ∷ xs) (inr (inl h)) p = ground arith
  has-top top count (x ∷ xs) (inr (inr (n, e, y, h))) p = ground (arith, has-top top (suc n) xs h)

  -- The list survives any change of the memory outside its own frames.
  pub Holds-frame :
      (m' : Memory) (top count : ℕ) (xs : List ℕ)
      → Holds m top count xs
      → ((f w : ℕ) → has f xs ≡ true → m' f w ≡ m f w)
      → Holds m' top count xs
  Holds-frame m' top count [] h same = h
  Holds-frame m' top count (x ∷ xs) (inl (e, y, z, n)) same =
      inl (e, y, same top 0 (ground arith) ∙ z, n)
  Holds-frame m' top count (x ∷ xs) (inr (inl (e, y, z, h))) same =
      let k : m' top 0 ≡ m top 0 = same top 0 (ground arith) in
      inr (
        inl (
          e,
          y,
          rw k z,
          rw k (Holds-frame m' (m top 0) 512 xs h (λ f w i. same f w (ground arith))),
        ))
  Holds-frame m' top count (x ∷ xs) (inr (inr (n, e, y, h))) same =
      let k : m' top (suc n) ≡ m top (suc n) =
        same top (suc n) (ground (arith, has-top top (suc n) xs h)) in
      inr (inr (n, e, rw k y, Holds-frame m' top (suc n) xs h (λ f w i. same f w (ground arith))))

  -- It survives a write to a word of the node on top that is not in use yet.
  pub Holds-write :
      (w v top count : ℕ) (xs : List ℕ)
      → Holds m top count xs
      → AllDistinct xs
      → count ≤ w
      → 0 < w
      → Holds (write m top w v) top count xs
  Holds-write w v top count [] h d le p = h
  Holds-write w v top count (x ∷ xs) (inl h) d le p = inl (ground arith)
  Holds-write w v top count (x ∷ xs) (inr (inl (e, y, z, h))) d le p =
      let k : write m top w v top 0 ≡ m top 0 = ground arith in
      inr (
        inl (
          e,
          y,
          rw k z,
          rw k (Holds-frame (write m top w v) (m top 0) 512 xs h (λ f u i. ground arith)),
        ))
  Holds-write w v top count (x ∷ xs) (inr (inr (n, e, y, h))) d le p =
      let k : write m top w v top (suc n) ≡ m top (suc n) = ground arith in
      inr (inr (n, e, rw k y, Holds-write w v top (suc n) xs h d.1 (omega arith) p))

pub IsFrame-has : (f : ℕ) (xs : List ℕ) → AllFrames xs → has f xs ≡ true → IsFrame f
IsFrame-has f [] a h = cc
IsFrame-has f (x ∷ xs) a h = ground (arith, IsFrame-has f xs a.1)

-- The page table entry of a node.
pub mapped_lem : (top : ℕ) → top % 4096 ≡ 0 → top < 2 ^ 64 → mapped (top + 3) ≡ top
unfolding mapped
mapped_lem top w s = bit_and-high 52 12 (top + 3) (omega arith) ∙ omega arith

pub map_node_lem : (top f : ℕ) → top % 4096 ≡ 0 → IsFrame f → map_node (top + 3) f ≡ (f + 3, true)
unfolding map_node
map_node_lem top f w i =
    let low : bit_and (top + 3) 0xFFF ≡ 3 = bit_and_mask 12 (top + 3) ∙ omega arith in
    let whole : f / 4096 * 2 ^ 12 ≡ f = omega arith in
    let joined : bit_or 3 f ≡ f + 3 = ground (arith, whole, bit_or-join_low 12 (f / 4096) 3) in
    ground (arith, low, joined)
