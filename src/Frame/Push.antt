-- ===== src/Frame/Push.antt =====
-- `dealloc_frame` of kernel/mm/frame.c pushes a frame.
use lasagne.Base.{
  ℕ, suc, ◌+◌, ◌-◌, ◌%◌, ◌^◌, ◌≤◌, ◌<◌, ◌≡◌, ◌≢◌, refl, sym, ◌∙◌, ap, inl, inr, ◌⊎◌, arith, true,
  false, Option, some, List, [], ◌∷◌, ◌==◌, Bool-cases, ==_false→ne, ==→eq,
}
use lasagne.MemoryMap.{Area}
use lasagne.Frame.{Memory, State, write, mapped, map_node, alloc_frame, push_frame, dealloc_frame}
use lasagne.Frame.Pop.{Popped, alloc_frame_lem}
use lasagne.Frame.Stack.{
  has, IsFrame, Holds, Rep, has-top, Holds-frame, Holds-write, IsFrame-has, mapped_lem,
  map_node_lem,
}

-- Where the frame is noted: with no node on top or a full one it is a node of its own, linked to the frame that the
-- page table entry named, and else it stands in the next place of the node on top.
pub record Noted (s : State) (x : ℕ) (after : State) : Type 0 where
  pub node :
      (s.alloc.count ≡ 0) ⊎ (s.alloc.count ≡ 512)
      → (after.alloc.count ≡ 1)
        × (mapped after.alloc.pte ≡ x)
        × (after.memory x 0 ≡ mapped s.alloc.pte)
  pub place :
      s.alloc.count ≢ 0
      → s.alloc.count ≢ 512
      → (after.alloc.count ≡ s.alloc.count + 1)
        × (after.alloc.pte ≡ s.alloc.pte)
        × (after.memory (mapped s.alloc.pte) s.alloc.count ≡ x)

-- What a call of `dealloc_frame` that succeeds does to a stack: `x` is on top.
pub record Pushed (s : State) (x : ℕ) (xs : List ℕ) (r : Option State) : Type 0 where
  pub after : State
  pub returns : r ≡ some after
  pub rep : Rep after (x ∷ xs)
  pub free : after.alloc.free ≡ s.alloc.free + 4096
  pub size : after.alloc.size ≡ s.alloc.size
  pub noted : Noted s x after

-- A stack of no frames holds an empty list.
empty_of_zero : (m : Memory) (top : ℕ) (xs : List ℕ) → Holds m top 0 xs → xs ≡ []
empty_of_zero m top [] h = refl
empty_of_zero m top (x ∷ xs) (inl h) = absurd (omega arith)
empty_of_zero m top (x ∷ xs) (inr (inl h)) = absurd (omega arith)
empty_of_zero m top (x ∷ xs) (inr (inr h)) = absurd (omega arith)

-- The state behind a push, before the amount of free memory is written.
record PushedFrame (s : State) (x : ℕ) (xs : List ℕ) (r : Option State) : Type 0 where
  after : State
  returns : r ≡ some after
  rep : Rep after (x ∷ xs)
  free : after.alloc.free ≡ s.alloc.free
  size : after.alloc.size ≡ s.alloc.size
  noted : Noted s x after

-- A new node: the frame `x`, with the address of the node that was on top in its first word.
new_node :
    (s : State) (x : ℕ) (xs : List ℕ)
    → (r : Rep s xs) → IsFrame x
    → has x xs ≡ false
    → ((s.alloc.count ≡ 0) × (r.top ≡ 0)) ⊎ (s.alloc.count ≡ 512)
    → PushedFrame s x xs (push_frame s x)
unfolding push_frame
new_node s x xs r i out c = record {
  after = record {
    alloc = record (s.alloc) { pte = x + 3; current = true; count = 1 };
    memory = write s.memory x 0 r.top;
  };
  returns = ground (arith, at, node, there);
  rep = record {
    top = x;
    entry = refl;
    whole = i.0;
    small = i.2;
    holds = chain c;
    distinct = (out, r.distinct);
    frames = (i, r.frames);
    bounded = omega arith;
    present = inr refl;
  };
  free = refl;
  size = refl;
  noted = record {
    node = λ k. (refl, there, self ∙ sym at);
    place = λ n f. absurd (elim c [ inl e ↦ n e.0 | inr e ↦ f e ]);
  };
}
  where
    at : mapped s.alloc.pte ≡ r.top
    at = ap mapped r.entry ∙ mapped_lem r.top r.whole r.small

    node : map_node s.alloc.pte x ≡ (x + 3, true)
    node = ap (λ p. map_node p x) r.entry ∙ map_node_lem r.top x r.whole i

    there : mapped (x + 3) ≡ x
    there = mapped_lem x i.0 i.2

    self : write s.memory x 0 r.top x 0 ≡ r.top
    self = ground arith

    chain :
        ((s.alloc.count ≡ 0) × (r.top ≡ 0)) ⊎ (s.alloc.count ≡ 512)
        → Holds (write s.memory x 0 r.top) x 1 (x ∷ xs)
    chain (inl (e, z)) =
        inl (refl, refl, self ∙ z, empty_of_zero s.memory r.top xs (rw e at r.holds))
    chain (inr e) =
        let full : Holds s.memory r.top 512 xs = rw e at r.holds in
        let pos : 0 < r.top =
          (IsFrame-has r.top xs r.frames (has-top s.memory r.top 512 xs full (omega arith))).1 in
        let kept =
          Holds-frame s.memory (write s.memory x 0 r.top) r.top 512 xs full
            (λ f w j. ground arith) in
        inr (inl (refl, refl, omega (arith, self), rw self kept))

-- A place in the node on top.
next_place :
    (s : State) (x : ℕ) (xs : List ℕ)
    → (r : Rep s xs) → IsFrame x
    → has x xs ≡ false
    → s.alloc.count ≢ 0
    → s.alloc.count ≢ 512
    → PushedFrame s x xs (push_frame s x)
unfolding push_frame
next_place s x xs r i out n f = record {
  after = record {
    alloc = record (s.alloc) { count = s.alloc.count + 1 };
    memory = write s.memory r.top s.alloc.count x;
  };
  returns = ground (arith, at, there, place);
  rep = record {
    top = r.top;
    entry = r.entry;
    whole = r.whole;
    small = r.small;
    holds = inr (
        inr (
          s.alloc.count - 1,
          omega arith,
          self,
          rw (sym back) (
              Holds-write s.memory s.alloc.count x r.top s.alloc.count xs r.holds r.distinct
                (omega arith) (omega arith)),
        ));
    distinct = (out, r.distinct);
    frames = (i, r.frames);
    bounded = omega (arith, r.bounded);
    present = inr there;
  };
  free = refl;
  size = refl;
  noted = record {
    node = λ c. absurd (elim c [ inl e ↦ n e | inr e ↦ f e ]);
    place = λ n' f'. (refl, refl, written);
  };
}
  where
    at : mapped s.alloc.pte ≡ r.top
    at = ap mapped r.entry ∙ mapped_lem r.top r.whole r.small

    there : s.alloc.current ≡ true
    there = ground (arith, r.present)

    place : s.alloc.count - 1 + 1 ≡ s.alloc.count
    place = omega arith

    back : s.alloc.count ≡ suc (s.alloc.count - 1)
    back = omega arith

    written : write s.memory r.top s.alloc.count x (mapped s.alloc.pte) s.alloc.count ≡ x
    written = ground (arith, at)

    self : x ≡ write s.memory r.top s.alloc.count x r.top (suc (s.alloc.count - 1))
    self = ground (arith, back)

push_frame-PushedFrame :
    (s : State) (x : ℕ) (xs : List ℕ)
    → (r : Rep s xs) → IsFrame x
    → has x xs ≡ false
    → (s.alloc.count ≡ 0 → r.top ≡ 0)
    → PushedFrame s x xs (push_frame s x)
push_frame-PushedFrame s x xs r i out clean = elim (Bool-cases (s.alloc.count == 0)) [
  | inl z ↦ new_node s x xs r i out (inl (==→eq _ _ z, clean (==→eq _ _ z)))
  | inr p ↦ elim (Bool-cases (s.alloc.count == 512)) [
    | inl z ↦ new_node s x xs r i out (inr (==→eq _ _ z))
    | inr q ↦ next_place s x xs r i out (==_false→ne _ _ p) (==_false→ne _ _ q)
  ]
]

-- `dealloc_frame` puts a page that is not on the stack on top of it: in a new node, linked to the one before, where
-- the node on top is full or there is none, and else in the next place of the node on top. It needs room on the
-- books, and, where the stack is empty, a page table entry that points nowhere.
pub dealloc_frame_lem :
    (s : State) (x : ℕ) (xs : List ℕ)
    → (r : Rep s xs) → IsFrame x
    → has x xs ≡ false
    → (s.alloc.count ≡ 0 → r.top ≡ 0)
    → s.alloc.free + 4096 ≤ s.alloc.size
    → s.alloc.size < 2 ^ 64
    → Pushed s x xs (dealloc_frame s x)
unfolding dealloc_frame
dealloc_frame_lem s x xs r i out clean room small =
    let p = push_frame-PushedFrame s x xs r i out clean in
    record {
      after = record (p.after) {
        alloc = record (p.after.alloc) { free = (p.after.alloc.free + 4096) % 2 ^ 64 };
      };
      returns = ground (arith, p.returns, p.free, p.size);
      rep = record {
        top = p.rep.top;
        entry = p.rep.entry;
        whole = p.rep.whole;
        small = p.rep.small;
        holds = p.rep.holds;
        distinct = p.rep.distinct;
        frames = p.rep.frames;
        bounded = p.rep.bounded;
        present = p.rep.present;
      };
      free = omega (arith, p.free);
      size = p.size;
      noted = record { node = p.noted.node; place = p.noted.place };
    }

-- A page that is not on the stack and is given back is the next one that is handed out, and the
-- stack is then as before. It needs room on the books, and, where the stack is empty, a page table
-- entry that points nowhere.
pub dealloc_frame-alloc_frame :
    (areas : List Area) (s : State) (x : ℕ) (xs : List ℕ)
    → (r : Rep s xs) → IsFrame x
    → has x xs ≡ false
    → (s.alloc.count ≡ 0 → r.top ≡ 0)
    → s.alloc.free + 4096 ≤ s.alloc.size
    → s.alloc.size < 2 ^ 64
    → (t : State) × (dealloc_frame s x ≡ some t) × Popped t x xs (alloc_frame areas t)
dealloc_frame-alloc_frame areas s x xs r i out clean room small =
    let p = dealloc_frame_lem s x xs r i out clean room small in
    (
      p.after,
      p.returns,
      alloc_frame_lem areas p.after x xs p.rep (omega (arith, p.free)) (omega (arith, p.free)),
    )
