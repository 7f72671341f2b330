-- ===== src/Frame/Pop.antt =====
-- `alloc_frame` of kernel/mm/frame.c pops a frame.
use lasagne.Base.{
  ℕ, suc, ◌+◌, ◌-◌, ◌%◌, ◌^◌, ◌≤◌, ◌<◌, ◌≡◌, ◌≢◌, refl, ◌∙◌, ap, inl, inr, ◌⊎◌, arith, true, false,
  Option, some, List, ◌∷◌,
}
use lasagne.MemoryMap.{Area}
use lasagne.Frame.{Allocator, State, mapped, map_node, zero_frame, take_frame, alloc_frame}
use lasagne.Frame.Stack.{
  IsFrame, Holds, Rep, has-top, Holds-frame, IsFrame-has, mapped_lem, map_node_lem,
}

-- What `take_frame` gives when the stack holds `x` and then `xs`.
record Taken (s : State) (x : ℕ) (xs : List ℕ) (r : Option (ℕ × Allocator)) : Type 0 where
  after : Allocator
  returns : r ≡ some (x, after)
  top : ℕ
  entry : after.pte ≡ top + 3
  whole : top % 4096 ≡ 0
  small : top < 2 ^ 64
  holds : Holds s.memory top after.count xs
  bounded : after.count ≤ 512
  present : (after.count ≡ 0) ⊎ (after.current ≡ true)
  free : after.free ≡ s.alloc.free
  size : after.size ≡ s.alloc.size

take_frame-Taken :
    (areas : List Area) (s : State) (x : ℕ) (xs : List ℕ)
    → Rep s (x ∷ xs)
    → Taken s x xs (take_frame areas s)
unfolding take_frame
take_frame-Taken areas s x xs r = elim r.holds [
  | inl (e, y, z, n) ↦
      let there : s.alloc.current ≡ true = ground (arith, r.present) in
      let none_next : map_node s.alloc.pte 0 ≡ (s.alloc.pte, false) = unfold map_node in refl in
      record {
        after = record (s.alloc) { current = false; count = 0 };
        returns = ground (arith, at, none_next);
        top = r.top;
        entry = r.entry;
        whole = r.whole;
        small = r.small;
        holds = rw n refl;
        bounded = omega arith;
        present = inl refl;
        free = refl;
        size = refl;
      }
  | inr (inl (e, y, z, h)) ↦
      let there : s.alloc.current ≡ true = ground (arith, r.present) in
      let next = s.memory r.top 0 in
      let i : IsFrame next =
        IsFrame-has next xs r.frames.1 (has-top s.memory next 512 xs h (omega arith)) in
      let some_next : map_node s.alloc.pte next ≡ (next + 3, true) =
        ap (λ p. map_node p next) r.entry ∙ map_node_lem r.top next r.whole i in
      record {
        after = record (s.alloc) { pte = next + 3; current = true; count = 512 };
        returns = ground (arith, at, some_next);
        top = next;
        entry = refl;
        whole = i.0;
        small = i.2;
        holds = h;
        bounded = omega arith;
        present = inr refl;
        free = refl;
        size = refl;
      }
  | inr (inr (n, e, y, h)) ↦
      let there : s.alloc.current ≡ true = ground (arith, r.present) in
      record {
        after = record (s.alloc) { count = s.alloc.count - 1 };
        returns = ground (arith, at, word n e);
        top = r.top;
        entry = r.entry;
        whole = r.whole;
        small = r.small;
        holds = rw (pred_of n e) h;
        bounded = omega (arith, r.bounded);
        present = inr there;
        free = refl;
        size = refl;
      }
]
  where
    at : mapped s.alloc.pte ≡ r.top
    at = ap mapped r.entry ∙ mapped_lem r.top r.whole r.small

    word : (n : ℕ) → s.alloc.count ≡ suc (suc n) → s.alloc.count - 2 + 1 ≡ suc n
    word n e = omega arith

    pred_of : (n : ℕ) → s.alloc.count ≡ suc (suc n) → s.alloc.count - 1 ≡ suc n
    pred_of n e = omega arith

-- What a call of `alloc_frame` that succeeds does to a stack: `x` comes off, its memory is zero.
pub record Popped (s : State) (x : ℕ) (xs : List ℕ) (r : Option (ℕ × State)) : Type 0 where
  pub after : State
  pub returns : r ≡ some (x, after)
  pub rep : Rep after xs
  pub cleared : (w : ℕ) → after.memory x w ≡ 0
  pub untouched : (f w : ℕ) → f ≢ x → after.memory f w ≡ s.memory f w
  pub free : after.alloc.free + 4096 ≡ s.alloc.free
  pub size : after.alloc.size ≡ s.alloc.size

-- With frames on the stack and free memory on the books, `alloc_frame` hands out the frame on top,
-- cleared, and leaves the others on the stack. It changes no other memory.
pub alloc_frame_lem :
    (areas : List Area) (s : State) (x : ℕ) (xs : List ℕ)
    → Rep s (x ∷ xs)
    → 4096 ≤ s.alloc.free
    → s.alloc.free < 2 ^ 64
    → Popped s x xs (alloc_frame areas s)
unfolding alloc_frame zero_frame
alloc_frame_lem areas s x xs r lo hi =
    let t = take_frame-Taken areas s x xs r in
    let whole : x % 4096 ≡ 0 = r.frames.0.0 in
    record {
      after = record {
        alloc = record (t.after) { free = (t.after.free + 2 ^ 64 - 4096) % 2 ^ 64 };
        memory = zero_frame s.memory x;
      };
      returns = ground (arith, t.returns);
      rep = record {
        top = t.top;
        entry = t.entry;
        whole = t.whole;
        small = t.small;
        holds =
            Holds-frame s.memory (zero_frame s.memory x) t.top t.after.count xs t.holds
              (λ f w i. ground (arith, r.distinct.0));
        distinct = r.distinct.1;
        frames = r.frames.1;
        bounded = t.bounded;
        present = t.present;
      };
      cleared = λ w. ground arith;
      untouched = λ f w ne. ground arith;
      free = omega (arith, t.free);
      size = t.size;
    }
