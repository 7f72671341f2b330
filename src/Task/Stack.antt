-- ===== src/Task/Stack.antt =====
-- What the stack of a new thread of kernel/core/task.c holds.
use lasagne.Base.{
  ℕ, zero, suc, ◌+◌, ◌-◌, ◌*◌, ◌%◌, ◌^◌, ◌≤◌, ◌<◌, ◌≡◌, refl, ◌∙◌, inr, ◌⊎◌, arith, List, [], ◌∷◌,
  ◌++◌, replicate, length, get_or, ◌==◌, if◌then◌else◌, ==_ne, ==_refl,
}
use lasagne.Task.{Memory, Pushed, stack_size, rflags_if, push_all, initial_words, initial_stack}

-- The words `ws` were pushed from `top` down, the first one highest, and no other word changed.
record HoldsWords (ws : List ℕ) (top : ℕ) (memory : Memory) (t : Pushed) : Type 0 where
  bottom : t.rsp + 8 * length ws ≡ top
  words : (k : ℕ) → k < length ws → t.memory (top - 8 * (k + 1)) ≡ get_or ws k 0
  others : (a : ℕ) → (a < t.rsp) ⊎ (top ≤ a) → t.memory a ≡ memory a

next_word :
    (k w : ℕ) (ws : List ℕ) (top : ℕ) (memory : Memory) (t : Pushed)
    → k < suc (length ws)
    → 8 * suc (length ws) ≤ top
    → HoldsWords ws (top - 8) (λ a. if a == top - 8 then w else memory a) t
    → t.memory (top - 8 * (k + 1)) ≡ get_or (w ∷ ws) k 0
next_word zero w ws top memory t p h v =
    v.others (top - 8) (inr (omega arith)) ∙ rw (==_refl (top - 8)) refl
next_word (suc k) w ws top memory t p h v =
    let e : top - 8 * (suc k + 1) ≡ top - 8 - 8 * (k + 1) = omega arith in
    rw e (v.words k (omega arith))

push_all_lem :
    (ws : List ℕ) (top : ℕ) (memory : Memory)
    → 8 * length ws ≤ top
    → top < 2 ^ 64
    → HoldsWords ws top memory (push_all ws (record { rsp = top; memory = memory }))
unfolding push_all
push_all_lem [] top memory h l = record {
  bottom = omega arith;
  words = λ k p. absurd (omega arith);
  others = λ a _. refl;
}
push_all_lem (w ∷ ws) top memory h l =
    let e : (top + 2 ^ 64 - 8) % 2 ^ 64 ≡ top - 8 = omega arith in
    let m : Memory = λ a. if a == top - 8 then w else memory a in
    let v = push_all_lem ws (top - 8) m (omega arith) (omega arith) in
    rw (push_all, e)
      (record {
        bottom = omega (arith, v.bottom);
        words = λ k p. next_word k w ws top memory _ p h v;
        others = λ a p.
            v.others a (omega (arith, v.bottom))
            ∙ rw (==_ne a (top - 8) (omega (arith, v.bottom))) refl;
      })

get_or-replicate : (n m : ℕ) (ys : List ℕ) → m < n → get_or (replicate n 0 ++ ys) m 0 ≡ 0
get_or-replicate zero m ys h = absurd (omega arith)
get_or-replicate (suc n) zero ys h = refl
get_or-replicate (suc n) (suc m) ys h = get_or-replicate n m ys (omega arith)

-- What the thread's first switch pops: a frame pointer, the return address, 15 registers, the number of
-- an interrupt, and the frame that `iretq` reads.
pub record IsInitial (stack main cs ss stack_pointer leave : ℕ) (memory : Memory) (t : Pushed)
    : Type 0 where
  pub size : t.rsp + 8 * 23 ≡ stack + stack_size
  pub frame_pointer : t.memory t.rsp ≡ 0
  pub return_address : t.memory (t.rsp + 8) ≡ leave
  pub registers : (i : ℕ) → i < 15 → t.memory (t.rsp + 8 * (i + 2)) ≡ 0
  pub irq : t.memory (t.rsp + 8 * 17) ≡ 0
  pub rip : t.memory (t.rsp + 8 * 18) ≡ main
  pub code_segment : t.memory (t.rsp + 8 * 19) ≡ cs
  pub rflags : t.memory (t.rsp + 8 * 20) ≡ rflags_if
  pub user_rsp : t.memory (t.rsp + 8 * 21) ≡ stack_pointer
  pub stack_segment : t.memory (t.rsp + 8 * 22) ≡ ss
  pub others : (a : ℕ) → (a < t.rsp) ⊎ (stack + stack_size ≤ a) → t.memory a ≡ memory a

-- A new thread's stack, if it does not wrap, has the frame that the first switch to the thread pops and that
-- enters `main` with interrupts enabled, on the stack given, or on its own if that is 0. No
-- other memory is changed.
pub initial_stack_lem :
    (stack main cs ss usermode_stack leave : ℕ) (memory : Memory)
    → stack + stack_size < 2 ^ 64
    → IsInitial stack main cs ss
        (if usermode_stack == 0 then stack + stack_size else usermode_stack)
        leave
        memory
        (initial_stack stack main cs ss usermode_stack leave memory)
unfolding initial_stack
initial_stack_lem stack main cs ss u leave memory h =
    let ws = initial_words stack main cs ss u leave in
    let top = stack + stack_size in
    let e : (stack + stack_size) % 2 ^ 64 ≡ top = omega arith in
    let v = push_all_lem ws top memory (omega arith) h in
    let t = push_all ws (record { rsp = top; memory = memory }) in
    let at : (k a : ℕ) → k < 23 → a ≡ t.rsp + 8 * k → t.memory a ≡ get_or ws (22 - k) 0 = λ k a p q.
      let e : a ≡ top - 8 * (22 - k + 1) = omega (arith, v.bottom) in
      rw e (v.words (22 - k) (omega arith)) in
    rw e (record {
      size = v.bottom;
      frame_pointer = at 0 _ (omega arith) (omega arith);
      return_address = at 1 _ (omega arith) refl;
      registers = λ i p.
          let e : 22 - (i + 2) ≡ suc (suc (suc (suc (suc (suc (14 - i)))))) = omega arith in
          at (i + 2) _ (omega arith) refl
          ∙ rw e (get_or-replicate 15 (14 - i) (leave ∷ 0 ∷ []) (omega arith));
      irq = at 17 _ (omega arith) refl;
      rip = at 18 _ (omega arith) refl;
      code_segment = at 19 _ (omega arith) refl;
      rflags = at 20 _ (omega arith) refl;
      user_rsp = at 21 _ (omega arith) refl;
      stack_segment = at 22 _ (omega arith) refl;
      others = v.others;
    })
