-- ===== src/Task/Nearer.antt =====
-- Each step of `schedule` of kernel/core/task.c brings every thread that runs nearer to its turn.
use lasagne.Base.{
  ℕ, suc, ◌+◌, ◌*◌, ◌<◌, ◌≡◌, ◌≢◌, refl, sym, ◌∙◌, ap, inl, inr, ◌⊎◌, arith, Bool, true, false,
  List, [], ◌∷◌, ◌++◌, length, length-append, ◌==◌, if◌then◌else◌, Bool-cases, ==_refl,
}
use native.Mathlib.Nat.{mul-le-mul_right}
use lasagne.Ds.Ring.{has, has-append}
use lasagne.Task.Order.{any, any-has, Rota, Sought, seek_lem, choose, turn}
use lasagne.Task.Represents.{has-rotate, turned_rota}

-- How many stand before the first `x`.
unfoldable pub index : ℕ → List ℕ → ℕ
index x [] = 0
index x (y ∷ ys) = if y == x then 0 else suc (index x ys)

index-skip :
    (x : ℕ) (pre : List ℕ) (z : ℕ) (post : List ℕ)
    → has x pre ≡ false
    → z ≢ x
    → index x (pre ++ (z ∷ post)) ≡ suc (length pre + index x post)
unfolding index
index-skip x [] z post h n = ground arith
index-skip x (y ∷ pre) z post h n = ground (arith, index-skip x pre z post)

index-append : (x : ℕ) (xs ys : List ℕ) → has x xs ≡ true → index x (xs ++ ys) ≡ index x xs
unfolding index
index-append x [] ys h = cc
index-append x (y ∷ xs) ys h = ground (arith, index-append x xs ys)

index-length : (x : ℕ) (xs : List ℕ) → has x xs ≡ true → index x xs < length xs
unfolding index
index-length x [] h = cc
index-length x (y ∷ xs) h = ground (arith, index-length x xs)

not_before :
    (test : ℕ → Bool) (x : ℕ) (pre : List ℕ)
    → test x ≡ true
    → any test pre ≡ false
    → has x pre ≡ false
not_before test x pre p a = elim (Bool-cases (has x pre)) [
  | inl h ↦ absurd (cc (a, any-has test x pre p h))
  | inr h ↦ h
]

-- The order after a search that found another: `x` is nearer.
Sought-nearer :
    (test : ℕ → Bool) (x : ℕ) (xs : List ℕ) (w : Sought test [] xs)
    → test x ≡ true
    → has x xs ≡ true
    → (w.found ≡ x) ⊎ (index x (w.post ++ (w.pre ++ (w.found ∷ []))) < index x xs)
Sought-nearer test x xs w p h = elim (Bool-cases (w.found == x)) [
  | inl e ↦ inl (ground arith)
  | inr e ↦
      let n = not_before test x w.pre p w.others in
      let m : has x (w.pre ++ (w.found ∷ w.post)) ≡ true = rw (sym w.split) h in
      let k : has x w.post ≡ true = ground (arith, has-append x w.pre (w.found ∷ w.post)) in
      let ne : w.found ≢ x = ground arith in
      inr (
        rw w.split (
          omega (
            arith,
            index-append x w.post (w.pre ++ (w.found ∷ [])) k,
            index-skip x w.pre w.found w.post n ne,
          )))
]

rotate-length :
    (pre : List ℕ) (x : ℕ) (post : List ℕ)
    → length (post ++ (pre ++ (x ∷ []))) ≡ length (pre ++ (x ∷ post))
rotate-length pre x post = omega (
  arith,
  length-append post (pre ++ (x ∷ [])),
  length-append pre (x ∷ []),
  length-append pre (x ∷ post),
)

-- How many steps may pass before the thread `x` of the task `t` has its turn.
abbrev pub distance : (t x : ℕ) → Rota → ℕ
distance t x r = index x (r.threads t) * length r.tasks + index t r.tasks

product_lt : (i j n a b : ℕ) → i < j → a < n → i * n + a < j * n + b
product_lt i j n a b h k = omega (arith, mul-le-mul_right {m = i + 1} {n = j} n (omega (arith, h)))

pub distance-lt :
    (t x : ℕ) (r : Rota)
    → has t r.tasks ≡ true
    → has x (r.threads t) ≡ true
    → distance t x r < length (r.threads t) * length r.tasks
distance-lt t x r it ix = omega (
  arith,
  product_lt (index x (r.threads t)) (length (r.threads t)) (length r.tasks) (index t r.tasks) 0
      (index-length x (r.threads t) ix) (index-length t r.tasks it),
)

-- The two rotas have the same tasks and threads.
pub record SameMembers (r q : Rota) : Type 0 where
  pub tasks : (t : ℕ) → has t q.tasks ≡ has t r.tasks
  pub number : length q.tasks ≡ length r.tasks
  pub threads : (t x : ℕ) → has x (q.threads t) ≡ has x (r.threads t)
  pub numbers : (t : ℕ) → length (q.threads t) ≡ length (r.threads t)

-- A step after which the members are the same, and `x` has its turn or is nearer to it.
pub record Advances (t x : ℕ) (r : Rota) (y : ℕ) (q : Rota) : Type 0 where
  pub members : SameMembers r q
  pub nearer : (y ≡ x) ⊎ (distance t x q < distance t x r)

module _ (runs : ℕ → Bool) (t x : ℕ) (r : Rota) (p : runs x ≡ true) (it : has t r.tasks ≡ true)
    (ix : has x (r.threads t) ≡ true) where
  has_running_here : any runs (r.threads t) ≡ true
  has_running_here = any-has runs x (r.threads t) p ix

  turned_members :
      (w : Sought (λ u. any runs (r.threads u)) [] r.tasks) (z : Sought runs [] (r.threads w.found))
      → SameMembers r (
          turned_rota r w.found
            (w.post ++ (w.pre ++ (w.found ∷ [])))
            (z.post ++ (z.pre ++ (z.found ∷ []))))
  turned_members w z = record {
    tasks = λ u. has-rotate u w.found w.pre w.post ∙ ap (has u) (sym w.split);
    number = rotate-length w.pre w.found w.post ∙ ap (λ (l : List ℕ). length l) (sym w.split);
    threads = λ u y. elim (Bool-cases (u == w.found)) [
      | inl e ↦
          let q : u ≡ w.found = ground arith in
          rw (q, ==_refl w.found) (has-rotate y z.found z.pre z.post ∙ ap (has y) (sym z.split))
      | inr e ↦ rw e refl
    ];
    numbers = λ u. elim (Bool-cases (u == w.found)) [
      | inl e ↦
          let q : u ≡ w.found = ground arith in
          rw (q, ==_refl w.found)
            (rotate-length z.pre z.found z.post ∙ ap (λ (l : List ℕ). length l) (sym z.split))
      | inr e ↦ rw e refl
    ];
  }

  -- The thread is nearer in its task, or its task is nearer.
  turned_nearer :
      (w : Sought (λ u. any runs (r.threads u)) [] r.tasks) (z : Sought runs [] (r.threads w.found))
      → let q =
          turned_rota r w.found
            (w.post ++ (w.pre ++ (w.found ∷ [])))
            (z.post ++ (z.pre ++ (z.found ∷ []))) in
        (z.found ≡ x) ⊎ (distance t x q < distance t x r)
  turned_nearer w z =
      let m = turned_members w z in
      elim (Bool-cases (t == w.found)) [
        | inl e ↦
            let q : w.found ≡ t = ground arith in
            elim (Sought-nearer runs x (r.threads w.found) z p (rw q ix)) [
              | inl g ↦ inl g
              | inr g ↦ inr (
                  rw (sym q, ==_refl w.found, m.number)
                    (omega (
                      arith,
                      product_lt _ _ (length r.tasks)
                          (index w.found (w.post ++ (w.pre ++ (w.found ∷ []))))
                          (index w.found r.tasks) g
                          (omega
                            (arith, m.number, index-length w.found _ (m.tasks w.found ∙ rw q it))),
                      m.number,
                    )))
            ]
        | inr e ↦
            elim (Sought-nearer (λ u. any runs (r.threads u)) t r.tasks w has_running_here it) [
              | inl g ↦ absurd (ground arith)
              | inr g ↦ inr (rw (e, m.number) (omega (arith, g)))
            ]
      ]

  pub turn-Advances :
      (idle idle_task : ℕ) → let (y, q) = turn runs idle idle_task r in Advances t x r y q
  unfolding turn choose
  turn-Advances idle idle_task = elim (seek_lem (λ u. any runs (r.threads u)) [] r.tasks) [
    | inl (_, a) ↦
        absurd (cc (a, any-has (λ u. any runs (r.threads u)) t r.tasks has_running_here it))
    | inr w ↦ elim (seek_lem runs [] (r.threads w.found)) [
      | inl (_, a) ↦ absurd (cc (a, w.passes))
      | inr z ↦
          rw (turn, choose, w.returns, z.returns)
            (record { members = turned_members w z; nearer = turned_nearer w z })
    ]
  ]
