-- ===== src/Task/Order.antt =====
-- The order in which `schedule` of kernel/core/task.c looks at tasks and threads: two levels of queues.
use mathlib.Core.List.{append_assoc, append-nil}
use lasagne.Base.{
  ℕ, ◌≡◌, refl, sym, ap, inl, inr, ◌⊎◌, arith, Bool, true, false, ◌||◌, Option, none, some, List,
  [], ◌∷◌, ◌++◌, ◌==◌, Bool-cases,
}
use lasagne.Task.{set_at}
use lasagne.Ds.Ring.{has}

-- The first that passes the test, and the order from there on: it becomes the last.
unfoldable pub seek : (test : ℕ → Bool) (before : List ℕ) → List ℕ → Option (ℕ × List ℕ)
seek test before [] = none
seek test before (x ∷ xs) = elim (test x) [
  | true ↦ some (x, xs ++ (before ++ (x ∷ [])))
  | false ↦ seek test (before ++ (x ∷ [])) xs
]

abbrev pub any : (test : ℕ → Bool) → List ℕ → Bool
any test [] = false
any test (x ∷ xs) = test x || any test xs

-- The tasks, and the threads of each, the ones that the pointers name last.
pub record Rota : Type 0 where
  pub tasks : List ℕ
  pub threads : ℕ → List ℕ

-- The next thread, and the order after it.
unfoldable pub choose : (runs : ℕ → Bool) → Rota → Option (ℕ × Rota)
unfolding seek
choose runs r = elim (seek (λ t. any runs (r.threads t)) [] r.tasks) [
  | none ↦ none
  | some (t, tasks) ↦ elim (seek runs [] (r.threads t)) [
    | none ↦ none
    | some (x, order) ↦ some (x, record { tasks = tasks; threads = set_at t order r.threads })
  ]
]

-- A step of the rota: the next thread, or the idle thread where none runs, whose task is then the last.
unfoldable pub turn : (runs : ℕ → Bool) (idle idle_task : ℕ) → Rota → ℕ × Rota
turn runs idle idle_task r = elim (choose runs r) [
  | some p ↦ p
  | none ↦ (
    idle,
    elim (seek (λ t. t == idle_task) [] r.tasks) [
      | none ↦ r
      | some (_, tasks) ↦ record r { tasks = tasks }
    ],
  )
]

-- What `seek` finds.
pub record Sought (test : ℕ → Bool) (before xs : List ℕ) : Type 0 where
  pub pre : List ℕ
  pub found : ℕ
  pub post : List ℕ
  pub split : xs ≡ pre ++ (found ∷ post)
  pub returns : seek test before xs ≡ some (found, post ++ ((before ++ pre) ++ (found ∷ [])))
  pub passes : test found ≡ true
  pub others : any test pre ≡ false

Sought-cons :
    (test : ℕ → Bool) (before : List ℕ) (y : ℕ) (ys : List ℕ)
    → test y ≡ false
    → Sought test (before ++ (y ∷ [])) ys
    → Sought test before (y ∷ ys)
unfolding seek
Sought-cons test before y ys p r = record {
  pre = y ∷ r.pre;
  found = r.found;
  post = r.post;
  split = ap (λ (t : List ℕ). y ∷ t) r.split;
  returns = rw (seek, p) (rw (sym (append_assoc before (y ∷ []) r.pre)) r.returns);
  passes = r.passes;
  others = rw p r.others;
}

pub seek_lem :
    (test : ℕ → Bool) (before xs : List ℕ)
    → ((seek test before xs ≡ none) × (any test xs ≡ false)) ⊎ Sought test before xs
unfolding seek
seek_lem test before [] = inl (refl, refl)
seek_lem test before (y ∷ ys) = elim (Bool-cases (test y)) [
  | inl p ↦ inr (record {
    pre = [];
    found = y;
    post = ys;
    split = refl;
    returns = rw (seek, p, append-nil before) refl;
    passes = p;
    others = refl;
  })
  | inr p ↦ elim (seek_lem test (before ++ (y ∷ [])) ys) [
    | inl (e, a) ↦ inl (rw (seek, p) e, rw p a)
    | inr r ↦ inr (Sought-cons test before y ys p r)
  ]
]

pub any-has :
    (test : ℕ → Bool) (x : ℕ) (xs : List ℕ) → test x ≡ true → has x xs ≡ true → any test xs ≡ true
any-has test x [] p h = cc
any-has test x (y ∷ ys) p h = elim (Bool-cases (y == x)) [
  | inl e ↦ let q : y ≡ x = ground arith in rw (q, p) refl
  | inr e ↦ ground (arith, any-has test x ys p)
]
