-- ===== src/Task/Schedule.antt =====
-- `schedule` of kernel/core/task.c finds the next thread in the order of the circular lists.
use mathlib.Core.Path.{fun_ext}
use lasagne.Base.{
  ℕ, zero, suc, ◌≤◌, ◌<◌, ◌≡◌, refl, ◌∙◌, ap, inl, inr, arith, Bool, true, false, Option, none,
  some, List, [], ◌∷◌, ◌++◌, length, length-append, ◌==◌, if◌then◌else◌, Bool-cases, ==_refl,
}
use lasagne.Ds.Ring.{Walk, has, IsRing}
use lasagne.Task.{Task, Kernel, is_running, set_threads, find_thread, find_task}
use lasagne.Task.Order.{any, Sought, seek_lem}

-- The threads that `schedule` may choose.
abbrev pub runs : Kernel → ℕ → Bool
runs s x = is_running ((s.threads x).state)

-- The first that passes the test.
abbrev pub pick : (test : ℕ → Bool) → List ℕ → Option ℕ
pick test [] = none
pick test (x ∷ xs) = if test x then some x else pick test xs

abbrev pub get_or_else : ℕ → Option ℕ → ℕ
get_or_else d none = d
get_or_else d (some x) = x

set_threads-again :
    (t x y : ℕ) (s : Kernel) → set_threads t y (set_threads t x s) ≡ set_threads t y s
set_threads-again t x y s =
    ap (λ (f : ℕ → Task). record s { tasks = f }) (fun_ext λ u. ground arith)

set_threads_self : (t : ℕ) (s : Kernel) → set_threads t (s.tasks t).threads s ≡ s
set_threads_self t s = ap (λ (f : ℕ → Task). record s { tasks = f }) (fun_ext λ u. ground arith)

-- A round of the inner loop, at the thread `y`.
looked_at :
    (rest : Kernel → Option (Option ℕ × Kernel)) (t first : ℕ) (s : Kernel) (y : ℕ)
    → Option (Option ℕ × Kernel)
looked_at rest t first s y = elim (is_running ((s.threads y).state)) [
  | true ↦ some (some y, set_threads t y s)
  | false ↦ elim (y == first) [
    | true ↦ some (none, set_threads t y s)
    | false ↦ rest (set_threads t y s)
  ]
]

find_thread-looked_at :
    (fuel t first y : ℕ) (s : Kernel)
    → (s.thread_links (s.tasks t).threads).next ≡ y
    → find_thread (suc fuel) t first s ≡ looked_at (find_thread fuel t first) t first s y
unfolding find_thread looked_at
find_thread-looked_at fuel t first y s e = ap (looked_at (find_thread fuel t first) t first s) e

-- The inner loop, from a pointer to a node before the nodes `ys` and `first`.
find_thread_lem :
    (fuel t first : ℕ) (ys : List ℕ) (s : Kernel)
    → Walk s.thread_links ((s.tasks t).threads) (ys ++ (first ∷ []))
    → has first ys ≡ false
    → length ys < fuel
    → let found = pick (runs s) (ys ++ (first ∷ [])) in
      find_thread fuel t first s ≡ some (found, set_threads t (get_or_else first found) s)
unfolding looked_at
find_thread_lem zero t first ys s w n h = absurd (omega arith)
find_thread_lem (suc fuel) t first [] s w n h =
    find_thread-looked_at fuel t first first s w.0.0 ∙ elim (Bool-cases (runs s first)) [
      | inl p ↦ rw (looked_at, p) refl
      | inr p ↦ rw (looked_at, p, ==_refl first) refl
    ]
find_thread_lem (suc fuel) t first (y ∷ ys) s w n h =
    find_thread-looked_at fuel t first y s w.0.0 ∙ elim (Bool-cases (runs s y)) [
      | inl p ↦ rw (looked_at, p) refl
      | inr p ↦
          let e : (y == first) ≡ false = ground arith in
          rw (looked_at, p, e)
            (find_thread_lem fuel t first ys (set_threads t y s) (rw (==_refl t) w.1) (ground arith)
                (omega arith)
              ∙ ap (λ (k : Kernel). some (pick (runs s) (ys ++ (first ∷ [])), k))
                  (set_threads-again t y _ s))
    ]

-- The pointer of the task `t` names a thread of a circular list, `order` is the order from there, and the threads
-- are those of the task.
pub record ThreadsOf (s : Kernel) (t : ℕ) (order : List ℕ) : Type 0 where
  pub before : List ℕ
  pub split : order ≡ before ++ ((s.tasks t).threads ∷ [])
  pub ring : IsRing s.thread_links ((s.tasks t).threads) before
  pub owned : (x : ℕ) → has x order ≡ true → (s.threads x).task ≡ t

pub pick-none : (test : ℕ → Bool) (xs : List ℕ) → any test xs ≡ false → pick test xs ≡ none
pick-none test [] h = refl
pick-none test (x ∷ xs) h = ground (arith, pick-none test xs)

pub pick-found :
    (test : ℕ → Bool) (pre : List ℕ) (x : ℕ) (post : List ℕ)
    → any test pre ≡ false
    → test x ≡ true
    → pick test (pre ++ (x ∷ post)) ≡ some x
pick-found test [] x post a p = rw p refl
pick-found test (y ∷ pre) x post a p = ground (arith, pick-found test pre x post)

pub any-pick : (test : ℕ → Bool) (xs : List ℕ) (x : ℕ) → pick test xs ≡ some x → any test xs ≡ true
any-pick test [] x e = cc
any-pick test (y ∷ ys) x e = ground (arith, any-pick test ys x)

pub pick-Sought :
    (test : ℕ → Bool) (xs : List ℕ) (r : Sought test [] xs) → pick test xs ≡ some r.found
pick-Sought test xs r = rw r.split (pick-found test r.pre r.found r.post r.others r.passes)

-- A task is looked through: its next thread that runs becomes its pointer; where there is none, the pointer is back
-- where it was.
find_thread-ThreadsOf :
    (fuel t : ℕ) (order : List ℕ) (s : Kernel)
    → ThreadsOf s t order
    → length order ≤ fuel
    → find_thread fuel t (s.tasks t).threads s
      ≡ some (
        pick (runs s) order,
        set_threads t (get_or_else (s.tasks t).threads (pick (runs s) order)) s,
      )
find_thread-ThreadsOf fuel t order s v h = rw v.split (
    find_thread_lem fuel t ((s.tasks t).threads) v.before s v.ring.walk v.ring.distinct.0 (
      omega (
        arith,
        length-append v.before ((s.tasks t).threads ∷ []),
        ap (λ (xs : List ℕ). length xs) v.split,
      )))

-- What `schedule` returns, by the first task with a thread that runs.
abbrev pub outcome : (order : ℕ → List ℕ) → Kernel → Option ℕ → Option (ℕ × Kernel)
outcome order s none = some (s.idle_thread, s)
outcome order s (some t) = elim (pick (runs s) (order t)) [
  | none ↦ none
  | some x ↦ some (x, set_threads t x s)
]

abbrev pub has_running : (order : ℕ → List ℕ) → Kernel → ℕ → Bool
has_running order s t = any (runs s) (order t)

looked_in :
    (rest : Kernel → Option (ℕ × Kernel)) (new old : ℕ)
    → Option (Option ℕ × Kernel)
    → Option (ℕ × Kernel)
looked_in rest new old none = none
looked_in rest new old (some (some thread, t)) = some (thread, t)
looked_in rest new old (some (none, t)) = elim (new == old) [
  | true ↦ some (t.idle_thread, t)
  | false ↦ rest t
]

find_task-looked_in :
    (fuel rounds task old new : ℕ) (s : Kernel)
    → (s.task_links task).next ≡ new
    → find_task fuel (suc rounds) task old s
      ≡ looked_in
          (find_task fuel rounds new old)
          new
          old
          (find_thread fuel new (s.tasks new).threads s)
unfolding find_task looked_in
find_task-looked_in fuel rounds task old new s e =
    ap
      (λ (n : ℕ).
        looked_in (find_task fuel rounds n old) n old (find_thread fuel n (s.tasks n).threads s))
      e

module _ (fuel : ℕ) (order : ℕ → List ℕ) (old : ℕ) (s : Kernel) where
  -- A task with a thread that runs ends the search, and one without leaves the state as it was.
  looked_in_lem :
      (rest : Kernel → Option (ℕ × Kernel)) (t : ℕ)
      → ThreadsOf s t (order t)
      → length (order t) ≤ fuel
      → looked_in rest t old (find_thread fuel t (s.tasks t).threads s) ≡ (
          if has_running order s t
          then outcome order s (some t)
          else (elim (t == old) [ true ↦ some (s.idle_thread, s) | false ↦ rest s ]))
  unfolding looked_in
  looked_in_lem rest t v h =
      ap (looked_in rest t old) (find_thread-ThreadsOf fuel t (order t) s v h)
      ∙ elim (seek_lem (runs s) [] (order t)) [
        | inl (_, a) ↦ rw (pick-none (runs s) (order t) a, a, set_threads_self t s) refl
        | inr r ↦
            let e = pick-Sought (runs s) (order t) r in
            rw (outcome, e, any-pick (runs s) (order t) r.found e) refl
      ]

  pub find_task_lem :
      (rounds task : ℕ) (ys : List ℕ)
      → Walk s.task_links task (ys ++ (old ∷ []))
      → has old ys ≡ false
      → length ys < rounds
      → ((t : ℕ)
          → has t (ys ++ (old ∷ [])) ≡ true
          → ThreadsOf s t (order t) × (length (order t) ≤ fuel))
      → find_task fuel rounds task old s
        ≡ outcome order s (pick (has_running order s) (ys ++ (old ∷ [])))
  find_task_lem zero task ys w n h all = absurd (omega arith)
  find_task_lem (suc rounds) task [] w n h all =
      find_task-looked_in fuel rounds task old old s w.0.0
      ∙ looked_in_lem (find_task fuel rounds old old) old (all old (ground arith)).0
          (all old (ground arith)).1
      ∙ elim (Bool-cases (has_running order s old)) [
        | inl p ↦ rw p refl
        | inr p ↦ rw (p, ==_refl old) refl
      ]
  find_task_lem (suc rounds) task (y ∷ ys) w n h all =
      find_task-looked_in fuel rounds task old y s w.0.0
      ∙ looked_in_lem (find_task fuel rounds y old) y (all y (ground arith)).0
          (all y (ground arith)).1
      ∙ elim (Bool-cases (has_running order s y)) [
        | inl p ↦ rw p refl
        | inr p ↦
            let e : (y == old) ≡ false = ground arith in
            rw (p, e)
              (find_task_lem rounds y ys w.1 (ground arith) (omega arith)
                (λ t q. all t (ground arith)))
      ]
