-- ===== src/Task/Added.antt =====
-- After `create_thread` and `create_usermode_task` of kernel/core/task.c the new thread and task are in the queues.
use lasagne.Base.{
  ℕ, ◌≡◌, ◌≢◌, refl, ap, inl, inr, arith, true, false, List, [], ◌∷◌, length, length-append, ◌==◌,
  if◌then◌else◌, Bool-cases, ==_refl, ==_ne,
}
use lasagne.Ds.Ring.{has}
use lasagne.Task.{running, Kernel, set_at, add_thread, new_thread, create_thread}
use lasagne.Task.Order.{Rota}
use lasagne.Task.Schedule.{ThreadsOf}
use lasagne.Task.Represents.{Represents}
use lasagne.Task.Create.{before_last, HasThreads, add_thread-mine, add_thread_lem}

-- The variables that a new thread leaves as they are.
pub record SameVariables (s t : Kernel) : Type 0 where
  pub task_links : t.task_links ≡ s.task_links
  pub current_task : t.current_task ≡ s.current_task
  pub current_thread : t.current_thread ≡ s.current_thread
  pub idle_thread : t.idle_thread ≡ s.idle_thread
  pub next_pid : t.next_pid ≡ s.next_pid

add_thread-SameVariables : (t v : ℕ) (s : Kernel) → SameVariables s (add_thread t v s)
unfolding add_thread
add_thread-SameVariables t v s = elim (Bool-cases ((s.tasks t).threads == 0)) [
  | inl e ↦
      rw (add_thread, e)
        (record {
          task_links = refl;
          current_task = refl;
          current_thread = refl;
          idle_thread = refl;
          next_pid = refl;
        })
  | inr e ↦
      rw (add_thread, e)
        (record {
          task_links = refl;
          current_task = refl;
          current_thread = refl;
          idle_thread = refl;
          next_pid = refl;
        })
]

add_thread_threads : (t v : ℕ) (s : Kernel) → (add_thread t v s).threads ≡ s.threads
unfolding add_thread
add_thread_threads t v s = elim (Bool-cases ((s.tasks t).threads == 0)) [
  | inl e ↦ rw (add_thread, e) refl
  | inr e ↦ rw (add_thread, e) refl
]

-- The new thread runs, and the others are not changed.
pub create_thread_threads :
    (thread stack t main cs ss u leave : ℕ) (s : Kernel)
    → let new = (create_thread thread stack t main cs ss u leave s).threads in
      ((new thread).state ≡ running) × ((x : ℕ) → x ≢ thread → new x ≡ s.threads x)
unfolding create_thread new_thread
create_thread_threads thread stack t main cs ss u leave s =
    rw (add_thread_threads t thread (new_thread thread stack t main cs ss u leave s))
      (rw (==_refl thread) refl, λ x ne. rw (==_ne x thread ne) refl)

pub create_thread-SameVariables :
    (thread stack t main cs ss u leave : ℕ) (s : Kernel)
    → SameVariables s (create_thread thread stack t main cs ss u leave s)
unfolding create_thread new_thread
create_thread-SameVariables thread stack t main cs ss u leave s =
    let v = add_thread-SameVariables t thread (new_thread thread stack t main cs ss u leave s) in
    record {
      task_links = v.task_links;
      current_task = v.current_task;
      current_thread = v.current_thread;
      idle_thread = v.idle_thread;
      next_pid = v.next_pid;
    }

module _ (thread stack t main cs ss u leave : ℕ) (s : Kernel) where
  new_thread-ThreadsOf :
      (x : ℕ) (order : List ℕ)
      → has thread order ≡ false
      → ThreadsOf s x order
      → ThreadsOf (new_thread thread stack t main cs ss u leave s) x order
  unfolding new_thread
  new_thread-ThreadsOf x order n w = record {
    before = w.before;
    split = w.split;
    ring = w.ring;
    owned = λ y h. elim (Bool-cases (y == thread)) [
      | inl e ↦
          let q : y ≡ thread = ground arith in absurd (cc (n, h, ap (λ (k : ℕ). has k order) q))
      | inr e ↦ rw e (w.owned y h)
    ];
  }

  owner : ((new_thread thread stack t main cs ss u leave s).threads thread).task ≡ t
  unfolding new_thread
  owner = rw (==_refl thread) refl

  new_thread-HasThreads :
      (order : List ℕ)
      → has thread order ≡ false
      → HasThreads s t order
      → HasThreads (new_thread thread stack t main cs ss u leave s) t order
  unfolding HasThreads new_thread
  new_thread-HasThreads [] n w = w
  new_thread-HasThreads (x ∷ xs) n w = new_thread-ThreadsOf t (x ∷ xs) n w

  -- A new thread is put in before the last of its task's threads, and the other tasks' threads stay in order.
  pub create_thread-ThreadsOf :
      (x : ℕ) (order mine : List ℕ)
      → thread ≢ 0
      → has thread order ≡ false
      → has thread mine ≡ false
      → HasThreads s t mine
      → ThreadsOf s x order
      → ThreadsOf
          (create_thread thread stack t main cs ss u leave s)
          x
          (if x == t then before_last thread mine else order)
  unfolding create_thread
  create_thread-ThreadsOf x order mine z n k e w =
      add_thread_lem (new_thread thread stack t main cs ss u leave s) t thread x order mine z n k
        owner (new_thread-HasThreads mine k e) (new_thread-ThreadsOf x order n w)

module _ (thread stack t main cs ss u leave : ℕ) (s : Kernel) where
  pub create_thread-first :
      thread ≢ 0
      → (s.tasks t).threads ≡ 0
      → ThreadsOf (create_thread thread stack t main cs ss u leave s) t (thread ∷ [])
  unfolding create_thread before_last HasThreads
  create_thread-first z e =
      add_thread-mine (new_thread thread stack t main cs ss u leave s) t thread [] z refl
        (owner thread stack t main cs ss u leave s)
        (new_thread-HasThreads thread stack t main cs ss u leave s [] refl e)

ThreadsOf-HasThreads :
    (s : Kernel) (t : ℕ) (order : List ℕ) → ThreadsOf s t order → HasThreads s t order
unfolding HasThreads
ThreadsOf-HasThreads s t [] w = absurd (
    ground (
      arith,
      ap (λ (l : List ℕ). length l) w.split,
      length-append w.before ((s.tasks t).threads ∷ []),
    ))
ThreadsOf-HasThreads s t (x ∷ xs) w = w

-- No task has the thread yet.
abbrev pub IsNew : ℕ → Rota → Type 0
IsNew thread r = (t : ℕ) → has t r.tasks ≡ true → has thread (r.threads t) ≡ false

abbrev pub add_to_rota : (task thread : ℕ) → Rota → Rota
add_to_rota task thread r = record r {
  threads = set_at task (before_last thread (r.threads task)) r.threads;
}

-- Where the circular lists hold a rota with the task in it, and the new thread is not NULL and not
-- in it, `create_thread` puts the thread before the one that the task's queue has last. The other
-- queues stay as they are.
pub create_thread_lem :
    (thread stack t main cs ss u leave : ℕ) (s : Kernel) (r : Rota)
    → Represents s r
    → has t r.tasks ≡ true
    → thread ≢ 0
    → IsNew thread r
    → Represents (create_thread thread stack t main cs ss u leave s) (add_to_rota t thread r)
create_thread_lem thread stack t main cs ss u leave s r v it z n =
    let k = create_thread-SameVariables thread stack t main cs ss u leave s in
    let e = ThreadsOf-HasThreads s t (r.threads t) (v.threads t it) in
    record {
      before = v.before;
      split = rw (k.current_task) v.split;
      ring = rw (k.current_task, k.task_links) v.ring;
      threads = λ x h.
          create_thread-ThreadsOf thread stack t main cs ss u leave s x (r.threads x) (r.threads t)
            z (n x h) (n t it) e (v.threads x h);
    }
