-- ===== src/Task/Boot/Turns.antt =====
-- The threads that `initialize_tasks` of kernel/core/task.c starts have their turns.
use lasagne.Base.{
  ℕ, ◌≤◌, ◌<◌, ◌≡◌, ◌≢◌, refl, ◌∙◌, ap, inl, inr, ◌⊎◌, arith, true, false, [], ◌∷◌, length, ◌==◌,
  Bool-cases, ==_refl, ==_ne,
}
use native.Mathlib.Nat.{mul-le-mul_right}
use lasagne.Ds.Ring.{has}
use lasagne.Task.{
  Thread, Kernel, is_running, create_kernel_thread, create_usermode_task, code_segment,
  data_segment,
}
use lasagne.Task.Schedule.{runs}
use lasagne.Task.Represents.{Represents}
use lasagne.Task.Added.{create_thread-SameVariables, create_thread_threads}
use lasagne.Task.Usermode.{create_usermode_task_threads}
use lasagne.Task.Fair.{IsScheduled, HasTurn, fair_lem}
use lasagne.Task.Boot.{
  Objects, init_kernel_main_thread, init_kernel_idle_thread, init_kernel_task, add_to_threads,
  add_to_current, initialize_tasks,
}
use lasagne.Task.Boot.Started.{
  AreDistinct, idle_thread_variables, started_rota, initialize_tasks-Represents,
}

-- The same state of the threads but for a new one that runs.
record Runs (s t : Kernel) (thread : ℕ) : Type 0 where
  new : runs t thread ≡ true
  others : (x : ℕ) → x ≢ thread → runs t x ≡ runs s x
  idle : t.idle_thread ≡ s.idle_thread

Runs-either :
    (s t : Kernel) (thread x : ℕ)
    → Runs s t thread
    → (x ≡ thread) ⊎ (runs s x ≡ true)
    → runs t x ≡ true
Runs-either s t thread x v h = elim (Bool-cases (x == thread)) [
  | inl e ↦ let q : x ≡ thread = ground arith in rw q v.new
  | inr e ↦
      let ne : x ≢ thread = ground arith in
      v.others x ne ∙ elim h [ inl q ↦ absurd (ne q) | inr q ↦ q ]
]

usermode-Runs :
    (task thread stack memory leave : ℕ) (s : Kernel)
    → Runs s (create_usermode_task task thread stack memory leave s) thread
usermode-Runs task thread stack memory leave s =
    let (p, q, i) = create_usermode_task_threads task thread stack memory leave s in
    record {
      new = p;
      others = λ x ne. ap (λ (y : Thread). is_running (y.state)) (q x ne);
      idle = i;
    }

kernel-Runs :
    (thread stack task main leave : ℕ) (s : Kernel)
    → Runs s (create_kernel_thread thread stack task main leave s) thread
kernel-Runs thread stack task main leave s =
    let (p, q) = create_thread_threads thread stack task main code_segment data_segment 0 leave s in
    record {
      new = rw p refl;
      others = λ x ne. ap (λ (y : Thread). is_running (y.state)) (q x ne);
      idle =
          (create_thread-SameVariables thread stack task main code_segment data_segment 0 leave
            s).idle_thread;
    }

module _ (o : Objects) (d : AreDistinct o) (s : Kernel) where
  init_kernel_task-runs :
      let t = init_kernel_task o s in
      (runs t o.kernel_main_thread ≡ true) × (runs t o.idle ≡ false) × (t.idle_thread ≡ o.idle)
  unfolding init_kernel_task add_to_threads add_to_current init_kernel_idle_thread
      init_kernel_main_thread
  init_kernel_task-runs = (
    ap (λ (y : Thread). is_running (y.state))
          ((idle_thread_variables o d _).1 o.kernel_main_thread (ground (arith, d.threads.0)))
        ∙ rw (==_refl o.kernel_main_thread) refl,
    rw (==_refl o.idle) refl,
    refl,
  )

  -- What stands after `initialize_tasks`.
  pub record IsStarted (t : Kernel) : Type 0 where
    pub represents : Represents t (started_rota o d)
    pub idle : t.idle_thread ≡ o.idle
    pub waits : runs t o.idle ≡ false
    pub main : runs t o.kernel_main_thread ≡ true
    pub other : runs t o.other ≡ true
    pub first : runs t o.thread1 ≡ true
    pub second : runs t o.thread2 ≡ true

  pub initialize_tasks_lem :
      s.current_task ≡ 0 → (s.tasks o.kernel_task).threads ≡ 0 → IsStarted (initialize_tasks o s)
  unfolding initialize_tasks
  initialize_tasks_lem e f =
      let t = init_kernel_task o s in
      let (m, w, i) = init_kernel_task-runs in
      let a = record t { current_thread = (t.tasks o.kernel_task).main_thread } in
      let b = create_kernel_thread o.other o.other_stack o.kernel_task o.do_sth o.leave a in
      let c = create_usermode_task o.task1 o.thread1 o.stack1 o.memory1 o.leave b in
      let p = kernel-Runs o.other o.other_stack o.kernel_task o.do_sth o.leave a in
      let q = usermode-Runs o.task1 o.thread1 o.stack1 o.memory1 o.leave b in
      let r = usermode-Runs o.task2 o.thread2 o.stack2 o.memory2 o.leave c in
      record {
        represents = initialize_tasks-Represents o d s e f;
        idle = r.idle ∙ q.idle ∙ p.idle ∙ i;
        waits =
            r.others o.idle (ground (arith, d.threads.0))
            ∙ q.others o.idle (ground (arith, d.threads.0))
            ∙ p.others o.idle (ground (arith, d.threads.0))
            ∙ w;
        main =
            Runs-either c _ o.thread2 _ r
              (inr (Runs-either b c o.thread1 _ q (inr (Runs-either a b o.other _ p (inr m)))));
        other = Runs-either c _ o.thread2 _ r (inr (Runs-either b c o.thread1 _ q (inr p.new)));
        first = Runs-either c _ o.thread2 _ r (inr q.new);
        second = r.new;
      }

  kernel_order :
      (started_rota o d).threads o.kernel_task ≡ o.idle ∷ o.other ∷ o.kernel_main_thread ∷ []
  unfolding started_rota
  kernel_order =
      rw
        (
          ==_ne o.kernel_task o.task2 (ground (arith, d.tasks.0)),
          ==_ne o.kernel_task o.task1 (ground (arith, d.tasks.0)),
        )
        refl

  order-length : (t : ℕ) → length ((started_rota o d).threads t) ≤ 3
  unfolding started_rota
  order-length t = elim (Bool-cases (t == o.task2)) [
    | inl p ↦ rw p (omega arith)
    | inr p ↦ elim (Bool-cases (t == o.task1)) [
      | inl q ↦ rw (p, q) (omega arith)
      | inr q ↦ rw (p, q) (omega arith)
    ]
  ]

  pub IsStarted-IsScheduled :
      (t : Kernel) (fuel : ℕ) → 3 ≤ fuel → IsStarted t → IsScheduled t fuel (started_rota o d)
  unfolding started_rota
  IsStarted-IsScheduled t fuel h v =
      let k = v.represents.threads o.kernel_task (ground arith) in
      let owner : (t.threads o.idle).task ≡ o.kernel_task =
        k.owned o.idle (rw kernel_order (ground arith)) in
      record {
        represents = v.represents;
        fits = (h, λ u m. omega (arith, h, order-length u));
        idle = rw (v.idle, owner) (ground arith);
      }

  started_turn :
      (fuel t x : ℕ)
      → 3 ≤ fuel
      → IsStarted (initialize_tasks o s)
      → has t (started_rota o d).tasks ≡ true
      → has x ((started_rota o d).threads t) ≡ true
      → runs (initialize_tasks o s) x ≡ true
      → (n : ℕ) × (n < 9) × HasTurn (initialize_tasks o s) fuel n x
  unfolding started_rota
  started_turn fuel t x h v it ix p =
      let (n, l, k) = fair_lem fuel t x _ _ (IsStarted-IsScheduled _ fuel h v) it ix p in
      (n, omega (arith, order-length t, l, mul-le-mul_right 3 (order-length t)), k)

  -- The objects are different and not NULL, the pointers to the tasks and to the kernel task's
  -- threads are NULL, and there are 3 rounds or more for each loop. Then after `initialize_tasks`
  -- the kernel's main thread and each thread created, but for the idle one, have their turn within
  -- 9 preemptions with nothing between them.
  pub started_turns :
      (fuel x : ℕ)
      → 3 ≤ fuel
      → s.current_task ≡ 0
      → (s.tasks o.kernel_task).threads ≡ 0
      → has x (o.kernel_main_thread ∷ o.other ∷ o.thread1 ∷ o.thread2 ∷ []) ≡ true
      → (n : ℕ) × (n < 9) × HasTurn (initialize_tasks o s) fuel n x
  unfolding started_rota
  started_turns fuel x h e f m =
      let v = initialize_tasks_lem e f in
      elim (Bool-cases (x == o.thread2)) [
        | inl p ↦
            let q : x ≡ o.thread2 = ground arith in
            started_turn fuel o.task2 x h v (ground arith) (rw (q, ==_refl o.task2) (ground arith))
              (rw q v.second)
        | inr p ↦ elim (Bool-cases (x == o.thread1)) [
          | inl q ↦
              let r : x ≡ o.thread1 = ground arith in
              started_turn fuel o.task1 x h v (ground arith)
                (rw (r, ==_ne o.task1 o.task2 (ground (arith, d.tasks.1.0)), ==_refl o.task1)
                  (ground arith))
                (rw r v.first)
          | inr q ↦
              started_turn fuel o.kernel_task x h v (ground arith) (rw kernel_order (ground arith))
                (elim (Bool-cases (x == o.other)) [
                  | inl r ↦ let k : x ≡ o.other = ground arith in rw k v.other
                  | inr r ↦ let k : x ≡ o.kernel_main_thread = ground arith in rw k v.main
                ])
        ]
      ]
