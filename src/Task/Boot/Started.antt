-- ===== src/Task/Boot/Started.antt =====
-- What `initialize_tasks` of kernel/core/task.c starts.
use mathlib.Core.Path.{subst, subst₂}
use lasagne.Base.{
  ℕ, ◌+◌, ◌*◌, ◌^◌, ◌<◌, ◌≡◌, ◌≢◌, refl, sym, ◌∙◌, ap, inl, inr, arith, false, List, [], ◌∷◌, ◌++◌,
  length, length-append, ◌==◌, Bool-cases, ==_refl, ==_ne,
}
use lasagne.Ds.Ring.{has, AllDistinct, IsRing, clist_add_lem, clist_add-empty}
use lasagne.Ds.Rotate.{IsRing-rotate}
use lasagne.Task.{Thread, Kernel, set_at, create_kernel_thread, code_segment, data_segment}
use lasagne.Task.Order.{Rota}
use lasagne.Task.Schedule.{ThreadsOf}
use lasagne.Task.Represents.{Represents-same, ThreadsOf-same, Represents}
use lasagne.Task.Create.{before_last}
use lasagne.Task.Added.{
  create_thread-SameVariables, create_thread_threads, create_thread-first, create_thread_lem,
}
use lasagne.Task.Usermode.{set_main_thread-ThreadsOf, create_usermode_task_lem}
use lasagne.Task.Boot.{
  setup_tss, Objects, init_kernel_main_thread, init_kernel_idle_thread, add_to_threads,
  add_to_current, init_kernel_task, initialize_tasks,
}

-- The address that the processor puts together from the parts of the descriptor is that of the structure.
pub setup_tss_lem :
    (tss : ℕ)
    → tss < 2 ^ 64
    → let d = setup_tss tss in d.base_addr23_0 + d.base31_24 * 2 ^ 24 + d.base63_32 * 2 ^ 32 ≡ tss
unfolding setup_tss
setup_tss_lem tss h = omega arith

one_node : (x c : ℕ) (before : List ℕ) → (x ∷ []) ≡ before ++ (c ∷ []) → (before ≡ []) × (c ≡ x)
one_node x c [] e = (refl, ground (arith, ap (has x) e))
one_node x c (y ∷ ys) e =
    absurd (omega (arith, ap (λ (l : List ℕ). length l) e, length-append ys (c ∷ [])))

-- The threads, and the tasks, are different objects.
pub record AreDistinct (o : Objects) : Type 0 where
  pub threads : AllDistinct (o.idle ∷ o.kernel_main_thread ∷ o.other ∷ o.thread1 ∷ o.thread2 ∷ [])
  pub threads_pointers :
      has 0 (o.idle ∷ o.kernel_main_thread ∷ o.other ∷ o.thread1 ∷ o.thread2 ∷ []) ≡ false
  pub tasks : AllDistinct (o.kernel_task ∷ o.task1 ∷ o.task2 ∷ [])
  pub tasks_pointers : has 0 (o.kernel_task ∷ o.task1 ∷ o.task2 ∷ []) ≡ false

module _ (o : Objects) (d : AreDistinct o) where
  -- After the kernel's idle thread is created.
  idle-ThreadsOf :
      (s : Kernel)
      → (s.tasks o.kernel_task).threads ≡ 0
      → ThreadsOf (init_kernel_idle_thread o s) o.kernel_task (o.idle ∷ [])
  unfolding init_kernel_idle_thread
  idle-ThreadsOf s e =
      let w =
        create_thread-first o.idle o.idle_stack o.kernel_task o.idle_thread code_segment
          data_segment 0 o.leave s (ground (arith, d.threads_pointers)) e in
      record {
        before = w.before;
        split = w.split;
        ring = w.ring;
        owned = λ x h.
            let q : o.idle ≡ x = ground arith in
            rw (sym q, ==_refl o.idle) (w.owned o.idle (ground arith));
      }

  -- The list's pointer itself names the new thread.
  pub add_to_threads_lem :
      (s : Kernel)
      → ThreadsOf s o.kernel_task (o.idle ∷ [])
      → (s.threads o.kernel_main_thread).task ≡ o.kernel_task
      → ThreadsOf
          (add_to_threads o.kernel_task o.kernel_main_thread s)
          o.kernel_task
          (o.idle ∷ o.kernel_main_thread ∷ [])
  unfolding add_to_threads
  add_to_threads_lem s w e =
      let m = o.kernel_main_thread in
      let (b, c) = one_node o.idle (s.tasks o.kernel_task).threads w.before w.split in
      let ring : IsRing s.thread_links o.idle [] = subst₂ (IsRing s.thread_links) c b w.ring in
      let added =
        clist_add_lem s.thread_links o.idle m [] ring (ground (arith, d.threads_pointers))
          (ground (arith, d.threads.0)) in
      rw c (record {
        before = o.idle ∷ [];
        split = rw (==_refl o.kernel_task, added.0) refl;
        ring =
            rw (==_refl o.kernel_task, added.0)
              (IsRing-rotate _ o.idle (m ∷ []) [] m (o.idle ∷ []) added.1 refl);
        owned = λ x h. elim (Bool-cases (o.idle == x)) [
          | inl p ↦ w.owned x (ground arith)
          | inr p ↦ let q : m ≡ x = ground arith in rw (sym q) e
        ];
      })

  add_to_current_lem :
      (s : Kernel) (order : List ℕ)
      → s.current_task ≡ 0
      → ThreadsOf s o.kernel_task order
      → Represents
          (add_to_current o.kernel_task s)
          (record { tasks = o.kernel_task ∷ []; threads = λ t. order })
  unfolding add_to_current
  add_to_current_lem s order e w =
      let added = clist_add-empty s.task_links o.kernel_task (ground (arith, d.tasks_pointers)) in
      rw e (record {
        before = [];
        split = ap (λ (n : ℕ). n ∷ []) (sym added.0);
        ring = rw added.0 added.1;
        threads = λ x h.
            let q : o.kernel_task ≡ x = ground arith in
            rw (sym q) (ThreadsOf-same s _ o.kernel_task order refl refl refl w);
      })

  main_thread_task :
      (s : Kernel)
      → ((init_kernel_main_thread o s).threads o.kernel_main_thread).task ≡ o.kernel_task
  unfolding init_kernel_main_thread
  main_thread_task s = rw (==_refl o.kernel_main_thread) refl

  pub idle_thread_variables :
      (s : Kernel)
      → ((init_kernel_idle_thread o s).current_task ≡ s.current_task)
        × ((x : ℕ) → x ≢ o.idle → (init_kernel_idle_thread o s).threads x ≡ s.threads x)
  unfolding init_kernel_idle_thread
  idle_thread_variables s = (
    (create_thread-SameVariables o.idle o.idle_stack o.kernel_task o.idle_thread code_segment
        data_segment 0 o.leave s).current_task,
    λ x ne. rw (==_ne x o.idle ne) (
        (create_thread_threads o.idle o.idle_stack o.kernel_task o.idle_thread code_segment
            data_segment 0 o.leave s).1
          x ne),
  )

  -- The kernel's task and its two threads.
  pub init_kernel_task_lem :
      (s : Kernel)
      → s.current_task ≡ 0
      → (s.tasks o.kernel_task).threads ≡ 0
      → Represents
          (init_kernel_task o s)
          (record { tasks = o.kernel_task ∷ []; threads = λ t. o.idle ∷ o.kernel_main_thread ∷ [] })
  unfolding init_kernel_task init_kernel_main_thread add_to_threads
  init_kernel_task_lem s e f =
      let named = record s {
        tasks =
            set_at o.kernel_task (record (s.tasks o.kernel_task) { pid = 0; memory = 0 }) s.tasks;
      } in
      let t = init_kernel_main_thread o named in
      let w = idle-ThreadsOf t (rw (==_refl o.kernel_task) f) in
      add_to_current_lem _ _ ((idle_thread_variables t).0 ∙ e) (
        add_to_threads_lem _
          (set_main_thread-ThreadsOf o.kernel_task o.kernel_main_thread o.kernel_task _ _ w)
          (ap (λ (x : Thread). x.task)
              ((idle_thread_variables t).1 o.kernel_main_thread (ground (arith, d.threads.0)))
            ∙ main_thread_task named))

  -- Once the kernel's second thread is created.
  kernel_threads_lem :
      (s : Kernel)
      → Represents s
          (record { tasks = o.kernel_task ∷ []; threads = λ t. o.idle ∷ o.kernel_main_thread ∷ [] })
      → Represents
          (create_kernel_thread o.other o.other_stack o.kernel_task o.do_sth o.leave s)
          (record {
            tasks = o.kernel_task ∷ [];
            threads = λ t. o.idle ∷ o.other ∷ o.kernel_main_thread ∷ [];
          })
  unfolding before_last
  kernel_threads_lem s v =
      let w =
        create_thread_lem o.other o.other_stack o.kernel_task o.do_sth code_segment data_segment 0
          o.leave s _ v (ground arith) (ground (arith, d.threads_pointers))
          (λ t h. ground (arith, d.threads.0, d.threads.1.0)) in
      record {
        before = w.before;
        split = w.split;
        ring = w.ring;
        threads = λ t h.
            let q : o.kernel_task ≡ t = ground arith in
            let k = w.threads o.kernel_task (ground arith) in
            rw (sym q) (subst (ThreadsOf _ o.kernel_task) (rw (==_refl o.kernel_task) refl) k);
      }

  current-Represents :
      (x : ℕ) (s : Kernel) (r : Rota)
      → Represents s r
      → Represents (record s { current_thread = x }) r
  current-Represents x s r v = Represents-same s _ r refl refl refl refl refl v

  unfoldable pub started_rota : Rota
  started_rota = record {
    tasks = o.task1 ∷ o.task2 ∷ o.kernel_task ∷ [];
    threads =
        set_at o.task2 (o.thread2 ∷ [])
          (set_at o.task1 (o.thread1 ∷ []) (λ t. o.idle ∷ o.other ∷ o.kernel_main_thread ∷ []));
  }

  pub initialize_tasks-Represents :
      (s : Kernel)
      → s.current_task ≡ 0
      → (s.tasks o.kernel_task).threads ≡ 0
      → Represents (initialize_tasks o s) started_rota
  unfolding initialize_tasks started_rota before_last
  initialize_tasks-Represents s e f =
      let t = init_kernel_task o s in
      let v = init_kernel_task_lem s e f in
      let t' = record t { current_thread = (t.tasks o.kernel_task).main_thread } in
      let w = kernel_threads_lem t' (current-Represents _ _ _ v) in
      create_usermode_task_lem o.task2 o.thread2 o.stack2 o.memory2 o.leave _ _
        (create_usermode_task_lem o.task1 o.thread1 o.stack1 o.memory1 o.leave _ _ w
          (ground (arith, d.tasks_pointers)) (ground (arith, d.threads_pointers))
          (ground (arith, d.tasks.0))
          (λ x h. ground (arith, d.threads.0, d.threads.1.0, d.threads.1.1.0)))
        (ground (arith, d.tasks_pointers)) (ground (arith, d.threads_pointers))
        (ground (arith, d.tasks.0, d.tasks.1.0))
        (λ x h. elim (Bool-cases (x == o.task1)) [
          | inl p ↦ rw p (ground (arith, d.threads.1.1.1.0))
          | inr p ↦ rw p (ground (arith, d.threads.0, d.threads.1.0, d.threads.1.1.0))
        ])
