-- ===== src/Task/Usermode.antt =====
-- After `create_usermode_task` of kernel/core/task.c the new task is in the queues.
use mathlib.Core.Path.{subst}
use lasagne.Base.{
  ℕ, ◌+◌, ◌≡◌, ◌≢◌, refl, ap, inl, inr, arith, true, false, List, [], ◌∷◌, ◌++◌, ◌==◌, Bool-cases,
  ==_refl, ==_ne,
}
use lasagne.Ds.{clist_add}
use lasagne.Ds.Ring.{has, has-append, clist_add_lem}
use lasagne.Ds.Frame.{IsRing-frame}
use lasagne.Task.{
  Kernel, set_at, create_usermode_thread, add_task, new_task, set_main_thread, create_usermode_task,
  virtual_memory_start, usermode_stack, user_code_segment, user_data_segment,
}
use lasagne.Task.Order.{Rota}
use lasagne.Task.Schedule.{ThreadsOf, runs}
use lasagne.Task.Represents.{Represents, ThreadsOf-same}
use lasagne.Task.Create.{before_last, before_last-snoc, member-ne, has-before_last, HasThreads}
use lasagne.Task.Added.{
  create_thread-SameVariables, create_thread_threads, create_thread-ThreadsOf, create_thread-first,
  IsNew,
}

add_task-more :
    (task : ℕ) (s : Kernel)
    → s.current_task ≢ 0
    → add_task task s ≡ record s { task_links = (clist_add s.current_task task s.task_links).1 }
unfolding add_task
add_task-more task s e = rw (add_task, ==_ne _ 0 e) refl

-- A task with threads, put in before the last.
add_task_lem :
    (task : ℕ) (order : List ℕ) (s : Kernel) (r : Rota)
    → Represents s r
    → task ≢ 0
    → has task r.tasks ≡ false
    → ThreadsOf s task order
    → Represents
        (add_task task s)
        (record { tasks = before_last task r.tasks; threads = set_at task order r.threads })
add_task_lem task order s r v z n w =
    let nz : s.current_task ≢ 0 = ground (arith, v.ring.pointers) in
    let m : has task (s.current_task ∷ v.before) ≡ false =
      ground (arith, ap (has task) v.split, has-append task v.before (s.current_task ∷ [])) in
    rw (add_task-more task s nz) (record {
      before = v.before ++ (task ∷ []);
      split = rw v.split (before_last-snoc task s.current_task v.before);
      ring = (clist_add_lem s.task_links s.current_task task v.before v.ring z m).1;
      threads = λ x h. elim (Bool-cases (x == task)) [
        | inl e ↦
            let q : x ≡ task = ground arith in
            rw (q, ==_refl task) (ThreadsOf-same s _ task order refl refl refl w)
        | inr e ↦ rw e (
            ThreadsOf-same s _ x (r.threads x) refl refl refl
              (v.threads x (ground (arith, has-before_last x task r.tasks))))
      ];
    })

pub set_main_thread-ThreadsOf :
    (task thread x : ℕ) (s : Kernel) (order : List ℕ)
    → ThreadsOf s x order
    → ThreadsOf (set_main_thread task thread s) x order
set_main_thread-ThreadsOf task thread x s order w =
    ThreadsOf-same s _ x order refl refl
      (elim (Bool-cases (x == task)) [
        | inl e ↦ let q : x ≡ task = ground arith in rw (q, ==_refl task) refl
        | inr e ↦ rw e refl
      ])
      w

module _ (task thread stack memory leave : ℕ) (s : Kernel) where
  -- The new task before it is put in the list.
  created : Kernel
  created =
      create_usermode_thread thread stack task virtual_memory_start (usermode_stack + 4096) leave
        (new_task task memory s)

  new_task-ThreadsOf :
      (x : ℕ) (order : List ℕ)
      → x ≢ task
      → ThreadsOf s x order
      → ThreadsOf (new_task task memory s) x order
  unfolding new_task
  new_task-ThreadsOf x order ne w =
      ThreadsOf-same s _ x order refl refl (rw (==_ne x task ne) refl) w

  new_task-threads : ((new_task task memory s).tasks task).threads ≡ 0
  unfolding new_task
  new_task-threads = rw (==_refl task) refl

  new_task-links : (n : ℕ) → n ≢ task → (new_task task memory s).task_links n ≡ s.task_links n
  unfolding new_task
  new_task-links n ne = rw (==_ne n task ne) refl

  new_task-current : (new_task task memory s).current_task ≡ s.current_task
  unfolding new_task
  new_task-current = refl

  created-Represents :
      (r : Rota)
      → Represents s r
      → thread ≢ 0
      → has task r.tasks ≡ false
      → IsNew thread r
      → Represents created r
  unfolding created HasThreads
  created-Represents r v z n k =
      let same =
        create_thread-SameVariables thread stack task virtual_memory_start user_code_segment
          user_data_segment (usermode_stack + 4096) leave (new_task task memory s) in
      record {
        before = v.before;
        split = rw (same.current_task, new_task-current) v.split;
        ring =
            rw (same.current_task, same.task_links, new_task-current)
              (IsRing-frame s.task_links _ _ v.before
                (λ m h.
                  let i : has m r.tasks ≡ true =
                    ground
                      (arith, ap (has m) v.split, has-append m v.before (s.current_task ∷ [])) in
                  new_task-links m (member-ne m task r.tasks n i))
                v.ring);
        threads = λ x h.
            let ne = member-ne x task r.tasks n h in
            let w =
              create_thread-ThreadsOf thread stack task virtual_memory_start user_code_segment
                user_data_segment (usermode_stack + 4096) leave (new_task task memory s) x
                (r.threads x) [] z (k x h) refl new_task-threads
                (new_task-ThreadsOf x (r.threads x) ne (v.threads x h)) in
            subst (ThreadsOf created x) (rw (==_ne x task ne) refl) w;
      }

-- The new thread runs, and the others and the idle thread's variable are not changed.
pub create_usermode_task_threads :
    (task thread stack memory leave : ℕ) (s : Kernel)
    → let t = create_usermode_task task thread stack memory leave s in
      (runs t thread ≡ true)
      × ((x : ℕ) → x ≢ thread → t.threads x ≡ s.threads x)
      × (t.idle_thread ≡ s.idle_thread)
unfolding create_usermode_task add_task new_task
create_usermode_task_threads task thread stack memory leave s =
    let (p, q) =
      create_thread_threads thread stack task virtual_memory_start user_code_segment
        user_data_segment (usermode_stack + 4096) leave (new_task task memory s) in
    let v =
      create_thread-SameVariables thread stack task virtual_memory_start user_code_segment
        user_data_segment (usermode_stack + 4096) leave (new_task task memory s) in
    let t =
      create_usermode_thread thread stack task virtual_memory_start (usermode_stack + 4096) leave
        (new_task task memory s) in
    elim (Bool-cases (t.current_task == 0)) [
      | inl e ↦ rw (e, p) (refl, q, v.idle_thread)
      | inr e ↦ rw (e, p) (refl, q, v.idle_thread)
    ]

-- Where the circular lists hold a rota, and the new task and thread are not NULL and not in it,
-- `create_usermode_task` puts the task before the one that the rota has last, with the thread
-- alone in its queue. The other queues stay as they are.
pub create_usermode_task_lem :
    (task thread stack memory leave : ℕ) (s : Kernel) (r : Rota)
    → Represents s r
    → task ≢ 0
    → thread ≢ 0
    → has task r.tasks ≡ false
    → IsNew thread r
    → Represents
        (create_usermode_task task thread stack memory leave s)
        (record { tasks = before_last task r.tasks; threads = set_at task (thread ∷ []) r.threads })
unfolding create_usermode_task created
create_usermode_task_lem task thread stack memory leave s r v z y n k =
    let t = created task thread stack memory leave s in
    let w = created-Represents task thread stack memory leave s r v y n k in
    add_task_lem task (thread ∷ []) (set_main_thread task thread t) r
      (record {
        before = w.before;
        split = w.split;
        ring = w.ring;
        threads = λ x h. set_main_thread-ThreadsOf task thread x t (r.threads x) (w.threads x h);
      })
      z n
      (set_main_thread-ThreadsOf task thread task t (thread ∷ []) (
        create_thread-first thread stack task virtual_memory_start user_code_segment
          user_data_segment (usermode_stack + 4096) leave (new_task task memory s) y
          (new_task-threads task thread stack memory leave s)))
