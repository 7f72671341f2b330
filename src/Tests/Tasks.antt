-- ===== src/Tests/Tasks.antt =====
-- The lists of kernel/include/ds.h and the threads of kernel/core/task.c, with objects at small addresses.
use lasagne.Base.{ℕ, ◌<◌, refl, arith, [], ◌∷◌}
use lasagne.Ds.{Nodes}
use lasagne.Task.{Kernel, idle, create_thread, create_usermode_task, set_at}
use lasagne.Syscall.{set_syscall_type, syscall_by_interrupt, syscall_int_handler}
use lasagne.Syscall.Yield.{Yielded, syscall_int_handler_lem}
use lasagne.Task.Order.{Rota, turn}
use lasagne.Task.Schedule.{runs}
use lasagne.Task.Represents.{Represents}
use lasagne.Task.Preempt.{Turned, preempt_lem}
use lasagne.Task.Create.{before_last}
use lasagne.Task.Added.{add_to_rota, create_thread_lem}
use lasagne.Task.Usermode.{create_usermode_task_lem}
use lasagne.Task.Boot.{Objects, init_kernel_task, initialize_tasks}
use lasagne.Task.Boot.Started.{AreDistinct, started_rota, init_kernel_task_lem}
use lasagne.Task.Boot.Turns.{initialize_tasks_lem, IsStarted-IsScheduled, started_turns}
use lasagne.Task.Fair.{HasTurn}

abbrev no_nodes : Nodes
no_nodes = λ n. record { prev = 0; next = 0 }

abbrev pub blank : Kernel
blank = record {
  current_thread = 0;
  current_task = 0;
  idle_thread = 0;
  next_pid = 1;
  next_tid = 1;
  rsp0 = 0;
  gs_base = 0;
  address_space = 0;
  threads = λ n. record {
    user_rsp = 0;
    stack_top = 0;
    syscall_type = 0;
    tid = 0;
    rsp = 0;
    state = idle;
    task = 0;
  };
  thread_links = no_nodes;
  tasks = λ n. record { pid = 0; memory = 0; main_thread = 0; threads = 0 };
  task_links = no_nodes;
  memory = λ a. 0;
}

abbrev pub objects : Objects
objects = record {
  kernel_task = 100;
  kernel_main_thread = 1;
  idle = 2;
  idle_stack = 10000;
  other = 3;
  other_stack = 20000;
  task1 = 101;
  thread1 = 4;
  stack1 = 30000;
  memory1 = 4096;
  task2 = 102;
  thread2 = 5;
  stack2 = 40000;
  memory2 = 8192;
  idle_thread = 50;
  do_sth = 60;
  leave = 70;
}

pub distinct : AreDistinct objects
distinct = record {
  threads = (refl, (refl, (refl, (refl, (refl, tt)))));
  threads_pointers = refl;
  tasks = (refl, (refl, (refl, tt)));
  tasks_pointers = refl;
}

preempt_example :
    let s = initialize_tasks objects blank in
    let (x, q) =
      turn (runs s) s.idle_thread (s.threads s.idle_thread).task (started_rota objects distinct) in
    Turned s 3 x q
preempt_example =
    let s = initialize_tasks objects blank in
    let v =
      IsStarted-IsScheduled objects distinct blank s 3 (omega arith)
        (initialize_tasks_lem objects distinct blank refl refl) in
    preempt_lem 3 s (started_rota objects distinct) v.represents v.fits v.idle

abbrev kernel_rota : Rota
kernel_rota = record { tasks = 100 ∷ []; threads = λ t. 2 ∷ 1 ∷ [] }

create_thread_example :
    Represents
      (create_thread 9 50000 100 60 8 16 0 70 (init_kernel_task objects blank))
      (add_to_rota 100 9 kernel_rota)
create_thread_example =
    create_thread_lem 9 50000 100 60 8 16 0 70 (init_kernel_task objects blank) kernel_rota
      (init_kernel_task_lem objects distinct blank refl refl) refl (omega arith) (λ t h. refl)

create_usermode_task_example :
    Represents (create_usermode_task 103 9 50000 4096 70 (init_kernel_task objects blank)) (record {
      tasks = before_last 103 kernel_rota.tasks;
      threads = set_at 103 (9 ∷ []) kernel_rota.threads;
    })
create_usermode_task_example =
    create_usermode_task_lem 103 9 50000 4096 70 (init_kernel_task objects blank) kernel_rota
      (init_kernel_task_lem objects distinct blank refl refl) (omega arith) (omega arith) refl
      (λ t h. refl)

syscall_int_handler_example :
    let t = set_syscall_type syscall_by_interrupt (initialize_tasks objects blank) in
    let (x, q) =
      turn (runs t) t.idle_thread (t.threads t.idle_thread).task (started_rota objects distinct) in
    Yielded t x q 7 (syscall_int_handler 3 0 7 (initialize_tasks objects blank))
syscall_int_handler_example =
    let s = initialize_tasks objects blank in
    syscall_int_handler_lem 3 7 s (started_rota objects distinct) (
      IsStarted-IsScheduled objects distinct blank s 3 (omega arith)
        (initialize_tasks_lem objects distinct blank refl refl))

started_turns_example : (n : ℕ) × (n < 9) × HasTurn (initialize_tasks objects blank) 3 n 4
started_turns_example = started_turns objects distinct blank 3 4 (omega arith) refl refl refl
