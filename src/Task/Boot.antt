-- ===== src/Task/Boot.antt =====
-- The first tasks: the `__init` functions of kernel/core/task.c. Addresses of static objects and of new ones are
-- parameters.
pub mod Started
pub mod Turns
use lasagne.Base.{ℕ, zero, suc, ◌+◌, ◌*◌, ◌/◌, ◌%◌, ◌^◌, ◌==◌, if◌then◌else◌}
use lasagne.Ds.{clist_add}
use lasagne.Task.{
  ThreadState, running, waiting, Thread, Task, Kernel, set_at, set_threads, set_main_thread,
  create_kernel_thread, create_usermode_task,
}

-- struct tss_descriptor
pub record TssDescriptor : Type 0 where
  pub limit15_0 : ℕ
  pub base_addr23_0 : ℕ
  pub type : ℕ
  pub present : ℕ
  pub limit19_16 : ℕ
  pub avl : ℕ
  pub base31_24 : ℕ
  pub base63_32 : ℕ
  pub zero : ℕ

-- `sizeof tss`, a packed structure.
abbrev pub sizeof_tss : ℕ
sizeof_tss = 4 + 3 * 8 + 8 + 7 * 8 + 8 + 2 + 2

-- TSS_AVAILABLE
abbrev pub tss_available : ℕ
tss_available = 9

pub setup_tss : (tss : ℕ) → TssDescriptor
setup_tss tss = record {
  limit15_0 = sizeof_tss;
  base_addr23_0 = tss % 2 ^ 24;
  type = tss_available;
  limit19_16 = 0;
  avl = 1;
  base31_24 = tss / 2 ^ 24 % 2 ^ 8;
  base63_32 = tss / 2 ^ 32 % 2 ^ 32;
  zero = 0;
  present = 1;
}

-- The objects: the static ones, the new ones in the order of their creation, and code.
pub record Objects : Type 0 where
  pub kernel_task : ℕ
  pub kernel_main_thread : ℕ
  pub idle : ℕ
  pub idle_stack : ℕ
  pub other : ℕ
  pub other_stack : ℕ
  pub task1 : ℕ
  pub thread1 : ℕ
  pub stack1 : ℕ
  pub memory1 : ℕ
  pub task2 : ℕ
  pub thread2 : ℕ
  pub stack2 : ℕ
  pub memory2 : ℕ
  pub idle_thread : ℕ
  pub do_sth : ℕ
  pub leave : ℕ

pub init_kernel_main_thread : Objects → Kernel → Kernel
init_kernel_main_thread o s = record s {
  threads =
      set_at o.kernel_main_thread
        (record (s.threads o.kernel_main_thread) { tid = 0; state = running; task = o.kernel_task })
        s.threads;
}

pub init_kernel_idle_thread : Objects → Kernel → Kernel
init_kernel_idle_thread o s =
    let t = create_kernel_thread o.idle o.idle_stack o.kernel_task o.idle_thread o.leave s in
    record t {
      idle_thread = o.idle;
      threads = set_at o.idle (record (t.threads o.idle) { state = waiting }) t.threads;
    }

-- CLIST_ADD(task->threads, thread)
pub add_to_threads : (task thread : ℕ) → Kernel → Kernel
add_to_threads task thread s =
    let (list, links) = clist_add (s.tasks task).threads thread s.thread_links in
    set_threads task list (record s { thread_links = links })

-- CLIST_ADD(current_task, task)
pub add_to_current : (task : ℕ) → Kernel → Kernel
add_to_current task s =
    let (list, links) = clist_add s.current_task task s.task_links in
    record s { task_links = links; current_task = list }

pub init_kernel_task : Objects → Kernel → Kernel
init_kernel_task o s =
    let named = record s {
      tasks = set_at o.kernel_task (record (s.tasks o.kernel_task) { pid = 0; memory = 0 }) s.tasks;
    } in
    let t = init_kernel_idle_thread o (init_kernel_main_thread o named) in
    add_to_current o.kernel_task (
      add_to_threads o.kernel_task o.kernel_main_thread
        (set_main_thread o.kernel_task o.kernel_main_thread t))

pub initialize_tasks : Objects → Kernel → Kernel
initialize_tasks o s =
    let t = init_kernel_task o s in
    create_usermode_task o.task2 o.thread2 o.stack2 o.memory2 o.leave (
      create_usermode_task o.task1 o.thread1 o.stack1 o.memory1 o.leave (
        create_kernel_thread o.other o.other_stack o.kernel_task o.do_sth o.leave
          (record t { current_thread = (t.tasks o.kernel_task).main_thread })))
