-- ===== src/Task.antt =====
-- kernel/core/task.c and kernel/include/task.h: threads, and the scheduler. The links of the list nodes are
-- apart from the other fields. Addresses of new objects, which `kalloc` returns, and of assembly code are
-- parameters. The memory is a function of the address of a 64-bit word.
pub mod Stack
pub mod Space
pub mod Order
pub mod Create
pub mod Added
pub mod Usermode
pub mod Schedule
pub mod Represents
pub mod Preempt
pub mod Nearer
pub mod Fair
pub mod Boot
use lasagne.Base.{
  ℕ, zero, suc, ◌+◌, ◌-◌, ◌*◌, ◌%◌, ◌^◌, Bool, true, false, Option, none, some, List, [], ◌∷◌, ◌++◌,
  replicate, ◌==◌, if◌then◌else◌,
}
use lasagne.Ds.{Nodes, clist_add}

abbrev pub Memory : Type 0
Memory = ℕ → ℕ

pub data ThreadState : Type 0 where
  running waiting idle : ThreadState

abbrev pub is_running : ThreadState → Bool
is_running running = true
is_running s = false

pub record Thread : Type 0 where
  pub user_rsp : ℕ
  pub stack_top : ℕ
  pub syscall_type : ℕ
  pub tid : ℕ
  pub rsp : ℕ
  pub state : ThreadState
  pub task : ℕ

-- A task without its name, which nothing reads.
pub record Task : Type 0 where
  pub pid : ℕ
  pub memory : ℕ
  pub main_thread : ℕ
  pub threads : ℕ

-- The variables of the file, the registers that it writes, and the objects. `address_space` is the first entry of the
-- top page table.
pub record Kernel : Type 0 where
  pub current_thread : ℕ
  pub current_task : ℕ
  pub idle_thread : ℕ
  pub next_pid : ℕ
  pub next_tid : ℕ
  pub rsp0 : ℕ
  pub gs_base : ℕ
  pub address_space : ℕ
  pub threads : ℕ → Thread
  pub thread_links : Nodes
  pub tasks : ℕ → Task
  pub task_links : Nodes
  pub memory : Memory

-- `thread->rsp`, and the memory.
pub record Pushed : Type 0 where
  pub rsp : ℕ
  pub memory : Memory

abbrev pub stack_size : ℕ
stack_size = 8192

-- RFLAGS_IF
abbrev pub rflags_if : ℕ
rflags_if = 512

-- `*(--thread->rsp) = value;`
abbrev pub push : ℕ → Pushed → Pushed
push value t =
    let rsp = (t.rsp + 2 ^ 64 - 8) % 2 ^ 64 in
    record { rsp = rsp; memory = λ a. if a == rsp then value else t.memory a }

pub push_all : List ℕ → Pushed → Pushed
push_all [] t = t
push_all (w ∷ ws) t = push_all ws (push w t)

-- The words that `create_thread` pushes, in its order.
abbrev pub initial_words : (stack main cs ss usermode_stack leave : ℕ) → List ℕ
initial_words stack main cs ss usermode_stack leave =
    ss
    ∷ (if usermode_stack == 0 then stack + stack_size else usermode_stack)
    ∷ rflags_if
    ∷ cs
    ∷ main
    ∷ 0
    ∷ (replicate 15 0 ++ (leave ∷ 0 ∷ []))

pub initial_stack : (stack main cs ss usermode_stack leave : ℕ) → Memory → Pushed
initial_stack stack main cs ss usermode_stack leave memory =
    push_all (initial_words stack main cs ss usermode_stack leave)
      (record { rsp = (stack + stack_size) % 2 ^ 64; memory = memory })

abbrev pub set_at {ℓ} : {A : Type ℓ} → ℕ → A → (ℕ → A) → ℕ → A
set_at i v f = λ j. if j == i then v else f j

abbrev pub set_threads : (task head : ℕ) → Kernel → Kernel
set_threads task head s = record s {
  tasks = set_at task (record (s.tasks task) { threads = head }) s.tasks;
}

-- `CLIST_ADD` to a copy of `task->threads`, or to `task->threads` where that is NULL.
pub add_thread : (task thread : ℕ) → Kernel → Kernel
add_thread task thread s =
    let head = (s.tasks task).threads in
    let (list, links) = clist_add head thread s.thread_links in
    let t = record s { thread_links = links } in if head == 0 then set_threads task list t else t

-- The fields of a new thread and the words on its stack, with the objects `thread` and `stack`.
pub new_thread : (thread stack task main cs ss usermode_stack leave : ℕ) → Kernel → Kernel
new_thread thread stack task main cs ss usermode_stack leave s =
    let pushed = initial_stack stack main cs ss usermode_stack leave s.memory in
    record s {
      memory = pushed.memory;
      next_tid = (s.next_tid + 1) % 2 ^ 64;
      threads =
          set_at thread
            (record (s.threads thread) {
              rsp = pushed.rsp;
              stack_top = (stack + stack_size) % 2 ^ 64;
              state = running;
              task = task;
              tid = s.next_tid;
            })
            s.threads;
    }

pub create_thread : (thread stack task main cs ss usermode_stack leave : ℕ) → Kernel → Kernel
create_thread thread stack task main cs ss usermode_stack leave s =
    add_thread task thread (new_thread thread stack task main cs ss usermode_stack leave s)

-- CODE_SEGMENT and the other selectors.
abbrev pub code_segment : ℕ
code_segment = 8

abbrev pub data_segment : ℕ
data_segment = 16

abbrev pub user_data_segment : ℕ
user_data_segment = 27

abbrev pub user_code_segment : ℕ
user_code_segment = 35

abbrev pub create_kernel_thread : (thread stack task main leave : ℕ) → Kernel → Kernel
create_kernel_thread thread stack task main leave =
    create_thread thread stack task main code_segment data_segment 0 leave

abbrev pub create_usermode_thread :
    (thread stack task main usermode_stack leave : ℕ) → Kernel → Kernel
create_usermode_thread thread stack task main usermode_stack leave =
    create_thread thread stack task main user_code_segment user_data_segment usermode_stack leave

-- `CLIST_ADD` to a copy of `current_task`, or to `current_task` if it is NULL.
pub add_task : ℕ → Kernel → Kernel
add_task task s =
    let (list, links) = clist_add s.current_task task s.task_links in
    let t = record s { task_links = links } in
    if s.current_task == 0 then record t { current_task = list } else t

-- The fields of a new task; `memory` is the first entry of the top page table that its pages were mapped through.
pub new_task : (task memory : ℕ) → Kernel → Kernel
new_task task memory s = record s {
  address_space = memory;
  task_links = set_at task (record { prev = 0; next = 0 }) s.task_links;
  next_pid = (s.next_pid + 1) % 2 ^ 64;
  tasks =
      set_at task
        (record {
          pid = s.next_pid;
          memory = memory;
          main_thread = (s.tasks task).main_thread;
          threads = 0;
        })
        s.tasks;
}

abbrev pub virtual_memory_start : ℕ
virtual_memory_start = 1024 * 1024

abbrev pub usermode_stack : ℕ
usermode_stack = 2 * 1024 * 1024

abbrev pub set_main_thread : (task thread : ℕ) → Kernel → Kernel
set_main_thread task thread s = record s {
  tasks = set_at task (record (s.tasks task) { main_thread = thread }) s.tasks;
}

-- `create_usermode_task`, once its pages are mapped and filled.
pub create_usermode_task : (task thread stack memory leave : ℕ) → Kernel → Kernel
create_usermode_task task thread stack memory leave s = add_task task (
    set_main_thread task thread (
      create_usermode_thread thread stack task virtual_memory_start (usermode_stack + 4096) leave
        (new_task task memory s)))

-- The inner loop of `schedule`: the next runnable thread of the task, if there is one before the pointer has
-- come back to `first`. The outer `none` stands for rounds that are still to do.
pub find_thread : (fuel task first : ℕ) → Kernel → Option (Option ℕ × Kernel)
find_thread zero task first s = none
find_thread (suc fuel) task first s =
    let thread = (s.thread_links (s.tasks task).threads).next in
    let t = set_threads task thread s in
    elim (is_running ((s.threads thread).state)) [
      | true ↦ some (some thread, t)
      | false ↦ elim (thread == first) [
        | true ↦ some (none, t)
        | false ↦ find_thread fuel task first t
      ]
    ]

-- The outer loop, from the task before the first one that it looks at.
pub find_task : (fuel rounds task old : ℕ) → Kernel → Option (ℕ × Kernel)
find_task fuel zero task old s = none
find_task fuel (suc rounds) task old s =
    let new = (s.task_links task).next in
    elim (find_thread fuel new (s.tasks new).threads s) [
      | none ↦ none
      | some (some thread, t) ↦ some (thread, t)
      | some (none, t) ↦ elim (new == old) [
        | true ↦ some (t.idle_thread, t)
        | false ↦ find_task fuel rounds new old t
      ]
    ]

-- With `fuel` rounds for each loop.
pub schedule : ℕ → Kernel → Option (ℕ × Kernel)
schedule fuel s = find_task fuel fuel s.current_task s.current_task s

pub switch_environment : (old new : ℕ) → Kernel → Kernel
switch_environment old new s =
    let memory = (s.tasks (s.threads new).task).memory in
    if old == new then s else record s {
      gs_base = new;
      address_space = if memory == 0 then s.address_space else memory;
      rsp0 = (s.threads new).stack_top;
    }

-- `preempt_int` and `preempt_syscall`, up to the switch of the stacks, which is assembly code.
pub preempt : ℕ → Kernel → Option Kernel
unfolding schedule switch_environment
preempt fuel s = elim (schedule fuel s) [
  | none ↦ none
  | some (thread, t) ↦ some (
      switch_environment s.current_thread thread
        (record t { current_thread = thread; current_task = (t.threads thread).task }))
]

pub get_current_task_pid : Kernel → ℕ
get_current_task_pid s = (s.tasks (s.threads s.current_thread).task).pid
