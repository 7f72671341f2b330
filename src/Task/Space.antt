-- ===== src/Task/Space.antt =====
-- The address space of a new task in `create_usermode_task` of kernel/core/task.c, on the page tables of Pages. The content
-- of the pages is not part of that state: what is seen of the copied code is the fault of its first write, since
-- the page is lazy. `none` is a machine that halts.
use lasagne.Base.{ℕ, ◌+◌, true, false, Option, none, some}
use lasagne.Pages.{FrameSource, Paging, ptes, write, map_rw, map_exe, map_user}
use lasagne.Pages.Range.{map_range, page_fault_handler}
use lasagne.Task.{virtual_memory_start, usermode_stack}

unfoldable pub get_address_space_ptr : (entries : ℕ → ℕ) → ℕ
get_address_space_ptr entries = (ptes 0 entries).entry0

unfoldable pub new_address_space : {F : Type 0} → Paging F → Paging F
unfolding get_address_space_ptr
new_address_space s = record s { entries = write (get_address_space_ptr s.entries) 0 s.entries }

-- The write to a page that is present, by the kernel.
unfoldable pub first_write :
    {F : Type 0} → FrameSource F → (addr : ℕ) → Paging F → Option (Paging F)
first_write g addr s = elim (page_fault_handler g addr 3 s) [
  | none ↦ none
  | some (handled, t) ↦ elim handled [ true ↦ some t | false ↦ none ]
]

-- What `create_usermode_task` does first, and `task->memory`.
unfoldable pub map_usermode_pages : {F : Type 0} → FrameSource F → Paging F → Option (ℕ × Paging F)
unfolding new_address_space first_write get_address_space_ptr
map_usermode_pages g s =
    let flags = map_rw + map_exe + map_user in
    elim (map_range g virtual_memory_start 4096 flags (new_address_space s)) [
      | none ↦ none
      | some s1 ↦ elim (first_write g virtual_memory_start s1) [
        | none ↦ none
        | some s2 ↦ elim (map_range g usermode_stack 4096 flags s2) [
          | none ↦ none
          | some s3 ↦ some (s3.entries (get_address_space_ptr s3.entries), s3)
        ]
      ]
    ]
