-- ===== src/Ds.antt =====
-- kernel/include/ds.h: the macros for linked lists. The `prev` and `next` of all nodes of a kind are a
-- function of the node's address, and NULL is 0. A macro assigns to its argument `list`, a variable
-- that is no field of a node: its new value is returned.
pub mod Ring
pub mod Rotate
pub mod Frame
use lasagne.Base.{ℕ, Bool, true, false, ◌&&◌, ◌==◌, if◌then◌else◌}

pub record Links : Type 0 where
  pub prev : ℕ
  pub next : ℕ

abbrev pub Nodes : Type 0
Nodes = ℕ → Links

abbrev pub set_prev : ℕ → ℕ → Nodes → Nodes
set_prev node p h = λ n. if n == node then record { prev = p; next = (h n).next } else h n

abbrev pub set_next : ℕ → ℕ → Nodes → Nodes
set_next node x h = λ n. if n == node then record { prev = (h n).prev; next = x } else h n

-- LIST_ADD
pub list_add : (list value : ℕ) → Nodes → ℕ × Nodes
list_add list value h =
    let added : Nodes =
      if list == 0
      then set_prev value 0 h
      else (let first = set_prev value (h list).prev h in
          let second =
            if (first list).prev == 0 then first else set_next (first list).prev value first in
          set_prev list value second) in
    (value, set_next value list added)

-- CLIST_ADD
pub clist_add : (list value : ℕ) → Nodes → ℕ × Nodes
unfolding list_add
clist_add list value h =
    let (l, g) = list_add list value h in
    (
      l,
      if (g value).next == 0 && (g value).prev == 0
          then set_prev value value (set_next value value g)
          else g,
    )

-- LIST_REMOVE
unfoldable pub list_remove : ℕ → Nodes → Nodes
list_remove value h =
    let first = if (h value).next == 0 then h else set_prev (h value).next (h value).prev h in
    if (first value).prev == 0 then first else set_next (first value).prev (first value).next first
