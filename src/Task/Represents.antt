-- ===== src/Task/Represents.antt =====
-- The queues that the circular lists of kernel/core/task.c hold.

use mathlib.Core.List.{append_assoc}
use lasagne.Base.{
  ℕ, ◌≡◌, ap, ◌≢◌, refl, sym, ◌∙◌, inl, inr, arith, true, List, [], ◌∷◌, ◌++◌, ◌==◌, Bool-cases,
  ==_refl, ==_ne,
}
use lasagne.Ds.Ring.{has, has-append, IsRing}
use lasagne.Ds.Rotate.{IsRing-rotate}
use lasagne.Task.{Kernel, Task, set_at, set_threads}
use lasagne.Task.Order.{Rota}
use lasagne.Task.Schedule.{ThreadsOf}

-- The rota has the tasks and threads of the kernel's circular lists, the current task last.
pub record Represents (s : Kernel) (r : Rota) : Type 0 where
  pub before : List ℕ
  pub split : r.tasks ≡ before ++ (s.current_task ∷ [])
  pub ring : IsRing s.task_links s.current_task before
  pub threads : (t : ℕ) → has t r.tasks ≡ true → ThreadsOf s t (r.threads t)

-- The threads of a task are in the same list where the links, the pointer and the owners are the same.
pub ThreadsOf-same :
    (s t : Kernel) (x : ℕ) (order : List ℕ)
    → t.thread_links ≡ s.thread_links
    → t.threads ≡ s.threads
    → (t.tasks x).threads ≡ (s.tasks x).threads
    → ThreadsOf s x order
    → ThreadsOf t x order
ThreadsOf-same s t x order l f p w = record {
  before = w.before;
  split = rw p w.split;
  ring = rw (p, l) w.ring;
  owned = rw f w.owned;
}

-- The state has the same rota where the lists, the pointers and the owners are the same.
pub Represents-same :
    (s t : Kernel) (r : Rota)
    → t.task_links ≡ s.task_links
    → t.current_task ≡ s.current_task
    → t.thread_links ≡ s.thread_links
    → t.threads ≡ s.threads
    → t.tasks ≡ s.tasks
    → Represents s r
    → Represents t r
Represents-same s t r l c k f a v = record {
  before = v.before;
  split = rw c v.split;
  ring = rw (c, l) v.ring;
  threads = λ x h.
      ThreadsOf-same s t x (r.threads x) k f (ap (λ (g : ℕ → Task). (g x).threads) a)
        (v.threads x h);
}

pub has-middle : (x : ℕ) (pre post : List ℕ) → has x (pre ++ (x ∷ post)) ≡ true
has-middle x pre post = ground (arith, has-append x pre (x ∷ post))

-- The order rotated has the same nodes.
pub has-rotate :
    (y x : ℕ) (pre post : List ℕ) → has y (post ++ (pre ++ (x ∷ []))) ≡ has y (pre ++ (x ∷ post))
has-rotate y x pre post = ground (
  arith,
  has-append y post (pre ++ (x ∷ [])),
  has-append y pre (x ∷ []),
  has-append y pre (x ∷ post),
)

pub ThreadsOf-chosen :
    (s : Kernel) (t : ℕ) (order pre : List ℕ) (x : ℕ) (post : List ℕ)
    → ThreadsOf s t order
    → order ≡ pre ++ (x ∷ post)
    → ThreadsOf (set_threads t x s) t (post ++ (pre ++ (x ∷ [])))
ThreadsOf-chosen s t order pre x post v e =
    let at : ((set_threads t x s).tasks t).threads ≡ x = rw (==_refl t) refl in
    let turned : IsRing s.thread_links x (post ++ pre) =
      IsRing-rotate s.thread_links _ v.before pre x post v.ring (sym v.split ∙ e) in
    record {
      before = post ++ pre;
      split = rw at (sym (append_assoc post pre (x ∷ [])));
      ring = rw at turned;
      owned = λ y h. v.owned y (rw e (sym (has-rotate y x pre post) ∙ h));
    }

pub ThreadsOf-other :
    (s : Kernel) (t u x : ℕ) (order : List ℕ)
    → u ≢ t
    → ThreadsOf s u order
    → ThreadsOf (set_threads t x s) u order
ThreadsOf-other s t u x order ne v =
    let same : ((set_threads t x s).tasks u).threads ≡ (s.tasks u).threads =
      rw (==_ne u t ne) refl in
    record { before = v.before; split = rw same v.split; ring = rw same v.ring; owned = v.owned }

-- The rota after the thread `x` of the task `t` is chosen.
abbrev pub turned_rota : (r : Rota) (t : ℕ) (tasks order : List ℕ) → Rota
turned_rota r t tasks order = record { tasks = tasks; threads = set_at t order r.threads }

pub Represents-chosen :
    (s : Kernel) (r : Rota) (t x : ℕ) (pre post : List ℕ) (xpre xpost : List ℕ)
    → Represents s r
    → r.tasks ≡ pre ++ (t ∷ post)
    → r.threads t ≡ xpre ++ (x ∷ xpost)
    → Represents
        (record (set_threads t x s) { current_thread = x; current_task = t })
        (turned_rota r t (post ++ (pre ++ (t ∷ []))) (xpost ++ (xpre ++ (x ∷ []))))
Represents-chosen s r t x pre post xpre xpost v e f =
    let member : has t r.tasks ≡ true = rw e (has-middle t pre post) in
    record {
      before = post ++ pre;
      split = sym (append_assoc post pre (t ∷ []));
      ring = IsRing-rotate s.task_links _ v.before pre t post v.ring (sym v.split ∙ e);
      threads = λ u h. elim (Bool-cases (u == t)) [
        | inl q ↦
            let p : u ≡ t = ground arith in
            let chosen = ThreadsOf-chosen s t (r.threads t) xpre x xpost (v.threads t member) f in
            rw (p, ==_refl t) (ThreadsOf-same (set_threads t x s) _ t _ refl refl refl chosen)
        | inr q ↦
            let ne : u ≢ t = ground arith in
            let kept =
              ThreadsOf-other s t u x (r.threads u) ne
                (v.threads u (rw e (sym (has-rotate u t pre post) ∙ h))) in
            rw q (ThreadsOf-same (set_threads t x s) _ u _ refl refl refl kept)
      ];
    }
