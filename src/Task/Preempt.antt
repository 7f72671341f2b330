-- ===== src/Task/Preempt.antt =====
-- Preemption in kernel/core/task.c: a step of the two-level round robin of tasks and their threads.

use mathlib.Core.List.{append_assoc}
use lasagne.Base.{
  ℕ, ◌≤◌, ◌≡◌, ◌≢◌, refl, sym, ◌∙◌, ap, inl, inr, arith, true, false, some, List, [], ◌∷◌, ◌++◌,
  length, length-append, ◌==◌, if◌then◌else◌, Bool-cases, ==_refl, ==_ne,
}
use lasagne.Ds.Ring.{has}
use lasagne.Ds.Rotate.{IsRing-rotate}
use lasagne.Task.{Thread, Kernel, set_threads, schedule, switch_environment, preempt}
use lasagne.Task.Order.{any, any-has, Rota, Sought, seek_lem, choose, turn}
use lasagne.Task.Schedule.{runs, pick, pick-none, pick-Sought, outcome, has_running, find_task_lem}
use lasagne.Task.Represents.{
  Represents-same, ThreadsOf-same, Represents, has-middle, has-rotate, turned_rota,
  Represents-chosen,
}

-- The state after a switch to the thread `x`: the registers are those of the thread, if it is another than before.
pub record IsSwitched (s : Kernel) (x : ℕ) (after : Kernel) : Type 0 where
  pub current : after.current_thread ≡ x
  pub idle : after.idle_thread ≡ s.idle_thread
  pub kept : after.threads ≡ s.threads
  pub registers :
      s.current_thread ≢ x → (after.gs_base ≡ x) × (after.rsp0 ≡ (s.threads x).stack_top)
  pub space :
      s.current_thread ≢ x
      → (s.tasks (s.threads x).task).memory ≢ 0
      → after.address_space ≡ (s.tasks (s.threads x).task).memory

-- `preempt` returns a state in which the thread `x` is switched to and that has the rota `q`.
pub record Turned (s : Kernel) (fuel x : ℕ) (q : Rota) : Type 0 where
  pub after : Kernel
  pub returns : preempt fuel s ≡ some after
  pub switched : IsSwitched s x after
  pub represents : Represents after q

abbrev pub Fits : ℕ → Rota → Type 0
Fits fuel r =
    (length r.tasks ≤ fuel) × ((t : ℕ) → has t r.tasks ≡ true → length (r.threads t) ≤ fuel)

schedule_lem :
    (fuel : ℕ) (s : Kernel) (r : Rota)
    → Represents s r
    → Fits fuel r
    → schedule fuel s ≡ outcome r.threads s (pick (has_running r.threads s) r.tasks)
unfolding schedule
schedule_lem fuel s r v (n, all) = rw v.split (
    find_task_lem fuel r.threads s.current_task s fuel s.current_task v.before v.ring.walk
      v.ring.distinct.0
      (omega (
        arith,
        ap (λ (xs : List ℕ). length xs) v.split,
        length-append v.before (s.current_task ∷ []),
      ))
      (λ t h. let m : has t r.tasks ≡ true = rw v.split h in (v.threads t m, all t m)))

-- The registers after a switch.
module _ (old new : ℕ) (s : Kernel) where
  switched-same : old ≡ new → switch_environment old new s ≡ s
  unfolding switch_environment
  switched-same e = let q : (old == new) ≡ true = ground arith in rw (switch_environment, q) refl

  environment : Kernel
  environment =
      let memory = (s.tasks (s.threads new).task).memory in
      record s {
        gs_base = new;
        address_space = if memory == 0 then s.address_space else memory;
        rsp0 = (s.threads new).stack_top;
      }

  switched-other : old ≢ new → switch_environment old new s ≡ environment
  unfolding switch_environment environment
  switched-other e = rw (switch_environment, ==_ne old new e) refl

  switched_current : (switch_environment old new s).current_thread ≡ s.current_thread
  unfolding environment
  switched_current = elim (Bool-cases (old == new)) [
    | inl p ↦ rw (switched-same (ground arith)) refl
    | inr p ↦ rw (switched-other (ground arith)) refl
  ]

  switched_idle : (switch_environment old new s).idle_thread ≡ s.idle_thread
  unfolding environment
  switched_idle = elim (Bool-cases (old == new)) [
    | inl p ↦ rw (switched-same (ground arith)) refl
    | inr p ↦ rw (switched-other (ground arith)) refl
  ]

  switched_threads : (switch_environment old new s).threads ≡ s.threads
  unfolding environment
  switched_threads = elim (Bool-cases (old == new)) [
    | inl p ↦ rw (switched-same (ground arith)) refl
    | inr p ↦ rw (switched-other (ground arith)) refl
  ]

  Represents-switched : (r : Rota) → Represents s r → Represents (switch_environment old new s) r
  unfolding environment
  Represents-switched r v = elim (Bool-cases (old == new)) [
    | inl p ↦ rw (switched-same (ground arith)) v
    | inr p ↦ rw (switched-other (ground arith)) (Represents-same s _ r refl refl refl refl refl v)
  ]

turned_lem :
    (fuel : ℕ) (s t : Kernel) (x : ℕ) (q : Rota)
    → schedule fuel s ≡ some (x, t)
    → t.threads ≡ s.threads
    → t.idle_thread ≡ s.idle_thread
    → ((u : ℕ) → (t.tasks u).memory ≡ (s.tasks u).memory)
    → Represents (record t { current_thread = x; current_task = (t.threads x).task }) q
    → Turned s fuel x q
unfolding preempt environment
turned_lem fuel s t x q e k i m v =
    let u = record t { current_thread = x; current_task = (t.threads x).task } in
    let p : (t.tasks (t.threads x).task).memory ≡ (s.tasks (s.threads x).task).memory =
      m (t.threads x).task ∙ ap (λ (f : ℕ → Thread). (s.tasks (f x).task).memory) k in
    record {
      after = switch_environment s.current_thread x u;
      returns = rw (preempt, e) refl;
      switched = record {
        current = switched_current s.current_thread x u;
        idle = switched_idle s.current_thread x u ∙ i;
        kept = switched_threads s.current_thread x u ∙ k;
        registers = λ ne.
            rw (switched-other s.current_thread x u ne)
              (refl, ap (λ (f : ℕ → Thread). (f x).stack_top) k);
        space = λ ne nz. rw (switched-other s.current_thread x u ne, p, ==_ne _ 0 nz) refl;
      };
      represents = Represents-switched s.current_thread x u q v;
    }

module _ (fuel : ℕ) (s : Kernel) (r : Rota) (v : Represents s r) (f : Fits fuel r) where
  -- Where a task has a thread that runs.
  Turned-chosen :
      (w : Sought (has_running r.threads s) [] r.tasks) (z : Sought (runs s) [] (r.threads w.found))
      → Turned s fuel z.found (
          turned_rota r w.found
            (w.post ++ (w.pre ++ (w.found ∷ [])))
            (z.post ++ (z.pre ++ (z.found ∷ []))))
  Turned-chosen w z =
      let member : has w.found r.tasks ≡ true = rw w.split (has-middle w.found w.pre w.post) in
      let owner : (s.threads z.found).task ≡ w.found =
        (v.threads w.found member).owned z.found (rw z.split (has-middle z.found z.pre z.post)) in
      turned_lem fuel s (set_threads w.found z.found s) z.found _
        (schedule_lem fuel s r v f
          ∙ rw
              (
                pick-Sought (has_running r.threads s) r.tasks w,
                outcome,
                pick-Sought (runs s) (r.threads w.found) z,
              )
              refl)
        refl refl (λ u. ground arith)
        (rw owner
          (Represents-chosen s r w.found z.found w.pre w.post z.pre z.post v w.split z.split))

  Turned-idle :
      any (has_running r.threads s) r.tasks ≡ false
      → (w : Sought (λ t. t == (s.threads s.idle_thread).task) [] r.tasks)
      → Turned s fuel s.idle_thread (record r { tasks = w.post ++ (w.pre ++ (w.found ∷ [])) })
  Turned-idle a w =
      let q : w.found ≡ (s.threads s.idle_thread).task = ground (arith, w.passes) in
      turned_lem fuel s s s.idle_thread _
        (schedule_lem fuel s r v f ∙ rw (pick-none (has_running r.threads s) r.tasks a) refl) refl
        refl (λ u. refl)
        (rw (sym q) (record {
          before = w.post ++ w.pre;
          split = sym (append_assoc w.post w.pre (w.found ∷ []));
          ring =
              IsRing-rotate s.task_links _ v.before w.pre w.found w.post v.ring
                (sym v.split ∙ w.split);
          threads = λ u h.
              ThreadsOf-same s _ u (r.threads u) refl refl refl
                (v.threads u (rw w.split (sym (has-rotate u w.found w.pre w.post) ∙ h)));
        }))

  -- In a state whose circular lists hold a rota that has the idle thread's task, a preemption with
  -- rounds enough for the lists returns, and is a step of the rota: it switches to the thread that
  -- is next there, or to the idle thread where none runs, and the lists of the state after it hold
  -- the rota turned.
  pub preempt_lem :
      has (s.threads s.idle_thread).task r.tasks ≡ true
      → let (x, q) = turn (runs s) s.idle_thread (s.threads s.idle_thread).task r in
        Turned s fuel x q
  unfolding turn choose
  preempt_lem i = elim (seek_lem (has_running r.threads s) [] r.tasks) [
    | inl (e, a) ↦ elim (seek_lem (λ t. t == (s.threads s.idle_thread).task) [] r.tasks) [
      | inl (_, b) ↦
          absurd
            (cc (b, any-has (λ t. t == (s.threads s.idle_thread).task) _ r.tasks (==_refl _) i))
      | inr w ↦ rw (turn, choose, e, w.returns) (Turned-idle a w)
    ]
    | inr w ↦ elim (seek_lem (runs s) [] (r.threads w.found)) [
      | inl (_, a) ↦ absurd (cc (a, w.passes))
      | inr z ↦ rw (turn, choose, w.returns, z.returns) (Turned-chosen w z)
    ]
  ]
