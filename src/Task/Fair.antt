-- ===== src/Task/Fair.antt =====
-- The scheduler of kernel/core/task.c is fair.
use lasagne.Base.{
  ℕ, zero, suc, ◌*◌, ◌≤◌, ◌<◌, ◌≡◌, refl, sym, ◌∙◌, inl, inr, arith, true, Option, none, some,
  length,
}
use lasagne.Ds.Ring.{has}
use lasagne.Task.{Kernel, preempt}
use lasagne.Task.Order.{Rota, turn}
use lasagne.Task.Schedule.{runs}
use lasagne.Task.Represents.{Represents}
use lasagne.Task.Preempt.{Fits, Turned, preempt_lem}
use lasagne.Task.Nearer.{distance, distance-lt, SameMembers, turn-Advances}

-- So many preemptions, one after another.
unfoldable pub preempt_times : (n fuel : ℕ) → Kernel → Option Kernel
preempt_times zero fuel s = some s
preempt_times (suc n) fuel s = elim (preempt fuel s) [
  | none ↦ none
  | some t ↦ preempt_times n fuel t
]

-- The tasks and threads are in the rota, and the idle thread's task is one of them.
pub record IsScheduled (s : Kernel) (fuel : ℕ) (r : Rota) : Type 0 where
  pub represents : Represents s r
  pub fits : Fits fuel r
  pub idle : has (s.threads s.idle_thread).task r.tasks ≡ true

-- The thread has its turn after `n` more preemptions.
pub record HasTurn (s : Kernel) (fuel n x : ℕ) : Type 0 where
  pub after : Kernel
  pub returns : preempt_times (suc n) fuel s ≡ some after
  pub current : after.current_thread ≡ x

IsScheduled-Turned :
    (fuel : ℕ) (s : Kernel) (r : Rota) (y : ℕ) (q : Rota)
    → IsScheduled s fuel r
    → SameMembers r q
    → (w : Turned s fuel y q) → IsScheduled w.after fuel q
IsScheduled-Turned fuel s r y q v m w = record {
  represents = w.represents;
  fits = (rw m.number v.fits.0, λ t h. rw (m.numbers t) (v.fits.1 t (sym (m.tasks t) ∙ h)));
  idle = rw (w.switched.kept, w.switched.idle) (m.tasks _ ∙ v.idle);
}

fair_within :
    (bound fuel t x : ℕ) (s : Kernel) (r : Rota)
    → distance t x r < bound
    → IsScheduled s fuel r
    → has t r.tasks ≡ true
    → has x (r.threads t) ≡ true
    → runs s x ≡ true
    → (n : ℕ) × (n ≤ distance t x r) × HasTurn s fuel n x
unfolding preempt_times
fair_within zero fuel t x s r l v it ix p = absurd (omega arith)
fair_within (suc bound) fuel t x s r l v it ix p =
    let idle_task = (s.threads s.idle_thread).task in
    let (y, q) = turn (runs s) s.idle_thread idle_task r in
    let w = preempt_lem fuel s r v.represents v.fits v.idle in
    let a = turn-Advances (runs s) t x r p it ix s.idle_thread idle_task in
    elim (a.nearer) [
      | inl e ↦ (
        0,
        omega arith,
        record {
          after = w.after;
          returns = rw (preempt_times, w.returns) refl;
          current = w.switched.current ∙ e;
        },
      )
      | inr g ↦
          let (n, h, k) =
            fair_within bound fuel t x w.after _ (omega (arith, g))
              (IsScheduled-Turned fuel s r _ _ v a.members w) (a.members.tasks t ∙ it)
              (a.members.threads t x ∙ ix) (rw w.switched.kept p) in
          (
            suc n,
            omega (arith, g),
            record {
              after = k.after;
              returns = rw (preempt_times, w.returns) k.returns;
              current = k.current;
            },
          )
    ]

-- In a state whose circular lists hold a rota that has the idle thread's task, with rounds enough
-- for the lists, preemptions come one after another with nothing between them. Then a thread of
-- the rota that runs has its turn within so many: the number of its task's threads times the
-- number of tasks.
pub fair_lem :
    (fuel t x : ℕ) (s : Kernel) (r : Rota)
    → IsScheduled s fuel r
    → has t r.tasks ≡ true
    → has x (r.threads t) ≡ true
    → runs s x ≡ true
    → (n : ℕ) × (n < length (r.threads t) * length r.tasks) × HasTurn s fuel n x
fair_lem fuel t x s r v it ix p =
    let (n, h, k) = fair_within (suc (distance t x r)) fuel t x s r (omega arith) v it ix p in
    (n, omega (arith, distance-lt t x r it ix), k)
