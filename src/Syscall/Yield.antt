-- ===== src/Syscall/Yield.antt =====
-- The system call to yield in kernel/core/syscall.c gives the turn to the next thread.
use lasagne.Base.{ℕ, ◌≡◌, refl, ◌∙◌, arith, inl, inr, Option, some, ◌==◌, Bool-cases, ==_refl}
use lasagne.Task.{Kernel}
use lasagne.Task.Order.{Rota, turn}
use lasagne.Task.Schedule.{runs}
use lasagne.Task.Represents.{Represents}
use lasagne.Task.Preempt.{IsSwitched, preempt_lem}
use lasagne.Task.Fair.{IsScheduled}
use lasagne.Syscall.{set_syscall_type, syscall_by_interrupt, sys_yield, syscall_int_handler}

same_task :
    (s : Kernel) (type x : ℕ) → ((set_syscall_type type s).threads x).task ≡ (s.threads x).task
same_task s type x = elim (Bool-cases (x == s.current_thread)) [
  | inl e ↦ let q : x ≡ s.current_thread = ground arith in rw (q, ==_refl s.current_thread) refl
  | inr e ↦ rw e refl
]

typed-Represents :
    (s : Kernel) (type : ℕ) (r : Rota) → Represents s r → Represents (set_syscall_type type s) r
typed-Represents s type r v = record {
  before = v.before;
  split = v.split;
  ring = v.ring;
  threads = λ t h.
      let w = v.threads t h in
      record {
        before = w.before;
        split = w.split;
        ring = w.ring;
        owned = λ x k. same_task s type x ∙ w.owned x k;
      };
}

-- What the call returns: the thread `x` has its turn, and the state has the rota `q`.
pub record Yielded (s : Kernel) (x : ℕ) (q : Rota) (result : ℕ) (outcome : Option (ℕ × Kernel))
    : Type 0 where
  pub after : Kernel
  pub returns : outcome ≡ some (result, after)
  pub switched : IsSwitched s x after
  pub represents : Represents after q

-- In a state whose circular lists hold a rota that has the idle thread's task, with rounds enough
-- for the lists, the system call 0 made by interrupt notes that kind of call, switches to the
-- thread that is next in the rota, and leaves the lists with the rota turned.
pub syscall_int_handler_lem :
    (fuel result : ℕ) (s : Kernel) (r : Rota)
    → IsScheduled s fuel r
    → let t = set_syscall_type syscall_by_interrupt s in
      let (x, q) = turn (runs t) t.idle_thread (t.threads t.idle_thread).task r in
      Yielded t x q result (syscall_int_handler fuel 0 result s)
unfolding syscall_int_handler sys_yield
syscall_int_handler_lem fuel result s r v =
    let t = set_syscall_type syscall_by_interrupt s in
    let w =
      preempt_lem fuel t r (typed-Represents s syscall_by_interrupt r v.represents) v.fits
        (rw (same_task s syscall_by_interrupt s.idle_thread) v.idle) in
    record {
      after = w.after;
      returns = rw (syscall_int_handler, sys_yield, ==_refl s.current_thread, w.returns) refl;
      switched = w.switched;
      represents = w.represents;
    }
