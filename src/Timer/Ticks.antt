-- ===== src/Timer/Ticks.antt =====
-- The interrupts of the timer of kernel/arch/x64/io/pit.c let each thread run.
use lasagne.Base.{
  ℕ, zero, suc, ◌+◌, ◌*◌, ◌%◌, ◌^◌, ◌<◌, ◌≡◌, refl, inl, inr, arith, true, Option, none, some, List,
  [], ◌++◌, length, replicate, Option-cases,
}
use lasagne.Irq.Start.{Io, irq_eoi}
use lasagne.Ds.Ring.{has}
use lasagne.Task.{Kernel, preempt}
use lasagne.Task.Order.{Rota}
use lasagne.Task.Schedule.{runs}
use lasagne.Task.Fair.{preempt_times, IsScheduled, HasTurn, fair_lem}
use lasagne.Timer.{Timer, pit_handler, get_tick_count}

-- So many interrupts of the timer, one after another: what is written to the ports, and the state.
pub interrupts : (n fuel : ℕ) → Timer → Option (List Io × Timer)
interrupts zero fuel t = some ([], t)
interrupts (suc n) fuel t = elim (pit_handler fuel t) [
  | none ↦ none
  | some (out, u) ↦ elim (interrupts n fuel u) [
    | none ↦ none
    | some (rest, v) ↦ some (out ++ rest, v)
  ]
]

-- Interrupts preempt as often as they come, count, and are acknowledged.
interrupts_lem :
    (n fuel ticks : ℕ) (s k : Kernel)
    → ticks < 2 ^ 64
    → preempt_times n fuel s ≡ some k
    → interrupts n fuel (record { pit_ticks = ticks; kernel = s })
      ≡ some (replicate n irq_eoi, record { pit_ticks = (ticks + n) % 2 ^ 64; kernel = k })
unfolding interrupts preempt_times pit_handler
interrupts_lem zero fuel ticks s k h e = ground (arith, e)
interrupts_lem (suc n) fuel ticks s k h e = elim (Option-cases (preempt fuel s)) [
  | inl none' ↦ absurd (ground (arith, e, none'))
  | inr (t, q) ↦
      let rest =
        interrupts_lem n fuel ((ticks + 1) % 2 ^ 64) t k (omega arith)
          (rw (preempt_times, q) at e) in
      let count : ((ticks + 1) % 2 ^ 64 + n) % 2 ^ 64 ≡ (ticks + suc n) % 2 ^ 64 = omega arith in
      rw (interrupts, q, rest, count) refl
]

-- The thread runs after `n` more interrupts, which are counted and acknowledged.
pub record RunsAfter (t : Timer) (fuel n x : ℕ) : Type 0 where
  pub after : Timer
  pub returns : interrupts n fuel t ≡ some (replicate n irq_eoi, after)
  pub current : after.kernel.current_thread ≡ x
  pub ticks : get_tick_count after ≡ (get_tick_count t + n) % 2 ^ 64

pub HasTurn-RunsAfter :
    (fuel n x : ℕ) (t : Timer)
    → t.pit_ticks < 2 ^ 64
    → HasTurn t.kernel fuel n x
    → RunsAfter t fuel (suc n) x
unfolding get_tick_count
HasTurn-RunsAfter fuel n x t bound k = record {
  after = record { pit_ticks = (t.pit_ticks + suc n) % 2 ^ 64; kernel = k.after };
  returns = interrupts_lem (suc n) fuel t.pit_ticks t.kernel k.after bound k.returns;
  current = k.current;
  ticks = refl;
}

-- In a state whose circular lists hold a rota that has the idle thread's task, with rounds enough for the lists, a
-- thread of the rota that runs has its turn within so many interrupts of the timer, where nothing else preempts: the
-- number of its task's threads times the number of tasks. Each of them is counted and acknowledged once.
pub ticks_lem :
    (fuel y x : ℕ) (t : Timer) (r : Rota)
    → t.pit_ticks < 2 ^ 64
    → IsScheduled t.kernel fuel r
    → has y r.tasks ≡ true
    → has x (r.threads y) ≡ true
    → runs t.kernel x ≡ true
    → (n : ℕ) × (n < length (r.threads y) * length r.tasks) × RunsAfter t fuel (suc n) x
ticks_lem fuel y x t r bound v iy ix p =
    let (n, h, k) = fair_lem fuel y x t.kernel r v iy ix p in
    (n, h, HasTurn-RunsAfter fuel n x t bound k)
