-- ===== src/Timer.antt =====
-- kernel/arch/x64/io/pit.c: the timer, whose interrupts preempt the threads. `inb` is what a port reads.
pub mod Ticks
pub mod Start
use lasagne.Base.{ℕ, zero, suc, ◌+◌, ◌/◌, ◌%◌, ◌^◌, Option, none, some, List, [], ◌∷◌, ◌++◌}
use lasagne.Printk.{codes, printk}
use lasagne.Irq.{Irq, set_irq_handler, pic_flip_irq}
use lasagne.Irq.Start.{Io, inb, outb, irq_eoi}
use lasagne.Task.{Kernel, preempt}

abbrev pub pit_ch0 : ℕ
pit_ch0 = 0x40

abbrev pub pit_command : ℕ
pit_command = 0x43

abbrev pub pit_ch0_square : ℕ
pit_ch0_square = 0x34

pub set_counter : List Io
set_counter =
    let target_freq_hz : ℕ = 1000 in
    let divisor = 1193182 / target_freq_hz in
    outb pit_ch0 (divisor % 2 ^ 8) ∷ outb pit_ch0 (divisor / 2 ^ 8 % 2 ^ 8) ∷ []

-- What it prints, what it does to the ports, and the tables. `handler` is the address of `pit_handler`.
unfoldable pub pit_initialize :
    (read : ℕ → ℕ) → (handler : ℕ) → Irq → Option (List ℕ) × List Io × Irq
unfolding set_counter pic_flip_irq
pit_initialize read handler s =
    let (port, mask) = pic_flip_irq read 0 in
    (
      printk (codes "hello pit world\n") [],
      outb pit_command pit_ch0_square ∷ set_counter ++ inb port ∷ outb port mask ∷ [],
      set_irq_handler 0x20 handler 0 s,
    )

pub record Timer : Type 0 where
  pub pit_ticks : ℕ
  pub kernel : Kernel

-- What is written to the ports, and the state. `none` is a scheduler whose rounds run out.
pub pit_handler : (fuel : ℕ) → Timer → Option (List Io × Timer)
unfolding irq_eoi
pit_handler fuel t = elim (preempt fuel t.kernel) [
  | none ↦ none
  | some kernel ↦
      some (irq_eoi ∷ [], record { pit_ticks = (t.pit_ticks + 1) % 2 ^ 64; kernel = kernel })
]

pub get_tick_count : Timer → ℕ
get_tick_count t = t.pit_ticks
