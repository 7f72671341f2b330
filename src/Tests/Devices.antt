-- ===== src/Tests/Devices.antt =====
-- kernel/arch/x64/io/tty.c and kernel/arch/x64/irq.c, started and used once.
use lasagne.Base.{ℕ, List, [], ◌∷◌}
use lasagne.Tty.{Cells, Tty, tty_initialize, tty_putstring, tty_set_tab_size}
use lasagne.Tty.Scroll.{IsMirror}
use lasagne.Tty.Mirror.{
  Reachable, initialized, putstring, tab_size, KeepsScreen, Reachable-IsMirror,
}
use lasagne.Irq.{IdtModel, Irq, compile_idt}

abbrev screen : Cells
screen = λ k. 7

abbrev line : List ℕ
line = b'o' ∷ b'k' ∷ b'\n' ∷ b'\t' ∷ []

abbrev printed : Tty
printed = tty_putstring line (tty_set_tab_size 4 (tty_initialize screen))

printed-Reachable : Reachable screen printed
printed-Reachable =
    putstring line (tty_set_tab_size 4 (tty_initialize screen))
      (tab_size 4 (tty_initialize screen) initialized)

Reachable_example : IsMirror printed × KeepsScreen screen printed
Reachable_example = Reachable-IsMirror screen printed printed-Reachable

abbrev pub model : IdtModel
model = record {
  offset = 0x123456789abcdef0;
  selector = 8;
  ist = 0;
  type = 14;
  dpl = 0;
  present = 0;
}

abbrev pub blank : Irq
blank = record {
  idt = λ i. compile_idt model;
  idt_handler = λ i. record { address = 0; flags = 0 };
  spurious_interrupts_count = 0;
}
