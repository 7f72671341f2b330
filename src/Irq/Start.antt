-- ===== src/Irq/Start.antt =====
-- kernel/arch/x64/irq.c: the initialization as the sequence of what it tells the processor and the controllers.
use lasagne.Base.{ℕ, ◌+◌, ◌-◌, ◌*◌, ◌%◌, ◌^◌, List, [], ◌∷◌, ◌++◌}
use lasagne.Irq.{Irq, vectors, initialize_tables}

-- `in`, `out` of a byte, the load of the table's limit and address, and the switch that allows interrupts.
pub data Io : Type 0 where
  inb : (port : ℕ) → Io
  outb : (port byte : ℕ) → Io
  lidt : (limit offset : ℕ) → Io
  sti : Io

abbrev pub pic1_cmd : ℕ
pic1_cmd = 0x20

abbrev pub pic1_data : ℕ
pic1_data = 0x21

abbrev pub pic2_cmd : ℕ
pic2_cmd = 0xA0

abbrev pub pic2_data : ℕ
pic2_data = 0xA1

abbrev pub pic_eoi : ℕ
pic_eoi = 0x20

abbrev pub pic_init : ℕ
pic_init = 0x11

abbrev pub pic_master : ℕ
pic_master = 0x04

abbrev pub pic_slave : ℕ
pic_slave = 0x02

abbrev pub pic_8086 : ℕ
pic_8086 = 0x01

abbrev pub pic1_offset : ℕ
pic1_offset = 0x20

abbrev pub pic2_offset : ℕ
pic2_offset = 0x28

pub initialize_pic : List Io
initialize_pic =
    inb pic1_data
    ∷ inb pic2_data
    ∷ outb pic1_cmd pic_init
    ∷ outb pic2_cmd pic_init
    ∷ outb pic1_data pic1_offset
    ∷ outb pic2_data pic2_offset
    ∷ outb pic1_data pic_master
    ∷ outb pic2_data pic_slave
    ∷ outb pic1_data pic_8086
    ∷ outb pic2_data pic_8086
    ∷ outb pic1_data 0xFF
    ∷ outb pic2_data 0xFF
    ∷ []

-- `sizeof(struct idt_entry)`
abbrev pub entry_size : ℕ
entry_size = 16

-- `size` is a `uint16_t`, and so is the limit.
load_idt : (size idt : ℕ) → Io
load_idt size idt = lidt ((size % 2 ^ 16 + 2 ^ 16 - 1) % 2 ^ 16) idt

set_idt : (idt : ℕ) → Io
unfolding load_idt
set_idt idt = load_idt (entry_size * vectors) idt

unfoldable pub irq_eoi : Io
irq_eoi = outb pic1_cmd pic_eoi

-- What is done outside, and the tables, whose address is `idt`.
unfoldable pub initialize_irq : (idt interrupt_wrapper generic spurious : ℕ) → Irq → List Io × Irq
unfolding initialize_pic set_idt
initialize_irq idt interrupt_wrapper generic spurious s = (
  initialize_pic ++ set_idt idt ∷ sti ∷ [],
  initialize_tables interrupt_wrapper generic spurious s,
)
