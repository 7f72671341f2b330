-- ===== src/Irq.antt =====
-- kernel/arch/x64/irq.c and kernel/include/irq.h: the interrupt descriptor table, the table of
-- handlers, and the masks of the interrupt controllers. The addresses of the handlers and what a port
-- reads are parameters.
pub mod Entry
pub mod Handlers
pub mod Pic
pub mod Exception
pub mod Start
use lasagne.Base.{
  ℕ, zero, suc, ◌+◌, ◌-◌, ◌*◌, ◌/◌, ◌%◌, ◌^◌, Bool, true, false, List, [], ◌∷◌, bit_and, bit_xor,
  ◌==◌, ltb, leb, if◌then◌else◌,
}

pub record IdtEntry : Type 0 where
  pub offset_low : ℕ
  pub selector : ℕ
  pub ist : ℕ
  pub type : ℕ
  pub dpl : ℕ
  pub present : ℕ
  pub offset_middle : ℕ
  pub offset_high : ℕ
  pub reserved : ℕ

pub record IdtModel : Type 0 where
  pub offset : ℕ
  pub selector : ℕ
  pub ist : ℕ
  pub type : ℕ
  pub dpl : ℕ
  pub present : ℕ

pub record IdtHandler : Type 0 where
  pub address : ℕ
  pub flags : ℕ

pub record Irq : Type 0 where
  pub idt : ℕ → IdtEntry
  pub idt_handler : ℕ → IdtHandler
  pub spurious_interrupts_count : ℕ

-- Each field keeps as many bits as it is wide.
unfoldable pub compile_idt : IdtModel → IdtEntry
compile_idt m = record {
  offset_low = m.offset % 2 ^ 16;
  selector = m.selector % 2 ^ 16;
  ist = m.ist % 2 ^ 8;
  type = m.type % 2 ^ 5;
  dpl = m.dpl % 2 ^ 2;
  present = m.present % 2 ^ 1;
  offset_middle = m.offset / 2 ^ 16 % 2 ^ 16;
  offset_high = m.offset / 2 ^ 32 % 2 ^ 32;
  reserved = 0;
}

abbrev pub vectors : ℕ
vectors = 80

abbrev pub wrapper_align : ℕ
wrapper_align = 8

-- INT_HANDLER_ERRORCODE and INT_HANDLER_USER
abbrev pub errorcode : ℕ
errorcode = 1

abbrev pub user : ℕ
user = 4

abbrev pub set_at {ℓ} : {A : Type ℓ} → ℕ → A → (ℕ → A) → ℕ → A
set_at i v f = λ j. if j == i then v else f j

-- The model that `create_idt` fills in for the vector `i`.
unfoldable pub model_of : (interrupt_wrapper i : ℕ) → IdtModel
model_of interrupt_wrapper i = record {
  offset = (interrupt_wrapper + wrapper_align * i) % 2 ^ 64;
  selector = 0x08;
  ist = 0;
  type = 0xE;
  dpl = 0;
  present = 0;
}

-- The loop from the vector `i`, with `count` rounds left.
pub create_idt : (interrupt_wrapper i count : ℕ) → (ℕ → IdtEntry) → ℕ → IdtEntry
unfolding compile_idt model_of
create_idt interrupt_wrapper i zero idt = idt
create_idt interrupt_wrapper i (suc count) idt =
    create_idt interrupt_wrapper (i + 1) count
      (set_at i (compile_idt (model_of interrupt_wrapper i)) idt)

unfoldable pub set_irq_handler : (irq_number address flags : ℕ) → Irq → Irq
set_irq_handler irq_number address flags s = record s {
  idt_handler = set_at irq_number (record { address = address; flags = flags }) s.idt_handler;
  idt =
      set_at irq_number
        (record (s.idt irq_number) { present = 1; dpl = if bit_and flags user == 0 then 0 else 3 })
        s.idt;
}

unfoldable pub reset_irq_handler : ℕ → Irq → Irq
reset_irq_handler irq_number s = record s {
  idt = set_at irq_number (record (s.idt irq_number) { present = 0 }) s.idt;
}

-- `for (int i = first; i < first + count; ++i) set_irq_handler(i, address, flags);`
pub set_range : (first count address flags : ℕ) → Irq → Irq
unfolding set_irq_handler
set_range first zero address flags s = s
set_range first (suc count) address flags s =
    set_range (first + 1) count address flags (set_irq_handler first address flags s)

pub set_handlers : (generic spurious : ℕ) → Irq → Irq
set_handlers generic spurious s =
    set_irq_handler 0x27 spurious 0
      (set_range 16 64 generic 0 (set_range 8 7 generic errorcode (set_range 0 8 generic 0 s)))

-- `create_idt` and then `set_handlers`, as `initialize_irq` calls them.
pub initialize_tables : (interrupt_wrapper generic spurious : ℕ) → Irq → Irq
initialize_tables interrupt_wrapper generic spurious s =
    set_handlers generic spurious (record s { idt = create_idt interrupt_wrapper 0 vectors s.idt })

-- `port` is a `char`: 0xA1 is negative in it, and `inb` and `outb` take its 16 low bits.
pub widen_port : ℕ → ℕ
widen_port port = if ltb port 0x80 then port else port + (2 ^ 16 - 2 ^ 8)

-- The port that is read and written, and the byte that is written.
unfoldable pub pic_flip_irq : (inb : ℕ → ℕ) → ℕ → ℕ × ℕ
unfolding widen_port
pic_flip_irq inb irq =
    let port = widen_port (if leb 8 irq then 0xA1 else 0x21) in
    let line = if leb 8 irq then irq - 8 else irq in (port, bit_xor (inb port) (2 ^ line) % 2 ^ 8)

pub spurious_interrupt_handler : Irq → Irq
spurious_interrupt_handler s = record s {
  spurious_interrupts_count = (s.spurious_interrupts_count + 1) % 2 ^ 64;
}
