-- ===== src/Irq/Entry.antt =====
-- The descriptors that `compile_idt` and `set_irq_handler` of kernel/arch/x64/irq.c write.
use lasagne.Base.{ℕ, ◌+◌, ◌*◌, ◌^◌, ◌<◌, ◌≡◌, arith}
use lasagne.Irq.{IdtEntry, IdtModel, compile_idt}

-- The address that a descriptor of the processor's format stands for.
pub decode_offset : IdtEntry → ℕ
decode_offset e = e.offset_low + 2 ^ 16 * e.offset_middle + 2 ^ 32 * e.offset_high

abbrev pub FitsFields : IdtEntry → Type 0
FitsFields e =
    (e.offset_low < 2 ^ 16)
    × (e.offset_middle < 2 ^ 16)
    × (e.offset_high < 2 ^ 32)
    × (e.selector < 2 ^ 16)
    × (e.ist < 2 ^ 8)
    × (e.type < 2 ^ 5)
    × (e.dpl < 2 ^ 2)
    × (e.present < 2 ^ 1)

-- `compile_idt` splits a 64-bit offset so that the three parts fit their fields and give it back. The other
-- fields fit too.
pub decode_offset-compile_idt :
    (m : IdtModel)
    → m.offset < 2 ^ 64
    → (decode_offset (compile_idt m) ≡ m.offset) × FitsFields (compile_idt m)
unfolding decode_offset compile_idt
decode_offset-compile_idt m h = (
  omega arith,
  (
    omega arith,
    omega arith,
    omega arith,
    omega arith,
    omega arith,
    omega arith,
    omega arith,
    omega arith,
  ),
)
