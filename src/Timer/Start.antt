-- ===== src/Timer/Start.antt =====
-- `pit_initialize` of kernel/arch/x64/io/pit.c after the tables of the interrupts are set up.
use lasagne.Base.{
  ℕ, ◌<◌, ◌≡◌, ◌≢◌, refl, arith, inl, inr, true, ◌==◌, if◌then◌else◌, Bool-cases, [], ◌∷◌,
}
use lasagne.Irq.{Irq, compile_idt, model_of, set_irq_handler, pic_flip_irq, initialize_tables}
use lasagne.Irq.Handlers.{handled, flags_of, initialize_tables_lem}
use lasagne.Irq.Start.{inb, outb}
use lasagne.Timer.{pit_initialize, set_counter}

-- With every line of the first controller masked, as `initialize_pic` leaves it, and after `initialize_tables`,
-- `pit_initialize` sets the mode and the counter to 1193, 0x4A9, and then allows line 0 and no other. Of the vectors
-- below 80 the one of that line gets the handler, and stays present and closed to user code. The others are as before.
pub pit_initialize_lem :
    (read : ℕ → ℕ) (handler w generic spurious : ℕ) (s : Irq) (i : ℕ)
    → read 0x21 ≡ 0xFF
    → i < 80
    → i ≢ 15
    → let (_, out, t) = pit_initialize read handler (initialize_tables w generic spurious s) in
      (out ≡ outb 0x43 0x34 ∷ outb 0x40 0xA9 ∷ outb 0x40 0x04 ∷ inb 0x21 ∷ outb 0x21 0xFE ∷ [])
      × (t.idt i ≡ record (compile_idt (model_of w i)) { present = 1 })
      × (t.idt_handler i ≡ record {
        address = if i == 0x20 then handler else (if i == 0x27 then spurious else generic);
        flags = flags_of i;
      })
unfolding pit_initialize set_counter pic_flip_irq set_irq_handler compile_idt model_of
pit_initialize_lem read handler w generic spurious s i masked h ne =
    let (a, b) = initialize_tables_lem w generic spurious s i h in
    let (c, _) = initialize_tables_lem w generic spurious s 0x20 (omega arith) in
    let there : handled i ≡ true = ground arith in
    elim (Bool-cases (i == 0x20)) [
      | inl q ↦ let p : i ≡ 0x20 = ground arith in rw (masked, p, c) (refl, refl, refl)
      | inr q ↦ rw (masked, q, a, there, b ne) (refl, refl, refl)
    ]
