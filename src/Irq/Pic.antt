-- ===== src/Irq/Pic.antt =====
-- `pic_flip_irq` of kernel/arch/x64/irq.c.
use native.Mathlib.Nat.{mod-eq_of_lt, pow-le-pow_right, pow-suc}
use lasagne.Base.{
  ℕ, zero, suc, leb, false, ◌+◌, ◌%◌, ◌^◌, ◌≤◌, ◌<◌, ◌≡◌, refl, ◌∙◌, arith, bit_xor, bit,
  bit-bit_xor, bit-pow, bit_xor-lt, ◌==◌, if◌then◌else◌,
}
use lasagne.Irq.{pic_flip_irq, widen_port}

one_le : (n : ℕ) → 1 ≤ 2 ^ n
one_le zero = omega arith
one_le (suc n) = omega (arith, pow-suc 2 n, one_le n)

-- For a line of the first controller, whose mask reads as a byte, `pic_flip_irq` works on its data
-- port, and changes the bit of that line in the mask and no other.
pub pic_flip_irq_lem :
    (inb : ℕ → ℕ) (irq : ℕ)
    → irq < 8
    → inb 0x21 < 2 ^ 8
    → ((pic_flip_irq inb irq).0 ≡ 0x21)
      × ((k : ℕ)
          → bit ((pic_flip_irq inb irq).1) k ≡ (bit (inb 0x21) k + (if irq == k then 1 else 0)) % 2)
unfolding pic_flip_irq widen_port
pic_flip_irq_lem inb irq h b =
    let e : leb 8 irq ≡ false = ground arith in
    let small : bit_xor (inb 0x21) (2 ^ irq) % 2 ^ 8 ≡ bit_xor (inb 0x21) (2 ^ irq) = mod-eq_of_lt (
      bit_xor-lt 8 (inb 0x21) (2 ^ irq) b
        (omega (arith, pow-le-pow_right {n = 2} (omega arith) h, pow-suc 2 irq, one_le irq))) in
    rw e (refl, λ k. rw small (bit-bit_xor k (inb 0x21) (2 ^ irq) ∙ rw (bit-pow irq k) refl))

-- For the lines 8 to 15, those of the second controller, the port that `pic_flip_irq` reads and
-- writes is 0xFFA1, and not PIC2_DATA, which is 0xA1.
pub pic_flip_irq-second :
    (inb : ℕ → ℕ) (irq : ℕ) → 8 ≤ irq → irq < 16 → (pic_flip_irq inb irq).0 ≡ 0xFFA1
unfolding pic_flip_irq widen_port
pic_flip_irq-second inb irq h l = ground arith
