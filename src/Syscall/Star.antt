-- ===== src/Syscall/Star.antt =====
-- The segments of fast system calls in kernel/core/syscall.c.
use lasagne.Base.{
  ℕ, ◌+◌, ◌*◌, ◌/◌, ◌%◌, ◌^◌, ◌≡◌, ap, ◌∙◌, arith, bit_or, bit_and_mask, bit_or_fields,
  bit_or-zero_left, bit_or-zero_right,
}
use lasagne.Task.{code_segment, data_segment, user_code_segment, user_data_segment}
use lasagne.Syscall.{set_star}

-- The segments that the processor takes from the register: a system call enters with the first field as the code segment and
-- the stack segment 8 behind it; the return to 64-bit code has the stack segment 8 and the code segment 16 behind the
-- second field.
pub record HasSegments (before star : ℕ) : Type 0 where
  pub kernel_code : star / 2 ^ 32 % 2 ^ 16 ≡ code_segment
  pub kernel_stack : star / 2 ^ 32 % 2 ^ 16 + 8 ≡ data_segment
  pub user_stack : star / 2 ^ 48 % 2 ^ 16 + 8 ≡ user_data_segment
  pub user_code : star / 2 ^ 48 % 2 ^ 16 + 16 ≡ user_code_segment
  pub rest : star % 2 ^ 32 ≡ before % 2 ^ 32

-- Fast system calls run on the kernel's segments and return to the user's; the low half of the register is kept.
pub set_star_lem : (star : ℕ) → HasSegments star (set_star star)
unfolding set_star
set_star_lem star =
    let low = star % 2 ^ 32 in
    let front : low ≡ 0 * 2 ^ 32 + low = omega arith in
    let kernel : bit_or (0 * 2 ^ 32 + low) (8 * 2 ^ 32 + 0) ≡ 8 * 2 ^ 32 + low =
      bit_or_fields 32 0 8 low 0 (omega arith) (omega arith)
      ∙ omega (arith, bit_or-zero_left 8, bit_or-zero_right low) in
    let user : bit_or (0 * 2 ^ 48 + (8 * 2 ^ 32 + low)) (19 * 2 ^ 48 + 0)
        ≡ 19 * 2 ^ 48 + (8 * 2 ^ 32 + low) =
      bit_or_fields 48 0 19 (8 * 2 ^ 32 + low) 0 (omega arith) (omega arith)
      ∙ omega (arith, bit_or-zero_left 19, bit_or-zero_right (8 * 2 ^ 32 + low)) in
    let first : bit_or low (8 * 2 ^ 32) ≡ 0 * 2 ^ 48 + (8 * 2 ^ 32 + low) =
      ap (λ (x : ℕ). bit_or x (8 * 2 ^ 32)) front ∙ kernel ∙ omega arith in
    let value : set_star star ≡ 19 * 2 ^ 48 + (8 * 2 ^ 32 + low) =
      ap (λ (x : ℕ). bit_or (bit_or x (8 * 2 ^ 32)) (19 * 2 ^ 48)) (bit_and_mask 32 star)
      ∙ ap (λ (x : ℕ). bit_or x (19 * 2 ^ 48)) first
      ∙ user in
    rw value (record {
      kernel_code = omega arith;
      kernel_stack = omega arith;
      user_stack = omega arith;
      user_code = omega arith;
      rest = omega arith;
    })
