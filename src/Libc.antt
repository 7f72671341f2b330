-- ===== src/Libc.antt =====
-- kernel/libc/string.c: `memcmp`. The bytes behind a pointer are a function of the offset.
pub mod Compare
use lasagne.Base.{ℕ, zero, suc, ◌+◌, ◌-◌, ◌^◌, Bool, true, false, ◌==◌, ltb, if◌then◌else◌}

-- `p1[i] - p2[i]` in `int`, as its 32-bit pattern.
abbrev pub difference : ℕ → ℕ → ℕ
difference x y = if ltb x y then 2 ^ 32 - (y - x) else x - y

-- The loop from the offset `i`, with `rounds` left.
pub memcmp_from : (p1 p2 : ℕ → ℕ) (i rounds : ℕ) → ℕ
memcmp_from p1 p2 i zero = 0
memcmp_from p1 p2 i (suc rounds) =
    let rest = memcmp_from p1 p2 (i + 1) rounds in
    if p1 i == p2 i then rest else difference (p1 i) (p2 i)

pub memcmp : (p1 p2 : ℕ → ℕ) (num : ℕ) → ℕ
unfolding memcmp_from
memcmp p1 p2 num = memcmp_from p1 p2 0 num
