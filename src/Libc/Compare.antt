-- ===== src/Libc/Compare.antt =====
-- The result of `memcmp` of kernel/libc/string.c.
use lasagne.Base.{
  ℕ, zero, suc, ◌+◌, ◌^◌, ◌≤◌, ◌<◌, ◌≡◌, refl, sym, inl, inr, ◌⊎◌, arith, false, ◌==◌, ltb,
  Bool-cases,
}
use mathlib.Core.Path.{subst}
use lasagne.Libc.{difference, memcmp_from, memcmp}

-- The `int` is negative, or positive, as the bytes are ordered.
abbrev pub Decides : (x y r : ℕ) → Type 0
Decides x y r = ((x < y) × (2 ^ 31 ≤ r) × (r < 2 ^ 32)) ⊎ ((y < x) × (0 < r) × (r < 2 ^ 31))

-- The comparison of the bytes from `i` to `end`: all are equal, or the first that differ decide.
abbrev pub Compared : (p1 p2 : ℕ → ℕ) (i end r : ℕ) → Type 0
Compared p1 p2 i end r =
    ((r ≡ 0) × ((k : ℕ) → i ≤ k → k < end → p1 k ≡ p2 k))
    ⊎ ((n : ℕ) × (i ≤ n)
        × (n < end)
        × ((k : ℕ) → i ≤ k → k < n → p1 k ≡ p2 k)
        × Decides (p1 n) (p2 n) r)

equal_from :
    (p1 p2 : ℕ → ℕ) (i k : ℕ) → p1 i ≡ p2 i → (i + 1 ≤ k → p1 k ≡ p2 k) → i ≤ k → p1 k ≡ p2 k
equal_from p1 p2 i k q rest h = elim (Bool-cases (i == k)) [
  | inl e ↦ let p : i ≡ k = ground arith in rw (sym p) q
  | inr e ↦ rest (ground arith)
]

one_more :
    (p1 p2 : ℕ → ℕ) (i end r : ℕ)
    → p1 i ≡ p2 i
    → Compared p1 p2 (i + 1) end r
    → Compared p1 p2 i end r
one_more p1 p2 i end r q (inl (z, all)) =
    inl (z, λ k p l. equal_from p1 p2 i k q (λ m. all k m l) p)
one_more p1 p2 i end r q (inr (n, p, l, all, d)) =
    inr (n, omega arith, l, (λ k m o. equal_from p1 p2 i k q (λ v. all k v o) m), d)

difference-Decides : (x y : ℕ) → x < 256 → y < 256 → (x == y) ≡ false → Decides x y (difference x y)
difference-Decides x y h k e = elim (Bool-cases (ltb x y)) [
  | inl z ↦ rw z (inl (ground arith, omega arith, ground arith))
  | inr z ↦ rw z (inr (ground arith, ground arith, omega arith))
]

memcmp_from_lem :
    (p1 p2 : ℕ → ℕ) (i rounds : ℕ)
    → ((k : ℕ) → p1 k < 256)
    → ((k : ℕ) → p2 k < 256)
    → Compared p1 p2 i (i + rounds) (memcmp_from p1 p2 i rounds)
unfolding memcmp_from
memcmp_from_lem p1 p2 i zero h1 h2 = inl (refl, λ k p q. absurd (omega arith))
memcmp_from_lem p1 p2 i (suc rounds) h1 h2 = elim (Bool-cases (p1 i == p2 i)) [
  | inl e ↦
      let q : p1 i ≡ p2 i = ground arith in
      let n : i + suc rounds ≡ i + 1 + rounds = omega arith in
      rw (e, n) (one_more p1 p2 i _ _ q (memcmp_from_lem p1 p2 (i + 1) rounds h1 h2))
  | inr e ↦ rw e (
      inr (
        i,
        omega arith,
        omega arith,
        (λ k p q. absurd (omega arith)),
        difference-Decides (p1 i) (p2 i) (h1 i) (h2 i) e,
      ))
]

-- `memcmp` of bytes is 0 if the first `num` are equal. Otherwise the first two bytes that differ decide: it is negative, as an
-- `int`, where the first byte is the smaller one, and positive where it is the larger one.
pub memcmp-Compared :
    (p1 p2 : ℕ → ℕ) (num : ℕ)
    → ((k : ℕ) → p1 k < 256)
    → ((k : ℕ) → p2 k < 256)
    → Compared p1 p2 0 num (memcmp p1 p2 num)
unfolding memcmp
memcmp-Compared p1 p2 num h1 h2 =
    let e : num ≡ 0 + num = omega arith in
    subst (λ end. Compared p1 p2 0 end (memcmp_from p1 p2 0 num)) (sym e)
      (memcmp_from_lem p1 p2 0 num h1 h2)
