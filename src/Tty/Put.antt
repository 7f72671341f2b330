-- ===== src/Tty/Put.antt =====
-- kernel/arch/x64/io/tty.c: `put_char`.
use lasagne.Base.{
  ℕ, ◌+◌, ◌-◌, ◌*◌, ◌%◌, ◌^◌, ◌≤◌, ◌<◌, ◌≡◌, ◌≢◌, refl, ◌∙◌, inl, inr, arith, ◌==◌, bit_or,
  Bool-cases, ==_ne,
}
use lasagne.Tty.{Cells, Tty, set_cell, set_row, line_up, put_char}
use lasagne.Tty.Scroll.{Shows, IsMirror, KeepsRest}
use lasagne.Tty.Lines.{set_row-ne, set_row-eq, line_up_lem}

pub set_cell-ne : (i v k : ℕ) (cells : Cells) → k ≢ i → set_cell i v cells k ≡ cells k
set_cell-ne i v k cells ne = rw (==_ne k i ne) refl

-- A character stored in the line of the cursor, on the screen and in the ring.
pub Shows-put :
    (buffer : ℕ → Cells) (b row col v : ℕ) (cells : Cells)
    → b < 30
    → row < 25
    → col < 80
    → Shows buffer b row cells
    → Shows (set_row b (set_cell col v (buffer b)) buffer) b row (set_cell (row * 80 + col) v cells)
Shows-put buffer b row col v cells h k l (shows, empty) = (
  λ q c m n. elim (Bool-cases (q == row)) [
    | inl z ↦
        let p : q ≡ row = ground arith in
        let i : (b + 30 + q - row) % 30 ≡ b = omega arith in
        let j : (80 * q + c == row * 80 + col) ≡ (c == col) = ground arith in
        let old : cells (80 * q + c) ≡ buffer b c = shows q c m n ∙ rw i refl in
        rw (i, set_row-eq b (set_cell col v (buffer b)) buffer, j, old) refl
    | inr z ↦
        let ne : q ≢ row = ground arith in
        let i : (b + 30 + q - row) % 30 ≢ b = omega arith in
        rw
          (
            set_row-ne b _ (set_cell col v (buffer b)) buffer i,
            set_cell-ne (row * 80 + col) v (80 * q + c) cells (omega arith),
          )
          (shows q c m n)
  ],
  λ q m n. set_cell-ne (row * 80 + col) v q cells (omega arith) ∙ empty q m n,
)

pub IsMirror-home : (t : Tty) (c : ℕ) → c ≤ 80 → IsMirror t → IsMirror (record t { col = c })
IsMirror-home t c h (sz, tb, ts, _, rl, bl, s) = (sz, tb, ts, h, rl, bl, s)

-- `put_char` on a line with a place left.
pub stored : ℕ → Tty → Tty
stored c u =
    let ch = bit_or (bit_or (u.fg * 2 ^ 8) (u.bg * 2 ^ 12)) c % 2 ^ 16 in
    record u {
      tty_buffer = set_cell (u.row * u.width + u.col) ch u.tty_buffer;
      buffer = set_row u.buffer_row (set_cell u.col ch (u.buffer u.buffer_row)) u.buffer;
      col = u.col + 1;
    }

pub stored_lem :
    (c : ℕ) (u : Tty) → IsMirror u → u.col < 80 → IsMirror (stored c u) × KeepsRest u (stored c u)
unfolding stored
stored_lem c u ((w, h, bh), tb, ts, cl, rl, bl, s) k =
    let ch = bit_or (bit_or (u.fg * 2 ^ 8) (u.bg * 2 ^ 12)) c % 2 ^ 16 in
    (
      (
        (w, h, bh),
        tb,
        ts,
        omega arith,
        rl,
        bl,
        rw w (Shows-put u.buffer u.buffer_row u.row u.col ch u.tty_buffer bl rl k s),
      ),
      λ q m. rw w (set_cell-ne (u.row * 80 + u.col) ch q u.tty_buffer (omega arith)),
    )

unfoldable pub Step : Tty → Tty → Type 0
Step t u = IsMirror u × KeepsRest t u

pub put_char_lem : (c : ℕ) (t : Tty) → IsMirror t → Step t (put_char c t)
unfolding put_char stored Step
put_char_lem c t m = elim (Bool-cases (t.col == t.width)) [
  | inl z ↦
      let (v, keep, _) = line_up_lem t m in
      let (q, more) =
        stored_lem c (record (line_up t) { col = 0 }) (IsMirror-home (line_up t) 0 (omega arith) v)
          (omega arith) in
      rw z (q, λ k l. more k l ∙ keep k l)
  | inr z ↦ rw z (stored_lem c t m (ground (arith, m.0.0, m.3)))
]
