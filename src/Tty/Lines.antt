-- ===== src/Tty/Lines.antt =====
-- kernel/arch/x64/io/tty.c: `line_up` and the ring of lines.
use lasagne.Base.{
  ℕ, ◌+◌, ◌-◌, ◌*◌, ◌%◌, ◌≤◌, ◌<◌, ◌≡◌, ◌≢◌, refl, inl, inr, arith, true, false, ltb, leb,
  Bool-cases, ==_refl, ==_ne,
}
use lasagne.Tty.{Cells, Tty, row_size, memset_zero, set_row, buffer_row_up, scroll, line_up}
use lasagne.Tty.Scroll.{
  Shows, HasSize, IsMirror, KeepsRest, memset-in, scrolled, scrolled_row, scrolled_rest,
}

pub row_up_blank : (row : Cells) (c : ℕ) → c < 80 → memset_zero 0 row_size row c ≡ 0
row_up_blank row c h = memset-in 0 row_size row c (omega arith) h

-- The lines of the ring but the cleared one stay.
pub set_row-ne : (i j : ℕ) (r : Cells) (rows : ℕ → Cells) → j ≢ i → set_row i r rows j ≡ rows j
set_row-ne i j r rows ne = rw (==_ne j i ne) refl

pub set_row-eq : (i : ℕ) (r : Cells) (rows : ℕ → Cells) → set_row i r rows i ≡ r
set_row-eq i r rows = rw (==_refl i) refl

-- One row lower, with the ring's next line cleared, the screen still shows the ring.
pub Shows-lower :
    (buffer : ℕ → Cells) (b row : ℕ) (r : Cells) (cells : Cells)
    → b < 30
    → row < 24
    → ((c : ℕ) → c < 80 → r c ≡ 0)
    → Shows buffer b row cells
    → Shows (set_row ((b + 1) % 30) r buffer) ((b + 1) % 30) (row + 1) cells
Shows-lower buffer b row r cells h k blank (shows, empty) = (
  λ q c l m. elim (Bool-cases (leb q row)) [
    | inl z ↦
        let p : q ≤ row = ground arith in
        let i : ((b + 1) % 30 + 30 + q - (row + 1)) % 30 ≡ (b + 30 + q - row) % 30 = omega arith in
        let ne : (b + 30 + q - row) % 30 ≢ (b + 1) % 30 = omega arith in
        rw (i, set_row-ne _ _ r buffer ne) (shows q c p m)
    | inr z ↦
        let p : q ≡ row + 1 = ground arith in
        let i : ((b + 1) % 30 + 30 + q - (row + 1)) % 30 ≡ (b + 1) % 30 = omega arith in
        rw (i, set_row-eq ((b + 1) % 30) r buffer, blank c m)
          (empty (80 * q + c) (omega arith) (omega arith))
  ],
  λ q l m. empty q (omega arith) m,
)

unfoldable pub cleared : Tty → ℕ → Cells
cleared t =
    set_row ((t.buffer_row + 1) % 30) (memset_zero 0 row_size (t.buffer ((t.buffer_row + 1) % 30)))
      t.buffer

pub cleared-blank : (t : Tty) (c : ℕ) → c < 80 → cleared t ((t.buffer_row + 1) % 30) c ≡ 0
unfolding cleared
cleared-blank t c h =
    rw
      (set_row-eq ((t.buffer_row + 1) % 30)
        (memset_zero 0 row_size (t.buffer ((t.buffer_row + 1) % 30))) t.buffer)
      (row_up_blank (t.buffer ((t.buffer_row + 1) % 30)) c h)

pub line_up-lower :
    (t : Tty)
    → HasSize t
    → ltb t.row 24 ≡ true
    → line_up t
      ≡ record t { buffer_row = (t.buffer_row + 1) % 30; buffer = cleared t; row = t.row + 1 }
unfolding line_up buffer_row_up cleared
line_up-lower t (w, h, bh) z = rw (h, bh, z) refl

pub line_up-scroll :
    (t : Tty)
    → HasSize t
    → ltb t.row 24 ≡ false
    → line_up t ≡ record t {
      buffer_row = (t.buffer_row + 1) % 30;
      buffer = cleared t;
      tty_buffer = scrolled (cleared t) ((t.buffer_row + 1) % 30) t.tty_buffer;
    }
unfolding line_up buffer_row_up scroll scrolled cleared
line_up-scroll t (w, h, bh) z = rw (w, h, bh, z) refl

-- `line_up` keeps the correspondence, wherever the cursor's column stands.
pub line_up_lem :
    (t : Tty)
    → IsMirror t
    → IsMirror (line_up t) × KeepsRest t (line_up t) × ((line_up t).col ≡ t.col)
unfolding cleared
line_up_lem t ((w, h, bh), tb, ts, cl, rl, bl, s) = elim (Bool-cases (ltb t.row 24)) [
  | inl z ↦ rw (line_up-lower t (w, h, bh) z) (
    (
      (w, h, bh),
      tb,
      ts,
      cl,
      ground arith,
      omega arith,
      Shows-lower t.buffer t.buffer_row t.row _ t.tty_buffer bl (ground arith)
          (row_up_blank (t.buffer ((t.buffer_row + 1) % 30))) s,
    ),
    λ k _. refl,
    refl,
  )
  | inr z ↦
      let full : t.row ≡ 24 = ground arith in
      let b = (t.buffer_row + 1) % 30 in
      let small : b < 30 = omega arith in
      rw (line_up-scroll t (w, h, bh) z) (
        (
          (w, h, bh),
          tb,
          ts,
          cl,
          rl,
          small,
          (
            rw full (scrolled_row (cleared t) b t.tty_buffer small (cleared-blank t)),
            λ k l m. absurd (omega arith),
          ),
        ),
        scrolled_rest (cleared t) b t.tty_buffer small,
        refl,
      )
]
