-- ===== src/Tty/Mirror.antt =====
-- kernel/arch/x64/io/tty.c: the screen through all calls of the terminal.
use lasagne.Base.{
  ℕ, ◌+◌, ◌-◌, ◌*◌, ◌%◌, ◌≤◌, ◌<◌, ◌≡◌, refl, sym, ◌∙◌, inl, inr, arith, List, [], ◌∷◌, ◌==◌, ltb,
  ◌&&◌, Bool-cases,
}
use lasagne.Tty.{
  Cells, Tty, memset_zero, buffer_row_up, line_up, special_char, tty_clear, blank_tty,
  tty_initialize, tty_putchar, tty_set_color, widen, tty_putstring, tty_set_tab_size,
}
use lasagne.Tty.Scroll.{HasSize, IsMirror, memset-in, memset-out}
use lasagne.Tty.Lines.{cleared, cleared-blank, line_up_lem}
use lasagne.Tty.Put.{IsMirror-home, Step, put_char_lem}

tab_lem : (t : Tty) → IsMirror t → Step t (special_char b'\t' t)
unfolding special_char Step
tab_lem t m =
    let col = t.col + (t.tab - t.col % t.tab) in
    elim (Bool-cases (ltb t.width (col + 1))) [
      | inl z ↦
          let home = IsMirror-home t (col % t.width) (rw (m.0.0) (omega arith)) m in
          let (v, keep, _) = line_up_lem (record t { col = col % t.width }) home in rw z (v, keep)
      | inr z ↦ rw z (IsMirror-home t col (ground (arith, m.0.0)) m, λ k _. refl)
    ]

special_char_lem : (c : ℕ) (t : Tty) → IsMirror t → Step t (special_char c t)
unfolding special_char Step
special_char_lem c t m = elim (Bool-cases (c == b'\n')) [
  | inl n ↦
      let (v, keep, _) = line_up_lem t m in rw n (IsMirror-home (line_up t) 0 (omega arith) v, keep)
  | inr n ↦ elim (Bool-cases (c == b'\r')) [
    | inl r ↦ rw (n, r) (IsMirror-home t 0 (omega arith) m, λ k _. refl)
    | inr r ↦ elim (Bool-cases (c == b'\t')) [
      | inl h ↦ rw (n, r, h) (tab_lem t m)
      | inr h ↦ rw (n, r, h) (m, λ k _. refl)
    ]
  ]
]

tty_putchar_lem : (c : ℕ) (t : Tty) → IsMirror t → Step t (tty_putchar c t)
unfolding tty_putchar Step
tty_putchar_lem c t m = elim (Bool-cases (ltb 0xff c)) [
  | inl z ↦ rw z (m, λ k _. refl)
  | inr z ↦ elim (Bool-cases (ltb c 0x20)) [
    | inl y ↦ rw (z, y) (special_char_lem c t m)
    | inr y ↦ rw (z, y) (put_char_lem c t m)
  ]
]

tty_putstring_lem : (cs : List ℕ) (t : Tty) → IsMirror t → Step t (tty_putstring cs t)
unfolding tty_putstring Step
tty_putstring_lem [] t m = (m, λ k _. refl)
tty_putstring_lem (c ∷ cs) t m =
    let (v, keep) = tty_putchar_lem (widen c) t m in
    let (q, more) = tty_putstring_lem cs (tty_putchar (widen c) t) v in
    (q, λ k l. more k l ∙ keep k l)

tty_clear-cleared :
    (t : Tty)
    → HasSize t
    → tty_clear t ≡ record t {
      buffer_row = (t.buffer_row + 1) % 30;
      buffer = cleared t;
      tty_buffer = memset_zero 0 2000 t.tty_buffer;
      col = 0;
      row = 0;
    }
unfolding tty_clear buffer_row_up cleared
tty_clear-cleared t (w, h, bh) = rw (w, h, bh) refl

-- `tty_clear` needs the size alone: what the screen showed before does not matter.
tty_clear_lem : (t : Tty) → HasSize t → 0 < t.tab → t.tab < 80 → Step t (tty_clear t)
unfolding Step
tty_clear_lem t (w, h, bh) tb ts = rw (tty_clear-cleared t (w, h, bh)) (
  (
    (w, h, bh),
    tb,
    ts,
    omega arith,
    omega arith,
    omega arith,
    (
      λ r c k l.
          let i : ((t.buffer_row + 1) % 30 + 30 + r - 0) % 30 ≡ (t.buffer_row + 1) % 30 =
            omega arith in
          memset-in 0 2000 t.tty_buffer (80 * r + c) (omega arith) (omega arith)
          ∙ sym (rw i (cleared-blank t c l)),
      λ k _ l. memset-in 0 2000 t.tty_buffer k (omega arith) l,
    ),
  ),
  λ k l. memset-out 0 2000 t.tty_buffer k (inr (omega arith)),
)

-- The states of the terminal after its initialization over the video memory `screen`, and any calls.
pub data Reachable (screen : Cells) : Tty → Type 0 where
  initialized : Reachable screen (tty_initialize screen)
  putchar : (c : ℕ) (t : Tty) → Reachable screen t → Reachable screen (tty_putchar c t)
  putstring : (cs : List ℕ) (t : Tty) → Reachable screen t → Reachable screen (tty_putstring cs t)
  color : (fg bg : ℕ) (t : Tty) → Reachable screen t → Reachable screen (tty_set_color fg bg t)
  tab_size : (size : ℕ) (t : Tty) → Reachable screen t → Reachable screen (tty_set_tab_size size t)
  clear : (t : Tty) → Reachable screen t → Reachable screen (tty_clear t)

abbrev pub KeepsScreen : Cells → Tty → Type 0
KeepsScreen screen t = (k : ℕ) → 2000 ≤ k → t.tty_buffer k ≡ screen k

after_call :
    (screen : Cells) (t u : Tty)
    → IsMirror t × KeepsScreen screen t
    → (IsMirror t → Step t u)
    → IsMirror u × KeepsScreen screen u
unfolding Step
after_call screen t u (m, keep) f = let (v, more) = f m in (v, λ k l. more k l ∙ keep k l)

tty_set_tab_size_lem : (size : ℕ) (t : Tty) → IsMirror t → Step t (tty_set_tab_size size t)
unfolding tty_set_tab_size Step
tty_set_tab_size_lem size t ((w, h, bh), tb, ts, rl, bl, cl, s) =
    elim (Bool-cases (ltb 0 size && ltb size t.width)) [
      | inl z ↦ rw z (((w, h, bh), ground arith, ground arith, rl, bl, cl, s), λ k _. refl)
      | inr z ↦ rw z (((w, h, bh), tb, ts, rl, bl, cl, s), λ k _. refl)
    ]

-- After the initialization and any calls, the cursor and the ring's row are in range, the screen shows the last
-- lines of the ring and blanks below the cursor's line, and the memory behind the screen is as it was.
pub Reachable-IsMirror :
    (screen : Cells) (t : Tty) → Reachable screen t → IsMirror t × KeepsScreen screen t
unfolding tty_initialize tty_set_color tty_set_tab_size Step
Reachable-IsMirror screen t initialized =
    tty_clear_lem (blank_tty screen) (refl, refl, refl) (omega arith) (omega arith)
Reachable-IsMirror screen t (putchar c u r) =
    after_call screen u t (Reachable-IsMirror screen u r) (tty_putchar_lem c u)
Reachable-IsMirror screen t (putstring cs u r) =
    after_call screen u t (Reachable-IsMirror screen u r) (tty_putstring_lem cs u)
Reachable-IsMirror screen t (color fg bg u r) = Reachable-IsMirror screen u r
Reachable-IsMirror screen t (tab_size size u r) =
    after_call screen u t (Reachable-IsMirror screen u r) (tty_set_tab_size_lem size u)
Reachable-IsMirror screen t (clear u r) =
    after_call screen u t (Reachable-IsMirror screen u r) (λ m. tty_clear_lem u m.0 m.1 m.2)
