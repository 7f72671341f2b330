-- ===== src/Tty/Scroll.antt =====
-- kernel/arch/x64/io/tty.c: what the screen shows, and the loop that scrolls it.
use lasagne.Base.{
  ℕ, zero, suc, ◌+◌, ◌-◌, ◌*◌, ◌%◌, ◌≤◌, ◌<◌, ◌≡◌, refl, sym, ◌∙◌, inl, inr, ◌⊎◌, arith, true,
  false, ◌==◌, ltb, leb, ◌&&◌, Bool-cases,
}
use lasagne.Tty.{Cells, Tty, row_size, memset_zero, memcpy, start_line, copy_rows}

-- Rows of the screen up to the cursor's show the last lines of the ring, the others are blank.
abbrev pub Shows : (buffer : ℕ → Cells) (buffer_row row : ℕ) → Cells → Type 0
Shows buffer buffer_row row cells =
    ((r c : ℕ)
      → r ≤ row
      → c < 80
      → cells (80 * r + c) ≡ buffer ((buffer_row + 30 + r - row) % 30) c)
    × ((k : ℕ) → 80 * (row + 1) ≤ k → k < 2000 → cells k ≡ 0)

abbrev pub HasSize : Tty → Type 0
HasSize t = (t.width ≡ 80) × (t.height ≡ 25) × (t.buffer_height ≡ 30)

abbrev pub IsMirror : Tty → Type 0
IsMirror t =
    HasSize t
    × (0 < t.tab)
    × (t.tab < 80)
    × (t.col ≤ 80)
    × (t.row < 25)
    × (t.buffer_row < 30)
    × Shows t.buffer t.buffer_row t.row t.tty_buffer

-- The memory behind the screen is left as it was.
abbrev pub KeepsRest : Tty → Tty → Type 0
KeepsRest t u = (k : ℕ) → 2000 ≤ k → u.tty_buffer k ≡ t.tty_buffer k

pub memcpy-in :
    (first count : ℕ) (src cells : Cells) (c : ℕ)
    → c < count
    → memcpy first count src cells (first + c) ≡ src c
memcpy-in first count src cells c h =
    let e : (leb first (first + c) && ltb (first + c) (first + count)) ≡ true = ground arith in
    let d : first + c - first ≡ c = omega arith in rw (e, d) refl

pub memcpy-out :
    (first count : ℕ) (src cells : Cells) (k : ℕ)
    → (k < first) ⊎ (first + count ≤ k)
    → memcpy first count src cells k ≡ cells k
memcpy-out first count src cells k h =
    let e : (leb first k && ltb k (first + count)) ≡ false = ground arith in rw e refl

pub memset-in :
    (first count : ℕ) (cells : Cells) (k : ℕ)
    → first ≤ k
    → k < first + count
    → memset_zero first count cells k ≡ 0
memset-in first count cells k h l =
    let e : (leb first k && ltb k (first + count)) ≡ true = ground arith in rw e refl

pub memset-out :
    (first count : ℕ) (cells : Cells) (k : ℕ)
    → (k < first) ⊎ (first + count ≤ k)
    → memset_zero first count cells k ≡ cells k
memset-out first count cells k h =
    let e : (leb first k && ltb k (first + count)) ≡ false = ground arith in rw e refl

-- What the loop has copied when `d` lines are left.
pub Copied : (buffer : ℕ → Cells) (d i row : ℕ) → Cells → ℕ × Cells → Type 0
Copied buffer d i row cells out =
    (out.0 ≡ row + d)
    × ((j c : ℕ) → j < d → c < 80 → out.1 (80 * (row + j) + c) ≡ buffer ((i + j) % 30) c)
    × ((k : ℕ) → (k < 80 * row) ⊎ (80 * (row + d) ≤ k) → out.1 k ≡ cells k)

pub rows_next :
    (buffer : ℕ → Cells) (d i row : ℕ) (cells last : Cells)
    → i < 30
    → ((j c : ℕ)
        → j < d
        → c < 80
        → last (80 * (row + 1 + j) + c) ≡ buffer (((i + 1) % 30 + j) % 30) c)
    → ((k : ℕ)
        → (k < 80 * (row + 1)) ⊎ (80 * (row + 1 + d) ≤ k)
        → last k ≡ memcpy (80 * row) row_size (buffer i) cells k)
    → (j c : ℕ) → j < suc d
    → c < 80
    → last (80 * (row + j) + c) ≡ buffer ((i + j) % 30) c
rows_next buffer d i row cells last h rows rest zero c _ l =
    let a : (i + 0) % 30 ≡ i = omega arith in
    let b : row + 0 ≡ row = omega arith in
    rw (a, b)
      (rest (80 * row + c) (inl (omega arith)) ∙ memcpy-in (80 * row) row_size (buffer i) cells c l)
rows_next buffer d i row cells last h rows rest (suc j) c k l =
    let a : 80 * (row + 1 + j) + c ≡ 80 * (row + suc j) + c = omega arith in
    let b : ((i + 1) % 30 + j) % 30 ≡ (i + suc j) % 30 = omega arith in
    rw (sym a, sym b) (rows j c (omega arith) l)

pub Copied-next :
    (buffer : ℕ → Cells) (d i row : ℕ) (cells : Cells) (out : ℕ × Cells)
    → i < 30
    → Copied buffer d ((i + 1) % 30) (row + 1) (memcpy (80 * row) row_size (buffer i) cells) out
    → Copied buffer (suc d) i row cells out
unfolding Copied
Copied-next buffer d i row cells out h (n, rows, rest) = (
  omega arith,
  rows_next buffer d i row cells out.1 h rows rest,
  λ k l. rest k (omega arith) ∙ memcpy-out (80 * row) row_size (buffer i) cells k (omega arith),
)

pub copy_rows_lem :
    (buffer : ℕ → Cells) (buffer_row fuel d i row : ℕ) (cells : Cells)
    → buffer_row ≡ (i + d) % 30
    → d < fuel
    → d < 30
    → i < 30
    → Copied buffer d i row cells (copy_rows fuel i row 80 buffer_row 30 buffer cells)
unfolding copy_rows Copied
copy_rows_lem buffer b zero d i row cells e l _ _ = absurd (omega arith)
copy_rows_lem buffer b (suc fuel) zero i row cells q l h k =
    let e : (i == b) ≡ true = ground arith in
    rw (copy_rows, e) (omega arith, λ j c h _. absurd (omega arith), λ k _. refl)
copy_rows_lem buffer b (suc fuel) (suc d) i row cells q l h k =
    let e : (i == b) ≡ false = ground arith in
    rw (copy_rows, e)
      (Copied-next buffer d i row cells _ k (
        copy_rows_lem buffer b fuel d ((i + 1) % 30) (row + 1)
          (memcpy (80 * row) row_size (buffer i) cells) (omega arith) (omega arith) (omega arith)
          (omega arith)))

pub start_line_lem :
    (b : ℕ) → b < 30 → (start_line b 25 30 < 30) × (b ≡ (start_line b 25 30 + 24) % 30)
unfolding start_line
start_line_lem b h = (ground arith, ground arith)

-- The text memory after the loop and the `memset` behind it.
unfoldable pub scrolled : (buffer : ℕ → Cells) (b : ℕ) → Cells → Cells
scrolled buffer b screen =
    let (row, cells) = copy_rows 30 (start_line b 25 30) 0 80 b 30 buffer screen in
    memset_zero (80 * row) 80 cells

pub scrolled_row :
    (buffer : ℕ → Cells) (b : ℕ) (screen : Cells)
    → b < 30
    → ((c : ℕ) → c < 80 → buffer b c ≡ 0)
    → (r c : ℕ) → r ≤ 24
    → c < 80
    → scrolled buffer b screen (80 * r + c) ≡ buffer ((b + 30 + r - 24) % 30) c
unfolding scrolled Copied
scrolled_row buffer b screen h blank r c k l =
    let (s, e) = start_line_lem b h in
    let start = start_line b 25 30 in
    let out = copy_rows 30 start 0 80 b 30 buffer screen in
    let (n, rows, rest) =
      copy_rows_lem buffer b 30 24 start 0 screen e (omega arith) (omega arith) s in
    rw n (elim (Bool-cases (ltb r 24)) [
      | inl q ↦
          let p : r < 24 = ground arith in
          let zero_r : 80 * r + c ≡ 80 * (0 + r) + c = omega arith in
          let i : (start + r) % 30 ≡ (b + 30 + r - 24) % 30 = omega arith in
          memset-out 1920 80 out.1 (80 * r + c) (inl (omega arith))
          ∙ rw (zero_r, sym i) (rows r c p l)
      | inr q ↦
          let p : r ≡ 24 = ground arith in
          let i : (b + 30 + r - 24) % 30 ≡ b = omega arith in
          memset-in 1920 80 out.1 (80 * r + c) (omega arith) (omega arith) ∙ rw i (sym (blank c l))
    ])

pub scrolled_rest :
    (buffer : ℕ → Cells) (b : ℕ) (screen : Cells)
    → b < 30
    → (k : ℕ) → 2000 ≤ k
    → scrolled buffer b screen k ≡ screen k
unfolding scrolled Copied
scrolled_rest buffer b screen h k l =
    let (s, e) = start_line_lem b h in
    let out = copy_rows 30 (start_line b 25 30) 0 80 b 30 buffer screen in
    let (n, rows, rest) =
      copy_rows_lem buffer b 30 24 (start_line b 25 30) 0 screen e (omega arith) (omega arith) s in
    rw n (memset-out 1920 80 out.1 k (inr (omega arith)) ∙ rest k (inr (omega arith)))
