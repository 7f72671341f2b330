-- ===== src/Tty.antt =====
-- kernel/arch/x64/io/tty.c: the terminal. `buffer` is the ring of the last lines, `tty_buffer` the video
-- memory, each cell a function of its index.
pub mod Scroll
mod Lines
mod Put
pub mod Mirror
use lasagne.Base.{
  ℕ, zero, suc, ◌+◌, ◌-◌, ◌*◌, ◌/◌, ◌%◌, ◌^◌, Bool, true, false, List, [], ◌∷◌, bit_or, ◌&&◌, ◌==◌,
  ltb, leb, if◌then◌else◌,
}

abbrev pub Cells : Type 0
Cells = ℕ → ℕ

pub record Tty : Type 0 where
  pub row : ℕ
  pub col : ℕ
  pub width : ℕ
  pub height : ℕ
  pub buffer_row : ℕ
  pub buffer_height : ℕ
  pub tab : ℕ
  pub fg : ℕ
  pub bg : ℕ
  pub flags : ℕ
  pub buffer : ℕ → Cells
  pub tty_buffer : Cells

-- The length of a row of `tty.buffer`.
abbrev pub row_size : ℕ
row_size = 80

abbrev pub memset_zero : (first count : ℕ) → Cells → Cells
memset_zero first count cells = λ k. if leb first k && ltb k (first + count) then 0 else cells k

abbrev pub memcpy : (first count : ℕ) (src : Cells) → Cells → Cells
memcpy first count src cells =
    λ k. if leb first k && ltb k (first + count) then src (k - first) else cells k

abbrev pub set_cell : ℕ → ℕ → Cells → Cells
set_cell i v cells = λ k. if k == i then v else cells k

abbrev pub set_row : ℕ → Cells → (ℕ → Cells) → ℕ → Cells
set_row i r rows = λ j. if j == i then r else rows j

pub buffer_row_up : Tty → Tty
buffer_row_up t =
    let r = (t.buffer_row + 1) % t.buffer_height in
    record t { buffer_row = r; buffer = set_row r (memset_zero 0 row_size (t.buffer r)) t.buffer }

-- `(buffer_row - height + 1) % buffer_height` in `int`, and the correction where it is negative.
pub start_line : (buffer_row height buffer_height : ℕ) → ℕ
start_line buffer_row height buffer_height =
    if leb height (buffer_row + 1)
    then (buffer_row + 1 - height) % buffer_height
    else (let below = (height - (buffer_row + 1)) % buffer_height in
        if below == 0 then 0 else buffer_height - below)

-- The loop that copies the lines up to `buffer_row`: `row` at its end, and the video memory.
pub copy_rows :
    (fuel i row width buffer_row buffer_height : ℕ) (buffer : ℕ → Cells) → Cells → ℕ × Cells
copy_rows zero i row width buffer_row buffer_height buffer cells = (row, cells)
copy_rows (suc fuel) i row width buffer_row buffer_height buffer cells = elim (i == buffer_row) [
  | true ↦ (row, cells)
  | false ↦
      copy_rows fuel ((i + 1) % buffer_height) (row + 1) width buffer_row buffer_height buffer
        (memcpy (width * row) row_size (buffer i) cells)
]

-- The text memory shifted up, and an empty last line.
pub scroll : Tty → Tty
unfolding start_line copy_rows
scroll t =
    let (row, cells) =
      copy_rows t.buffer_height (start_line t.buffer_row t.height t.buffer_height) 0 t.width
        t.buffer_row t.buffer_height t.buffer t.tty_buffer in
    record t { tty_buffer = memset_zero (t.width * row) t.width cells }

pub line_up : Tty → Tty
unfolding scroll buffer_row_up
line_up t =
    let u = buffer_row_up t in
    if ltb u.row (u.height - 1) then record u { row = u.row + 1 } else scroll u

pub special_char : ℕ → Tty → Tty
unfolding line_up
special_char c t =
    if c == b'\n'
    then record (line_up t) { col = 0 }
    else if c == b'\r'
    then record t { col = 0 }
    else if c == b'\t'
    then (let col = t.col + (t.tab - t.col % t.tab) in
        if ltb t.width (col + 1)
        then line_up (record t { col = col % t.width })
        else record t { col = col })
    else t

pub put_char : ℕ → Tty → Tty
unfolding line_up
put_char c t =
    let u = if t.col == t.width then record (line_up t) { col = 0 } else t in
    let ch = bit_or (bit_or (u.fg * 2 ^ 8) (u.bg * 2 ^ 12)) c % 2 ^ 16 in
    record u {
      tty_buffer = set_cell (u.row * u.width + u.col) ch u.tty_buffer;
      buffer = set_row u.buffer_row (set_cell u.col ch (u.buffer u.buffer_row)) u.buffer;
      col = u.col + 1;
    }

pub tty_clear : Tty → Tty
unfolding buffer_row_up
tty_clear t =
    let u = buffer_row_up t in
    record u { tty_buffer = memset_zero 0 (u.width * u.height) u.tty_buffer; col = 0; row = 0 }

-- The state that `tty_initialize` sets, over the video memory `screen`, before it clears the screen.
abbrev pub blank_tty : Cells → Tty
blank_tty screen = record {
  row = 0;
  col = 0;
  width = 80;
  height = 25;
  buffer_row = 0;
  buffer_height = 30;
  tab = 8;
  fg = 15;
  bg = 0;
  flags = 0;
  buffer = λ i j. 0;
  tty_buffer = screen;
}

pub tty_initialize : Cells → Tty
unfolding tty_clear
tty_initialize screen = tty_clear (blank_tty screen)

pub tty_putchar : ℕ → Tty → Tty
unfolding special_char put_char
tty_putchar c t = if ltb 0xff c then t else if ltb c 0x20 then special_char c t else put_char c t

pub tty_set_color : (foreground background : ℕ) → Tty → Tty
tty_set_color foreground background t = record t { fg = foreground; bg = background }

-- A `char` is signed: from 0x80 on it is widened to a `uint32_t` above 0xff.
unfoldable pub widen : ℕ → ℕ
widen c = if ltb c 0x80 then c else c + (2 ^ 32 - 2 ^ 8)

pub tty_putstring : List ℕ → Tty → Tty
unfolding tty_putchar
tty_putstring [] t = t
tty_putstring (c ∷ cs) t = tty_putstring cs (tty_putchar (widen c) t)

-- A size below 0 has no number here, and would be refused as 0 is.
pub tty_set_tab_size : ℕ → Tty → Tty
tty_set_tab_size size t = if ltb 0 size && ltb size t.width then record t { tab = size } else t
