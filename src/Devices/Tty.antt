-- ===== src/Devices/Tty.antt =====
-- kernel/tty.cpp: the text screen of 80 by 25 cells. `t_buf` is the screen and `internal_buf` its
-- copy in memory, a ring of rows that begins at row `internal_buf_i`. The cursor of the hardware,
-- which `move_cursor` sets by port output, is left out.
pub mod Mirror
pub mod Start
mod Tests
use tinylittleos.Common.{
  ℕ, zero, suc, ◌+◌, ◌*◌, ◌%◌, ◌^◌, bit_or, Bool, ◌==◌, if◌then◌else◌, List, [], ◌∷◌,
}

pub record Tty : Type 0 where
  pub t_x : ℕ
  pub t_y : ℕ
  pub t_color : ℕ
  pub t_buf : ℕ → ℕ
  pub internal_buf : ℕ → ℕ
  pub internal_buf_i : ℕ

abbrev pub store : (ℕ → ℕ) → ℕ → ℕ → ℕ → ℕ
store buf i v j = if j == i then v else buf j

abbrev pub vga_entry : (code color : ℕ) → ℕ
vga_entry code color = bit_or code (color * 2 ^ 8 % 2 ^ 16)

unfoldable pub set_char : (code color x y : ℕ) → Tty → Tty
set_char code color x y s = record s {
  t_buf = store s.t_buf (y * 80 + x) (vga_entry code color);
  internal_buf = store s.internal_buf ((y + s.internal_buf_i) % 25 * 80 + x) (vga_entry code color);
}

-- The loops of `tty_scroll`: over the cells of a row from `x` on, over the rows from `y` on, and
-- over the cells of the last row.
unfoldable pub copy_row : (left x y i : ℕ) → (internal buf : ℕ → ℕ) → ℕ → ℕ
copy_row zero x y i internal buf = buf
copy_row (suc left) x y i internal buf =
    copy_row left (x + 1) y i internal (store buf (y * 80 + x) (internal ((y + i) % 25 * 80 + x)))

unfoldable pub copy_rows : (left y i : ℕ) → (internal buf : ℕ → ℕ) → ℕ → ℕ
unfolding copy_row
copy_rows zero y i internal buf = buf
copy_rows (suc left) y i internal buf =
    copy_rows left (y + 1) i internal (copy_row 80 0 y i internal buf)

unfoldable pub clear_row : (left x : ℕ) → Tty → Tty
unfolding set_char
clear_row zero x s = s
clear_row (suc left) x s = clear_row left (x + 1) (set_char 32 s.t_color x 24 s)

unfoldable pub tty_scroll : Tty → Tty
unfolding copy_rows clear_row
tty_scroll s =
    let i = if s.internal_buf_i + 1 == 25 then 0 else s.internal_buf_i + 1 in
    clear_row 80 0
      (record s { internal_buf_i = i; t_buf = copy_rows 25 0 i s.internal_buf s.t_buf })

-- The cursor goes to the start of the next row.
unfoldable pub next_row : Tty → Tty
unfolding tty_scroll
next_row s =
    let s1 = record s { t_x = 0 } in
    if s.t_y == 24 then tty_scroll s1 else record s1 { t_y = s.t_y + 1 }

-- `put`, of a byte.
unfoldable pub put : (c : ℕ) → Tty → Tty
unfolding next_row set_char
put c s =
    let s1 = record (set_char c s.t_color s.t_x s.t_y s) { t_x = s.t_x + 1 } in
    if c == 10 then next_row s else if s.t_x + 1 == 80 then next_row s1 else s1

abbrev pub vga_color : (fg bg : ℕ) → ℕ
vga_color fg bg = bit_or fg (bg * 2 ^ 4 % 2 ^ 8)

unfoldable pub set_color : (fg bg : ℕ) → Tty → Tty
set_color fg bg s = record s { t_color = vga_color fg bg }

-- The loops of `initialize` over the cells of a row from `x` on, and over the rows from `y` on.
unfoldable pub blank_row : (left x y : ℕ) → Tty → Tty
unfolding set_char
blank_row zero x y s = s
blank_row (suc left) x y s = blank_row left (x + 1) y (set_char 32 s.t_color x y s)

unfoldable pub blank_rows : (left y : ℕ) → Tty → Tty
unfolding blank_row
blank_rows zero y s = s
blank_rows (suc left) y s = blank_rows left (y + 1) (blank_row 80 0 y s)

-- Black on white.
unfoldable pub initialize : Tty → Tty
unfolding set_color blank_rows
initialize s = blank_rows 25 0 (set_color 0 15 (record s { t_x = 0; t_y = 0; internal_buf_i = 0 }))
