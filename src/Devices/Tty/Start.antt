-- ===== src/Devices/Tty/Start.antt =====
-- kernel/tty.cpp: the screen from `initialize` on.
use tinylittleos.Common.{
  ℕ, zero, suc, ◌+◌, ◌*◌, ◌%◌, ◌<◌, ◌≡◌, refl, subst, bit_or, List, [], ◌∷◌, arith,
}
use tinylittleos.Devices.Tty.{Tty, set_char, blank_row, blank_rows, set_color, initialize, put}
use tinylittleos.Devices.Tty.Mirror.{IsScreen, put-IsScreen}

-- The cells before row `y`, and in it those before column `x`, are those of the copy.
record Cleared (x y : ℕ) (s : Tty) : Type 0 where
  corner : (s.t_x ≡ 0) × (s.t_y ≡ 0) × (s.internal_buf_i ≡ 0)
  same :
      (x' y' : ℕ)
      → x' < 80
      → y' < 25
      → y' * 80 + x' < y * 80 + x
      → s.t_buf (y' * 80 + x') ≡ s.internal_buf ((y' + s.internal_buf_i) % 25 * 80 + x')

set_char-Cleared :
    (x y : ℕ) (s : Tty)
    → x < 80
    → y < 25
    → Cleared x y s
    → Cleared (x + 1) y (set_char 32 s.t_color x y s)
unfolding set_char
set_char-Cleared x y s hx hy c = record {
  corner = c.corner;
  same = λ x' y' hx' hy' lt. ground (arith, c.same x' y' hx' hy', c.corner);
}

blank_row-Cleared :
    (left x y : ℕ) (s : Tty)
    → x + left ≡ 80
    → y < 25
    → Cleared x y s
    → Cleared 80 y (blank_row left x y s)
unfolding blank_row
blank_row-Cleared zero x y s e hy c = subst (λ n. Cleared n y s) (omega arith) c
blank_row-Cleared (suc left) x y s e hy c =
    blank_row-Cleared left (x + 1) y (set_char 32 s.t_color x y s) (omega arith) hy
      (set_char-Cleared x y s (omega arith) hy c)

blank_rows-Cleared :
    (left y : ℕ) (s : Tty) → y + left ≡ 25 → Cleared 0 y s → Cleared 0 25 (blank_rows left y s)
unfolding blank_rows
blank_rows-Cleared zero y s e c = subst (λ n. Cleared 0 n s) (omega arith) c
blank_rows-Cleared (suc left) y s e c =
    let row = blank_row-Cleared 80 0 y s refl (omega arith) c in
    blank_rows-Cleared left (y + 1) (blank_row 80 0 y s) (omega arith)
      (record { corner = row.corner; same = λ x' y' hx hy lt. row.same x' y' hx hy (omega arith) })

initialize-IsScreen : (s : Tty) → IsScreen (initialize s)
unfolding initialize set_color
initialize-IsScreen s =
    let start = record s { t_x = 0; t_y = 0; t_color = bit_or 0 240; internal_buf_i = 0 } in
    let c =
      blank_rows-Cleared 25 0 start refl
        (record { corner = (refl, refl, refl); same = λ x y hx hy lt. absurd (omega arith) }) in
    record {
      column = omega (arith, c.corner);
      row = omega (arith, c.corner);
      start = omega (arith, c.corner);
      same = λ x y hx hy. c.same x y hx hy (omega arith);
    }

-- What the kernel does with the terminal.
pub data Output : Type 0 where
  character : (c : ℕ) → Output
  color : (fg bg : ℕ) → Output

unfoldable pub show : List Output → Tty → Tty
unfolding put set_color
show [] s = s
show (character c ∷ out) s = show out (put c s)
show (color fg bg ∷ out) s = show out (set_color fg bg s)

show-IsScreen : (out : List Output) (s : Tty) → IsScreen s → IsScreen (show out s)
unfolding show
show-IsScreen [] s w = w
show-IsScreen (character c ∷ out) s w = show-IsScreen out (put c s) (put-IsScreen c s w)
show-IsScreen (color fg bg ∷ out) s w =
    show-IsScreen out (set_color fg bg s) (
      unfold set_color in record { column = w.column; row = w.row; start = w.start; same = w.same })

-- After `initialize`, whatever the memory of the screen and of its copy held, and after any
-- characters that are put and colours that are set, the cursor is on the screen, and every cell of the
-- screen is the same as its cell of the copy.
pub show-initialize : (out : List Output) (s : Tty) → IsScreen (show out (initialize s))
show-initialize out s = show-IsScreen out (initialize s) (initialize-IsScreen s)
