-- ===== src/Devices/Tty/Mirror.antt =====
-- kernel/tty.cpp: the screen and its copy in memory stay the same.
use tinylittleos.Common.{
  ℕ, zero, suc, ◌+◌, ◌-◌, ◌*◌, ◌%◌, ◌<◌, ◌≤◌, ◌≡◌, refl, ap, ◌∙◌, Bool, true, false, ◌&&◌, ◌==◌,
  leb, ltb, if◌then◌else◌, arith,
}
use tinylittleos.Devices.Tty.{
  Tty, set_char, copy_row, copy_rows, clear_row, tty_scroll, next_row, put,
}

-- The cursor is on the screen, and every cell of the screen is that of its row of the ring.
pub record IsScreen (s : Tty) : Type 0 where
  pub column : s.t_x < 80
  pub row : s.t_y < 25
  pub start : s.internal_buf_i < 25
  pub same :
      (x y : ℕ)
      → x < 80
      → y < 25
      → s.t_buf (y * 80 + x) ≡ s.internal_buf ((y + s.internal_buf_i) % 25 * 80 + x)

set_char-same :
    (code color x y : ℕ) (s : Tty)
    → x < 80
    → y < 25
    → IsScreen s
    → IsScreen (set_char code color x y s)
unfolding set_char
set_char-same code color x y s hx hy w = record {
  column = w.column;
  row = w.row;
  start = w.start;
  same = λ x' y' hx' hy'. ground (arith, w.same x' y' hx' hy', w.start);
}

copy_row-cells :
    (left x y i : ℕ) (internal buf : ℕ → ℕ) (a : ℕ)
    → copy_row left x y i internal buf a ≡ (
        if leb (y * 80 + x) a && ltb a (y * 80 + x + left)
        then internal ((y + i) % 25 * 80 + (a - y * 80))
        else buf a)
unfolding copy_row
copy_row-cells zero x y i internal buf a = ground arith
copy_row-cells (suc left) x y i internal buf a =
    copy_row-cells left (x + 1) y i internal _ a
    ∙ ground (arith, ap internal {x = (y + i) % 25 * 80 + x} {y = (y + i) % 25 * 80 + (a - y * 80)})

copy_row-row :
    (y i : ℕ) (internal buf : ℕ → ℕ) (x y' : ℕ)
    → x < 80
    → copy_row 80 0 y i internal buf (y' * 80 + x)
      ≡ (if y' == y then internal ((y' + i) % 25 * 80 + x) else buf (y' * 80 + x))
copy_row-row y i internal buf x y' hx =
    copy_row-cells 80 0 y i internal buf (y' * 80 + x)
    ∙ ground (
      arith,
      ap internal {x = (y + i) % 25 * 80 + (y' * 80 + x - y * 80)} {y = (y' + i) % 25 * 80 + x},
    )

join_rows :
    (y y' left v b : ℕ)
    → (if leb (y + 1) y' && ltb y' (y + 1 + left) then v else if y' == y then v else b)
      ≡ (if leb y y' && ltb y' (y + suc left) then v else b)
join_rows y y' left v b = ground arith

copy_rows-row :
    (left y i : ℕ) (internal buf : ℕ → ℕ) (x y' : ℕ)
    → x < 80
    → copy_rows left y i internal buf (y' * 80 + x) ≡ (
        if leb y y' && ltb y' (y + left)
        then internal ((y' + i) % 25 * 80 + x)
        else buf (y' * 80 + x))
unfolding copy_rows
copy_rows-row zero y i internal buf x y' hx = ground arith
copy_rows-row (suc left) y i internal buf x y' hx =
    copy_rows-row left (y + 1) i internal (copy_row 80 0 y i internal buf) x y' hx
    ∙ ap
        (λ b.
          if leb (y + 1) y' && ltb y' (y + 1 + left) then internal ((y' + i) % 25 * 80 + x) else b)
        (copy_row-row y i internal buf x y' hx)
    ∙ join_rows y y' left _ _

clear_row-IsScreen :
    (left x : ℕ) (s : Tty) → x + left ≤ 80 → IsScreen s → IsScreen (clear_row left x s)
unfolding clear_row
clear_row-IsScreen zero x s h w = w
clear_row-IsScreen (suc left) x s h w =
    clear_row-IsScreen left (x + 1) _ (omega arith)
      (set_char-same 32 s.t_color x 24 s (omega arith) (omega arith) w)

next_start : (i : ℕ) → i < 25 → (if i + 1 == 25 then 0 else i + 1) < 25
next_start i h = ground arith

tty_scroll-IsScreen : (s : Tty) → IsScreen s → IsScreen (tty_scroll s)
unfolding tty_scroll
tty_scroll-IsScreen s w =
    let i = if s.internal_buf_i + 1 == 25 then 0 else s.internal_buf_i + 1 in
    clear_row-IsScreen 80 0
      (record s { internal_buf_i = i; t_buf = copy_rows 25 0 i s.internal_buf s.t_buf })
      (omega arith)
      (record {
        column = w.column;
        row = w.row;
        start = next_start s.internal_buf_i w.start;
        same = λ x y hx hy. copy_rows-row 25 0 i s.internal_buf s.t_buf x y hx ∙ ground arith;
      })

if_cases {ℓ} :
    {A : Type ℓ} (P : A → Type 0) (b : Bool) {x y : A}
    → (b ≡ true → P x)
    → (b ≡ false → P y)
    → P (if b then x else y)
if_cases P true f g = f refl
if_cases P false f g = g refl

next_row-IsScreen : (s : Tty) → s.t_y < 25 → IsScreen (record s { t_x = 0 }) → IsScreen (next_row s)
unfolding next_row
next_row-IsScreen s hy w =
    if_cases IsScreen (s.t_y == 24) (λ h. tty_scroll-IsScreen (record s { t_x = 0 }) w)
      (λ h. record { column = omega arith; row = ground arith; start = w.start; same = w.same })

-- `put` of any character on a screen whose cursor is inside it leaves the cursor inside, and every
-- cell of the screen the same as its cell of the copy in memory, also when the screen scrolls.
pub put-IsScreen : (c : ℕ) (s : Tty) → IsScreen s → IsScreen (put c s)
unfolding put
put-IsScreen c s w =
    let v = set_char-same c s.t_color s.t_x s.t_y s w.column w.row w in
    if_cases IsScreen (c == 10)
      (λ h.
        next_row-IsScreen s w.row
          (record { column = omega arith; row = w.row; start = w.start; same = w.same }))
      (λ h.
        if_cases IsScreen (s.t_x + 1 == 80)
          (λ h1.
            next_row-IsScreen (record (set_char c s.t_color s.t_x s.t_y s) { t_x = s.t_x + 1 })
              w.row (record { column = omega arith; row = w.row; start = w.start; same = v.same }))
          (λ h1. record {
            column = ground (arith, w.column);
            row = w.row;
            start = w.start;
            same = v.same;
          }))
