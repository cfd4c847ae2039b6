-- ===== src/Devices/Tty/Tests.antt =====
-- kernel/tty.cpp on a blank screen.
use tinylittleos.Common.{◌≡◌, refl, [], ◌∷◌}
use tinylittleos.Devices.Tty.{
  Tty, put, tty_scroll, next_row, set_char, copy_rows, copy_row, clear_row, initialize,
}
use tinylittleos.Devices.Tty.Mirror.{IsScreen}
use tinylittleos.Devices.Tty.Start.{character, color, show, show-initialize}

-- The cursor is on the last cell of the last row.
abbrev blank : Tty
blank = record {
  t_x = 79;
  t_y = 24;
  t_color = 240;
  t_buf = λ _. 61472;
  internal_buf = λ _. 61472;
  internal_buf_i = 7;
}

-- A character in the last cell scrolls: it stands in the row above.
scrolled : (put 65 blank).t_buf 1919 ≡ 61505
unfolding put next_row tty_scroll set_char copy_rows copy_row clear_row
scrolled = refl

show-initialize_example :
    IsScreen (show (character 65 ∷ color 4 0 ∷ character 10 ∷ []) (initialize blank))
show-initialize_example = show-initialize (character 65 ∷ color 4 0 ∷ character 10 ∷ []) blank

-- The screen is blank at first, black on white.
started : (initialize blank).t_buf 1234 ≡ 0xf020
unfolding initialize
started = refl
