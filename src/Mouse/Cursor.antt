-- ===== src/Mouse/Cursor.antt =====
-- mouse.h: the cursor's picture, and the pixels that it covers.
use schwarz_kernel.Prelude.{
  ℕ, zero, suc, ◌+◌, ◌*◌, ◌/◌, ◌%◌, ◌^◌, Bool, true, false, not, ◌&&◌, List, [], ◌∷◌, ◌==◌,
  if◌then◌else◌, get_or, sub32,
}
use schwarz_kernel.Mouse.Packet.{int_lt}

-- The frame buffer by index, `cursor_saved` by row and column; the previous position is two ints by their bits.
pub record Screen : Type 0 where
  pub fb : ℕ → ℕ
  pub saved : ℕ → ℕ
  pub saved_valid : Bool
  pub prev_x : ℕ
  pub prev_y : ℕ

-- 1 is black, 2 white and 0 transparent.
unfoldable pub windows_cursor : List ℕ
windows_cursor =
    1 ∷ 1 ∷ 0 ∷ 0 ∷ 0 ∷ 0 ∷ 0 ∷ 0 ∷ 0 ∷ 0 ∷ 0 ∷ 0 ∷ 1 ∷ 2 ∷ 1 ∷ 0 ∷ 0 ∷ 0 ∷ 0 ∷ 0 ∷ 0 ∷ 0 ∷ 0 ∷ 0
    ∷ 1 ∷ 2 ∷ 2 ∷ 1 ∷ 0 ∷ 0 ∷ 0 ∷ 0 ∷ 0 ∷ 0 ∷ 0 ∷ 0 ∷ 1 ∷ 2 ∷ 2 ∷ 2 ∷ 1 ∷ 0 ∷ 0 ∷ 0 ∷ 0 ∷ 0 ∷ 0 ∷ 0
    ∷ 1 ∷ 2 ∷ 2 ∷ 2 ∷ 2 ∷ 1 ∷ 0 ∷ 0 ∷ 0 ∷ 0 ∷ 0 ∷ 0 ∷ 1 ∷ 2 ∷ 2 ∷ 2 ∷ 2 ∷ 2 ∷ 1 ∷ 0 ∷ 0 ∷ 0 ∷ 0 ∷ 0
    ∷ 1 ∷ 2 ∷ 2 ∷ 2 ∷ 2 ∷ 2 ∷ 2 ∷ 1 ∷ 0 ∷ 0 ∷ 0 ∷ 0 ∷ 1 ∷ 2 ∷ 2 ∷ 2 ∷ 2 ∷ 2 ∷ 2 ∷ 2 ∷ 1 ∷ 0 ∷ 0 ∷ 0
    ∷ 1 ∷ 2 ∷ 2 ∷ 2 ∷ 2 ∷ 2 ∷ 2 ∷ 2 ∷ 2 ∷ 1 ∷ 0 ∷ 0 ∷ 1 ∷ 2 ∷ 2 ∷ 2 ∷ 2 ∷ 2 ∷ 2 ∷ 2 ∷ 2 ∷ 2 ∷ 1 ∷ 0
    ∷ 1 ∷ 2 ∷ 2 ∷ 2 ∷ 2 ∷ 2 ∷ 1 ∷ 1 ∷ 1 ∷ 1 ∷ 1 ∷ 1 ∷ 1 ∷ 2 ∷ 2 ∷ 1 ∷ 2 ∷ 2 ∷ 1 ∷ 0 ∷ 0 ∷ 0 ∷ 0 ∷ 0
    ∷ 1 ∷ 2 ∷ 1 ∷ 0 ∷ 1 ∷ 2 ∷ 2 ∷ 1 ∷ 0 ∷ 0 ∷ 0 ∷ 0 ∷ 1 ∷ 1 ∷ 0 ∷ 0 ∷ 1 ∷ 2 ∷ 2 ∷ 1 ∷ 0 ∷ 0 ∷ 0 ∷ 0
    ∷ 0 ∷ 0 ∷ 0 ∷ 0 ∷ 0 ∷ 1 ∷ 2 ∷ 2 ∷ 1 ∷ 0 ∷ 0 ∷ 0 ∷ 0 ∷ 0 ∷ 0 ∷ 0 ∷ 0 ∷ 1 ∷ 2 ∷ 2 ∷ 1 ∷ 0 ∷ 0 ∷ 0
    ∷ 0 ∷ 0 ∷ 0 ∷ 0 ∷ 0 ∷ 0 ∷ 1 ∷ 1 ∷ 0 ∷ 0 ∷ 0 ∷ 0 ∷ []

abbrev pub store : ℕ → ℕ → (ℕ → ℕ) → ℕ → ℕ
store i v mem j = if j == i then v else mem j

-- A pixel of the cursor at `x`, `y` is its number, row by row; its place on the screen:
abbrev pub column : ℕ → ℕ → ℕ
column x k = (x + k % 12) % 2 ^ 32

abbrev pub row : ℕ → ℕ → ℕ
row y k = (y + k / 12) % 2 ^ 32

abbrev pub pixel_index : ℕ → ℕ → ℕ → ℕ → ℕ
pixel_index width x y k = (row y k * width + column x k) % 2 ^ 32

-- The edge test.
unfoldable pub on_screen : ℕ → ℕ → ℕ → ℕ → ℕ → Bool
on_screen width height x y k =
    not (int_lt (column x k) 0)
    && int_lt (column x k) width
    && not (int_lt (row y k) 0)
    && int_lt (row y k) height

-- A pixel that is on the screen and not transparent.
unfoldable pub covers : ℕ → ℕ → ℕ → ℕ → ℕ → Bool
covers width height x y k = on_screen width height x y k && not (get_or windows_cursor k 0 == 0)

unfoldable pub cursor_colour : ℕ → ℕ
cursor_colour pixel_type = if pixel_type == 1 then 0x000000 else 0xFFFFFF

-- The body of cursor_draw's loops: the pixel is saved, then painted.
unfoldable pub draw_pixel : ℕ → ℕ → ℕ → ℕ → ℕ → Screen → Screen
draw_pixel width height x y k s =
    let i = pixel_index width x y k in
    if covers width height x y k
    then record s {
      saved = store k (s.fb i) s.saved;
      fb = store i (cursor_colour (get_or windows_cursor k 0)) s.fb;
    }
    else s

-- The body of cursor_erase's loops.
unfoldable pub erase_pixel : ℕ → ℕ → ℕ → ℕ → ℕ → Screen → Screen
erase_pixel width height x y k s =
    if covers width height x y k
    then record s { fb = store (pixel_index width x y k) (s.saved k) s.fb }
    else s

-- Both loops, from pixel `k` on for `n` pixels.
unfoldable pub draw_loop : ℕ → ℕ → ℕ → ℕ → ℕ → ℕ → Screen → Screen
draw_loop width height x y zero k s = s
draw_loop width height x y (suc n) k s =
    draw_loop width height x y n (k + 1) (draw_pixel width height x y k s)

unfoldable pub erase_loop : ℕ → ℕ → ℕ → ℕ → ℕ → ℕ → Screen → Screen
erase_loop width height x y zero k s = s
erase_loop width height x y (suc n) k s =
    erase_loop width height x y n (k + 1) (erase_pixel width height x y k s)

-- 17 rows of 12 pixels.
unfoldable pub cursor_draw : ℕ → ℕ → ℕ → ℕ → Screen → Screen
cursor_draw width height x y s = record (draw_loop width height x y 204 0 s) {
  saved_valid = true;
  prev_x = x;
  prev_y = y;
}

unfoldable pub cursor_erase : ℕ → ℕ → Screen → Screen
cursor_erase width height s =
    if s.saved_valid
    then record (erase_loop width height s.prev_x s.prev_y 204 0 s) { saved_valid = false }
    else s

-- One pixel of the cross that draw_cursor paints, if it is on the screen; `px` and `py` are ints.
unfoldable pub cross_pixel : ℕ → ℕ → ℕ → ℕ → ℕ → (ℕ → ℕ) → ℕ → ℕ
cross_pixel width height colour px py fb =
    if not (int_lt px 0) && int_lt px width && not (int_lt py 0) && int_lt py height
    then store ((py * width + px) % 2 ^ 32) colour fb
    else fb

-- `n` steps of a loop over i, from `i` - 2 on.
unfoldable pub cross_row : ℕ → ℕ → ℕ → ℕ → ℕ → ℕ → ℕ → (ℕ → ℕ) → ℕ → ℕ
cross_row width height colour x y zero i fb = fb
cross_row width height colour x y (suc n) i fb =
    cross_row width height colour x y n (i + 1)
      (cross_pixel width height colour (sub32 (x + i) 2) y fb)

unfoldable pub cross_column : ℕ → ℕ → ℕ → ℕ → ℕ → ℕ → ℕ → (ℕ → ℕ) → ℕ → ℕ
cross_column width height colour x y zero i fb = fb
cross_column width height colour x y (suc n) i fb =
    cross_column width height colour x y n (i + 1)
      (cross_pixel width height colour x (sub32 (y + i) 2) fb)

unfoldable pub draw_cursor : ℕ → ℕ → ℕ → ℕ → ℕ → (ℕ → ℕ) → ℕ → ℕ
draw_cursor width height x y colour fb =
    cross_column width height colour x y 5 0 (cross_row width height colour x y 5 0 fb)
