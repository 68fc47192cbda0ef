-- ===== src/Mouse/Tests.antt =====
-- Runs of the mouse.
use schwarz_kernel.Prelude.{◌^◌, ◌-◌, ◌≡◌, refl, true, false, [], ◌∷◌, arith}
use schwarz_kernel.Mouse.Packet.{
  Mouse, movement, clamp, scroll_of, move, apply_packet, handle_byte, mouse_handler_c, interrupts,
}
use schwarz_kernel.Mouse.Position.{MouseIsValid, interrupts-MouseIsValid}
use schwarz_kernel.Mouse.Cursor.{
  Screen, windows_cursor, on_screen, covers, cursor_colour, draw_pixel, draw_loop, cursor_draw,
  cursor_erase,
}
use schwarz_kernel.Mouse.Restore.{cursor_erase-cursor_draw}
use schwarz_kernel.Mouse.Moves.{packet-moves}

abbrev centred : Mouse
centred = record {
  x = 640;
  y = 400;
  left = false;
  right = false;
  scroll = 0;
  packet = 0 ∷ 0 ∷ 0 ∷ 0 ∷ [];
  packet_idx = 0;
  has_scroll = false;
  packet_size = 3;
  cursor_dirty = true;
}

abbrev moved : Mouse
moved = interrupts 1280 800 ((0x21, 0x01) ∷ (0x21, 0x19) ∷ (0x21, 0x00) ∷ (0x21, 0x05) ∷ []) centred

-- A byte out of step is dropped; then a packet moves the pointer to the left and up, with the left button down.
interrupts_left : (moved.x ≡ 384) × (moved.y ≡ 395) × (moved.left ≡ true)
unfolding movement clamp scroll_of move apply_packet handle_byte mouse_handler_c interrupts
interrupts_left = (refl, refl, refl)

centred-MouseIsValid : MouseIsValid 1280 800 centred
centred-MouseIsValid = record {
  x_in = omega arith;
  y_in = omega arith;
  in_packet = omega arith;
  fits = omega arith;
}

interrupts-MouseIsValid_example :
    MouseIsValid 1280 800
      (interrupts 1280 800 ((0x21, 0x08) ∷ (0x21, 0xFF) ∷ (0x21, 0xFF) ∷ []) centred)
interrupts-MouseIsValid_example =
    interrupts-MouseIsValid 1280 800 (omega arith) (omega arith) (omega arith) (omega arith) _
      centred centred-MouseIsValid

packet-moves_example :
    (m' : Mouse) × (interrupts 1280 800 ((0x21, 0x18) ∷ (0x21, 0xF0) ∷ (0x21, 0x05) ∷ []) centred
      ≡ m')
    × (m'.x ≡ 640 - 16)
    × (m'.y ≡ 400 - 5)
    × (m'.packet_idx ≡ 0)
packet-moves_example =
    packet-moves 1280 800 0x21 0x21 0x21 0x18 0xF0 0x05 0 0 0 0 centred refl refl refl refl refl
      refl refl (omega arith) (omega arith) (omega arith) (omega arith) (omega arith) (omega arith)

abbrev blank : Screen
blank = record {
  fb = λ i. i;
  saved = λ k. 0;
  saved_valid = false;
  prev_x = 2 ^ 32 - 1;
  prev_y = 2 ^ 32 - 1;
}

-- Half of the cursor is beside the screen.
cursor_erase-cursor_draw_example :
    (cursor_erase 1280 800 (cursor_draw 1280 800 1275 790 blank)).fb 1012475 ≡ 1012475
cursor_erase-cursor_draw_example =
    cursor_erase-cursor_draw 1280 800 1275 790 blank 1012475 (omega arith) (omega arith)
      (omega arith)

-- The hot spot is black.
cursor_draw_black : (cursor_draw 1280 800 1275 790 blank).fb 1012475 ≡ 0
unfolding cursor_draw draw_loop draw_pixel covers on_screen cursor_colour windows_cursor
cursor_draw_black = refl
