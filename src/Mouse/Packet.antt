-- ===== src/Mouse/Packet.antt =====
-- mouse.h: MouseState with the packet in progress, and mouse_handler_c.
use schwarz_kernel.Prelude.{
  ℕ, ◌+◌, ◌%◌, ◌^◌, Bool, true, not, ◌&&◌, ◌||◌, List, [], ◌∷◌, ◌==◌, ltb, leb, if◌then◌else◌,
  get_or, set, sub32, has_bit,
}

-- `x` and `y` are ints by their 32 bits, `scroll` an int8_t by its 8 bits. `cursor_dirty` is among the fields.
pub record Mouse : Type 0 where
  pub x : ℕ
  pub y : ℕ
  pub left : Bool
  pub right : Bool
  pub scroll : ℕ
  pub packet : List ℕ
  pub packet_idx : ℕ
  pub has_scroll : Bool
  pub packet_size : ℕ
  pub cursor_dirty : Bool

-- `<` of ints, on their bits
abbrev pub int_lt : ℕ → ℕ → Bool
int_lt a b = ltb ((a + 2 ^ 31) % 2 ^ 32) ((b + 2 ^ 31) % 2 ^ 32)

-- A byte of the packet with the sign that the flags have for it.
unfoldable pub movement : Bool → ℕ → ℕ
movement negative byte = if negative then sub32 byte 256 else byte

-- Both tests of one coordinate.
unfoldable pub clamp : ℕ → ℕ → ℕ
clamp limit v =
    let low = if int_lt v 0 then 0 else v in if int_lt low limit then low else sub32 limit 1

-- The wheel's four bits, with their sign.
unfoldable pub scroll_of : ℕ → ℕ
scroll_of byte = if ltb 7 (byte % 16) then byte % 16 + 240 else byte % 16

-- The screen has `width` columns and `height` rows, g_max_y + 10.
unfoldable pub move : ℕ → ℕ → Mouse → Mouse
move width height m =
    let flags = get_or m.packet 0 0 in
    let dx = movement (has_bit flags 4) (get_or m.packet 1 0) in
    let dy = movement (has_bit flags 5) (get_or m.packet 2 0) in
    record m {
      left = has_bit flags 0;
      right = has_bit flags 1;
      scroll = if m.has_scroll then scroll_of (get_or m.packet 3 0) else m.scroll;
      x = clamp width ((m.x + dx) % 2 ^ 32);
      y = clamp height (sub32 m.y dy);
      cursor_dirty = true;
    }

-- A packet that is complete.
unfoldable pub apply_packet : ℕ → ℕ → Mouse → Mouse
apply_packet width height m =
    let flags = get_or m.packet 0 0 in
    if has_bit flags 6 || has_bit flags 7 then m else move width height m

-- A byte from the mouse. The first of a packet has its has_bit set 3.
unfoldable pub handle_byte : ℕ → ℕ → ℕ → Mouse → Mouse
handle_byte width height byte m =
    let next = record m {
      packet = set m.packet m.packet_idx byte;
      packet_idx = m.packet_idx + 1;
    } in
    if m.packet_idx == 0 && not (has_bit byte 3)
    then m
    else if leb m.packet_size (m.packet_idx + 1)
    then apply_packet width height (record next { packet_idx = 0 })
    else next

-- An interrupt: the port 0x64 reads `status` and the port 0x60 `byte`.
unfoldable pub mouse_handler_c : ℕ → ℕ → ℕ → ℕ → Mouse → Mouse
mouse_handler_c width height status byte m =
    if has_bit status 0 && has_bit status 5 then handle_byte width height byte m else m

-- The interrupts one after another.
unfoldable pub interrupts : ℕ → ℕ → List (ℕ × ℕ) → Mouse → Mouse
interrupts width height [] m = m
interrupts width height ((status, byte) ∷ rest) m =
    interrupts width height rest (mouse_handler_c width height status byte m)
