-- ===== src/Mouse/Position.antt =====
-- mouse.h: the pointer stays on the screen, and a packet moves it by what it says.
use schwarz_kernel.Prelude.{
  ℕ, ◌+◌, ◌-◌, ◌%◌, ◌^◌, ◌≤◌, ◌<◌, ◌≡◌, refl, Bool, true, false, not, ◌&&◌, ◌||◌, List, [], ◌∷◌,
  length, length-set, ◌==◌, leb, min, if◌then◌else◌, get_or, set, sub32, has_bit, arith,
}
use schwarz_kernel.Mouse.Packet.{
  Mouse, movement, clamp, move, apply_packet, handle_byte, mouse_handler_c, interrupts,
}

-- The pointer is on the screen and the packet in progress is not complete.
pub record MouseIsValid (width height : ℕ) (m : Mouse) : Type 0 where
  pub x_in : m.x < width
  pub y_in : m.y < height
  pub in_packet : m.packet_idx < m.packet_size
  pub fits : m.packet_size ≤ length m.packet

clamp-lt : (limit v : ℕ) → v < 2 ^ 32 → 0 < limit → limit < 2 ^ 31 → clamp limit v < limit
unfolding clamp
clamp-lt limit v b lo hi = ground arith

module _ {width height : ℕ} (w0 : 0 < width) (w1 : width < 2 ^ 31) (h0 : 0 < height)
    (h1 : height < 2 ^ 31) where
  apply_packet-MouseIsValid :
      (m : Mouse)
      → MouseIsValid width height m
      → MouseIsValid width height (apply_packet width height m)
  unfolding apply_packet move
  apply_packet-MouseIsValid m v =
      go (has_bit (get_or m.packet 0 0) 6 || has_bit (get_or m.packet 0 0) 7)
    where
      go : (u : Bool) → MouseIsValid width height (if u then m else move width height m)
      go true = v
      go false = record {
        x_in = clamp-lt width _ (omega arith) w0 w1;
        y_in = clamp-lt height _ (omega arith) h0 h1;
        in_packet = v.in_packet;
        fits = v.fits;
      }

  handle_byte-MouseIsValid :
      (byte : ℕ) (m : Mouse)
      → MouseIsValid width height m
      → MouseIsValid width height (handle_byte width height byte m)
  unfolding handle_byte
  handle_byte-MouseIsValid byte m v =
      go (m.packet_idx == 0 && not (has_bit byte 3)) (leb m.packet_size (m.packet_idx + 1)) refl
    where
      next : Mouse
      next = record m { packet = set m.packet m.packet_idx byte; packet_idx = m.packet_idx + 1 }

      go :
          (u w : Bool)
          → leb m.packet_size (m.packet_idx + 1) ≡ w
          → MouseIsValid width height (
              if u
              then m
              else if w
              then apply_packet width height (record next { packet_idx = 0 })
              else next)
      go true w e = v
      go false true e = apply_packet-MouseIsValid _ (record {
        x_in = v.x_in;
        y_in = v.y_in;
        in_packet = omega (arith, v.in_packet);
        fits = omega (arith, length-set m.packet m.packet_idx byte, v.fits);
      })
      go false false e = record {
        x_in = v.x_in;
        y_in = v.y_in;
        in_packet = ground (arith, e);
        fits = omega (arith, length-set m.packet m.packet_idx byte, v.fits);
      }

  mouse_handler_c-MouseIsValid :
      (status byte : ℕ) (m : Mouse)
      → MouseIsValid width height m
      → MouseIsValid width height (mouse_handler_c width height status byte m)
  unfolding mouse_handler_c
  mouse_handler_c-MouseIsValid status byte m v = go (has_bit status 0 && has_bit status 5)
    where
      go : (u : Bool) → MouseIsValid width height (if u then handle_byte width height byte m else m)
      go true = handle_byte-MouseIsValid byte m v
      go false = v

-- On a screen of at least one pixel and less than 2 ^ 31 columns and rows: whatever bytes the interrupts bring, the pointer
-- stays on the screen and no byte is written behind the packet.
pub interrupts-MouseIsValid :
    (width height : ℕ)
    → 0 < width
    → width < 2 ^ 31
    → 0 < height
    → height < 2 ^ 31
    → (events : List (ℕ × ℕ)) (m : Mouse) → MouseIsValid width height m
    → MouseIsValid width height (interrupts width height events m)
unfolding interrupts
interrupts-MouseIsValid width height w0 w1 h0 h1 [] m v = v
interrupts-MouseIsValid width height w0 w1 h0 h1 ((status, byte) ∷ rest) m v =
    interrupts-MouseIsValid width height w0 w1 h0 h1 rest _
      (mouse_handler_c-MouseIsValid w0 w1 h0 h1 status byte m v)

-- What a byte with its sign adds to a coordinate, kept between 0 and the last one.
abbrev pub forwards : Bool → ℕ → ℕ → ℕ → ℕ
forwards negative byte limit x = if negative then x - (256 - byte) else min (x + byte) (limit - 1)

abbrev pub backwards : Bool → ℕ → ℕ → ℕ → ℕ
backwards negative byte limit y = if negative then min (y + (256 - byte)) (limit - 1) else y - byte

pub clamp-forwards :
    (negative : Bool) (byte limit x : ℕ)
    → byte < 256
    → x < limit
    → limit < 2 ^ 31 - 256
    → clamp limit ((x + movement negative byte) % 2 ^ 32) ≡ forwards negative byte limit x
unfolding clamp movement
clamp-forwards true byte limit x b h l = ground arith
clamp-forwards false byte limit x b h l = ground arith

pub clamp-backwards :
    (negative : Bool) (byte limit y : ℕ)
    → byte < 256
    → y < limit
    → limit < 2 ^ 31 - 256
    → clamp limit (sub32 y (movement negative byte)) ≡ backwards negative byte limit y
unfolding clamp movement
clamp-backwards true byte limit y b h l = ground arith
clamp-backwards false byte limit y b h l = ground arith
