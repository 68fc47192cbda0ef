-- ===== src/Mouse/Moves.antt =====
-- mouse.h: what a whole packet does.
use schwarz_kernel.Prelude.{
  ℕ, ◌-◌, ◌^◌, ◌<◌, ◌≡◌, refl, Bool, true, false, ◌&&◌, ◌||◌, [], ◌∷◌, if◌then◌else◌, has_bit,
}
use schwarz_kernel.Mouse.Packet.{
  Mouse, move, apply_packet, handle_byte, mouse_handler_c, interrupts,
}
use schwarz_kernel.Mouse.Position.{forwards, backwards, clamp-forwards, clamp-backwards}

abbrev pub overflow : ℕ → Bool
overflow flags = has_bit flags 6 || has_bit flags 7

-- The state that the third byte completes.
abbrev filled : ℕ → ℕ → ℕ → ℕ → Mouse → Mouse
filled flags a b p3 m = record m { packet = flags ∷ a ∷ b ∷ p3 ∷ []; packet_idx = 0 }

three-bytes :
    (width height s1 s2 s3 flags a b p0 p1 p2 p3 : ℕ) (m : Mouse)
    → m.packet ≡ p0 ∷ p1 ∷ p2 ∷ p3 ∷ []
    → m.packet_idx ≡ 0
    → m.packet_size ≡ 3
    → has_bit s1 0 && has_bit s1 5 ≡ true
    → has_bit s2 0 && has_bit s2 5 ≡ true
    → has_bit s3 0 && has_bit s3 5 ≡ true
    → has_bit flags 3 ≡ true
    → interrupts width height ((s1, flags) ∷ (s2, a) ∷ (s3, b) ∷ []) m
      ≡ apply_packet width height (filled flags a b p3 m)
unfolding interrupts mouse_handler_c handle_byte
three-bytes width height s1 s2 s3 flags a b p0 p1 p2 p3 m ep ei es h1 h2 h3 hf =
    rw (h1, h2, h3, ei, hf, ep, es) refl

apply_packet-position :
    (width height flags a b p3 : ℕ) (m : Mouse)
    → a < 256
    → b < 256
    → m.x < width
    → m.y < height
    → width < 2 ^ 31 - 256
    → height < 2 ^ 31 - 256
    → ((apply_packet width height (filled flags a b p3 m)).x
        ≡ (if overflow flags then m.x else forwards (has_bit flags 4) a width m.x))
      × ((apply_packet width height (filled flags a b p3 m)).y
          ≡ (if overflow flags then m.y else backwards (has_bit flags 5) b height m.y))
      × ((apply_packet width height (filled flags a b p3 m)).packet_idx ≡ 0)
unfolding apply_packet move
apply_packet-position width height flags a b p3 m ha hb hx hy hw hh = go (overflow flags)
  where
    go :
        (u : Bool)
        → ((if u then filled flags a b p3 m else move width height (filled flags a b p3 m)).x
            ≡ (if u then m.x else forwards (has_bit flags 4) a width m.x))
          × ((if u then filled flags a b p3 m else move width height (filled flags a b p3 m)).y
              ≡ (if u then m.y else backwards (has_bit flags 5) b height m.y))
          × ((if u
                then filled flags a b p3 m
                else move width height (filled flags a b p3 m)).packet_idx
              ≡ 0)
    go true = (refl, refl, refl)
    go false = (
      clamp-forwards (has_bit flags 4) a width m.x ha hx hw,
      clamp-backwards (has_bit flags 5) b height m.y hb hy hh,
      refl,
    )

-- Three bytes for the mouse, the first with its bit 3, to a mouse without a wheel that is between two packets: the pointer
-- moves by the second byte to the right and by the third one up, each less 256 where its bit of sign is set, and stops at the
-- edges of the screen; if a bit of overflow is set it stays. The next byte begins a packet.
pub packet-moves :
    (width height s1 s2 s3 flags a b p0 p1 p2 p3 : ℕ) (m : Mouse)
    → m.packet ≡ p0 ∷ p1 ∷ p2 ∷ p3 ∷ []
    → m.packet_idx ≡ 0
    → m.packet_size ≡ 3
    → has_bit s1 0 && has_bit s1 5 ≡ true
    → has_bit s2 0 && has_bit s2 5 ≡ true
    → has_bit s3 0 && has_bit s3 5 ≡ true
    → has_bit flags 3 ≡ true
    → a < 256
    → b < 256
    → m.x < width
    → m.y < height
    → width < 2 ^ 31 - 256
    → height < 2 ^ 31 - 256
    → (m' : Mouse) × (interrupts width height ((s1, flags) ∷ (s2, a) ∷ (s3, b) ∷ []) m ≡ m')
      × (m'.x ≡ (if overflow flags then m.x else forwards (has_bit flags 4) a width m.x))
      × (m'.y ≡ (if overflow flags then m.y else backwards (has_bit flags 5) b height m.y))
      × (m'.packet_idx ≡ 0)
packet-moves width height s1 s2 s3 flags a b p0 p1 p2 p3 m ep ei es h1 h2 h3 hf ha hb hx hy hw hh =
    let q = apply_packet-position width height flags a b p3 m ha hb hx hy hw hh in
    (
      apply_packet width height (filled flags a b p3 m),
      three-bytes width height s1 s2 s3 flags a b p0 p1 p2 p3 m ep ei es h1 h2 h3 hf,
      q.0,
      q.1,
      q.2,
    )
