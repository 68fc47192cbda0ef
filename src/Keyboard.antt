-- ===== src/Keyboard.antt =====
-- keyboard.h: the PS/2 scancode decoder and the key ring.
pub mod Ring
pub mod Queue
pub mod Maps
pub mod Decoder
pub mod Invariant
mod Tests
