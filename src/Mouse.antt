-- ===== src/Mouse.antt =====
-- mouse.h: the packets of the PS/2 mouse and the position of the pointer.
pub mod Packet
pub mod Position
pub mod Moves
pub mod Cursor
pub mod Restore
mod Tests
