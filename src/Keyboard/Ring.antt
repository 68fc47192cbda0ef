-- ===== src/Keyboard/Ring.antt =====
-- keyboard.h: the key ring that the interrupt handler fills (kb_push) and shell.h empties.
use schwarz_kernel.Prelude.{
  ℕ, ◌+◌, ◌%◌, Option, none, some, List, ◌==◌, if◌then◌else◌, set, get_or, replicate,
}

-- `key_buffer`, `key_write` and `key_read`; a slot holds one code point.
pub record KeyRing : Type 0 where
  pub key_buffer : List ℕ
  pub key_write : ℕ
  pub key_read : ℕ

abbrev pub empty_ring : KeyRing
empty_ring = record { key_buffer = replicate 256 0; key_write = 0; key_read = 0 }

-- A full ring drops the code point.
unfoldable pub kb_push : ℕ → KeyRing → KeyRing
kb_push codepoint r =
    let next = (r.key_write + 1) % 256 in
    if next == r.key_read
    then r
    else record r { key_buffer = set r.key_buffer r.key_write codepoint; key_write = next }

-- The shell's read of one key; `none` where it halts and waits.
unfoldable pub read_key : KeyRing → Option (ℕ × KeyRing)
read_key r =
    if r.key_read == r.key_write
    then none
    else some (get_or r.key_buffer r.key_read 0, record r { key_read = (r.key_read + 1) % 256 })
