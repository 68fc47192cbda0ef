-- ===== src/Keyboard/Decoder.antt =====
-- keyboard.h: keyboard_handle_byte, one call for each byte from the keyboard.
use schwarz_kernel.Prelude.{
  ℕ, ◌-◌, ◌%◌, Bool, true, false, not, ◌&&◌, ◌||◌, List, [], ◌∷◌, ◌==◌, ltb, has_bit, if◌then◌else◌,
  set, get_or, replicate,
}
use schwarz_kernel.Keyboard.Ring.{KeyRing, kb_push}
use schwarz_kernel.Keyboard.Maps.{
  AltPolishEntry, kb_scancode_map, kb_scancode_map_shift, kb_alt_polish,
}

pub record Keyboard : Type 0 where
  pub shift_pressed : Bool
  pub ctrl_pressed : Bool
  pub alt_pressed : Bool
  pub extended_next : Bool
  pub pause_ignore : ℕ
  pub key_state : List Bool
  pub key_state_ext : List Bool
  pub ring : KeyRing

-- `reboot()` does not return.
pub data Outcome : Type 0 where
  handled : Keyboard → Outcome
  rebooting : Keyboard → Outcome

abbrev pub state_of : Outcome → Keyboard
state_of (handled k) = k
state_of (rebooting k) = k

-- keyboard_reset_state leaves the ring alone.
unfoldable pub keyboard_reset_state : Keyboard → Keyboard
keyboard_reset_state k = record {
  shift_pressed = false;
  ctrl_pressed = false;
  alt_pressed = false;
  extended_next = false;
  pause_ignore = 0;
  key_state = replicate 256 false;
  key_state_ext = replicate 256 false;
  ring = k.ring;
}

abbrev push : ℕ → Keyboard → Keyboard
push cp k = record k { ring = kb_push cp k.ring }

-- The shift, ctrl and alt flags follow their keys.
unfoldable pub set_modifiers : Bool → ℕ → Keyboard → Keyboard
set_modifiers released code k = record k {
  shift_pressed = if code == 0x2A || code == 0x36 then not released else k.shift_pressed;
  ctrl_pressed = if code == 0x1D then not released else k.ctrl_pressed;
  alt_pressed = if code == 0x38 then not released else k.alt_pressed;
}

unfoldable pub set_key_state : Bool → Bool → ℕ → Keyboard → Keyboard
set_key_state extended released code k =
    if extended
    then record k { key_state_ext = set k.key_state_ext code (not released) }
    else record k { key_state = set k.key_state code (not released) }

-- The `switch` on an extended key: its code point, 0 for none.
unfoldable pub extended_key : ℕ → ℕ
extended_key code =
    if code == 0x48
    then 0x10001
    else if code == 0x50
    then 0x10002
    else if code == 0x4B
    then 0x10003
    else if code == 0x4D
    then 0x10004
    else if code == 0x53
    then 0x10005
    else if code == 0x47
    then 0x10006
    else if code == 0x4F
    then 0x10007
    else 0

-- The search of `kb_alt_polish`: the code point, 0 for none.
unfoldable pub polish_key : List AltPolishEntry → Bool → ℕ → ℕ
polish_key [] shift code = 0
polish_key (e ∷ es) shift code =
    if e.code == code then (if shift then e.cp_upper else e.cp_lower) else polish_key es shift code

unfoldable pub plain_key : Bool → ℕ → ℕ
plain_key shift code =
    if code == 0x01
    then 27
    else if code == 0x0E
    then 8
    else if code == 0x1C
    then 10
    else if shift
    then get_or kb_scancode_map_shift code 0
    else get_or kb_scancode_map code 0

-- The code point that a pressed key pushes, 0 for none.
unfoldable pub key_of : Bool → ℕ → Keyboard → ℕ
key_of extended code k =
    if extended
    then extended_key code
    else if k.alt_pressed
    then polish_key kb_alt_polish k.shift_pressed code
    else plain_key k.shift_pressed code

unfoldable pub handle_press : Bool → ℕ → Keyboard → Outcome
handle_press extended code k =
    if k.ctrl_pressed && k.alt_pressed && code == 0x53
    then rebooting k
    else (let c = key_of extended code k in handled (if c == 0 then k else push c k))

-- Lines 105 to 115: the prefix is used up, and the flags and the key tables follow the key.
unfoldable pub track_key : ℕ → Keyboard → Keyboard
track_key sc k =
    set_key_state k.extended_next (has_bit sc 7) (sc % 128)
      (set_modifiers (has_bit sc 7) (sc % 128) (record k { extended_next = false }))

unfoldable pub keyboard_handle_byte : ℕ → Keyboard → Outcome
keyboard_handle_byte sc k =
    if ltb 0 k.pause_ignore
    then handled (record k { pause_ignore = k.pause_ignore - 1 })
    else if sc == 0xE1
    then handled (record k { pause_ignore = 5; extended_next = false })
    else if sc == 0xE0
    then handled (record k { extended_next = true })
    else if has_bit sc 7
    then handled (track_key sc k)
    else handle_press k.extended_next (sc % 128) (track_key sc k)
