-- ===== src/Keyboard/Tests.antt =====
-- Runs of the decoder and the theorems at concrete inputs.
use mathlib.Core.Option
use schwarz_kernel.Prelude.{
  ℕ, ◌≡◌, refl, ◌≢◌, ◌⊎◌, ◌↔◌, true, false, List, [], ◌∷◌, replicate, arith,
}
use schwarz_kernel.Keyboard.Ring.{KeyRing, empty_ring, kb_push, read_key}
use schwarz_kernel.Keyboard.Queue.{
  RingIsValid, window, contents, enqueue, dequeue, kb_push_refines, read_key_refines,
}
use schwarz_kernel.Keyboard.Maps.{kb_scancode_map_shift, kb_alt_polish}
use schwarz_kernel.Keyboard.Decoder.{
  Keyboard, rebooting, state_of, set_modifiers, set_key_state, extended_key, polish_key, plain_key,
  key_of, handle_press, track_key, keyboard_handle_byte,
}
use schwarz_kernel.Keyboard.Invariant.{
  KeyboardIsValid, keyboard_handle_byte-IsValid, release-ring, keyboard_handle_byte-contents,
  keyboard_handle_byte-rebooting, pause_sequence,
}

abbrev idle : Keyboard
idle = record {
  shift_pressed = false;
  ctrl_pressed = false;
  alt_pressed = false;
  extended_next = false;
  pause_ignore = 0;
  key_state = replicate 256 false;
  key_state_ext = replicate 256 false;
  ring = empty_ring;
}

abbrev armed : Keyboard
armed = record idle { ctrl_pressed = true; alt_pressed = true }

abbrev type_bytes : List ℕ → Keyboard → Keyboard
type_bytes [] k = k
type_bytes (b ∷ bs) k = type_bytes bs (state_of (keyboard_handle_byte b k))

-- Left shift, A down and up, shift up, then Alt and E: `A` and e with an ogonek.
typing :
    contents (type_bytes (0x2A ∷ 0x1E ∷ 0x9E ∷ 0xAA ∷ 0x38 ∷ 0x12 ∷ []) idle).ring
    ≡ b'A' ∷ 0x0119 ∷ []
unfolding contents window keyboard_handle_byte track_key set_modifiers set_key_state handle_press
    key_of plain_key polish_key kb_scancode_map_shift kb_alt_polish kb_push
typing = refl

-- The arrow up is an extended key.
arrow : contents (type_bytes (0xE0 ∷ 0x48 ∷ 0xE0 ∷ 0xC8 ∷ []) idle).ring ≡ 0x10001 ∷ []
unfolding contents window keyboard_handle_byte track_key set_modifiers set_key_state handle_press
    key_of extended_key kb_push
arrow = refl

idle-IsValid : KeyboardIsValid idle
idle-IsValid = record {
  ring_valid = record { slots = refl; write_in = omega arith; read_in = omega arith };
  keys = refl;
  keys_ext = refl;
  pause = omega arith;
}

-- Its next slot to write is the last one, and the first to read too.
abbrev wrapping : KeyRing
wrapping = record { key_buffer = replicate 256 7; key_write = 255; key_read = 254 }

wrapping-IsValid : RingIsValid wrapping
wrapping-IsValid = record { slots = refl; write_in = omega arith; read_in = omega arith }

kb_push_refines_example : contents (kb_push 65 wrapping) ≡ enqueue 65 (contents wrapping)
kb_push_refines_example = kb_push_refines 65 wrapping wrapping-IsValid

read_key_refines_example :
    Option.map (λ (p : ℕ × KeyRing). (p.0, contents p.1)) (read_key wrapping)
    ≡ dequeue (contents wrapping)
read_key_refines_example = read_key_refines wrapping wrapping-IsValid

keyboard_handle_byte-IsValid_example : KeyboardIsValid (state_of (keyboard_handle_byte 0x1E idle))
keyboard_handle_byte-IsValid_example = keyboard_handle_byte-IsValid 0x1E idle idle-IsValid

release-ring_example : (state_of (keyboard_handle_byte 0x9E idle)).ring ≡ empty_ring
release-ring_example = release-ring 0x9E idle refl

keyboard_handle_byte-contents_example :
    let r = (state_of (keyboard_handle_byte 0x1E idle)).ring in
    (r ≡ empty_ring) ⊎ ((c : ℕ) × (c ≢ 0) × (contents r ≡ enqueue c (contents empty_ring)))
keyboard_handle_byte-contents_example = keyboard_handle_byte-contents 0x1E idle idle-IsValid

keyboard_handle_byte-rebooting_example :
    ((k' : Keyboard) × (keyboard_handle_byte 0x53 armed ≡ rebooting k'))
    ↔ (◌≡◌ {A = ℕ} 0 0 × ◌≡◌ {A = ℕ} 0x53 0x53 × (true ≡ true) × (true ≡ true))
keyboard_handle_byte-rebooting_example = keyboard_handle_byte-rebooting 0x53 armed (omega arith)

pause_sequence_example :
    let step = λ (sc : ℕ) (k : Keyboard). state_of (keyboard_handle_byte sc k) in
    step 0xC5 (step 0x9D (step 0xE1 (step 0x45 (step 0x1D (step 0xE1 armed))))) ≡ armed
pause_sequence_example = pause_sequence 0x1D 0x45 0xE1 0x9D 0xC5 armed refl
