-- ===== src/Keyboard/Invariant.antt =====
-- The decoder's invariant, and what one byte does to the key ring.
use schwarz_kernel.Prelude.{
  ℕ, ◌%◌, ◌≤◌, ◌<◌, ◌≡◌, sym, ap, ◌∙◌, suc, ◌&&◌, ◌≢◌, ◌⊎◌, ◌↔◌, inl, inr, Bool, true, false, not,
  has_bit, length, length-set, arith, Bool-cases, ◌==◌,
}
use schwarz_kernel.Keyboard.Ring.{kb_push}
use schwarz_kernel.Keyboard.Queue.{
  RingIsValid, kb_push-RingIsValid, contents, enqueue, kb_push_refines,
}
use schwarz_kernel.Keyboard.Decoder.{
  Keyboard, Outcome, handled, rebooting, state_of, set_modifiers, set_key_state, key_of,
  handle_press, track_key, keyboard_handle_byte,
}

pub record KeyboardIsValid (k : Keyboard) : Type 0 where
  pub ring_valid : RingIsValid k.ring
  pub keys : length k.key_state ≡ 256
  pub keys_ext : length k.key_state_ext ≡ 256
  pub pause : k.pause_ignore ≤ 5

set_key_state-IsValid :
    (extended released : Bool) (code : ℕ) (k : Keyboard)
    → KeyboardIsValid k
    → KeyboardIsValid (set_key_state extended released code k)
unfolding set_key_state
set_key_state-IsValid extended released code k v = ground (
  arith,
  length-set k.key_state code (not released),
  length-set k.key_state_ext code (not released),
)

handle_press-IsValid :
    (extended : Bool) (code : ℕ) (k : Keyboard)
    → KeyboardIsValid k
    → KeyboardIsValid (state_of (handle_press extended code k))
unfolding handle_press
handle_press-IsValid extended code k v =
    ground (arith, kb_push-RingIsValid (key_of extended code k) k.ring v.ring_valid)

track_key-IsValid : (sc : ℕ) (k : Keyboard) → KeyboardIsValid k → KeyboardIsValid (track_key sc k)
unfolding track_key set_modifiers
track_key-IsValid sc k v =
    set_key_state-IsValid k.extended_next (has_bit sc 7) (sc % 128) _
      (record { ring_valid = v.ring_valid; keys = v.keys; keys_ext = v.keys_ext; pause = v.pause })

-- Every byte keeps the ring's indices in range, the key tables at 256 entries and the count of bytes
-- to skip at most 5.
pub keyboard_handle_byte-IsValid :
    (sc : ℕ) (k : Keyboard)
    → KeyboardIsValid k
    → KeyboardIsValid (state_of (keyboard_handle_byte sc k))
unfolding keyboard_handle_byte
keyboard_handle_byte-IsValid sc k v = ground (
  arith,
  track_key-IsValid sc k v,
  handle_press-IsValid k.extended_next (sc % 128) (track_key sc k) (track_key-IsValid sc k v),
)

ring-track_key : (sc : ℕ) (k : Keyboard) → (track_key sc k).ring ≡ k.ring
unfolding track_key set_key_state set_modifiers
ring-track_key sc k = ground arith

-- A byte with bit 7 set, a key's release or a prefix, never touches the ring, whatever the state.
pub release-ring :
    (sc : ℕ) (k : Keyboard)
    → has_bit sc 7 ≡ true
    → (state_of (keyboard_handle_byte sc k)).ring ≡ k.ring
unfolding keyboard_handle_byte
release-ring sc k h = ground (arith, ring-track_key sc k)

abbrev Pushes : Keyboard → Outcome → Type 0
Pushes k o =
    ((state_of o).ring ≡ k.ring) ⊎ ((c : ℕ) × (c ≢ 0) × ((state_of o).ring ≡ kb_push c k.ring))

handle_press-Pushes :
    (extended : Bool) (code : ℕ) (k : Keyboard) → Pushes k (handle_press extended code k)
unfolding handle_press
handle_press-Pushes extended code k = elim (Bool-cases (key_of extended code k == 0)) [
  | inl e ↦ inl (ground arith)
  | inr e ↦ elim (Bool-cases (k.ctrl_pressed && k.alt_pressed && code == 0x53)) [
    | inl r ↦ inl (rw r)
    | inr r ↦ inr (key_of extended code k, ground arith, rw (r, e))
  ]
]

keyboard_handle_byte-Pushes : (sc : ℕ) (k : Keyboard) → Pushes k (keyboard_handle_byte sc k)
unfolding keyboard_handle_byte
keyboard_handle_byte-Pushes sc k =
    ground
      (arith, ring-track_key sc k, handle_press-Pushes k.extended_next (sc % 128) (track_key sc k))

-- One byte pushes at most one code point: afterwards the ring is as before, or holds the contents
-- before with one code point other than 0 queued behind them (dropped where 255 are pending).
pub keyboard_handle_byte-contents :
    (sc : ℕ) (k : Keyboard)
    → KeyboardIsValid k
    → let r = (state_of (keyboard_handle_byte sc k)).ring in
      (r ≡ k.ring) ⊎ ((c : ℕ) × (c ≢ 0) × (contents r ≡ enqueue c (contents k.ring)))
keyboard_handle_byte-contents sc k v = elim pushed [
  | inl e ↦ inl e
  | inr (c, n, e) ↦ inr (c, n, ap contents e ∙ kb_push_refines c k.ring v.ring_valid)
]
  where
    pushed : Pushes k (keyboard_handle_byte sc k)
    pushed = keyboard_handle_byte-Pushes sc k

ctrl-track_key :
    (sc : ℕ) (k : Keyboard) → sc % 128 ≡ 0x53 → (track_key sc k).ctrl_pressed ≡ k.ctrl_pressed
unfolding track_key set_modifiers set_key_state
ctrl-track_key sc k h = ground arith

alt-track_key :
    (sc : ℕ) (k : Keyboard) → sc % 128 ≡ 0x53 → (track_key sc k).alt_pressed ≡ k.alt_pressed
unfolding track_key set_modifiers set_key_state
alt-track_key sc k h = ground arith

-- The machine restarts exactly on a press of the key 0x53 (Delete, extended or not), outside a pause
-- sequence, while ctrl and alt are down.
pub keyboard_handle_byte-rebooting :
    (sc : ℕ) (k : Keyboard)
    → sc < 256
    → ((k' : Keyboard) × (keyboard_handle_byte sc k ≡ rebooting k'))
      ↔ ((k.pause_ignore ≡ 0) × (sc ≡ 0x53) × (k.ctrl_pressed ≡ true) × (k.alt_pressed ≡ true))
unfolding keyboard_handle_byte handle_press
keyboard_handle_byte-rebooting sc k h = (
  (λ r. let e = r.1 in ground (arith, ctrl-track_key sc k, alt-track_key sc k)),
  (λ r. (track_key sc k, ground (arith, r, ctrl-track_key sc k, alt-track_key sc k))),
)

skip_byte :
    (sc n : ℕ) (k : Keyboard)
    → keyboard_handle_byte sc (record k { pause_ignore = suc n })
      ≡ handled (record k { pause_ignore = n })
unfolding keyboard_handle_byte
skip_byte sc n k = ground arith

begin_pause :
    (k : Keyboard)
    → k.pause_ignore ≡ 0
    → keyboard_handle_byte 0xE1 k ≡ handled (record k { pause_ignore = 5; extended_next = false })
unfolding keyboard_handle_byte
begin_pause k h = ground arith

-- The pause key's sequence: outside another one, the prefix 0xE1 and any five bytes after it leave
-- the decoder as it was, with a pending extended prefix dropped.
pub pause_sequence :
    (a b c d e : ℕ) (k : Keyboard)
    → k.pause_ignore ≡ 0
    → let step = λ (sc : ℕ) (k : Keyboard). state_of (keyboard_handle_byte sc k) in
      step e (step d (step c (step b (step a (step 0xE1 k))))) ≡ record k { extended_next = false }
pause_sequence a b c d e k h =
    let q : Keyboard = record k { extended_next = false } in
    rw
      (
        begin_pause k h,
        skip_byte a 4 q,
        skip_byte b 3 q,
        skip_byte c 2 q,
        skip_byte d 1 q,
        skip_byte e 0 q,
      )
      (ap (λ n. record q { pause_ignore = n }) (sym h))
