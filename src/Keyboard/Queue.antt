-- ===== src/Keyboard/Queue.antt =====
-- The key ring against a first-in first-out queue of at most 255 code points.
use mathlib.Core.Option
use schwarz_kernel.Prelude.{
  ℕ, zero, suc, ◌+◌, ◌-◌, ◌%◌, ◌<◌, ◌≡◌, refl, ap, ap₂, Option, none, some, List, [], ◌∷◌, ◌++◌,
  ltb, if◌then◌else◌, set, get_or, length, length-set, get_or-set_self, get_or-set_ne, arith, true,
  false, Bool-cases, ◌==◌, inl, inr,
}
use schwarz_kernel.Keyboard.Ring.{KeyRing, kb_push, read_key}

pub record RingIsValid (r : KeyRing) : Type 0 where
  pub slots : length r.key_buffer ≡ 256
  pub write_in : r.key_write < 256
  pub read_in : r.key_read < 256

-- The `n` slots from `h` on, going round at 256.
unfoldable pub window : List ℕ → ℕ → ℕ → List ℕ
window buf h zero = []
window buf h (suc n) = get_or buf h 0 ∷ window buf ((h + 1) % 256) n

abbrev pub pending : KeyRing → ℕ
pending r = (r.key_write + 256 - r.key_read) % 256

-- What the ring holds, oldest first.
unfoldable pub contents : KeyRing → List ℕ
contents r = window r.key_buffer r.key_read (pending r)

length-window : (buf : List ℕ) (h n : ℕ) → length (window buf h n) ≡ n
unfolding window
length-window buf h zero = refl
length-window buf h (suc n) = ap suc (length-window buf ((h + 1) % 256) n)

pub length-contents : (r : KeyRing) → length (contents r) ≡ pending r
unfolding contents
length-contents r = length-window r.key_buffer r.key_read (pending r)

-- A window that stops short of slot `i` does not see a write to it.
window-set :
    (buf : List ℕ) (x i n h : ℕ)
    → length buf ≡ 256
    → h < 256
    → n < 256
    → i ≡ (h + n) % 256
    → window (set buf i x) h (suc n) ≡ window buf h n ++ x ∷ []
unfolding window
window-set buf x i zero h l hh hn e =
    let e' : i ≡ h = omega arith in
    rw e' (ap (λ v. v ∷ []) (get_or-set_self buf h x 0 (omega arith)))
window-set buf x i (suc n) h l hh hn e =
    ap₂ ◌∷◌ (get_or-set_ne buf i h x 0 (omega arith))
      (window-set buf x i n ((h + 1) % 256) l (omega arith) (omega arith) (omega arith))

window-suc :
    (buf : List ℕ) (h n : ℕ)
    → 0 < n
    → window buf h n ≡ get_or buf h 0 ∷ window buf ((h + 1) % 256) (n - 1)
unfolding window
window-suc buf h zero p = absurd (omega arith)
window-suc buf h (suc n) p = ap (λ k. get_or buf h 0 ∷ window buf ((h + 1) % 256) k) (omega arith)

pub kb_push-RingIsValid : (c : ℕ) (r : KeyRing) → RingIsValid r → RingIsValid (kb_push c r)
unfolding kb_push
kb_push-RingIsValid c r v = ground (arith, length-set r.key_buffer r.key_write c)

-- The bounded queue: a code point that finds 255 pending is dropped.
unfoldable pub enqueue : ℕ → List ℕ → List ℕ
enqueue c q = if ltb (length q) 255 then q ++ c ∷ [] else q

unfoldable pub dequeue : List ℕ → Option (ℕ × List ℕ)
dequeue [] = none
dequeue (c ∷ q) = some (c, q)

-- For a valid ring, `kb_push` is `enqueue` on the contents: the code point goes to the end, or is
-- dropped when 255 are pending, and nothing that is pending is lost or reordered.
pub kb_push_refines :
    (c : ℕ) (r : KeyRing) → RingIsValid r → contents (kb_push c r) ≡ enqueue c (contents r)
unfolding contents kb_push enqueue
kb_push_refines c r v =
    let n = pending r in
    ground (
      arith,
      length-window r.key_buffer r.key_read n,
      window-set r.key_buffer c r.key_write n r.key_read,
      ap (window (set r.key_buffer r.key_write c) r.key_read) (next_pending r v),
    )
  where
    next_pending :
        (r : KeyRing)
        → RingIsValid r
        → ((r.key_write + 1) % 256 + 256 - r.key_read) % 256
          ≡ (if ltb (pending r) 255 then suc (pending r) else 0)
    next_pending r v = ground arith

-- For a valid ring, `read_key` is `dequeue` on the contents: it takes the oldest pending code point,
-- or waits exactly when none is pending.
pub read_key_refines :
    (r : KeyRing)
    → RingIsValid r
    → Option.map (λ (p : ℕ × KeyRing). (p.0, contents p.1)) (read_key r) ≡ dequeue (contents r)
unfolding contents read_key dequeue window
read_key_refines r v = elim (Bool-cases (r.key_read == r.key_write)) [
  | inl same ↦
      rw (same, Option.map) (ap (λ n. dequeue (window r.key_buffer r.key_read n)) (none_left same))
  | inr more ↦
      rw (more, Option.map, window-suc r.key_buffer r.key_read (pending r) (ground arith))
        (ap (λ n. some (get_or r.key_buffer r.key_read 0, window r.key_buffer h n))
          (rest_left more))
]
  where
    h : ℕ
    h = (r.key_read + 1) % 256

    none_left : (r.key_read == r.key_write) ≡ true → 0 ≡ pending r
    none_left e = ground arith

    rest_left : (r.key_read == r.key_write) ≡ false → (r.key_write + 256 - h) % 256 ≡ pending r - 1
    rest_left e = ground arith
