-- ===== src/Fat32/Components.antt =====
-- What next_component takes off a path.

use schwarz_kernel.Prelude.{
  eq_of_some, ℕ, ◌+◌, ◌≤◌, ◌<◌, ◌≡◌, subst, inl, inr, false, Option, none, some, List, [], ◌∷◌,
  ◌++◌, ltb, if◌then◌else◌, length, length-append, arith, Bool-cases,
}
use schwarz_kernel.Fat32.FilePath.{is_separator, skip_separators, scan_component, next_component}

abbrev pub NoSeparator : List ℕ → Type 0
NoSeparator [] = Unit {0}
NoSeparator (c ∷ cs) = (is_separator c ≡ false) × NoSeparator cs

NoSeparator-append :
    (xs : List ℕ) (c : ℕ) → NoSeparator xs → is_separator c ≡ false → NoSeparator (xs ++ c ∷ [])
NoSeparator-append [] c p q = (q, tt)
NoSeparator-append (x ∷ xs) c p q = (p.0, NoSeparator-append xs c p.1 q)

length-skip-le : (path : List ℕ) → length (skip_separators path) ≤ length path
unfolding skip_separators
length-skip-le [] = omega arith
length-skip-le (c ∷ cs) = ground (arith, length-skip-le cs)

-- The component and the rest, for a scan that starts with `out` in the array.
record Scanned (room : ℕ) (out path : List ℕ) (r : List ℕ × List ℕ) : Type 0 where
  clean : NoSeparator r.0
  bounded : length r.0 < room
  consumed : length r.0 + length r.1 ≤ length out + length path

scan_component-Scanned :
    (room : ℕ) (out path : List ℕ)
    → NoSeparator out
    → length out < room
    → Scanned room out path (scan_component room out path)
unfolding scan_component
scan_component-Scanned room out [] p h = record { clean = p; bounded = h; consumed = omega arith }
scan_component-Scanned room out (c ∷ cs) p h = elim (Bool-cases (is_separator c)) [
  | inl s ↦ rw s (record { clean = p; bounded = h; consumed = omega arith })
  | inr s ↦ rw s (
      let out' = if ltb (length out + 1) room then out ++ c ∷ [] else out in
      let r =
        scan_component-Scanned room out' cs (ground (arith, p, NoSeparator-append out c p s))
          (ground (arith, length-append out (c ∷ []))) in
      record {
        clean = r.clean;
        bounded = r.bounded;
        consumed = ground (arith, r.consumed, length-append out (c ∷ []));
      })
]

-- `next_component` behind the leading separators.
abbrev first_of : ℕ → List ℕ → Option (List ℕ × List ℕ)
first_of room p = elim p [
  | [] ↦ none
  | c ∷ cs ↦
      let (out, rest) = scan_component room [] (c ∷ cs) in
      if ltb 0 (length out) then some (out, skip_separators rest) else none
]

abbrev IsComponent : ℕ → List ℕ → List ℕ × List ℕ → Type 0
IsComponent room path r =
    (0 < length r.0) × NoSeparator r.0 × (length r.0 < room) × (length r.1 < length path)

first_of-IsComponent :
    (p : List ℕ) (room : ℕ) (r : List ℕ × List ℕ)
    → 0 < room
    → first_of room p ≡ some r
    → IsComponent room p r
first_of-IsComponent [] room r h e = absurd (ground arith)
first_of-IsComponent (c ∷ cs) room r h e =
    let s = scan_component room [] (c ∷ cs) in
    let w = scan_component-Scanned room [] (c ∷ cs) tt h in
    elim (Bool-cases (ltb 0 (length s.0))) [
      | inl pos ↦
          let q : (s.0, skip_separators s.1) ≡ r = eq_of_some (rw pos at e) in
          subst (IsComponent room (c ∷ cs)) q
            (ground arith, w.clean, w.bounded, ground (arith, w.consumed, length-skip-le s.1))
      | inr none' ↦ absurd (ground arith)
    ]

-- A component taken off a path, into an array of `room` bytes: it is not empty, has no separator in
-- it and fits the array with its terminator, and the path that is left is shorter.
pub next_component_lem :
    (path : List ℕ) (room : ℕ) {out rest : List ℕ}
    → 0 < room
    → next_component path room ≡ some (out, rest)
    → (0 < length out) × NoSeparator out × (length out < room) × (length rest < length path)
unfolding next_component
next_component_lem path room h e =
    let w = first_of-IsComponent (skip_separators path) room _ h e in
    (w.0, w.1, w.2, omega (arith, length-skip-le path, w.3))
