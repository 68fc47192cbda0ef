-- ===== src/Fat32/FilePath.antt =====
-- fat32.cpp: next_component, which takes one component off a path.
use schwarz_kernel.Prelude.{
  ℕ, ◌+◌, Bool, ◌||◌, Option, none, some, List, [], ◌∷◌, ◌++◌, ◌==◌, ltb, if◌then◌else◌, length,
}

abbrev pub is_separator : ℕ → Bool
is_separator c = c == 92 || c == b'/'

unfoldable pub skip_separators : List ℕ → List ℕ
skip_separators [] = []
skip_separators (c ∷ cs) = if is_separator c then skip_separators cs else c ∷ cs

-- The loop over the component's characters: what is kept of it, and the path behind it. A character
-- without room is passed over.
unfoldable pub scan_component : ℕ → List ℕ → List ℕ → List ℕ × List ℕ
scan_component room out [] = (out, [])
scan_component room out (c ∷ cs) =
    let rest = scan_component room (if ltb (length out + 1) room then out ++ c ∷ [] else out) cs in
    if is_separator c then (out, c ∷ cs) else rest

-- The component in an array of `room` bytes and the path that is left; `none` where the path is used
-- up. (The source also answers `false` to a component without a character, which has `room < 2`.)
unfoldable pub next_component : List ℕ → ℕ → Option (List ℕ × List ℕ)
next_component path room = elim (skip_separators path) [
  | [] ↦ none
  | c ∷ cs ↦
      let (out, rest) = scan_component room [] (c ∷ cs) in
      if ltb 0 (length out) then some (out, skip_separators rest) else none
]
