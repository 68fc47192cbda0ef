-- ===== src/Fat32/Compare.antt =====
-- The comparison of names without regard to case.
use schwarz_kernel.Prelude.{
  ℕ, ◌+◌, ◌≤◌, ◌≡◌, refl, ◌⊎◌, inl, inr, ◌↔◌, true, List, [], ◌∷◌, ◌==◌, arith,
}
use schwarz_kernel.Fat32.Names.{upper_ascii, str_eq_ci}

abbrev IsCapital : ℕ → Type 0
IsCapital c = (b'A' ≤ c) × (c ≤ b'Z')

-- The same byte, or the small and the capital form of a letter.
abbrev pub SameLetter : ℕ → ℕ → Type 0
SameLetter c d = (c ≡ d) ⊎ ((IsCapital c × (d ≡ c + 32)) ⊎ (IsCapital d × (c ≡ d + 32)))

-- Texts of the same length, with such bytes at each place.
unfoldable pub SameText : List ℕ → List ℕ → Type 0
SameText [] [] = Unit {0}
SameText [] (d ∷ ds) = ⊥
SameText (c ∷ cs) [] = ⊥
SameText (c ∷ cs) (d ∷ ds) = SameLetter c d × SameText cs ds

SameLetter-of : (c d : ℕ) → (upper_ascii c == upper_ascii d) ≡ true → SameLetter c d
unfolding upper_ascii
SameLetter-of c d h = ground (arith, h)

upper_ascii-same : (c d : ℕ) → SameLetter c d → (upper_ascii c == upper_ascii d) ≡ true
unfolding upper_ascii
upper_ascii-same c d (inl e) = ground (arith, e)
upper_ascii-same c d (inr (inl (cap, e))) = ground (arith, cap.0, cap.1, e)
upper_ascii-same c d (inr (inr (cap, e))) = ground (arith, cap.0, cap.1, e)

SameText-of : (a b : List ℕ) → str_eq_ci a b ≡ true → SameText a b
unfolding str_eq_ci SameText
SameText-of [] [] h = tt
SameText-of [] (d ∷ ds) h = cc
SameText-of (c ∷ cs) [] h = cc
SameText-of (c ∷ cs) (d ∷ ds) h =
    (SameLetter-of c d (ground (arith, h)), SameText-of cs ds (ground (arith, h)))

str_eq_ci-same : (a b : List ℕ) → SameText a b → str_eq_ci a b ≡ true
unfolding str_eq_ci SameText
str_eq_ci-same [] [] h = refl
str_eq_ci-same [] (d ∷ ds) h = absurd h
str_eq_ci-same (c ∷ cs) [] h = absurd h
str_eq_ci-same (c ∷ cs) (d ∷ ds) h =
    ground (arith, upper_ascii-same c d h.0, str_eq_ci-same cs ds h.1)

-- Two names are equal for the driver exactly when they have the same length and at each place the same byte, or the small
-- and the capital form of one of the letters A to Z.
pub str_eq_ci_iff : (a b : List ℕ) → (str_eq_ci a b ≡ true) ↔ SameText a b
str_eq_ci_iff a b = (SameText-of a b, str_eq_ci-same a b)
