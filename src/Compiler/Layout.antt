-- ===== src/Compiler/Layout.antt =====
-- compiler.cpp: where the variables lie below the frame pointer.
use schwarz_kernel.Prelude.{
  ℕ, ◌+◌, ◌%◌, ◌^◌, ◌≡◌, refl, Bool, true, false, List, [], ◌∷◌, ◌++◌, bytes_eq, if◌then◌else◌,
  length, ◌≤◌, arith,
}
use schwarz_kernel.Compiler.Tokens.{VarType}
use schwarz_kernel.Compiler.State.{Var}
use schwarz_kernel.Compiler.Vars.{vartype_storage_size, new_var, mark_var}

-- Each variable ends where the next begins: from `top`, down to `bottom`.
unfoldable pub Laid : ℕ → List Var → ℕ → Type 0
Laid top [] bottom = top ≡ bottom
Laid top (v ∷ vs) bottom =
    (v.offset ≡ (top + vartype_storage_size v.vtype v.elem_count) % 2 ^ 32)
    × Laid v.offset vs bottom

pub Laid-new_var :
    (vs : List Var) (top bottom : ℕ) (name : List ℕ) (vt : VarType) (n : ℕ)
    → Laid top vs bottom
    → Laid top (vs ++ new_var name vt n bottom ∷ []) (new_var name vt n bottom).offset
unfolding Laid new_var
Laid-new_var [] top bottom name vt n h = (rw h, refl)
Laid-new_var (v ∷ vs) top bottom name vt n h = (h.0, Laid-new_var vs v.offset bottom name vt n h.1)

pub Laid-mark_var :
    (name : List ℕ) (vs : List Var) (top bottom : ℕ)
    → Laid top vs bottom
    → Laid top (mark_var name vs) bottom
unfolding Laid mark_var
Laid-mark_var name [] top bottom h = h
Laid-mark_var name (v ∷ vs) top bottom h =
    go (bytes_eq v.name name) (Laid-mark_var name vs v.offset bottom h.1)
  where
    go :
        (b : Bool)
        → Laid v.offset (mark_var name vs) bottom
        → Laid top (if b then record v { initialized = true } ∷ vs else v ∷ mark_var name vs) bottom
    go true rest = h
    go false rest = (h.0, rest)

length_of_mark_var : (name : List ℕ) (vs : List Var) → length (mark_var name vs) ≡ length vs
unfolding mark_var
length_of_mark_var name [] = refl
length_of_mark_var name (v ∷ vs) = ground (arith, length_of_mark_var name vs)

pub length-mark_var :
    (name : List ℕ) (vs : List Var) → length vs ≤ 64 → length (mark_var name vs) ≤ 64
length-mark_var name vs h = omega (arith, length_of_mark_var name vs, h)
