-- ===== src/Compiler/Frames.antt =====
-- compiler.cpp: the frame covers every variable, and no two variables share a byte.
use schwarz_kernel.Prelude.{
  ℕ, zero, suc, ◌+◌, ◌-◌, ◌*◌, ◌%◌, ◌^◌, ◌≤◌, ◌<◌, ◌≡◌, subst, eq_of_some, some, List, [], ◌∷◌,
  ◌||◌, get_elem?, length, ltb, if◌then◌else◌, arith, Bool, true, false,
}
use schwarz_kernel.Compiler.Tokens.{BaseType, bt_char, basetype_size}
use schwarz_kernel.Compiler.State.{Var, Parser, finished}
use schwarz_kernel.Compiler.Vars.{is_negative, align_up_8, vartype_storage_size}
use schwarz_kernel.Compiler.Parser.{vartype_value_size}
use schwarz_kernel.Compiler.Program.{frame_size, parse_and_compile}
use schwarz_kernel.Compiler.Layout.{Laid}
use schwarz_kernel.Compiler.ProgramKeeps.{patched}
use schwarz_kernel.Compiler.Compiled.{compile-Good}

-- The bytes of a variable, without a limit: those of all elements of an array, or those of one value.
abbrev pub extent : Var → ℕ
extent v =
    if ltb 0 v.elem_count
    then basetype_size v.vtype.base * v.elem_count
    else vartype_value_size v.vtype

abbrev pub total_extent : List Var → ℕ
total_extent [] = 0
total_extent (v ∷ vs) = extent v + total_extent vs

abbrev storage : Var → ℕ
storage v = vartype_storage_size v.vtype v.elem_count

abbrev total_storage : List Var → ℕ
total_storage [] = 0
total_storage (v ∷ vs) = storage v + total_storage vs

basetype_size_lem : (b : BaseType) → (0 < basetype_size b) × (basetype_size b ≤ 8)
unfolding basetype_size
basetype_size_lem bt_char = (omega arith, omega arith)
basetype_size_lem _ = (omega arith, omega arith)

aligned_lem :
    (total : ℕ)
    → total + 8 < 2 ^ 31
    → let size =
        align_up_8
          (if is_negative (total % 2 ^ 32) || ltb (total % 2 ^ 32) 8 then 8 else total % 2 ^ 32) in
      (total ≤ size) × (8 ≤ size) × (size ≤ total + 8)
unfolding align_up_8
aligned_lem total h = (ground (arith, h), ground (arith, h), ground (arith, h))

slot_lem :
    (is_array is_ptr : Bool) (size product : ℕ)
    → 0 < size
    → size ≤ 8
    → let bytes = if is_array then product else if is_ptr then 8 else size in
      let total = if is_array then product % 2 ^ 32 else size in
      let slot = align_up_8 (if is_negative total || ltb total 8 then 8 else total) in
      bytes + 8 < 2 ^ 31 → (bytes ≤ slot) × (slot ≤ bytes + 8)
unfolding align_up_8
slot_lem true is_ptr size product pos le8 h = let a = aligned_lem product h in (a.0, a.2)
slot_lem false true size product pos le8 h = (ground (arith, le8), ground (arith, le8))
slot_lem false false size product pos le8 h = (ground (arith, le8), ground (arith, le8, pos))

-- The slot that the source computes is large enough, and less than 9 bytes too large.
storage_lem :
    (v : Var) → extent v + 8 < 2 ^ 31 → (extent v ≤ storage v) × (storage v ≤ extent v + 8)
unfolding vartype_storage_size vartype_value_size
storage_lem v h =
    let b = basetype_size_lem v.vtype.base in
    slot_lem (ltb 0 v.elem_count) v.vtype.is_ptr (basetype_size v.vtype.base)
      (basetype_size v.vtype.base * v.elem_count) b.0 b.1 h

-- A frame is a multiple of 16, not empty, and covers the variables with less than 16 bytes more, or is 16.
pub frame_size-covers :
    (stack_size : ℕ)
    → stack_size < 2 ^ 31 - 16
    → (frame_size stack_size % 16 ≡ 0)
      × (0 < frame_size stack_size)
      × (stack_size ≤ frame_size stack_size)
      × (frame_size stack_size ≤ stack_size + 16)
unfolding frame_size
frame_size-covers stack_size h = (ground arith, ground arith, ground arith, ground arith)

Laid-bottom :
    (vs : List Var) (top bottom : ℕ)
    → Laid top vs bottom
    → top + total_storage vs < 2 ^ 31
    → bottom ≡ top + total_storage vs
unfolding Laid
Laid-bottom [] top bottom l h = omega (arith, l)
Laid-bottom (v ∷ vs) top bottom l h =
    omega (arith, l.0, h, Laid-bottom vs v.offset bottom l.1 (omega (arith, l.0, h)))

-- Each variable lies between the top and the bottom.
Laid-within :
    (vs : List Var) (top bottom i : ℕ) (v : Var)
    → Laid top vs bottom
    → top + total_storage vs < 2 ^ 31
    → get_elem? vs i ≡ some v
    → (top + storage v ≤ v.offset) × (v.offset ≤ bottom)
unfolding Laid
Laid-within [] top bottom i v l h e = ground arith
Laid-within (w ∷ vs) top bottom zero v l h e =
    let f : Var → Type 0 = λ x. (top + storage x ≤ x.offset) × (x.offset ≤ bottom) in
    subst f (eq_of_some e) (
      omega (arith, l.0, h),
      omega (arith, l.0, h, Laid-bottom vs w.offset bottom l.1 (omega (arith, l.0, h))),
    )
Laid-within (w ∷ vs) top bottom (suc i) v l h e =
    let b = Laid-within vs w.offset bottom i v l.1 (omega (arith, l.0, h)) e in
    (omega (arith, l.0, h, b.0), b.1)

-- A later variable lies below an earlier one.
Laid-apart :
    (vs : List Var) (top bottom i j : ℕ) (v w : Var)
    → Laid top vs bottom
    → top + total_storage vs < 2 ^ 31
    → get_elem? vs i ≡ some v
    → get_elem? vs j ≡ some w
    → i < j
    → v.offset + storage w ≤ w.offset
unfolding Laid
Laid-apart [] top bottom i j v w l h e f lt = ground arith
Laid-apart (x ∷ vs) top bottom zero (suc j) v w l h e f lt =
    let b = Laid-within vs x.offset bottom j w l.1 (omega (arith, l.0, h)) f in
    subst (λ y. y.offset + storage w ≤ w.offset) (eq_of_some e) b.0
Laid-apart (x ∷ vs) top bottom (suc i) (suc j) v w l h e f lt =
    Laid-apart vs x.offset bottom i j v w l.1 (omega (arith, l.0, h)) e f (omega (arith, lt))
Laid-apart (x ∷ vs) top bottom i zero v w l h e f lt = absurd (omega (arith, lt))

-- Where compilation has returned, its variables are laid out down to `stack_size`, and there are at most 64.
compile-Laid :
    (n : ℕ) (s s' : Parser)
    → 1024 < n
    → parse_and_compile n s ≡ finished tt s'
    → Laid 0 s'.vars s'.stack_size × (length s'.vars ≤ 64)
unfolding patched
compile-Laid n s s' h e =
    let g = compile-Good n s s' h e in
    subst (λ x. Laid 0 x.vars x.stack_size × (length x.vars ≤ 64)) g.1 (g.2.laid, g.2.few_vars)

total_storage-le :
    (vs : List Var)
    → total_extent vs + 8 * length vs < 2 ^ 31
    → total_storage vs ≤ total_extent vs + 8 * length vs
total_storage-le [] h = omega arith
total_storage-le (v ∷ vs) h =
    omega (arith, storage_lem v (omega (arith, h)), total_storage-le vs (omega (arith, h)))

extent-le-total :
    (vs : List Var) (i : ℕ) (v : Var) → get_elem? vs i ≡ some v → extent v ≤ total_extent vs
extent-le-total [] i v e = ground arith
extent-le-total (w ∷ vs) zero v e =
    subst (λ x. extent x ≤ extent w + total_extent vs) (eq_of_some e) (omega arith)
extent-le-total (w ∷ vs) (suc i) v e = omega (arith, extent-le-total vs i v e)

-- What the layout gives for the variables of a program that returns, where they take less than 2 ^ 31 - 1024 bytes.
small-storage :
    (vs : List Var)
    → length vs ≤ 64
    → total_extent vs < 2 ^ 31 - 1024
    → total_storage vs < 2 ^ 31 - 16
small-storage vs few h = omega (arith, total_storage-le vs (omega (arith, few, h)), few, h)

extent-le-storage :
    (vs : List Var) (i : ℕ) (v : Var)
    → total_extent vs < 2 ^ 31 - 1024
    → get_elem? vs i ≡ some v
    → extent v ≤ storage v
extent-le-storage vs i v h at =
    let x = storage_lem v (omega (arith, extent-le-total vs i v at, h)) in x.0

-- Where compilation returns, with 1025 of fuel or more, and the bytes of all variables (for an array the number of its
-- elements times the size of its base type, 8 for a pointer, the size of the base type for another scalar) are
-- fewer than 2 ^ 31 - 1024 together, the bytes of the later one of two variables lie below those of the earlier one: no byte
-- belongs to both.
pub compile-apart :
    (n : ℕ) (s s' : Parser) (i j : ℕ) (v w : Var)
    → 1024 < n
    → parse_and_compile n s ≡ finished tt s'
    → total_extent s'.vars < 2 ^ 31 - 1024
    → i < j
    → get_elem? s'.vars i ≡ some v
    → get_elem? s'.vars j ≡ some w
    → v.offset + extent w ≤ w.offset
compile-apart n s s' i j v w h e bytes lt at_i at_j =
    let l = compile-Laid n s s' h e in
    let small = small-storage s'.vars l.1 bytes in
    let apart =
      Laid-apart s'.vars 0 s'.stack_size i j v w l.0 (omega (arith, small)) at_i at_j lt in
    omega (arith, apart, extent-le-storage s'.vars j w bytes at_j)
