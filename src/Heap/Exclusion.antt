-- ===== src/Heap/Exclusion.antt =====
-- The bytes that malloc hands out, against the blocks in use.
use schwarz_kernel.Prelude.{
  ℕ, zero, suc, ◌+◌, ◌^◌, ◌≤◌, ◌<◌, ◌≡◌, ◌⊎◌, sym, ap, subst, ◌∙◌, inl, inr, true, false, Option,
  some, List, [], ◌∷◌, get_elem?, length, arith, Bool-cases, eq_of_some,
}
use schwarz_kernel.Heap.Store.{Memory, Heap}
use schwarz_kernel.Heap.Alloc.{returned, align_size, malloc}
use schwarz_kernel.Heap.Blocks.{Block, limit, Clear, Apart}
use schwarz_kernel.Heap.Allocation.{HeapHolds, fits, placed_at, malloc_refines}

Clear-at :
    (b : Block) (bs : List Block) (i : ℕ) {c : Block}
    → Clear b bs
    → get_elem? bs i ≡ some c
    → (limit b ≤ c.addr) ⊎ (limit c ≤ b.addr)
Clear-at b [] i p e = cc
Clear-at b (d ∷ bs) zero p e =
    subst (λ (x : Block). (limit b ≤ x.addr) ⊎ (limit x ≤ b.addr)) (eq_of_some e) p.0
Clear-at b (d ∷ bs) (suc i) p e = Clear-at b bs i p.1 e

-- A pointer that is handed out, with `size` bytes behind it, against a block `b`.
abbrev Excludes : ℕ → ℕ → Block → Type 0
Excludes size p b = (limit b ≤ p) ⊎ (p + size ≤ b.addr)

-- It lies in some block that `b` is clear of.
placed_at-Clear :
    (size : ℕ) (b : Block) (bs : List Block) {p : ℕ}
    → Clear b bs
    → placed_at size bs ≡ some p
    → Excludes size p b
placed_at-Clear size b [] c e = cc
placed_at-Clear size b (d ∷ bs) {p = p} c e = elim (Bool-cases (fits size d)) [
  | inl yes' ↦ let q : d.addr + 40 ≡ p = eq_of_some (rw yes' at e) in ground (arith, c.0)
  | inr no' ↦ placed_at-Clear size b bs c.1 (rw no' at e)
]

placed_at-Excludes :
    (size : ℕ) (bs : List Block) (i : ℕ) {b : Block} {p : ℕ}
    → Apart bs
    → placed_at size bs ≡ some p
    → get_elem? bs i ≡ some b
    → b.used ≡ true
    → Excludes size p b
placed_at-Excludes size [] i a e g u = cc
placed_at-Excludes size (d ∷ bs) zero {b = b} a e g u =
    let q : d ≡ b = eq_of_some g in
    let c = subst (λ (x : Block). Clear x bs) q a.1 in
    let full : d.used ≡ true = ap (λ (x : Block). x.used) q ∙ u in
    let no' : fits size d ≡ false = ground arith in placed_at-Clear size b bs c (rw no' at e)
placed_at-Excludes size (d ∷ bs) (suc i) {b = b} {p = p} a e g u = elim (Bool-cases (fits size d)) [
  | inl yes' ↦
      let q : d.addr + 40 ≡ p = eq_of_some (rw yes' at e) in ground (arith, Clear-at d bs i a.1 g)
  | inr no' ↦ placed_at-Excludes size bs i a.2 (rw no' at e) g u
]

-- Where `malloc` of a size above 0 and below 2 ^ 64 - 63 returns a pointer, in a heap whose blocks do
-- not overlap and with more fuel than there are blocks, the requested bytes behind it overlap no block
-- that was in use.
pub malloc-Excludes :
    (fuel size : ℕ) (h : Heap) (bs : List Block) (i : ℕ) {b : Block} {p : ℕ} {mem : Memory}
    → HeapHolds h bs
    → length bs < fuel
    → 0 < size
    → size + 63 < 2 ^ 64
    → malloc fuel size h ≡ returned (some p) mem
    → get_elem? bs i ≡ some b
    → b.used ≡ true
    → (limit b ≤ p) ⊎ (p + size ≤ b.addr)
unfolding align_size
malloc-Excludes fuel size h bs i {b = b} {p = p} {mem = mem} v f pos small e g u =
    let r = malloc_refines fuel size h bs v f pos small in
    let same : placed_at (align_size size) bs ≡ some p = pointer_of (sym r.1 ∙ e) in
    let w = placed_at-Excludes (align_size size) bs i v.apart same g u in ground (arith, w)
  where
    pointer_of : {x y : Option ℕ} {m m' : Memory} → returned x m ≡ returned y m' → x ≡ y
    pointer_of q = cc
