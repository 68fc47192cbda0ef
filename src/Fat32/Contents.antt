-- ===== src/Fat32/Contents.antt =====
-- What fat32_read_file copies: the bytes along the chain of clusters, up to the file's size.
use mathlib.Core.List.{append_assoc, append-nil}
use schwarz_kernel.Prelude.{
  ℕ, zero, suc, ◌+◌, ◌-◌, ◌*◌, ◌%◌, ◌^◌, ◌≤◌, ◌<◌, ◌≡◌, sym, ap, ◌∙◌, inl, inr, true, false, Option,
  none, some, List, [], ◌∷◌, ◌++◌, ltb, length, length-append, length-take, take, take-nil,
  take_none, min, arith, Bool-cases, Option-cases,
}
use schwarz_kernel.Fat32.Volume.{Fat32Mount, first_sector_of_cluster, in_chain, read_fat_entry}
use schwarz_kernel.Fat32.FileRead.{copy_sectors, copy_chain}

module _ {ℓ} {A : Type ℓ} where
  take-append : (n : ℕ) (xs ys : List A) → take n (xs ++ ys) ≡ take n xs ++ take (n - length xs) ys
  take-append zero xs ys = sym (take_none (0 - length xs) ys (omega arith))
  take-append (suc n) [] ys = let e : suc n - 0 ≡ suc n = omega arith in rw e
  take-append (suc n) (x ∷ xs) ys =
      ap (◌∷◌ x) (take-append n xs ys ∙ ap (λ k. take n xs ++ take k ys) (omega arith))

  take-min : (n m : ℕ) (xs : List A) → length xs ≤ m → take (min n m) xs ≡ take n xs
  take-min zero m xs h = take_none (min 0 m) xs (omega arith)
  take-min (suc n) m [] h = take-nil A (min (suc n) m)
  take-min (suc n) zero (x ∷ xs) h = absurd (omega arith)
  take-min (suc n) (suc m) (x ∷ xs) h =
      let e : min (suc n) (suc m) ≡ suc (min n m) = omega arith in
      rw e (ap (◌∷◌ x) (take-min n m xs (omega arith)))

-- Copying stops at `size`.
nothing_left :
    (size : ℕ) (out xs : List ℕ) → size ≤ length out → out ++ take (size - length out) xs ≡ out
nothing_left size out xs h =
    ap (λ t. out ++ t) (take_none (size - length out) xs (omega arith)) ∙ append-nil out

-- Two copies up to `size`, one after the other, are one of both.
copy_twice :
    (size : ℕ) (out xs ys : List ℕ)
    → let out' = out ++ take (size - length out) xs in
      out' ++ take (size - length out') ys ≡ out ++ take (size - length out) (xs ++ ys)
copy_twice size out xs ys =
    let k = size - length out in
    let e : size - length (out ++ take k xs) ≡ k - length xs =
      omega (arith, length-append out (take k xs), length-take k xs) in
    rw (e, append_assoc, take-append k xs ys)

-- The bytes of `n` sectors from `lba` on, all of them readable.
unfoldable pub sectors_data : (ℕ → Option (List ℕ)) → ℕ → ℕ → Option (List ℕ)
sectors_data read zero lba = some []
sectors_data read (suc n) lba = elim (read lba) [
  | none ↦ none
  | some sector ↦ elim (sectors_data read n ((lba + 1) % 2 ^ 32)) [
    | none ↦ none
    | some rest ↦ some (sector ++ rest)
  ]
]

-- From `cluster` the allocation table leads through readable clusters that hold `bytes`.
pub data ChainHolds (read : ℕ → Option (List ℕ)) (m : Fat32Mount) : ℕ → List ℕ → Type 0 where
  chain_end : {c : ℕ} → in_chain c ≡ false → ChainHolds read m c []
  link :
      {c : ℕ} {bytes : List ℕ} (next : ℕ) (d rest : List ℕ)
      → in_chain c ≡ true
      → sectors_data read m.sectors_per_cluster (first_sector_of_cluster m c) ≡ some d
      → read_fat_entry read m c ≡ some next
      → bytes ≡ d ++ rest
      → ChainHolds read m next rest
      → ChainHolds read m c bytes

module _ (read : ℕ → Option (List ℕ))
    (sectors : (lba : ℕ) (sector : List ℕ) → read lba ≡ some sector → length sector ≡ 512)
    (size : ℕ) where
  sectors_data-suc :
      (n lba : ℕ) (d : List ℕ)
      → sectors_data read (suc n) lba ≡ some d
      → (s : List ℕ) × (rest : List ℕ) × (read lba ≡ some s)
        × (sectors_data read n ((lba + 1) % 2 ^ 32) ≡ some rest)
        × (d ≡ s ++ rest)
  unfolding sectors_data
  sectors_data-suc n lba d h = elim (Option-cases (read lba)) [
    | inl e ↦ absurd (ground arith)
    | inr (s, e) ↦ elim (Option-cases (sectors_data read n ((lba + 1) % 2 ^ 32))) [
      | inl e' ↦ absurd (ground arith)
      | inr (rest, e') ↦ (s, rest, e, e', ground arith)
    ]
  ]

  length-sectors_data :
      (n lba : ℕ) (d : List ℕ) → sectors_data read n lba ≡ some d → length d ≡ n * 512
  unfolding sectors_data
  length-sectors_data zero lba d h = ground arith
  length-sectors_data (suc n) lba d h =
      let (s, rest, e, e', q) = sectors_data-suc n lba d h in
      omega (
        arith,
        ap length q,
        length-append s rest,
        sectors lba s e,
        length-sectors_data n ((lba + 1) % 2 ^ 32) rest e',
      )

  copy_sectors_lem :
      (n lba : ℕ) (out d : List ℕ)
      → sectors_data read n lba ≡ some d
      → length out ≤ size
      → copy_sectors read size n lba out ≡ some (out ++ take (size - length out) d)
  unfolding copy_sectors sectors_data
  copy_sectors_lem zero lba out d h l =
      ground (arith, append-nil out, take-nil ℕ (size - length out))
  copy_sectors_lem (suc n) lba out d h l = elim (Bool-cases (ltb (length out) size)) [
    | inl more ↦
        let (s, rest, e, e', q) = sectors_data-suc n lba d h in
        let k = size - length out in
        let out' = out ++ take k s in
        rw (more, e, take-min k 512 s (omega (arith, sectors lba s e)), copy_sectors)
          (copy_sectors_lem n ((lba + 1) % 2 ^ 32) out' rest e'
              (omega (arith, length-append out (take k s), length-take k s))
            ∙ ap some (copy_twice size out s rest ∙ ap (λ x. out ++ take k x) (sym q)))
    | inr full ↦ rw (full, copy_sectors) (ap some (sym (nothing_left size out d (ground arith))))
  ]

module _ (read : ℕ → Option (List ℕ))
    (sectors : (lba : ℕ) (sector : List ℕ) → read lba ≡ some sector → length sector ≡ 512)
    (m : Fat32Mount) (positive : 0 < m.sectors_per_cluster) (size : ℕ) where
  copy_chain_from :
      (fuel : ℕ) {c : ℕ} {bytes : List ℕ} (out : List ℕ)
      → ChainHolds read m c bytes
      → length out ≤ size
      → size ≤ length out + length bytes
      → size - length out < fuel
      → copy_chain read m size fuel c out ≡ some (some (out ++ take (size - length out) bytes))
  unfolding copy_chain
  copy_chain_from zero out h l b f = absurd (omega arith)
  copy_chain_from (suc fuel) out (chain_end e) l b f =
      rw (e, copy_chain) (ap (λ x. some (some x)) (sym (nothing_left size out [] (omega arith))))
  copy_chain_from (suc fuel) out (link {c} {bytes} next d rest e data' t q h) l b f =
      elim (Bool-cases (ltb (length out) size)) [
        | inl more ↦
            let o = out ++ take (size - length out) d in
            let len : length o ≡ length out + min (size - length out) (length d) = omega (
              arith,
              length-append out (take (size - length out) d),
              length-take (size - length out) d,
            ) in
            let big : 512 ≤ length d = grind (
              arith,
              length-sectors_data read sectors size m.sectors_per_cluster
                  (first_sector_of_cluster m c) d data',
            ) in
            let total : length bytes ≡ length d + length rest =
              ap length q ∙ length-append d rest in
            rw
              (
                e,
                more,
                copy_sectors_lem read sectors size m.sectors_per_cluster
                    (first_sector_of_cluster m c) out d data' l,
                t,
                copy_chain,
              )
              (copy_chain_from fuel o h (omega arith) (omega arith) (ground arith)
                ∙ ap (λ x. some (some x))
                    (copy_twice size out d rest
                      ∙ ap (λ x. out ++ take (size - length out) x) (sym q)))
        | inr full ↦
            rw (e, full, copy_chain)
              (ap (λ x. some (some x)) (sym (nothing_left size out bytes (ground arith))))
      ]

-- A file's contents: where every sector read has 512 bytes, clusters have at least one sector and the
-- chain from the file's first cluster holds `size` bytes or more, the copying loops end within
-- `size + 1` rounds and give exactly the first `size` bytes along the chain.
pub copy_chain_lem :
    (read : ℕ → Option (List ℕ)) (m : Fat32Mount) (size : ℕ) {c : ℕ} {bytes : List ℕ}
    → ((lba : ℕ) (sector : List ℕ) → read lba ≡ some sector → length sector ≡ 512)
    → 0 < m.sectors_per_cluster
    → ChainHolds read m c bytes
    → size ≤ length bytes
    → copy_chain read m size (suc size) c [] ≡ some (some (take size bytes))
copy_chain_lem read m size {bytes = bytes} sectors positive h b =
    let e : size - 0 ≡ size = omega arith in
    copy_chain_from read sectors m positive size (suc size) [] h (omega arith) (omega arith)
      (omega arith)
    ∙ ap (λ n. some (some (take n bytes))) e
