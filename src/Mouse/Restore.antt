-- ===== src/Mouse/Restore.antt =====
-- mouse.h: erasing the cursor restores what was under it.
use schwarz_kernel.Prelude.{
  ℕ, zero, suc, ◌+◌, ◌-◌, ◌*◌, ◌%◌, ◌^◌, ◌≤◌, ◌<◌, ◌≡◌, ◌≢◌, refl, subst, dec_lt, ℕ_discrete, sym,
  ap, ◌∙◌, ◌⊎◌, inl, inr, Bool, true, false, if◌then◌else◌, get_or, arith,
}
use schwarz_kernel.Mouse.Cursor.{
  Screen, windows_cursor, store, column, row, pixel_index, on_screen, covers, cursor_colour,
  draw_pixel, erase_pixel, draw_loop, erase_loop, cursor_draw, cursor_erase,
}

store_at : (i v : ℕ) (mem : ℕ → ℕ) (j : ℕ) → j ≡ i → store i v mem j ≡ v
store_at i v mem j e = ground (arith, e)

store_other : (i v : ℕ) (mem : ℕ → ℕ) (j : ℕ) → j ≢ i → store i v mem j ≡ mem j
store_other i v mem j ne = ground (arith, ne)

compare_cases : (a b : ℕ) → (a < b) ⊎ ((b < a) ⊎ (a ≡ b))
compare_cases a b = elim (dec_lt a b) [
  | yes l ↦ inl l
  | no n ↦ elim (dec_lt b a) [ yes l ↦ inr (inl l) | no m ↦ inr (inr (omega (arith, n, m))) ]
]

-- Two places of a screen of `width` columns with one index are one.
rows-apart : (width r r' : ℕ) → r < r' → r * width + width ≤ r' * width
rows-apart width r r' h =
    let e : r + 1 + (r' - (r + 1)) ≡ r' = omega (arith, h) in
    subst (λ q. r * width + width ≤ q * width) e (omega arith)

same_place :
    (width height r c r' c' : ℕ)
    → c < width
    → c' < width
    → r < height
    → r' < height
    → height * width ≤ 2 ^ 32
    → (r * width + c) % 2 ^ 32 ≡ (r' * width + c') % 2 ^ 32
    → (r ≡ r') × (c ≡ c')
same_place width height r c r' c' hc hc' hr hr' hs e =
    let b = rows-apart width r height hr in
    let b' = rows-apart width r' height hr' in
    let q : r * width + c ≡ r' * width + c' = omega (arith, b, b', hc, hc', hs, e) in
    elim (compare_cases r r') [
      | inl l ↦ absurd (omega (arith, rows-apart width r r' l, q, hc, hc'))
      | inr (inl l) ↦ absurd (omega (arith, rows-apart width r' r l, q, hc, hc'))
      | inr (inr s) ↦ (s, omega (arith, q, ap (λ z. z * width) s))
    ]

module _ (width height x y : ℕ) where
  -- A pixel that covers is on the screen, so its index is not reduced.
  pixel_index-lt :
      (k : ℕ)
      → width < 2 ^ 31
      → height < 2 ^ 31
      → covers width height x y k ≡ true
      → (column x k < width) × (row y k < height)
  unfolding covers on_screen
  pixel_index-lt k hw hh c = (ground (arith, c), ground (arith, c))

  pixel_index-distinct :
      (j k : ℕ)
      → width < 2 ^ 31
      → height < 2 ^ 31
      → height * width ≤ 2 ^ 32
      → j < 204
      → k < 204
      → covers width height x y j ≡ true
      → covers width height x y k ≡ true
      → pixel_index width x y j ≡ pixel_index width x y k
      → j ≡ k
  pixel_index-distinct j k hw hh hs hj hk cj ck e =
      let bj = pixel_index-lt j hw hh cj in
      let bk = pixel_index-lt k hw hh ck in
      let s =
        same_place width height (row y j) (column x j) (row y k) (column x k) bj.0 bk.0 bj.1 bk.1 hs
          e in
      omega (arith, s.0, s.1, hj, hk)

  -- The pixels below `k` have been drawn over `orig`.
  record IsDrawn (orig : ℕ → ℕ) (k : ℕ) (s : Screen) : Type 0 where
    saves :
        (j : ℕ)
        → j < k
        → covers width height x y j ≡ true
        → s.saved j ≡ orig (pixel_index width x y j)
    keeps :
        (a : ℕ)
        → (s.fb a ≡ orig a)
          ⊎ ((j : ℕ) × (j < k) × (covers width height x y j ≡ true) × (pixel_index width x y j ≡ a))

  module _ (hw : width < 2 ^ 31) (hh : height < 2 ^ 31) (hs : height * width ≤ 2 ^ 32) where
    draw_pixel-IsDrawn :
        (orig : ℕ → ℕ) (k : ℕ) (s : Screen)
        → k < 204
        → IsDrawn orig k s
        → IsDrawn orig (k + 1) (draw_pixel width height x y k s)
    unfolding draw_pixel
    draw_pixel-IsDrawn orig k s h d = go (covers width height x y k) refl
      where
        i : ℕ
        i = pixel_index width x y k

        painted : Screen
        painted = record s {
          saved = store k (s.fb i) s.saved;
          fb = store i (cursor_colour (get_or windows_cursor k 0)) s.fb;
        }

        keep :
            (a : ℕ)
            → a ≢ i
            → (s.fb a ≡ orig a)
              ⊎ ((j : ℕ) × (j < k)
                  × (covers width height x y j ≡ true)
                  × (pixel_index width x y j ≡ a))
            → (painted.fb a ≡ orig a)
              ⊎ ((j : ℕ) × (j < k + 1)
                  × (covers width height x y j ≡ true)
                  × (pixel_index width x y j ≡ a))
        keep a ne (inl e) = inl (store_other i _ s.fb a ne ∙ e)
        keep a ne (inr (j, lt, cj, e)) = inr (j, omega (arith, lt), cj, e)

        -- The pixel has not been drawn yet.
        fresh : covers width height x y k ≡ true → s.fb i ≡ orig i
        fresh c = elim (d.keeps i) [
          | inl e ↦ e
          | inr (j, lt, cj, e) ↦
              absurd (
                omega
                  (arith, lt, pixel_index-distinct j k hw hh hs (omega (arith, lt, h)) h cj c e))
        ]

        go :
            (u : Bool)
            → covers width height x y k ≡ u
            → IsDrawn orig (k + 1) (if u then painted else s)
        go true c = record {
          saves = λ j lt cj. elim (ℕ_discrete j k) [
            | yes e ↦
                store_at k (s.fb i) s.saved j e
                ∙ fresh c
                ∙ ap (λ z. orig (pixel_index width x y z)) (sym e)
            | no ne ↦ store_other k (s.fb i) s.saved j ne ∙ d.saves j (omega (arith, lt, ne)) cj
          ];
          keeps = λ a. elim (ℕ_discrete a i) [
            | yes e ↦ inr (k, omega arith, c, sym e)
            | no ne ↦ keep a ne (d.keeps a)
          ];
        }
        go false c = record {
          saves = λ j lt cj. elim (ℕ_discrete j k) [
            | yes e ↦ absurd (ground (arith, sym (ap (covers width height x y) e) ∙ cj, c))
            | no ne ↦ d.saves j (omega (arith, lt, ne)) cj
          ];
          keeps = λ a. elim (d.keeps a) [
            | inl e ↦ inl e
            | inr (j, lt, cj, e) ↦ inr (j, omega (arith, lt), cj, e)
          ];
        }

    draw_loop-IsDrawn :
        (orig : ℕ → ℕ) (n k : ℕ) (s : Screen)
        → k + n ≤ 204
        → IsDrawn orig k s
        → IsDrawn orig (k + n) (draw_loop width height x y n k s)
    unfolding draw_loop
    draw_loop-IsDrawn orig zero k s h d = subst (λ q. IsDrawn orig q s) (omega arith) d
    draw_loop-IsDrawn orig (suc n) k s h d =
        subst
          (λ q.
            IsDrawn orig q (draw_loop width height x y n (k + 1) (draw_pixel width height x y k s)))
          (omega arith)
          (draw_loop-IsDrawn orig n (k + 1) _ (omega (arith, h))
            (draw_pixel-IsDrawn orig k s (omega (arith, h)) d))

  -- What is left to restore at `a`: nothing, or one of the pixels from `k` on stands there.
  Pending : (ℕ → ℕ) → ℕ → ℕ → ℕ → Screen → Type 0
  Pending orig a k n s =
      (s.fb a ≡ orig a)
      ⊎ ((j : ℕ) × (k ≤ j)
          × (j < k + n)
          × (covers width height x y j ≡ true)
          × (pixel_index width x y j ≡ a))

  erase_loop-restores :
      (orig : ℕ → ℕ) (a n k : ℕ) (s : Screen)
      → ((j : ℕ)
          → j < k + n
          → covers width height x y j ≡ true
          → s.saved j ≡ orig (pixel_index width x y j))
      → Pending orig a k n s
      → (erase_loop width height x y n k s).fb a ≡ orig a
  unfolding erase_loop erase_pixel Pending
  erase_loop-restores orig a zero k s sv (inl e) = e
  erase_loop-restores orig a zero k s sv (inr (j, lo, hi, c, e)) = absurd (omega (arith, lo, hi))
  erase_loop-restores orig a (suc n) k s sv p =
      go (covers width height x y k) refl p (λ t. erase_loop-restores orig a n (k + 1) t)
    where
      i : ℕ
      i = pixel_index width x y k

      restored : Screen
      restored = record s { fb = store i (s.saved k) s.fb }

      go :
          (u : Bool)
          → covers width height x y k ≡ u
          → Pending orig a k (suc n) s
          → ((t : Screen)
              → ((j : ℕ)
                  → j < k + 1 + n
                  → covers width height x y j ≡ true
                  → t.saved j ≡ orig (pixel_index width x y j))
              → Pending orig a (k + 1) n t
              → (erase_loop width height x y n (k + 1) t).fb a ≡ orig a)
          → (erase_loop width height x y n (k + 1) (if u then restored else s)).fb a ≡ orig a
      go true c p ih =
          ih restored (λ j lt cj. sv j (omega (arith, lt)) cj)
            (elim (ℕ_discrete a i) [
              | yes e ↦
                  inl (store_at i (s.saved k) s.fb a e ∙ sv k (omega arith) c ∙ ap orig (sym e))
              | no ne ↦ rest ne p
            ])
        where
          rest : a ≢ i → Pending orig a k (suc n) s → Pending orig a (k + 1) n restored
          rest ne (inl e) = inl (store_other i (s.saved k) s.fb a ne ∙ e)
          rest ne (inr (j, lo, hi, cj, e)) = elim (ℕ_discrete j k) [
            | yes q ↦ absurd (ne (sym (ap (pixel_index width x y) (sym q) ∙ e)))
            | no q ↦ inr (j, omega (arith, lo, q), omega (arith, hi), cj, e)
          ]
      go false c p ih = ih s (λ j lt cj. sv j (omega (arith, lt)) cj) (rest p)
        where
          rest : Pending orig a k (suc n) s → Pending orig a (k + 1) n s
          rest (inl e) = inl e
          rest (inr (j, lo, hi, cj, e)) = elim (ℕ_discrete j k) [
            | yes q ↦ absurd (ground (arith, sym (ap (covers width height x y) q) ∙ cj, c))
            | no q ↦ inr (j, omega (arith, lo, q), omega (arith, hi), cj, e)
          ]

-- On a screen of less than 2 ^ 31 columns and rows, whose frame buffer has at most 2 ^ 32 pixels: drawing the cursor at any
-- place, also partly or wholly beside the screen, and erasing it leaves every pixel as it was.
pub cursor_erase-cursor_draw :
    (width height x y : ℕ) (s : Screen) (a : ℕ)
    → width < 2 ^ 31
    → height < 2 ^ 31
    → height * width ≤ 2 ^ 32
    → (cursor_erase width height (cursor_draw width height x y s)).fb a ≡ s.fb a
unfolding cursor_erase cursor_draw Pending
cursor_erase-cursor_draw width height x y s a hw hh hs =
    let d =
      draw_loop-IsDrawn width height x y hw hh hs s.fb 204 0 s (omega arith)
        (record { saves = λ j lt c. absurd (omega (arith, lt)); keeps = λ b. inl refl }) in
    erase_loop-restores width height x y s.fb a 204 0 (cursor_draw width height x y s)
      (λ j lt c. d.saves j lt c)
      (elim (d.keeps a) [ inl e ↦ inl e | inr (j, lt, c, e) ↦ inr (j, omega arith, lt, c, e) ])
