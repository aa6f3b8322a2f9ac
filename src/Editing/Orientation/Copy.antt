-- ===== src/Editing/Orientation/Copy.antt =====
-- A loop that copies each byte of an image to a place of its own.
use glycin.Base.{
  ℕ, suc, ◌*◌, ◌≤◌, ◌<◌, ◌≡◌, inl, inr, ◌∙◌, arith, length, get_or, set, length-set,
  get_or-set_self, get_or-set_ne, for_in, Returns, for_in3-Returns,
}
use glycin.Editing.Images.{Buffer}
use glycin.Editing.Orientation.{copy_byte}
use glycin.Editing.Orientation.Grid.{
  Before, SameByte, Before-suc, copy_lem, position, InPixels, position-lt,
}

module _ (w h ps stride : ℕ) (narrow : w * ps ≤ stride) (img_buf : Buffer)
    (held : stride * h ≤ length img_buf) (target : ℕ → ℕ → ℕ → ℕ) (n : ℕ)
    (target_lt : (x y i : ℕ) → InPixels w h ps stride narrow x y i → target x y i < n)
    (target_inj : (x y i x' y' i' : ℕ)
      → InPixels w h ps stride narrow x y i
      → InPixels w h ps stride narrow x' y' i'
      → target x y i ≡ target x' y' i'
      → SameByte x y i x' y' i') where
  abbrev In : ℕ → ℕ → ℕ → Type 0
  In = InPixels w h ps stride narrow

  abbrev source : ℕ → ℕ → ℕ → ℕ
  source x y i = get_or img_buf (position w h ps stride narrow x y i) 0

  -- The bytes that the loop has visited before the given one are in their places.
  abbrev Copied : ℕ → ℕ → ℕ → Buffer → Type 0
  Copied x' y' i' v =
      (length v ≡ n)
      × ((x y i : ℕ) → In x y i → Before x y i x' y' i' → get_or v (target x y i) 0 ≡ source x y i)

  Copied-step :
      (x' y' i' : ℕ) (v : Buffer)
      → In x' y' i'
      → Copied x' y' i' v
      → Returns
          (copy_byte img_buf (target x' y' i') (position w h ps stride narrow x' y' i') v)
          (Copied x' y' (suc i'))
  Copied-step x' y' i' v inside (size, old) =
      let fits = target_lt x' y' i' inside in
      let b = source x' y' i' in
      (
        set v (target x' y' i') b,
        copy_lem img_buf v (target x' y' i') _
            (position-lt w h ps stride narrow (length img_buf) x' y' i' held inside) (omega arith),
        (
          length-set v (target x' y' i') b ∙ size,
          λ x y i at_xyz earlier. elim (Before-suc x y i x' y' i' earlier) [
            | inl bef ↦
                get_or-set_ne v (target x' y' i') (target x y i) b 0
                  (λ e. let (ex, ey, ei) = target_inj x' y' i' x y i inside at_xyz e in omega arith)
                ∙ old x y i at_xyz bef
            | inr (ex, ey, ei) ↦
                rw (ex, ey, ei) (get_or-set_self v (target x' y' i') b 0 (omega arith))
          ],
        ),
      )

  pub copies-Copied :
      (v : Buffer)
      → length v ≡ n
      → Returns
          (for_in 0 w
            (λ x. for_in 0 h λ y.
              for_in 0 ps
                λ i. copy_byte img_buf (target x y i) (position w h ps stride narrow x y i))
            v)
          (λ v'.
            (length v' ≡ n) × ((x y i : ℕ) → In x y i → get_or v' (target x y i) 0 ≡ source x y i))
  copies-Copied v size =
      let (v', e, (size', all)) =
        for_in3-Returns Copied
          (λ x y i. copy_byte img_buf (target x y i) (position w h ps stride narrow x y i)) w
          (λ _. h) ps (λ x y i s hx hy hi c. Copied-step x y i s (hx, hy, hi) c)
          (λ x y s hx hy (size, c). (size, λ x' y' i' k b. c x' y' i' k (omega arith)))
          (λ x s hx (size, c). (size, λ x' y' i' k b. c x' y' i' k (omega arith))) v
          (size, λ x y i k b. absurd (omega arith)) in
      (v', e, (size', λ x y i k. all x y i k (omega arith)))
