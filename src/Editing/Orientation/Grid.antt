-- ===== src/Editing/Orientation/Grid.antt =====
-- Bytes of an image by column, row and place in the pixel, and what the two kinds of loop over them
-- leave behind: one that swaps pairs of bytes, and one that copies into a new buffer.
use glycin.Base.{
  ℕ, suc, ◌+◌, ◌*◌, ◌≤◌, ◌<◌, ◌≡◌, ◌⊎◌, arith, ok, read_lem, write_lem, length, get_or, set,
  length-set, row_inj,
}
use glycin.Editing.Images.{Buffer}
use glycin.Editing.Orientation.{swap, copy_byte}

-- The order in which the loops visit columns, rows and bytes.
abbrev pub Before : ℕ → ℕ → ℕ → ℕ → ℕ → ℕ → Type 0
Before x y i x' y' i' = (x < x') ⊎ (x ≡ x') × ((y < y') ⊎ (y ≡ y') × (i < i'))

abbrev pub SameByte : ℕ → ℕ → ℕ → ℕ → ℕ → ℕ → Type 0
SameByte x y i x' y' i' = (x ≡ x') × (y ≡ y') × (i ≡ i')

pub Before-suc :
    (x y i x' y' i' : ℕ)
    → Before x y i x' y' (suc i')
    → Before x y i x' y' i' ⊎ SameByte x y i x' y' i'
Before-suc x y i x' y' i' h = omega arith

pub not-Before : (x y i : ℕ) → ¬ Before x y i x y i
not-Before x y i h = omega arith

pub swap_lem :
    (p q : ℕ) (buf : Buffer)
    → p < length buf
    → q < length buf
    → swap p q buf ≡ ok (set (set buf p (get_or buf q 0)) q (get_or buf p 0))
unfolding swap
swap_lem p q buf hp hq =
    rw (read_lem buf p 0 hp, read_lem buf q 0 hq, write_lem buf p (get_or buf q 0) hp)
      (write_lem _ q _ (omega (arith, length-set buf p (get_or buf q 0))))

pub copy_lem :
    (img_buf v : Buffer) (p1 p0 : ℕ)
    → p0 < length img_buf
    → p1 < length v
    → copy_byte img_buf p1 p0 v ≡ ok (set v p1 (get_or img_buf p0 0))
unfolding copy_byte
copy_lem img_buf v p1 p0 h0 h1 = rw (read_lem img_buf p0 0 h0) (write_lem v p1 _ h1)

module _ (w h ps stride : ℕ) (narrow : w * ps ≤ stride) where
  abbrev pub position : ℕ → ℕ → ℕ → ℕ
  position x y i = x * ps + y * stride + i

  abbrev pub InPixels : ℕ → ℕ → ℕ → Type 0
  InPixels x y i = (x < w) × (y < h) × (i < ps)

  in_row : (x i : ℕ) → x < w → i < ps → x * ps + i < stride
  in_row x i hx hi = grind arith

  pub position_inj :
      (x y i x' y' i' : ℕ)
      → InPixels x y i
      → InPixels x' y' i'
      → position x y i ≡ position x' y' i'
      → SameByte x y i x' y' i'
  position_inj x y i x' y' i' (hx, hy, hi) (hx', hy', hi') e =
      let (ey, er) =
        row_inj stride y (x * ps + i) y' (x' * ps + i') (in_row x i hx hi) (in_row x' i' hx' hi')
          (omega arith) in
      let (ex, ei) = row_inj ps x i x' i' hi hi' er in (ex, ey, ei)

  pub position-lt : (n x y i : ℕ) → stride * h ≤ n → InPixels x y i → position x y i < n
  position-lt n x y i hn (hx, hy, hi) =
      let r = in_row x i hx hi in let e : (suc y) * stride ≤ h * stride = grind arith in omega arith
