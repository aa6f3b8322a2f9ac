-- ===== src/Editing/Clip/Laws.antt =====
-- `clip` cuts out the part of the rectangle that lies in the image, and refuses a rectangle that
-- begins outside of it.
use native.Mathlib.Nat.{mul-le-mul_right, mul-le-mul_left}
use glycin.Base.{
  ℕ, suc, ◌+◌, ◌-◌, ◌*◌, ◌≤◌, ◌<◌, ◌≡◌, ◌⊎◌, inl, inr, refl, ◌∙◌, ap, arith, min, leb, Bool-cases,
  [], ◌++◌, length, get_or, take, drop, length-append, length-take, length-drop, get_or-append_left,
  get_or-append_right, get_or-take, get_or-drop, ok, err, for_in, for_in-Returns, Returns, row_lt,
  u32_mod, usize_mod, i64_mod,
}
use glycin.Math.{Checked, IsChecked}
use glycin.Format.Extended.{pixel_size}
use glycin.Editing.{EditingFrame, math}
use glycin.Editing.Images.{Buffer, IsValid, byte}
use glycin.Editing.Clip.{Rows, clip_row, clip}

module _ (buf : Buffer) (y x_ width_ stride : ℕ) (fits : x_ + width_ ≤ stride) where
  -- After `k` rows the cursor is at the next row, and the rows are in the new buffer.
  abbrev Cut : ℕ → Rows → Type 0
  Cut k s =
      (s.cur ≡ (y + k) * stride)
      × (length s.new ≡ k * width_)
      × ((j b : ℕ)
          → j < k
          → b < width_
          → get_or s.new (j * width_ + b) 0 ≡ get_or buf ((y + j) * stride + x_ + b) 0)

  clip_row_lem :
      (s : Rows)
      → s.cur + stride ≤ length buf
      → clip_row buf x_ width_ stride s
        ≡ ok (record { cur = s.cur + stride; new = s.new ++ take width_ (drop (s.cur + x_) buf) })
  unfolding clip_row
  clip_row_lem s h = ground arith

  row-Cut :
      (k : ℕ) (s : Rows)
      → (y + suc k) * stride ≤ length buf
      → Cut k s
      → Returns (clip_row buf x_ width_ stride s) (Cut (suc k))
  row-Cut k s h (cur, size, old) =
      let next : (y + suc k) * stride ≡ (y + k) * stride + stride = omega arith in
      let row = take width_ (drop (s.cur + x_) buf) in
      let row_size : length row ≡ width_ =
        omega (arith, length-take width_ (drop (s.cur + x_) buf), length-drop (s.cur + x_) buf) in
      (
        record { cur = s.cur + stride; new = s.new ++ row },
        clip_row_lem s (omega arith),
        (
          omega arith,
          omega (arith, length-append s.new row),
          λ j b hj hb. elim (Bool-cases (leb k j)) [
            | inl last ↦
                let e : j ≡ k = ground arith in
                ap (λ (n : ℕ). get_or (s.new ++ row) n 0)
                  (let q : j * width_ + b ≡ length s.new + b = rw e (omega arith) in q)
                ∙ get_or-append_right s.new row b 0
                ∙ get_or-take width_ (drop (s.cur + x_) buf) b 0 hb
                ∙ get_or-drop (s.cur + x_) buf b 0
                ∙ ap (λ (n : ℕ). get_or buf n 0)
                    (let q : s.cur + x_ + b ≡ (y + j) * stride + x_ + b = rw e (omega arith) in q)
            | inr earlier ↦
                let hjk : j < k = ground arith in
                get_or-append_left s.new row (j * width_ + b) 0
                  (omega (arith, row_lt width_ j b k 0 hb hjk))
                ∙ old j b hjk hb
          ],
        ),
      )

  rows-Cut :
      (n : ℕ)
      → (y + n) * stride ≤ length buf
      → Returns
          (for_in 0 n (λ _. clip_row buf x_ width_ stride) (record { cur = y * stride; new = [] }))
          (Cut n)
  rows-Cut n h =
      for_in-Returns Cut (λ _. clip_row buf x_ width_ stride) n
        (λ k s hk c.
          row-Cut k s
            (let q : (y + suc k) * stride ≤ (y + n) * stride =
                mul-le-mul_right stride (let t : y + suc k ≤ y + n = omega arith in t) in
              omega arith)
            c)
        n 0 _ (omega arith) (omega arith, omega arith, λ j b hj. absurd (omega arith))

-- The image `out` is the part of `frame` and `buf` in the rectangle at `(x, y)`.
pub record IsClipped (frame : EditingFrame) (buf : Buffer) (x y width height : ℕ)
    (out : EditingFrame × Buffer) : Type 0 where
  pub new_width : out.0.width ≡ min width (frame.width - x)
  pub new_height : out.0.height ≡ min height (frame.height - y)
  pub same_format : out.0.memory_format ≡ frame.memory_format
  pub packed : out.0.stride ≡ out.0.width * pixel_size frame.memory_format
  pub valid : IsValid out.0 out.1
  pub pixels :
      (a b i : ℕ)
      → a < out.0.width
      → b < out.0.height
      → i < pixel_size frame.memory_format
      → byte out.0 out.1 a b i ≡ byte frame buf (x + a) (y + b) i

module _ (checked : Checked) (laws : IsChecked checked) (frame : EditingFrame) (buf : Buffer)
    (x y width height : ℕ) where
  abbrev ps : ℕ
  ps = pixel_size frame.memory_format

  -- On a valid image whose dimensions and stride are `u32` and whose buffer has fewer than 2^63
  -- bytes, for a rectangle that begins inside of the image or at its border, `clip` returns the
  -- pixels of the rectangle that lie in the image, in a valid image without padding.
  pub clip-IsClipped :
      IsValid frame buf
      → frame.stride < u32_mod
      → length buf < i64_mod
      → x ≤ frame.width
      → y ≤ frame.height
      → Returns (clip checked buf frame x y width height) (IsClipped frame buf x y width height)
  unfolding clip
  clip-IsClipped valid stride_small small hx hy =
      let w' = min width (frame.width - x) in
      let h' = min height (frame.height - y) in
      let row : (x + w') * ps ≤ frame.width * ps =
        mul-le-mul_right ps (let t : x + w' ≤ frame.width = omega arith in t) in
      let inside : x * ps + w' * ps ≤ frame.stride = omega (arith, valid.narrow) in
      let rows_in : (y + h') * frame.stride ≤ frame.height * frame.stride =
        mul-le-mul_right frame.stride (let t : y + h' ≤ frame.height = omega arith in t) in
      let rows_held : (y + h') * frame.stride ≤ length buf = omega (arith, valid.held) in
      let area : h' * (w' * ps) ≤ h' * frame.stride =
        mul-le-mul_left h' (let t : w' * ps ≤ frame.stride = omega arith in t) in
      let (rows, e, (cur, size, all)) =
        rows-Cut buf y (x * ps) (w' * ps) frame.stride inside h' rows_held in
      (
        (record frame { width = w'; height = h'; stride = w' * ps }, rows.new),
        rw
            (
              laws.sub_fits frame.width x hx,
              laws.sub_fits frame.height y hy,
              laws.mul_fits u32_mod w' ps (omega arith),
              laws.mul_fits usize_mod h' (w' * ps) (omega arith),
              laws.mul_fits i64_mod x ps (omega arith),
              laws.mul_fits usize_mod w' ps (omega arith),
              laws.mul_fits i64_mod y frame.stride (omega arith),
            )
            (rw e),
        record {
          new_width = refl;
          new_height = refl;
          same_format = refl;
          packed = refl;
          valid = record { narrow = omega arith; held = omega arith };
          pixels = λ a b i ha hb hi.
              ap (λ (n : ℕ). get_or rows.new n 0)
                (let q : a * ps + b * (w' * ps) + i ≡ b * (w' * ps) + (a * ps + i) = omega arith in
                  q)
              ∙ all b (a * ps + i) hb (omega (arith, row_lt ps a i w' 0 hi ha))
              ∙ ap (λ (n : ℕ). get_or buf n 0) (omega arith);
        },
      )

  -- A rectangle that begins outside of the image is refused with a math error.
  pub clip_outside :
      (frame.width < x) ⊎ (frame.height < y) → clip checked buf frame x y width height ≡ err math
  unfolding clip
  clip_outside (inl hx) = rw (laws.sub_underflow frame.width x hx)
  clip_outside (inr hy) = elim (Bool-cases (leb x frame.width)) [
    | inl e ↦ rw (laws.sub_fits frame.width x (ground arith), laws.sub_underflow frame.height y hy)
    | inr e ↦ rw (laws.sub_underflow frame.width x (ground arith))
  ]
