-- ===== src/Editing/Orientation/Laws.antt =====
-- `change_orientation` moves each pixel to its place, and panics on no valid image.
use native.Mathlib.Nat.{le_refl, mod-eq_of_lt, mul-le-mul_right}
use glycin.Base.{
  ℕ, ◌+◌, ◌-◌, ◌*◌, ◌/◌, ◌%◌, ◌≤◌, ◌<◌, ◌≡◌, refl, ◌∙◌, ap, arith, Bool, true, false, ◌&&◌, ◌==◌,
  if◌then◌else◌, length, get_or, length-replicate, replicate, Returns, row_inj, row_lt, u32_mod,
  usize_mod,
}
use glycin.Format.Extended.{pixel_size}
use glycin.Editing.Images.{Buffer, IsValid, byte}
use glycin.Editing.{EditingFrame}
use glycin.Operations.{Rotation, deg0, deg90, deg180, deg270}
use glycin.Editing.Orientation.{
  mirror_buffer, rotate_270, rotate_90, rotate_180, rotate_buffer, turned, change_orientation,
}
use glycin.Editing.Orientation.Grid.{SameByte, InPixels}
use glycin.Editing.Orientation.Copy.{copies-Copied}
use glycin.Editing.Orientation.Swap.{swaps-Swapped}

-- Where a pixel of an image of the given size goes: to the other side if the image is mirrored, and
-- then along with a counter-clockwise rotation.
abbrev pub mirrored : Bool → ℕ → ℕ → ℕ
mirrored mirror width x = if mirror then width - 1 - x else x

abbrev pub moved_x : Rotation → ℕ → ℕ → ℕ → ℕ → ℕ
moved_x deg0 width height x y = x
moved_x deg90 width height x y = y
moved_x deg180 width height x y = width - 1 - x
moved_x deg270 width height x y = height - 1 - y

abbrev pub moved_y : Rotation → ℕ → ℕ → ℕ → ℕ → ℕ
moved_y deg0 width height x y = y
moved_y deg90 width height x y = width - 1 - x
moved_y deg180 width height x y = height - 1 - y
moved_y deg270 width height x y = x

abbrev pub turned_width : Rotation → EditingFrame → ℕ
turned_width deg0 frame = frame.width
turned_width deg90 frame = frame.height
turned_width deg180 frame = frame.width
turned_width deg270 frame = frame.height

abbrev pub turned_height : Rotation → EditingFrame → ℕ
turned_height deg0 frame = frame.height
turned_height deg90 frame = frame.width
turned_height deg180 frame = frame.height
turned_height deg270 frame = frame.width

-- The image `out` is `frame` and `buf`, mirrored if asked and rotated.
pub record IsOriented (mirror : Bool) (rotation : Rotation) (frame : EditingFrame) (buf : Buffer)
    (out : EditingFrame × Buffer) : Type 0 where
  pub width : out.0.width ≡ turned_width rotation frame
  pub height : out.0.height ≡ turned_height rotation frame
  pub same_format : out.0.memory_format ≡ frame.memory_format
  pub valid : IsValid out.0 out.1
  pub no_longer : length out.1 ≤ length buf
  pub pixels :
      (x y i : ℕ)
      → x < frame.width
      → y < frame.height
      → i < pixel_size frame.memory_format
      → let x' = mirrored mirror frame.width x in
        byte out.0 out.1
          (moved_x rotation frame.width frame.height x' y)
          (moved_y rotation frame.width frame.height x' y)
          i
        ≡ byte frame buf x y i

module _ (w h ps stride : ℕ) (narrow : w * ps ≤ stride) (buf : Buffer)
    (held : stride * h ≤ length buf) where
  mirrors : Returns (mirror_buffer stride w h ps buf) (λ buf'.
      (length buf' ≡ length buf)
      × ((x y i : ℕ)
          → InPixels w h ps stride narrow x y i
          → get_or buf' (x * ps + y * stride + i) 0
            ≡ get_or buf ((w - 1 - x) * ps + y * stride + i) 0))
  unfolding mirror_buffer
  mirrors =
      swaps-Swapped w h ps stride narrow buf held (λ x. w - 1 - x) (λ y. y) (w / 2) (λ _. h)
        (λ x hx. (omega arith, omega arith)) (λ y hy. (hy, refl)) (λ x y hx hy. (omega arith, hy))
        (λ x y hx hy hx' hy'. omega arith) (λ x y hx hy. ground arith)

  turns_half : Returns (rotate_180 stride w h ps buf) (λ buf'.
      (length buf' ≡ length buf)
      × ((x y i : ℕ)
          → InPixels w h ps stride narrow x y i
          → get_or buf' (x * ps + y * stride + i) 0
            ≡ get_or buf ((w - 1 - x) * ps + (h - 1 - y) * stride + i) 0))
  unfolding rotate_180
  turns_half =
      swaps-Swapped w h ps stride narrow buf held (λ x. w - 1 - x) (λ y. h - 1 - y) ((w + 1) / 2)
        (λ x. if w % 2 == 1 && w / 2 == x then h / 2 else h) (λ x hx. (omega arith, omega arith))
        (λ y hy. (omega arith, omega arith)) (λ x y hx hy. ground arith)
        (λ x y hx hy hx' hy'. ground arith) (λ x y hx hy. ground arith)

  area_lt : (c r i : ℕ) → c < w → r < h → i < ps → c * h * ps + r * ps + i < w * h * ps
  area_lt c r i hc hr hi =
      let a : c * h + r < w * h = omega (arith, row_lt h c r w 0 hr hc) in
      omega (arith, row_lt ps (c * h + r) i (w * h) 0 hi a)

  area_inj :
      (c r i c' r' i' : ℕ)
      → r < h
      → i < ps
      → r' < h
      → i' < ps
      → c * h * ps + r * ps + i ≡ c' * h * ps + r' * ps + i'
      → SameByte c r i c' r' i'
  area_inj c r i c' r' i' hr hi hr' hi' e =
      let (ecr, ei) = row_inj ps (c * h + r) i (c' * h + r') i' hi hi' (omega arith) in
      let (ec, er) = row_inj h c r c' r' hr hr' ecr in (ec, er, ei)

  module _ (small : length buf < usize_mod) where
    area_small : (w * h * ps) % usize_mod ≡ w * h * ps
    area_small =
        let a : w * ps * h ≤ stride * h = mul-le-mul_right h narrow in mod-eq_of_lt (omega arith)

    zeros : length {A = ℕ} (replicate (w * h * ps % usize_mod) 0) ≡ w * h * ps
    zeros = length-replicate _ 0 ∙ area_small

    turns_left : Returns (rotate_90 stride w h ps buf) (λ v.
        (length v ≡ w * h * ps)
        × ((x y i : ℕ)
            → InPixels w h ps stride narrow x y i
            → get_or v ((w - 1 - x) * h * ps + y * ps + i) 0
              ≡ get_or buf (x * ps + y * stride + i) 0))
    unfolding rotate_90
    turns_left =
        copies-Copied w h ps stride narrow buf held (λ x y i. (w - 1 - x) * h * ps + y * ps + i)
          (w * h * ps) (λ x y i (hx, hy, hi). area_lt (w - 1 - x) y i (omega arith) hy hi)
          (λ x y i x' y' i' (hx, hy, hi) (hx', hy', hi') e.
            let (ex, ey, ei) = area_inj (w - 1 - x) y i (w - 1 - x') y' i' hy hi hy' hi' e in
            (omega arith, ey, ei))
          (replicate (w * h * ps % usize_mod) 0) zeros

    turns_right : Returns (rotate_270 stride w h ps buf) (λ v.
        (length v ≡ w * h * ps)
        × ((x y i : ℕ)
            → InPixels w h ps stride narrow x y i
            → get_or v (x * h * ps + (h - 1 - y) * ps + i) 0
              ≡ get_or buf (x * ps + y * stride + i) 0))
    unfolding rotate_270
    turns_right =
        copies-Copied w h ps stride narrow buf held (λ x y i. x * h * ps + (h - 1 - y) * ps + i)
          (w * h * ps) (λ x y i (hx, hy, hi). area_lt x (h - 1 - y) i hx (omega arith) hi)
          (λ x y i x' y' i' (hx, hy, hi) (hx', hy', hi') e.
            let (ex, ey, ei) =
              area_inj x (h - 1 - y) i x' (h - 1 - y') i' (omega arith) hi (omega arith) hi' e in
            (ex, omega arith, ei))
          (replicate (w * h * ps % usize_mod) 0) zeros

-- The image on its side, where its stride is not cut off.
module _ (frame : EditingFrame) (buf : Buffer) (valid : IsValid frame buf)
    (small : length buf < usize_mod) where
  open frame use {width as w, height as h, stride}

  abbrev ps : ℕ
  ps = pixel_size frame.memory_format

  area_held : w * h * ps ≤ length buf
  area_held =
      let a : w * ps * h ≤ stride * h = mul-le-mul_right h valid.narrow in omega (arith, valid.held)

  rotates :
      (rotation : Rotation)
      → h * ps < u32_mod
      → Returns (rotate_buffer rotation frame buf) (IsOriented false rotation frame buf)
  unfolding rotate_buffer turned
  rotates deg0 stride_fits = (
    (frame, buf),
    refl,
    record {
      width = refl;
      height = refl;
      same_format = refl;
      valid = valid;
      no_longer = le_refl (length buf);
      pixels = λ x y i hx hy hi. refl;
    },
  )
  rotates deg90 stride_fits =
      let (v, e, (size, all)) = turns_left w h ps stride valid.narrow buf valid.held small in
      let cut : h * ps % u32_mod ≡ h * ps = mod-eq_of_lt stride_fits in
      (
        (turned frame, v),
        rw e,
        record {
          width = refl;
          height = refl;
          same_format = refl;
          valid = record { narrow = omega arith; held = rw (cut, size) (omega arith) };
          no_longer = omega (arith, size, area_held);
          pixels = λ x y i hx hy hi.
              ap (λ (k : ℕ). get_or v k 0) (rw cut (omega arith)) ∙ all x y i (hx, hy, hi);
        },
      )
  rotates deg180 stride_fits =
      let (buf', e, (size, all)) = turns_half w h ps stride valid.narrow buf valid.held in
      (
        (frame, buf'),
        rw e,
        record {
          width = refl;
          height = refl;
          same_format = refl;
          valid = record { narrow = valid.narrow; held = rw size valid.held };
          no_longer = omega (arith, size);
          pixels = λ x y i hx hy hi.
              all (w - 1 - x) (h - 1 - y) i (omega arith, omega arith, hi)
              ∙ ap (λ (k : ℕ). get_or buf k 0)
                  (let ex : w - 1 - (w - 1 - x) ≡ x = omega arith in
                    let ey : h - 1 - (h - 1 - y) ≡ y = omega arith in rw (ex, ey));
        },
      )
  rotates deg270 stride_fits =
      let (v, e, (size, all)) = turns_right w h ps stride valid.narrow buf valid.held small in
      let cut : h * ps % u32_mod ≡ h * ps = mod-eq_of_lt stride_fits in
      (
        (turned frame, v),
        rw e,
        record {
          width = refl;
          height = refl;
          same_format = refl;
          valid = record { narrow = omega arith; held = rw (cut, size) (omega arith) };
          no_longer = omega (arith, size, area_held);
          pixels = λ x y i hx hy hi.
              ap (λ (k : ℕ). get_or v k 0) (rw cut (omega arith)) ∙ all x y i (hx, hy, hi);
        },
      )

-- On a valid image, whose height times the pixel size is below 2^32 and whose buffer has fewer than
-- 2^64 bytes, `change_orientation` returns, without a panic, the image mirrored if asked and then
-- rotated counter-clockwise: width and height are swapped by a quarter turn, the format is kept,
-- the result is again valid, and every byte of every pixel stands at the place of that pixel.
pub change_orientation-IsOriented :
    (mirror : Bool) (rotation : Rotation) (frame : EditingFrame) (buf : Buffer)
    → IsValid frame buf
    → length buf < usize_mod
    → frame.height * pixel_size frame.memory_format < u32_mod
    → Returns (change_orientation mirror rotation frame buf) (IsOriented mirror rotation frame buf)
unfolding change_orientation
change_orientation-IsOriented false rotation frame buf valid small stride_fits =
    rotates frame buf valid small rotation stride_fits
change_orientation-IsOriented true rotation frame buf valid small stride_fits =
    let (buf', e, (size, all)) =
      mirrors frame.width frame.height (pixel_size frame.memory_format) frame.stride valid.narrow
        buf valid.held in
    let valid' : IsValid frame buf' = record { narrow = valid.narrow; held = rw size valid.held } in
    let (out, e', done) = rotates frame buf' valid' (rw size small) rotation stride_fits in
    (
      out,
      rw (e, e'),
      record {
        width = done.width;
        height = done.height;
        same_format = done.same_format;
        valid = done.valid;
        no_longer = omega (arith, done.no_longer, size);
        pixels = λ x y i hx hy hi.
            done.pixels (frame.width - 1 - x) y i (omega arith) hy hi
            ∙ all (frame.width - 1 - x) y i (omega arith, hy, hi)
            ∙ ap
                (λ (k : ℕ).
                  get_or buf (k * pixel_size frame.memory_format + y * frame.stride + i) 0)
                (omega arith);
      },
    )
