-- ===== src/Remote/Laws.antt =====
-- The frame that the client hands out.
use native.Mathlib.Nat.{mul-le-mul_left}
use glycin.Base.{
  ℕ, ◌+◌, ◌*◌, ◌%◌, ◌≤◌, ◌<◌, ◌≡◌, ◌⊎◌, inl, inr, refl, sym, ap, subst, ◌∙◌, arith, Bool,
  Bool-cases, false, not, ◌&&◌, if◌then◌else◌, List, length, ok, u32_mod, i32_mod, usize_mod,
  Returns,
}
use glycin.Format.Types.{MemoryFormat, to_number}
use glycin.Format.Tables.{n_bytes}
use glycin.Format.Extended.{basic, pixel_size, extended_n_bytes}
use glycin.Operations.{Rotation, deg0, deg90, deg180, deg270}
use glycin.Frame.{Frame, FrameDetails}
use glycin.Editing.{EditingFrame}
use glycin.Editing.Images.{Buffer, IsValid}
use glycin.Editing.Orientation.{change_orientation, rotate_buffer, turned}
use glycin.Editing.Orientation.Laws.{IsOriented, change_orientation-IsOriented}
use glycin.Texture.{max_texture_size}
use glycin.Texture.Validate.{IsWellFormed}
use glycin.Remote.{Image, dimensions, with_dimensions, Shown, apply_exif_orientation, oriented}

-- What is done to the image: nothing, if transformations are not applied or the exif data are ignored.
abbrev pub applied : Image → Bool × Rotation
applied image =
    if image.apply_transformations && not image.transformation_ignore_exif
    then image.transformation
    else (false, deg0)

dimensions_of :
    (mirror : Bool) (rotation : Rotation) (frame : EditingFrame) (buf : Buffer)
    (out : EditingFrame × Buffer)
    → change_orientation mirror rotation frame buf ≡ ok out
    → (out.0 ≡ frame) ⊎ (out.0 ≡ turned frame)
unfolding change_orientation rotate_buffer
dimensions_of mirror deg0 frame buf out e = ground arith
dimensions_of mirror deg90 frame buf out e = ground arith
dimensions_of mirror deg180 frame buf out e = ground arith
dimensions_of mirror deg270 frame buf out e = ground arith

pixel_basic : (f : MemoryFormat) → pixel_size (basic f) ≡ to_number (n_bytes f)
unfolding extended_n_bytes
pixel_basic f = refl

module _ (frame : Frame FrameDetails) (buf : List ℕ) (valid : IsWellFormed frame buf)
    (column : (frame.height + 1) * to_number (n_bytes frame.memory_format) < u32_mod)
    (row : frame.stride + to_number (n_bytes frame.memory_format) < u32_mod) where
  abbrev pixel : ℕ
  pixel = to_number (n_bytes frame.memory_format)

  -- What is true of both dimensions that an image can come to.
  record IsBounded (new : EditingFrame) : Type 0 where
    same_format : new.memory_format ≡ basic frame.memory_format
    positive : (0 < new.width) × (0 < new.height)
    few : (new.width < i32_mod) × (new.height < i32_mod)
    row_fits : new.width * pixel < u32_mod
    bounded : new.stride * new.height ≤ max_texture_size
    stride_fits : new.stride + pixel < u32_mod

  unturned-IsBounded : IsBounded (dimensions frame)
  unturned-IsBounded = record {
    same_format = refl;
    positive = valid.positive;
    few = valid.small;
    row_fits = valid.row_fits;
    bounded = valid.bounded;
    stride_fits = row;
  }

  column_lem : frame.height * pixel + pixel < u32_mod
  column_lem = grind (arith, column)

  turned_stride : (turned (dimensions frame)).stride ≡ frame.height * pixel
  unfolding turned
  turned_stride =
      ap (λ (k : ℕ). frame.height * k % u32_mod) (pixel_basic frame.memory_format)
      ∙ (let q : frame.height * pixel % u32_mod ≡ frame.height * pixel =
            omega (arith, column_lem) in
          q)

  turned-IsBounded : IsBounded (turned (dimensions frame))
  unfolding turned
  turned-IsBounded = record {
    same_format = refl;
    positive = (valid.positive.1, valid.positive.0);
    few = (valid.small.1, valid.small.0);
    row_fits = omega (arith, column_lem);
    bounded = rw turned_stride area;
    stride_fits = rw turned_stride column_lem;
  }
    where
      area : frame.height * pixel * frame.width ≤ max_texture_size
      area =
          let q : frame.height * (frame.width * pixel) ≤ frame.height * frame.stride =
            mul-le-mul_left frame.height valid.narrow in
          let r : frame.height * pixel * frame.width ≡ frame.height * (frame.width * pixel) =
            grind arith in
          omega (arith, valid.bounded)

  either-IsBounded :
      (new : EditingFrame)
      → (new ≡ dimensions frame) ⊎ (new ≡ turned (dimensions frame))
      → IsBounded new
  either-IsBounded new (inl e) = subst IsBounded (sym e) unturned-IsBounded
  either-IsBounded new (inr e) = subst IsBounded (sym e) turned-IsBounded

  dimensions_lem :
      (new : EditingFrame) → IsBounded new → dimensions (with_dimensions frame new) ≡ new
  dimensions_lem new b =
      ap
        (λ f. record {
          width = new.width;
          height = new.height;
          stride = new.stride;
          memory_format = f;
        })
        (sym b.same_format)

  new-IsWellFormed :
      (new : EditingFrame) (out : Buffer)
      → IsBounded new
      → IsValid new out
      → IsWellFormed (with_dimensions frame new) out
  new-IsWellFormed new out b v = record {
    positive = b.positive;
    small = b.few;
    row_fits = b.row_fits;
    narrow =
        subst (λ k. new.width * k ≤ new.stride)
          (ap pixel_size b.same_format ∙ pixel_basic frame.memory_format) v.narrow;
    bounded = b.bounded;
    held = v.held;
  }

  dimensions-IsValid : IsValid (dimensions frame) buf
  dimensions-IsValid = record {
    narrow = rw (pixel_basic frame.memory_format) (valid.narrow);
    held = valid.held;
  }

  -- The first step: an oriented image, which is again well-formed.
  pub record IsTurned (turn : Bool × Rotation) (shown : Shown) : Type 0 where
    pub pixels : IsOriented turn.0 turn.1 (dimensions frame) buf (dimensions shown.0, shown.1)
    pub again : IsWellFormed shown.0 shown.1
    pub same_format : shown.0.memory_format ≡ frame.memory_format
    pub same_details : shown.0.details ≡ frame.details
    pub stride_fits : shown.0.stride + pixel < u32_mod

  module _ (small : length buf < usize_mod) where
    change_orientation-IsTurned :
        (mirror : Bool) (rotation : Rotation)
        → (out : EditingFrame × Buffer) × (change_orientation mirror rotation (dimensions frame) buf
            ≡ ok out)
          × IsTurned (mirror, rotation) (with_dimensions frame out.0, out.1)
    change_orientation-IsTurned mirror rotation =
        let (out, e, o) =
          change_orientation-IsOriented mirror rotation (dimensions frame) buf dimensions-IsValid
            small (rw (pixel_basic frame.memory_format) (omega (arith, column_lem))) in
        let b =
          either-IsBounded out.0 (dimensions_of mirror rotation (dimensions frame) buf out e) in
        (
          out,
          e,
          record {
            pixels =
                subst (λ d. IsOriented mirror rotation (dimensions frame) buf (d, out.1))
                  (sym (dimensions_lem out.0 b)) o;
            again = new-IsWellFormed out.0 out.1 b o.valid;
            same_format = refl;
            same_details = refl;
            stride_fits = b.stride_fits;
          },
        )

    unchanged-IsTurned : IsTurned (false, deg0) (frame, buf)
    unfolding change_orientation rotate_buffer
    unchanged-IsTurned =
        let (out, e, t) = change_orientation-IsTurned false deg0 in
        let q : out ≡ (dimensions frame, buf) = ground arith in
        subst (λ o. IsTurned (false, deg0) (with_dimensions frame o.0, o.1)) q t

    pub oriented-IsTurned :
        (image : Image) → Returns (oriented image frame buf) (IsTurned (applied image))
    unfolding oriented apply_exif_orientation
    oriented-IsTurned image = elim (Bool-cases image.apply_transformations) [
      | inl wanted ↦ elim (Bool-cases image.transformation_ignore_exif) [
        | inl ignored ↦
            ((frame, buf), rw (wanted, ignored) refl, rw (wanted, ignored) unchanged-IsTurned)
        | inr regarded ↦
            let (out, e, t) =
              change_orientation-IsTurned image.transformation.0 image.transformation.1 in
            (
              (with_dimensions frame out.0, out.1),
              rw (wanted, regarded, e) refl,
              rw (wanted, regarded) t,
            )
      ]
      | inr unwanted ↦ ((frame, buf), rw unwanted refl, rw unwanted unchanged-IsTurned)
    ]
