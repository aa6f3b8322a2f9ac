-- ===== src/Frame.antt =====
-- The frame that a loader sends, of `glycin-utils/src/dbus_types.rs`, without the shared memory that
-- holds the texture.
use Prim.Native.String.{String}
use glycin.Base.{
  ℕ, Bool, false, List, Option, none, Outcome, ok, ◌>>=◌, ok_or, checked_mul, u32_mod, usize_mod,
}
use glycin.Format.Types.{MemoryFormat, to_number}
use glycin.Format.Tables.{n_bytes}
use glycin.SafeMath.{try_usize, try_convert, smul}

-- Binary data is its bytes.
pub record FrameDetails : Type 0 where
  pub color_icc_profile : Option (List ℕ)
  pub color_cicp : Option (ℕ × ℕ × ℕ × ℕ)
  pub info_bit_depth : Option ℕ
  pub info_alpha_channel : Option Bool
  pub info_grayscale : Option Bool
  pub n_frame : Option ℕ

unfoldable pub no_details : FrameDetails
no_details = record {
  color_icc_profile = none;
  color_cicp = none;
  info_bit_depth = none;
  info_alpha_channel = none;
  info_grayscale = none;
  n_frame = none;
}

-- `FrameRequest`, of which the image-rs loader reads the last field.
pub record FrameRequest : Type 0 where
  pub scale : Option (ℕ × ℕ)
  pub clip : Option (ℕ × ℕ × ℕ × ℕ)
  pub loop_animation : Bool

-- What the code at hand reads of `ImageDetails`, with the orientation of a type that is a parameter.
pub record ImageDetails (Orientation : Type 0) : Type 0 where
  pub image_width : ℕ
  pub image_height : ℕ
  pub info_format_name : Option String
  pub metadata_exif : Option (List ℕ)
  pub metadata_xmp : Option (List ℕ)
  pub metadata_key_value : Option (List (String × String))
  pub transformation_ignore_exif : Bool
  pub transformation_orientation : Option Orientation

-- `ImageDetails::new`.
unfoldable pub new_image_details : {Orientation : Type 0} → ℕ → ℕ → ImageDetails Orientation
new_image_details width height = record {
  image_width = width;
  image_height = height;
  info_format_name = none;
  metadata_exif = none;
  metadata_xmp = none;
  metadata_key_value = none;
  transformation_ignore_exif = false;
  transformation_orientation = none;
}

-- The type of the details is a parameter where they are only passed on. A duration is in microseconds.
pub record Frame (Details : Type 0) : Type 0 where
  pub width : ℕ
  pub height : ℕ
  pub stride : ℕ
  pub memory_format : MemoryFormat
  pub delay : Option ℕ
  pub details : Details

module _ {Details E : Type 0} (too_large : E) where
  -- `Frame::n_bytes`.
  unfoldable pub size_bytes : Frame Details → Outcome E ℕ
  unfolding try_convert smul
  size_bytes frame = do
    stride ← try_usize too_large frame.stride
    height ← try_usize too_large frame.height
    smul too_large usize_mod stride height

  -- `Frame::new`, with the default of the details.
  unfoldable pub new_frame : Details → ℕ → ℕ → MemoryFormat → Outcome E (Frame Details)
  new_frame default width height memory_format = do
    stride ← ok_or (checked_mul u32_mod (to_number (n_bytes memory_format)) width) too_large
    ok (record {
      width = width;
      height = height;
      stride = stride;
      memory_format = memory_format;
      delay = none;
      details = default;
    })
