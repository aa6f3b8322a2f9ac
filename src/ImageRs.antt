-- ===== src/ImageRs.antt =====
-- `glycin-utils/src/image_rs.rs`: pixel formats and the colour types of the `image` crate. Of its two
-- enums the source lists the variants; `other` stands for what the matches do not name. A decoder is
-- given by its answers.
pub mod Laws
use Prim.Native.String.{String}
use package.glycin.Base.{
  List, ℕ, Bool, true, false, not, ◌==◌, if◌then◌else◌, Option, some, none, Outcome, ok, panic,
  ◌>>=◌, ok_or, checked_mul, u32_mod,
}
use package.glycin.Format.Types.{MemoryFormat, to_number}
use package.glycin.Format.Extended.{ExtendedMemoryFormat, basic, extended_n_bytes}
use package.glycin.Editing.{EditingFrame}
use package.glycin.Errors.{ProcessError, Cause, expected, map_err}
use package.glycin.SharedMemory.{new, from_data}
use package.glycin.Frame.{
  FrameDetails, no_details, ImageDetails, new_image_details, Frame, new_frame,
}

pub data ColorType : Type 0 where
  l8 la8 rgb8 rgba8 l16 la16 rgb16 rgba16 rgb32f rgba32f : ColorType
  other : ℕ → ColorType

pub data ExtendedColorType : Type 0 where
  a8 l1 la1 rgb1 rgba1 l2 la2 rgb2 rgba2 l4 la4 rgb4 rgba4 : ExtendedColorType
  l8 la8 rgb8 rgba8 l16 la16 rgb16 rgba16 bgr8 bgra8 rgb32f rgba32f : ExtendedColorType
  unknown : ℕ → ExtendedColorType
  other : ℕ → ExtendedColorType

unfoldable pub memory_format_to_color_type : MemoryFormat → Option ColorType
memory_format_to_color_type MemoryFormat.g8 = some ColorType.l8
memory_format_to_color_type MemoryFormat.g8a8 = some ColorType.la8
memory_format_to_color_type MemoryFormat.r8g8b8 = some ColorType.rgb8
memory_format_to_color_type MemoryFormat.r8g8b8a8 = some ColorType.rgba8
memory_format_to_color_type MemoryFormat.g16 = some ColorType.l16
memory_format_to_color_type MemoryFormat.g16a16 = some ColorType.la16
memory_format_to_color_type MemoryFormat.r16g16b16 = some ColorType.rgb16
memory_format_to_color_type MemoryFormat.r16g16b16a16 = some ColorType.rgba16
memory_format_to_color_type MemoryFormat.r32g32b32_float = some ColorType.rgb32f
memory_format_to_color_type MemoryFormat.r32g32b32a32_float = some ColorType.rgba32f
memory_format_to_color_type _ = none

unfoldable pub extended_memory_format_to_color_type : ExtendedMemoryFormat → Option ColorType
unfolding memory_format_to_color_type
extended_memory_format_to_color_type (basic format) = memory_format_to_color_type format
extended_memory_format_to_color_type _ = none

-- `unimplemented!()` panics.
unfoldable pub memory_format_from_color_type : {E : Type 0} → ColorType → Outcome E MemoryFormat
memory_format_from_color_type ColorType.l8 = ok MemoryFormat.g8
memory_format_from_color_type ColorType.la8 = ok MemoryFormat.g8a8
memory_format_from_color_type ColorType.rgb8 = ok MemoryFormat.r8g8b8
memory_format_from_color_type ColorType.rgba8 = ok MemoryFormat.r8g8b8a8
memory_format_from_color_type ColorType.l16 = ok MemoryFormat.g16
memory_format_from_color_type ColorType.la16 = ok MemoryFormat.g16a16
memory_format_from_color_type ColorType.rgb16 = ok MemoryFormat.r16g16b16
memory_format_from_color_type ColorType.rgba16 = ok MemoryFormat.r16g16b16a16
memory_format_from_color_type ColorType.rgb32f = ok MemoryFormat.r32g32b32_float
memory_format_from_color_type ColorType.rgba32f = ok MemoryFormat.r32g32b32a32_float
memory_format_from_color_type (ColorType.other n) = panic

-- Whether there is an alpha channel, whether it is in grayscale, and the bits of a channel.
unfoldable pub channel_details : ExtendedColorType → Option (Bool × Bool × ℕ)
channel_details ExtendedColorType.a8 = some (true, false, 8)
channel_details ExtendedColorType.l1 = some (false, true, 1)
channel_details ExtendedColorType.la1 = some (true, true, 1)
channel_details ExtendedColorType.rgb1 = some (false, false, 1)
channel_details ExtendedColorType.rgba1 = some (true, false, 1)
channel_details ExtendedColorType.l2 = some (false, true, 2)
channel_details ExtendedColorType.la2 = some (true, true, 2)
channel_details ExtendedColorType.rgb2 = some (false, false, 2)
channel_details ExtendedColorType.rgba2 = some (true, false, 2)
channel_details ExtendedColorType.l4 = some (false, true, 4)
channel_details ExtendedColorType.la4 = some (true, true, 4)
channel_details ExtendedColorType.rgb4 = some (false, false, 4)
channel_details ExtendedColorType.rgba4 = some (true, false, 4)
channel_details ExtendedColorType.l8 = some (false, true, 8)
channel_details ExtendedColorType.la8 = some (true, true, 8)
channel_details ExtendedColorType.rgb8 = some (false, false, 8)
channel_details ExtendedColorType.rgba8 = some (true, false, 8)
channel_details ExtendedColorType.l16 = some (false, true, 16)
channel_details ExtendedColorType.la16 = some (true, true, 16)
channel_details ExtendedColorType.rgb16 = some (false, false, 16)
channel_details ExtendedColorType.rgba16 = some (true, false, 16)
channel_details ExtendedColorType.bgr8 = some (false, false, 8)
channel_details ExtendedColorType.bgra8 = some (true, false, 8)
channel_details ExtendedColorType.rgb32f = some (false, false, 32)
channel_details ExtendedColorType.rgba32f = some (true, false, 32)
channel_details (ExtendedColorType.unknown bits) = some (false, false, bits)
channel_details (ExtendedColorType.other n) = none

pub record Handler : Type 0 where
  pub format_name : Option String
  pub default_bit_depth : Option ℕ
  pub supports_two_alpha_modes : Bool
  pub supports_two_grayscale_modes : Bool

unfoldable pub default : Handler
default = record {
  format_name = none;
  default_bit_depth = none;
  supports_two_alpha_modes = false;
  supports_two_grayscale_modes = false;
}

-- The methods that build a handler.
abbrev pub with_format_name : String → Handler → Handler
with_format_name name handler = record handler { format_name = some name }

abbrev pub with_default_bit_depth : ℕ → Handler → Handler
with_default_bit_depth bits handler = record handler { default_bit_depth = some bits }

abbrev pub with_two_alpha_modes : Bool → Handler → Handler
with_two_alpha_modes b handler = record handler { supports_two_alpha_modes = b }

abbrev pub with_two_grayscale_modes : Bool → Handler → Handler
with_two_grayscale_modes b handler = record handler { supports_two_grayscale_modes = b }

-- A decoder's answers: the profile is what `icc_profile().ok().flatten()` comes to, and the
-- image what `read_image` comes to, which fills the memory.
pub record Decoder : Type 0 where
  pub width : ℕ
  pub height : ℕ
  pub color_type : ColorType
  pub original_color_type : ExtendedColorType
  pub icc_profile : Option (List ℕ)
  pub total_bytes : ℕ
  pub read_image : Outcome Cause (List ℕ)

unfoldable pub info : {Orientation : Type 0} → Handler → Decoder → ImageDetails Orientation
unfolding new_image_details
info handler decoder = record (new_image_details decoder.width decoder.height) {
  info_format_name = handler.format_name;
}

-- `default_bit_depth == Some(bits)`.
unfoldable pub is_default : Option ℕ → ℕ → Bool
is_default none bits = false
is_default (some n) bits = n == bits

-- The details that depend on the channels.
unfoldable pub info_of : Handler → Option (Bool × Bool × ℕ) → FrameDetails → FrameDetails
unfolding is_default
info_of handler none details = details
info_of handler (some (alpha_channel, grayscale, bits)) details = record details {
  info_bit_depth = if is_default handler.default_bit_depth bits then none else some bits;
  info_alpha_channel = if handler.supports_two_alpha_modes then some alpha_channel else none;
  info_grayscale = if handler.supports_two_grayscale_modes then some grayscale else none;
}

module _ {E : Type 0} (too_large : E) where
  unfoldable pub editing_frame : Decoder → Outcome E EditingFrame
  unfolding memory_format_from_color_type
  editing_frame decoder = do
    format ← memory_format_from_color_type decoder.color_type
    stride ←
        ok_or (checked_mul u32_mod (to_number (extended_n_bytes (basic format))) decoder.width)
          too_large
    ok (record {
      width = decoder.width;
      height = decoder.height;
      stride = stride;
      memory_format = basic format;
    })

module _ (to_string : ProcessError → String) (map : ℕ → Outcome Cause (Unit {0})) where
  -- `.map(BinaryData::from_data).transpose().expected_error()?`.
  unfoldable pub share : Option (List ℕ) → Outcome ProcessError (Option (List ℕ))
  unfolding from_data expected
  share none = ok none
  share (some profile) =
      map_err (expected to_string) (from_data map profile) >>= (λ shared. ok (some shared))

  -- `Handler::frame_details`.
  unfoldable pub frame_details : Handler → Decoder → Outcome ProcessError FrameDetails
  unfolding share info_of channel_details no_details
  frame_details handler decoder = do
    profile ← share decoder.icc_profile
    ok (
        info_of handler (channel_details decoder.original_color_type)
          (record no_details { color_icc_profile = profile }))

  -- A call whose error is dealt with later; a panic is not put off.
  unfoldable pub kept {ℓ} : {E F : Type 0} {A : Type ℓ} → Outcome E A → Outcome F (Outcome E A)
  kept (ok a) = ok (ok a)
  kept (Outcome.err e) = ok (Outcome.err e)
  kept panic = panic

  -- `Handler::frame`, with the texture beside the frame. The details are computed before the memory is
  -- made, and their error is returned after the frame is.
  unfoldable pub frame : Handler → Decoder → Outcome ProcessError (Frame FrameDetails × List ℕ)
  unfolding kept frame_details editing_frame memory_format_from_color_type new expected new_frame
  frame handler decoder = do
    simple_frame ← editing_frame ProcessError.conversion_too_larger_error decoder
    memory_format ← memory_format_from_color_type decoder.color_type
    details ← kept (frame_details handler decoder)
    memory ← map_err (expected to_string) (new map decoder.total_bytes)
    texture ← map_err (expected to_string) decoder.read_image
    built ←
        new_frame ProcessError.conversion_too_larger_error no_details simple_frame.width
          simple_frame.height memory_format
    known ← map_err (λ e. expected to_string (Cause.process e)) details
    ok (record built { details = known }, texture)
