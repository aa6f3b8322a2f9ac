-- ===== src/ImageEditor/Formats.antt =====
-- The formats of `glycin-loaders/glycin-image-rs/src/editor.rs`: of files by their mime types, and of the
-- pixels that are encoded, with the options of the encoders.
use Prim.Native.String.{String}
use glycin.Base.{
  ℕ, false, ltb, ◌==◌, ◌||◌, if◌then◌else◌, min, List, [], ◌∷◌, Option, none, some, Outcome, ok,
  err,
}
use glycin.Base.Dict.{Text, text, same_text, lookup}
use glycin.Errors.{ProcessError}
use glycin.Format.Types.{MemoryFormat}
use glycin.Selection.{Selection, flag}
use glycin.ImageRs.{ExtendedColorType}

-- `image::ImageFormat`, as it is used.
pub data ImageFormat : Type 0 where
  bmp farbfeld gif ico jpeg open_exr png qoi tga tiff web_p : ImageFormat

unfoldable pub image_formats : List (Text × ImageFormat)
image_formats =
    (text "image/bmp", ImageFormat.bmp)
    ∷ (text "image/x-ff", ImageFormat.farbfeld)
    ∷ (text "image/gif", ImageFormat.gif)
    ∷ (text "image/vnd.microsoft.icon", ImageFormat.ico)
    ∷ (text "image/jpeg", ImageFormat.jpeg)
    ∷ (text "image/x-exr", ImageFormat.open_exr)
    ∷ (text "image/png", ImageFormat.png)
    ∷ (text "image/qoi", ImageFormat.qoi)
    ∷ (text "image/x-tga", ImageFormat.tga)
    ∷ (text "image/tiff", ImageFormat.tiff)
    ∷ (text "image/webp", ImageFormat.web_p)
    ∷ []

unfoldable pub format_or : String → Option ImageFormat → Outcome ProcessError ImageFormat
format_or mime_type none = err (ProcessError.unsupported_image_format mime_type)
format_or mime_type (some format) = ok format

unfoldable pub image_format : String → Outcome ProcessError ImageFormat
unfolding image_formats format_or
image_format mime_type = format_or mime_type (lookup same_text (text mime_type) image_formats)

-- The formats that the encoders are given.
unfoldable pub accepted : List MemoryFormat
accepted =
    MemoryFormat.g8 ∷ MemoryFormat.g8a8 ∷ MemoryFormat.r8g8b8 ∷ MemoryFormat.r8g8b8a8
    ∷ MemoryFormat.g16 ∷ MemoryFormat.g16a16 ∷ MemoryFormat.r16g16b16 ∷ MemoryFormat.r16g16b16a16
    ∷ []

-- The flags of formats, of which single ones are asked for.
unfoldable pub selected : List MemoryFormat → Selection
selected [] bits = false
selected (format ∷ formats) bits = (flag format == bits) || selected formats bits

-- `unreachable!()` panics.
unfoldable pub image_memory_format : MemoryFormat → Outcome ProcessError ExtendedColorType
image_memory_format MemoryFormat.g8 = ok ExtendedColorType.l8
image_memory_format MemoryFormat.g8a8 = ok ExtendedColorType.la8
image_memory_format MemoryFormat.r8g8b8 = ok ExtendedColorType.rgb8
image_memory_format MemoryFormat.r8g8b8a8 = ok ExtendedColorType.rgba8
image_memory_format MemoryFormat.g16 = ok ExtendedColorType.l16
image_memory_format MemoryFormat.g16a16 = ok ExtendedColorType.la16
image_memory_format MemoryFormat.r16g16b16 = ok ExtendedColorType.rgb16
image_memory_format MemoryFormat.r16g16b16a16 = ok ExtendedColorType.rgba16
image_memory_format _ = Outcome.panic

-- `image::codecs::png::CompressionType`, as it is used.
pub data CompressionType : Type 0 where
  fast default best : CompressionType

unfoldable pub compression_type : Option ℕ → CompressionType
compression_type none = default
compression_type (some compression) =
    if ltb compression 30 then fast else if ltb compression 80 then default else best

-- The quality of a JPEG file.
unfoldable pub quality : Option ℕ → ℕ
quality none = 90
quality (some x) = min x 100
