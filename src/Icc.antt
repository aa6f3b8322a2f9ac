-- ===== src/Icc.antt =====
-- `glycin/src/icc.rs`: the conversion of a buffer to sRGB by its profile, in parallel. The library lcms2 is
-- a parameter. Each thread changes a part of the buffer that no other has; here they do so in order.
pub mod Laws
use package.glycin.Base.{
  ℕ, zero, suc, ◌+◌, ◌-◌, ◌*◌, ◌/◌, ◌%◌, ◌^◌, Bool, true, false, ltb, ◌==◌, if◌then◌else◌, List, [],
  ◌∷◌, ◌++◌, length, take, drop, Option, none, some, Outcome, ok,
}
use package.glycin.Format.Types.{MemoryFormat, to_number}
use package.glycin.Format.Tables.{n_bytes, n_channels}

-- The constants of `lcms2::PixelFormat` that are used.
pub data PixelFormat : Type 0 where
  bgra_8 argb_8 rgba_8 abgr_8 rgb_8 bgr_8 rgb_16 rgba_16 rgb_half_flt rgba_half_flt : PixelFormat
  rgb_flt rgba_flt graya_8 gray_8 graya_16 gray_16 : PixelFormat

-- The number of each constant, and a transformation from a profile to sRGB, or else to gray, if one can be
-- made: what it does to a buffer.
pub record Lcms : Type 0 where
  pub number : PixelFormat → ℕ
  pub new_transform : List ℕ → ℕ → (srgb : Bool) → Option (List ℕ → List ℕ)

-- `bytes |= 0b1 << 23`.
unfoldable pub premul : ℕ → ℕ
premul bytes = if bytes / 2 ^ 23 % 2 == 1 then bytes else bytes + 2 ^ 23

module _ (lcms : Lcms) where
  unfoldable pub lcms_pixel_format : MemoryFormat → ℕ
  unfolding premul
  lcms_pixel_format MemoryFormat.b8g8r8a8_premultiplied = premul (lcms.number bgra_8)
  lcms_pixel_format MemoryFormat.a8r8g8b8_premultiplied = premul (lcms.number argb_8)
  lcms_pixel_format MemoryFormat.r8g8b8a8_premultiplied = premul (lcms.number rgba_8)
  lcms_pixel_format MemoryFormat.b8g8r8a8 = lcms.number bgra_8
  lcms_pixel_format MemoryFormat.a8r8g8b8 = lcms.number argb_8
  lcms_pixel_format MemoryFormat.r8g8b8a8 = lcms.number rgba_8
  lcms_pixel_format MemoryFormat.a8b8g8r8 = lcms.number abgr_8
  lcms_pixel_format MemoryFormat.r8g8b8 = lcms.number rgb_8
  lcms_pixel_format MemoryFormat.b8g8r8 = lcms.number bgr_8
  lcms_pixel_format MemoryFormat.r16g16b16 = lcms.number rgb_16
  lcms_pixel_format MemoryFormat.r16g16b16a16_premultiplied = premul (lcms.number rgba_16)
  lcms_pixel_format MemoryFormat.r16g16b16a16 = lcms.number rgba_16
  lcms_pixel_format MemoryFormat.r16g16b16_float = lcms.number rgb_half_flt
  lcms_pixel_format MemoryFormat.r16g16b16a16_float = lcms.number rgba_half_flt
  lcms_pixel_format MemoryFormat.r32g32b32_float = lcms.number rgb_flt
  lcms_pixel_format MemoryFormat.r32g32b32a32_float_premultiplied = premul (lcms.number rgba_flt)
  lcms_pixel_format MemoryFormat.r32g32b32a32_float = lcms.number rgba_flt
  lcms_pixel_format MemoryFormat.g8a8_premultiplied = premul (lcms.number graya_8)
  lcms_pixel_format MemoryFormat.g8a8 = lcms.number graya_8
  lcms_pixel_format MemoryFormat.g8 = lcms.number gray_8
  lcms_pixel_format MemoryFormat.g16a16_premultiplied = premul (lcms.number graya_16)
  lcms_pixel_format MemoryFormat.g16a16 = lcms.number graya_16
  lcms_pixel_format MemoryFormat.g16 = lcms.number gray_16

  unfoldable pub transformation : List ℕ → MemoryFormat → Option (List ℕ → List ℕ)
  unfolding lcms_pixel_format
  transformation icc_profile memory_format =
      lcms.new_transform icc_profile (lcms_pixel_format memory_format)
        (ltb 2 (n_channels memory_format))

-- `chunks_mut`, with the length of the buffer as fuel.
unfoldable pub chunks : ℕ → ℕ → List ℕ → List (List ℕ)
chunks fuel size [] = []
chunks zero size (x ∷ xs) = []
chunks (suc fuel) size (x ∷ xs) = take size (x ∷ xs) ∷ chunks fuel size (drop size (x ∷ xs))

-- A thread whose transformation cannot be made leaves its part as it is.
abbrev pub transform_in_place : Option (List ℕ → List ℕ) → List ℕ → List ℕ
transform_in_place none chunk = chunk
transform_in_place (some f) chunk = f chunk

unfoldable pub transform_chunks : Option (List ℕ → List ℕ) → List (List ℕ) → List ℕ
transform_chunks t [] = []
transform_chunks t (chunk ∷ rest) = transform_in_place t chunk ++ transform_chunks t rest

abbrev pub div_ceil : ℕ → ℕ → ℕ
div_ceil a b = if a % b == 0 then a / b else suc (a / b)

abbrev pub chunk_size : ℕ → ℕ → ℕ → ℕ
chunk_size multiple pixel size = div_ceil (size / pixel) multiple * pixel

-- `transform`, which always comes to sRGB, with `available_parallelism`. Parts of no bytes are a panic.
unfoldable pub transform :
    {E : Type 0} → Lcms → ℕ → List ℕ → MemoryFormat → List ℕ → Outcome E (List ℕ)
unfolding chunks transform_chunks transformation
transform lcms multiple icc_profile memory_format buf =
    let size = chunk_size multiple (to_number (n_bytes memory_format)) (length buf) in
    if size == 0
    then Outcome.panic
    else ok (
        transform_chunks (transformation lcms icc_profile memory_format)
          (chunks (length buf) size buf))
