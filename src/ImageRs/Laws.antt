-- ===== src/ImageRs/Laws.antt =====
-- The two tables of colour types, and the frame of a decoder.
use glycin.Base.{◌*◌, ◌<◌, ◌≡◌, ◌↔◌, refl, arith, some, ok, u32_mod}
use glycin.Format.Types.{MemoryFormat, to_number}
use glycin.Format.Extended.{ExtendedMemoryFormat, basic, y8cb8cr8, extended_n_bytes, pixel_size}
use glycin.ImageRs.{
  ColorType, Decoder, memory_format_to_color_type, extended_memory_format_to_color_type,
  memory_format_from_color_type, editing_frame,
}

there :
    {E : Type 0} (format : MemoryFormat) (color_type : ColorType)
    → memory_format_to_color_type format ≡ some color_type
    → memory_format_from_color_type {E = E} color_type ≡ ok format
unfolding memory_format_to_color_type memory_format_from_color_type
there MemoryFormat.g8 color_type h = ground arith
there format color_type h = ground arith

back :
    {E : Type 0} (format : MemoryFormat) (color_type : ColorType)
    → memory_format_from_color_type {E = E} color_type ≡ ok format
    → memory_format_to_color_type format ≡ some color_type
unfolding memory_format_to_color_type memory_format_from_color_type
back format ColorType.l8 h = ground arith
back format color_type h = ground arith

-- An extended format has a colour type exactly if it is a basic format that the colour type stands for: each
-- of the two tables undoes the other, and no other format has a colour type.
pub color_type_iff :
    {E : Type 0} (format : ExtendedMemoryFormat) (color_type : ColorType)
    → (extended_memory_format_to_color_type format ≡ some color_type) ↔ (
        (memory_format : MemoryFormat) × (format ≡ basic memory_format)
        × (memory_format_from_color_type {E = E} color_type ≡ ok memory_format))
unfolding extended_memory_format_to_color_type
color_type_iff {E} (basic format) color_type = (
  λ h. (format, refl, there {E = E} format color_type h),
  λ (memory_format, e, h).
      let same : format ≡ memory_format = ground arith in
      back {E = E} format color_type (rw same h),
)
color_type_iff y8cb8cr8 color_type = (λ h. ground arith, λ (memory_format, e, h). ground arith)

-- Where the product of the width and the pixel size fits into `u32`, the decoder of a known colour type
-- has a frame of its dimensions whose stride is one row of pixels.
pub editing_frame-fits :
    {E : Type 0} (too_large : E) (decoder : Decoder) (format : MemoryFormat)
    → memory_format_to_color_type format ≡ some decoder.color_type
    → to_number (extended_n_bytes (basic format)) * decoder.width < u32_mod
    → editing_frame too_large decoder
      ≡ ok (record {
        width = decoder.width;
        height = decoder.height;
        stride = pixel_size (basic format) * decoder.width;
        memory_format = basic format;
      })
unfolding editing_frame
editing_frame-fits too_large decoder format known fits =
    rw (editing_frame, there format decoder.color_type known) (ground arith)
