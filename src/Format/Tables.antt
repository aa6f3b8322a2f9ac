-- ===== src/Format/Tables.antt =====
-- The tables of `MemoryFormat` in `glycin-common/src/memory_format.rs`.
use glycin.Base.{ℕ, Bool, true, false, List, [], ◌∷◌}
use glycin.Format.Types.{
  MemoryFormat, b8g8r8a8_premultiplied, a8r8g8b8_premultiplied, r8g8b8a8_premultiplied, b8g8r8a8,
  a8r8g8b8, r8g8b8a8, a8b8g8r8, r8g8b8, b8g8r8, r16g16b16, r16g16b16a16_premultiplied, r16g16b16a16,
  r16g16b16_float, r16g16b16a16_float, r32g32b32_float, r32g32b32a32_float_premultiplied,
  r32g32b32a32_float, g8a8_premultiplied, g8a8, g8, g16a16_premultiplied, g16a16, g16,
  MemoryFormatBytes, b1, b2, b3, b4, b6, b8, b12, b16, ChannelType, u8, u16, f16, f32, Source, c0,
  c1, c2, c3, opaque, Target, r, g, b, a, rgb_avg,
}

unfoldable pub n_bytes : MemoryFormat → MemoryFormatBytes
n_bytes b8g8r8a8_premultiplied = b4
n_bytes a8r8g8b8_premultiplied = b4
n_bytes r8g8b8a8_premultiplied = b4
n_bytes b8g8r8a8 = b4
n_bytes a8r8g8b8 = b4
n_bytes r8g8b8a8 = b4
n_bytes a8b8g8r8 = b4
n_bytes r8g8b8 = b3
n_bytes b8g8r8 = b3
n_bytes r16g16b16 = b6
n_bytes r16g16b16a16_premultiplied = b8
n_bytes r16g16b16a16 = b8
n_bytes r16g16b16_float = b6
n_bytes r16g16b16a16_float = b8
n_bytes r32g32b32_float = b12
n_bytes r32g32b32a32_float_premultiplied = b16
n_bytes r32g32b32a32_float = b16
n_bytes g8a8_premultiplied = b2
n_bytes g8a8 = b2
n_bytes g8 = b1
n_bytes g16a16_premultiplied = b4
n_bytes g16a16 = b4
n_bytes g16 = b2

unfoldable pub n_channels : MemoryFormat → ℕ
n_channels b8g8r8a8_premultiplied = 4
n_channels a8r8g8b8_premultiplied = 4
n_channels r8g8b8a8_premultiplied = 4
n_channels b8g8r8a8 = 4
n_channels a8r8g8b8 = 4
n_channels r8g8b8a8 = 4
n_channels a8b8g8r8 = 4
n_channels r8g8b8 = 3
n_channels b8g8r8 = 3
n_channels r16g16b16 = 3
n_channels r16g16b16a16_premultiplied = 4
n_channels r16g16b16a16 = 4
n_channels r16g16b16_float = 3
n_channels r16g16b16a16_float = 4
n_channels r32g32b32_float = 3
n_channels r32g32b32a32_float_premultiplied = 4
n_channels r32g32b32a32_float = 4
n_channels g8a8_premultiplied = 2
n_channels g8a8 = 2
n_channels g8 = 1
n_channels g16a16_premultiplied = 2
n_channels g16a16 = 2
n_channels g16 = 1

unfoldable pub channel_type : MemoryFormat → ChannelType
channel_type b8g8r8a8_premultiplied = u8
channel_type a8r8g8b8_premultiplied = u8
channel_type r8g8b8a8_premultiplied = u8
channel_type b8g8r8a8 = u8
channel_type a8r8g8b8 = u8
channel_type r8g8b8a8 = u8
channel_type a8b8g8r8 = u8
channel_type r8g8b8 = u8
channel_type b8g8r8 = u8
channel_type r16g16b16 = u16
channel_type r16g16b16a16_premultiplied = u16
channel_type r16g16b16a16 = u16
channel_type r16g16b16_float = f16
channel_type r16g16b16a16_float = f16
channel_type r32g32b32_float = f32
channel_type r32g32b32a32_float_premultiplied = f32
channel_type r32g32b32a32_float = f32
channel_type g8a8_premultiplied = u8
channel_type g8a8 = u8
channel_type g8 = u8
channel_type g16a16_premultiplied = u16
channel_type g16a16 = u16
channel_type g16 = u16

unfoldable pub has_alpha : MemoryFormat → Bool
has_alpha b8g8r8a8_premultiplied = true
has_alpha a8r8g8b8_premultiplied = true
has_alpha r8g8b8a8_premultiplied = true
has_alpha b8g8r8a8 = true
has_alpha a8r8g8b8 = true
has_alpha r8g8b8a8 = true
has_alpha a8b8g8r8 = true
has_alpha r8g8b8 = false
has_alpha b8g8r8 = false
has_alpha r16g16b16 = false
has_alpha r16g16b16a16_premultiplied = true
has_alpha r16g16b16a16 = true
has_alpha r16g16b16_float = false
has_alpha r16g16b16a16_float = true
has_alpha r32g32b32_float = false
has_alpha r32g32b32a32_float_premultiplied = true
has_alpha r32g32b32a32_float = true
has_alpha g8a8_premultiplied = true
has_alpha g8a8 = true
has_alpha g8 = false
has_alpha g16a16_premultiplied = true
has_alpha g16a16 = true
has_alpha g16 = false

unfoldable pub is_premultiplied : MemoryFormat → Bool
is_premultiplied b8g8r8a8_premultiplied = true
is_premultiplied a8r8g8b8_premultiplied = true
is_premultiplied r8g8b8a8_premultiplied = true
is_premultiplied b8g8r8a8 = false
is_premultiplied a8r8g8b8 = false
is_premultiplied r8g8b8a8 = false
is_premultiplied a8b8g8r8 = false
is_premultiplied r8g8b8 = false
is_premultiplied b8g8r8 = false
is_premultiplied r16g16b16 = false
is_premultiplied r16g16b16a16_premultiplied = true
is_premultiplied r16g16b16a16 = false
is_premultiplied r16g16b16_float = false
is_premultiplied r16g16b16a16_float = false
is_premultiplied r32g32b32_float = false
is_premultiplied r32g32b32a32_float_premultiplied = true
is_premultiplied r32g32b32a32_float = false
is_premultiplied g8a8_premultiplied = true
is_premultiplied g8a8 = false
is_premultiplied g8 = false
is_premultiplied g16a16_premultiplied = true
is_premultiplied g16a16 = false
is_premultiplied g16 = false

-- In the order red, green, blue, opacity.
unfoldable pub source_definition : MemoryFormat → List Source
source_definition b8g8r8a8_premultiplied = c2 ∷ c1 ∷ c0 ∷ c3 ∷ []
source_definition a8r8g8b8_premultiplied = c1 ∷ c2 ∷ c3 ∷ c0 ∷ []
source_definition r8g8b8a8_premultiplied = c0 ∷ c1 ∷ c2 ∷ c3 ∷ []
source_definition b8g8r8a8 = c2 ∷ c1 ∷ c0 ∷ c3 ∷ []
source_definition a8r8g8b8 = c1 ∷ c2 ∷ c3 ∷ c0 ∷ []
source_definition r8g8b8a8 = c0 ∷ c1 ∷ c2 ∷ c3 ∷ []
source_definition a8b8g8r8 = c1 ∷ c2 ∷ c3 ∷ c0 ∷ []
source_definition r8g8b8 = c0 ∷ c1 ∷ c2 ∷ opaque ∷ []
source_definition b8g8r8 = c2 ∷ c1 ∷ c0 ∷ opaque ∷ []
source_definition r16g16b16 = c0 ∷ c1 ∷ c2 ∷ opaque ∷ []
source_definition r16g16b16a16_premultiplied = c0 ∷ c1 ∷ c2 ∷ c3 ∷ []
source_definition r16g16b16a16 = c0 ∷ c1 ∷ c2 ∷ c3 ∷ []
source_definition r16g16b16_float = c0 ∷ c1 ∷ c2 ∷ opaque ∷ []
source_definition r16g16b16a16_float = c0 ∷ c1 ∷ c2 ∷ c3 ∷ []
source_definition r32g32b32_float = c0 ∷ c1 ∷ c2 ∷ opaque ∷ []
source_definition r32g32b32a32_float_premultiplied = c0 ∷ c1 ∷ c2 ∷ c3 ∷ []
source_definition r32g32b32a32_float = c0 ∷ c1 ∷ c2 ∷ c3 ∷ []
source_definition g8a8_premultiplied = c0 ∷ c0 ∷ c0 ∷ c1 ∷ []
source_definition g8a8 = c0 ∷ c0 ∷ c0 ∷ c1 ∷ []
source_definition g8 = c0 ∷ c0 ∷ c0 ∷ opaque ∷ []
source_definition g16a16_premultiplied = c0 ∷ c0 ∷ c0 ∷ c1 ∷ []
source_definition g16a16 = c0 ∷ c0 ∷ c0 ∷ c1 ∷ []
source_definition g16 = c0 ∷ c0 ∷ c0 ∷ opaque ∷ []

unfoldable pub target_definition : MemoryFormat → List Target
target_definition b8g8r8a8_premultiplied = b ∷ g ∷ r ∷ a ∷ []
target_definition a8r8g8b8_premultiplied = a ∷ r ∷ g ∷ b ∷ []
target_definition r8g8b8a8_premultiplied = r ∷ g ∷ b ∷ a ∷ []
target_definition b8g8r8a8 = b ∷ g ∷ r ∷ a ∷ []
target_definition a8r8g8b8 = a ∷ r ∷ g ∷ b ∷ []
target_definition r8g8b8a8 = r ∷ g ∷ b ∷ a ∷ []
target_definition a8b8g8r8 = a ∷ b ∷ g ∷ r ∷ []
target_definition r8g8b8 = r ∷ g ∷ b ∷ []
target_definition b8g8r8 = b ∷ g ∷ r ∷ []
target_definition r16g16b16 = r ∷ g ∷ b ∷ []
target_definition r16g16b16a16_premultiplied = r ∷ g ∷ b ∷ a ∷ []
target_definition r16g16b16a16 = r ∷ g ∷ b ∷ a ∷ []
target_definition r16g16b16_float = r ∷ g ∷ b ∷ []
target_definition r16g16b16a16_float = r ∷ g ∷ b ∷ a ∷ []
target_definition r32g32b32_float = r ∷ g ∷ b ∷ []
target_definition r32g32b32a32_float_premultiplied = r ∷ g ∷ b ∷ a ∷ []
target_definition r32g32b32a32_float = r ∷ g ∷ b ∷ a ∷ []
target_definition g8a8_premultiplied = rgb_avg ∷ a ∷ []
target_definition g8a8 = rgb_avg ∷ a ∷ []
target_definition g8 = rgb_avg ∷ []
target_definition g16a16_premultiplied = rgb_avg ∷ a ∷ []
target_definition g16a16 = rgb_avg ∷ a ∷ []
target_definition g16 = rgb_avg ∷ []
