-- ===== src/Format/Types.antt =====
-- The enums of `glycin-common/src/memory_format.rs`, with the discriminants that the code reads.
use glycin.Base.{ℕ, Bool, true, false, ◌||◌, ◌==◌, List, [], ◌∷◌}

pub data MemoryFormat : Type 0 where
  b8g8r8a8_premultiplied a8r8g8b8_premultiplied r8g8b8a8_premultiplied b8g8r8a8 a8r8g8b8 :
      MemoryFormat
  r8g8b8a8 a8b8g8r8 r8g8b8 b8g8r8 r16g16b16 r16g16b16a16_premultiplied r16g16b16a16 : MemoryFormat
  r16g16b16_float r16g16b16a16_float r32g32b32_float r32g32b32a32_float_premultiplied : MemoryFormat
  r32g32b32a32_float g8a8_premultiplied g8a8 g8 g16a16_premultiplied g16a16 g16 : MemoryFormat

pub data MemoryFormatBytes : Type 0 where
  b1 b2 b3 b4 b6 b8 b12 b16 : MemoryFormatBytes

-- `u8`, `u32`, `u64` and `usize` of the enum read the same discriminant.
unfoldable pub to_number : MemoryFormatBytes → ℕ
to_number b1 = 1
to_number b2 = 2
to_number b3 = 3
to_number b4 = 4
to_number b6 = 6
to_number b8 = 8
to_number b12 = 12
to_number b16 = 16

pub data ChannelType : Type 0 where
  u8 u16 f16 f32 : ChannelType

unfoldable pub size : ChannelType → ℕ
size u8 = 1
size u16 = 2
size f16 = 2
size f32 = 4

-- `==` of `ChannelType`.
unfoldable pub same_type : ChannelType → ChannelType → Bool
same_type u8 u8 = true
same_type u16 u16 = true
same_type f16 f16 = true
same_type f32 f32 = true
same_type _ _ = false

-- From which channel a colour value is taken, in the order red, green, blue, opacity.
pub data Source : Type 0 where
  c0 c1 c2 c3 opaque : Source

-- Which value is written to a channel.
pub data Target : Type 0 where
  r g b a rgb_avg : Target

-- `as usize` of the two enums.
unfoldable pub source_index : Source → ℕ
source_index c0 = 0
source_index c1 = 1
source_index c2 = 2
source_index c3 = 3
source_index opaque = 4

unfoldable pub target_index : Target → ℕ
target_index r = 0
target_index g = 1
target_index b = 2
target_index a = 3
target_index rgb_avg = 4

-- `slice.contains(&value)` for the two enums, compared by their discriminants.
unfoldable pub contains_source : List Source → Source → Bool
contains_source [] s = false
contains_source (x ∷ xs) s = source_index x == source_index s || contains_source xs s

unfoldable pub contains_target : List Target → Target → Bool
contains_target [] t = false
contains_target (x ∷ xs) t = target_index x == target_index t || contains_target xs t
