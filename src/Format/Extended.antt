-- ===== src/Format/Extended.antt =====
-- `ExtendedMemoryFormat` of `glycin-common/src/memory_format.rs`.
use glycin.Base.{ℕ}
use glycin.Format.Types.{MemoryFormat, MemoryFormatBytes, b3, to_number}
use glycin.Format.Tables.{n_bytes, n_channels}

pub data ExtendedMemoryFormat : Type 0 where
  basic : MemoryFormat → ExtendedMemoryFormat
  y8cb8cr8 : ExtendedMemoryFormat

unfoldable pub extended_n_bytes : ExtendedMemoryFormat → MemoryFormatBytes
extended_n_bytes (basic f) = n_bytes f
extended_n_bytes y8cb8cr8 = b3

unfoldable pub extended_n_channels : ExtendedMemoryFormat → ℕ
extended_n_channels (basic f) = n_channels f
extended_n_channels y8cb8cr8 = 3

-- `n_bytes().usize()`, which the pixel loops use.
abbrev pub pixel_size : ExtendedMemoryFormat → ℕ
pixel_size f = to_number (extended_n_bytes f)
