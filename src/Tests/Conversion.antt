-- ===== src/Tests/Conversion.antt =====
-- The conversion of pixel formats at concrete images.
use glycin.Base.{
  ℕ, suc, ◌+◌, ◌*◌, ◌/◌, ◌%◌, min, ◌≤◌, ◌<◌, ◌≡◌, refl, arith, Bool, true, false, ltb, List, [],
  ◌∷◌, get_or, none, Returns,
}
use glycin.Math.{standard, standard-IsChecked}
use glycin.Format.Types.{
  MemoryFormat, to_number, size, same_type, u16, u8, contains_source, contains_target, source_index,
  target_index,
}
use glycin.Format.Tables.{
  n_bytes, n_channels, channel_type, is_premultiplied, source_definition, target_definition,
}
use glycin.Format.Transform.{Floats}
use glycin.Selection.{same_format, flag}
use glycin.Frame.{Frame}
use glycin.Editing.ChangeMemoryFormat.{copies_channels, change_memory_format}
use glycin.Editing.ChangeMemoryFormat.Indexes.{wanted, stored}
use glycin.Editing.ChangeMemoryFormat.Laws.{
  IsConverted, change_memory_format-copied, change_memory_format-zeroed,
  change_memory_format-narrowed,
}

-- Whole numbers in place of floats, and little-endian bytes.
abbrev pub whole_numbers : Floats
whole_numbers = record {
  F32 = ℕ;
  one = 1;
  three = 3;
  add = λ x y. x + y;
  mul = λ x y. x * y;
  div = λ x y. x / y;
  is_positive = λ x. ltb 0 x;
  of_number = λ n. n;
  round_to = λ most x. min x most;
  u16_of_bytes = λ b0 b1. b0 + 256 * b1;
  u16_bytes = λ n. (n % 256, n / 256);
  f16_of_bytes = λ b0 b1. b0 + 256 * b1;
  f16_bytes = λ n. (n % 256, n / 256);
  f32_of_bytes = λ b0 b1 b2 b3. b0 + 256 * b1;
  f32_bytes = λ n. (n % 256, n / 256, 0, 0);
}

abbrev pixel_frame : ℕ → MemoryFormat → Frame Bool
pixel_frame stride format = record {
  width = 1;
  height = 1;
  stride = stride;
  memory_format = format;
  delay = none;
  details = true;
}

abbrev rgba : List ℕ
rgba = 1 ∷ 2 ∷ 3 ∷ 4 ∷ []

abbrev rgba16 : List ℕ
rgba16 = 127 ∷ 0 ∷ 128 ∷ 0 ∷ 127 ∷ 2 ∷ 3 ∷ 3 ∷ []

-- Both formats differ and are of the kind that the shortcuts are for.
abbrev Shortcut : MemoryFormat → MemoryFormat → Type 0
Shortcut src target = (same_format src target ≡ false) × (copies_channels src target ≡ true)

shortcut8 : Shortcut MemoryFormat.r8g8b8a8 MemoryFormat.b8g8r8
unfolding same_format flag copies_channels is_premultiplied source_definition target_definition
    contains_source contains_target source_index target_index
shortcut8 = (refl, refl)

shortcut16 : Shortcut MemoryFormat.r16g16b16a16 MemoryFormat.r16g16b16
unfolding same_format flag copies_channels is_premultiplied source_definition target_definition
    contains_source contains_target source_index target_index
shortcut16 = (refl, refl)

shortcut16to8 : Shortcut MemoryFormat.r16g16b16a16 MemoryFormat.r8g8b8
unfolding same_format flag copies_channels is_premultiplied source_definition target_definition
    contains_source contains_target source_index target_index
shortcut16to8 = (refl, refl)

-- The pixels of the source have `n` bytes, and those of the target fewer than 256.
abbrev Sizes : MemoryFormat → MemoryFormat → ℕ → Type 0
Sizes src target n = (to_number (n_bytes src) ≡ n) × (to_number (n_bytes target) < 256)

sizes8 : Sizes MemoryFormat.r8g8b8a8 MemoryFormat.b8g8r8 4
unfolding to_number n_bytes
sizes8 = (refl, omega arith)

sizes16 : Sizes MemoryFormat.r16g16b16a16 MemoryFormat.r16g16b16 8
unfolding to_number n_bytes
sizes16 = (refl, omega arith)

sizes16to8 : Sizes MemoryFormat.r16g16b16a16 MemoryFormat.r8g8b8 8
unfolding to_number n_bytes
sizes16to8 = (refl, omega arith)

one_type8 :
    (same_type (channel_type MemoryFormat.r8g8b8a8) (channel_type MemoryFormat.b8g8r8) ≡ true)
    × (size (channel_type MemoryFormat.b8g8r8) ≡ 1)
unfolding same_type channel_type size
one_type8 = (refl, refl)

one_type16 :
    same_type (channel_type MemoryFormat.r16g16b16a16) (channel_type MemoryFormat.r16g16b16) ≡ true
unfolding same_type channel_type
one_type16 = refl

narrowing : (channel_type MemoryFormat.r16g16b16a16 ≡ u16) × (channel_type MemoryFormat.r8g8b8 ≡ u8)
unfolding channel_type
narrowing = (refl, refl)

change_memory_format-copied_example :
    Returns
      (change_memory_format whole_numbers standard rgba
        (pixel_frame 4 MemoryFormat.r8g8b8a8)
        MemoryFormat.b8g8r8)
      (IsConverted
        (pixel_frame 4 MemoryFormat.r8g8b8a8)
        MemoryFormat.b8g8r8
        (λ i0 i. get_or rgba (i0 + stored MemoryFormat.r8g8b8a8 MemoryFormat.b8g8r8 i) 0))
change_memory_format-copied_example =
    change_memory_format-copied whole_numbers standard standard-IsChecked
      (pixel_frame 4 MemoryFormat.r8g8b8a8) rgba MemoryFormat.b8g8r8 (omega (arith, sizes8.0))
      (omega arith) shortcut8.0 (omega (arith, sizes8.1)) (omega (arith, sizes8.1)) shortcut8.1
      one_type8.0 (λ e. cc) one_type8.1

change_memory_format-zeroed_example :
    Returns
      (change_memory_format whole_numbers standard rgba16
        (pixel_frame 8 MemoryFormat.r16g16b16a16)
        MemoryFormat.r16g16b16)
      (λ r.
        (y x i : ℕ)
        → y < 1
        → x < 1
        → size (channel_type MemoryFormat.r16g16b16) + n_channels MemoryFormat.r16g16b16 ≤ suc i
        → i < to_number (n_bytes MemoryFormat.r16g16b16)
        → get_or r.1
            (x * to_number (n_bytes MemoryFormat.r16g16b16)
              + y * (1 * to_number (n_bytes MemoryFormat.r16g16b16))
              + i)
            0
          ≡ 0)
change_memory_format-zeroed_example =
    change_memory_format-zeroed whole_numbers standard standard-IsChecked
      (pixel_frame 8 MemoryFormat.r16g16b16a16) rgba16 MemoryFormat.r16g16b16
      (omega (arith, sizes16.0)) (omega arith) shortcut16.0 (omega (arith, sizes16.1))
      (omega (arith, sizes16.1)) shortcut16.1 one_type16

change_memory_format-narrowed_example :
    Returns
      (change_memory_format whole_numbers standard rgba16
        (pixel_frame 8 MemoryFormat.r16g16b16a16)
        MemoryFormat.r8g8b8)
      (IsConverted (pixel_frame 8 MemoryFormat.r16g16b16a16) MemoryFormat.r8g8b8 (λ i0 i.
        let at = i0 + wanted MemoryFormat.r16g16b16a16 MemoryFormat.r8g8b8 i * 2 in
        min (get_or rgba16 at 0 + 256 * get_or rgba16 (at + 1) 0 + 128) 65535 / 256))
change_memory_format-narrowed_example =
    change_memory_format-narrowed whole_numbers standard standard-IsChecked
      (pixel_frame 8 MemoryFormat.r16g16b16a16) rgba16 MemoryFormat.r8g8b8
      (omega (arith, sizes16to8.0)) (omega arith) shortcut16to8.0 (omega (arith, sizes16to8.1))
      (omega (arith, sizes16to8.1)) shortcut16to8.1 narrowing.0 narrowing.1
