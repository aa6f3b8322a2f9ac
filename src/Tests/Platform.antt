-- ===== src/Tests/Platform.antt =====
-- The memory limit and the colour types at concrete inputs.
use glycin.Base.{
  ℕ, ◌+◌, ◌*◌, ◌/◌, ◌≤◌, ◌≡◌, ◌↔◌, refl, arith, true, false, List, [], ◌∷◌, some, none, ok,
}
use glycin.Format.Types.{MemoryFormat, to_number}
use glycin.Format.Tables.{n_bytes}
use glycin.Format.Extended.{basic, extended_n_bytes}
use glycin.Sandbox.{Line, mem_available, memory_limit}
use glycin.Sandbox.Laws.{in_bytes, mem_available-sum, memory_limit-leaves}
use glycin.ImageRs.{
  ColorType, ExtendedColorType, Decoder, memory_format_to_color_type,
  extended_memory_format_to_color_type, memory_format_from_color_type,
}
use glycin.ImageRs.Laws.{color_type_iff}

abbrev meminfo : List Line
meminfo =
    record { counts = false; mem_avail_kb = some 7 }
    ∷ record { counts = true; mem_avail_kb = some 300000 }
    ∷ record { counts = true; mem_avail_kb = none }
    ∷ record { counts = true; mem_avail_kb = some 500000 }
    ∷ []

mem_available-sum_example : mem_available (some meminfo) ≡ in_bytes (300000 ∷ 500000 ∷ [])
mem_available-sum_example = mem_available-sum (some meminfo)

abbrev four_fifths : ℕ → ℕ
four_fifths n = n * 4 / 5

four_fifths-le : (n : ℕ) → four_fifths n ≤ n
four_fifths-le n = omega arith

available : mem_available (some meminfo) ≡ some 819200000
unfolding mem_available
available = refl

memory_limit-leaves_example :
    memory_limit four_fifths (some meminfo) + 1024 * 1024 * 200 ≤ 819200000
memory_limit-leaves_example =
    memory_limit-leaves four_fifths four_fifths-le (some meminfo) 819200000 available (omega arith)

color_type_iff_example :
    (extended_memory_format_to_color_type (basic MemoryFormat.g16) ≡ some ColorType.l16) ↔ (
      (f : MemoryFormat) × (basic MemoryFormat.g16 ≡ basic f)
      × (memory_format_from_color_type {E = ℕ} ColorType.l16 ≡ ok f))
color_type_iff_example = color_type_iff (basic MemoryFormat.g16) ColorType.l16

abbrev decoder : Decoder
decoder = record {
  width = 3;
  height = 2;
  color_type = ColorType.l16;
  original_color_type = ExtendedColorType.l16;
  icc_profile = none;
  total_bytes = 0;
  read_image = ok [];
}

known : memory_format_to_color_type MemoryFormat.g16 ≡ some ColorType.l16
unfolding memory_format_to_color_type
known = refl

two_bytes : to_number (extended_n_bytes (basic MemoryFormat.g16)) ≡ 2
unfolding to_number extended_n_bytes n_bytes
two_bytes = refl
