-- ===== src/ImageEditor/Encodable.antt =====
-- The formats that a created image is encoded from.
use glycin.Base.{arith, false, ◌≡◌, refl, true, none, some, Option, ok}
use glycin.Format.Types.{MemoryFormat}
use glycin.Selection.{flag, best_format_for}
use glycin.Selection.Best.{IsBest, best_format_for-IsBest, best_format_for-none}
use glycin.ImageRs.{ExtendedColorType}
use glycin.ImageEditor.Formats.{accepted, selected, image_memory_format}

abbrev pub IsEncodable : MemoryFormat → Option MemoryFormat → Type 0
IsEncodable src chosen =
    (best : MemoryFormat) × (chosen ≡ some best)
    × IsBest (selected accepted) src best
    × (t : ExtendedColorType) × (image_memory_format best ≡ ok t)

encodable :
    (contained : MemoryFormat)
    → selected accepted (flag contained) ≡ true
    → (t : ExtendedColorType) × (image_memory_format contained ≡ ok t)
unfolding selected accepted image_memory_format flag
encodable MemoryFormat.g8 e = (_, refl)
encodable MemoryFormat.g8a8 e = (_, refl)
encodable MemoryFormat.r8g8b8 e = (_, refl)
encodable MemoryFormat.r8g8b8a8 e = (_, refl)
encodable MemoryFormat.g16 e = (_, refl)
encodable MemoryFormat.g16a16 e = (_, refl)
encodable MemoryFormat.r16g16b16 e = (_, refl)
encodable MemoryFormat.r16g16b16a16 e = (_, refl)
encodable _ e = ground arith

by_choice :
    (src : MemoryFormat) (chosen : Option MemoryFormat)
    → best_format_for (selected accepted) src ≡ chosen
    → IsEncodable src chosen
unfolding selected accepted flag
by_choice src none e = absurd (
    let q : selected accepted (flag MemoryFormat.g8) ≡ false =
      (best_format_for-none (selected accepted) src).0 e MemoryFormat.g8 in
    ground arith)
by_choice src (some best) e =
    let h = best_format_for-IsBest (selected accepted) src best e in
    let (t, q) = encodable best h.accepted in (best, refl, h, t, q)

-- For every format of a frame, the creation of an image finds a format for the encoders, the best of those
-- that it accepts, and there is a colour type for it, so that `unreachable!()` is not reached.
pub best_format_for-IsEncodable :
    (src : MemoryFormat) → IsEncodable src (best_format_for (selected accepted) src)
best_format_for-IsEncodable src = by_choice src (best_format_for (selected accepted) src) refl
