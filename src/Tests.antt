-- ===== src/Tests.antt =====
-- The theorems at concrete inputs, and the parameters of the development as concrete functions.
mod Conversion
mod Client
mod Platform
mod Loaders
mod Services
mod Frames
mod Editors
use package.glycin.Base.{
  ℕ, zero, suc, ◌+◌, ◌-◌, ◌*◌, ◌/◌, ◌%◌, min, ◌≤◌, ◌<◌, ◌≡◌, ◌≢◌, ◌↔◌, ◌⊎◌, inl, inr, refl, arith,
  Bool, true, false, not, ltb, ◌==◌, ◌||◌, List, [], ◌∷◌, ◌++◌, map, length, get_or, Option, some,
  none, Outcome, ok, err, Returns, u32_mod, usize_mod, i64_mod,
}
use package.glycin.Math.{Checked, IsChecked, standard, standard-IsChecked}
use package.glycin.Format.Types.{
  MemoryFormat, to_number, size, same_type, source_index, target_index, contains_source,
  contains_target,
}
use package.glycin.Format.Tables.{
  n_bytes, n_channels, channel_type, has_alpha, is_premultiplied, source_definition,
  target_definition,
}
use package.glycin.Format.Types.{u16}
use package.glycin.Format.Types.{u8}
use package.glycin.Format.Laws.{HasLayout, format-HasLayout, ReadsBack, ReadsBack-iff}
use package.glycin.Selection.Sort.{last?, sort_by}
use package.glycin.Format.Extended.{ExtendedMemoryFormat, basic, pixel_size, extended_n_bytes}
use package.glycin.Format.Transform.{Floats}
use package.glycin.Selection.{
  Selection, flag, memory_formats, push_contained, pairs, best_format_for, contains_format,
  same_format, same_bool, key_for, lt_key, bool_then,
}
use package.glycin.Selection.Best.{
  IsBest, best_format_for-IsBest, best_format_for-none, HasChannelsOf,
  best_format_for-HasChannelsOf,
}
use package.glycin.Operations.{
  Rotation, deg0, deg90, deg180, deg270, Orientations, Operation, Operations, MaybeOperation,
  new_orientation, orientation, add_operations, known_of, unknown_of,
}
use package.glycin.Operations.Laws.{IsOrientation, plus, opposite, orientation-new_orientation}
use package.glycin.Editing.{EditingFrame, Error, math}
use package.glycin.Editing.Images.{Buffer, IsValid}
use package.glycin.Editing.Orientation.{change_orientation}
use package.glycin.Editing.Orientation.Laws.{IsOriented, change_orientation-IsOriented}
use package.glycin.Editing.Apply.{apply_operations}
use package.glycin.Editing.Apply.Laws.{IsSmall, apply_operations-IsOriented}
use package.glycin.Editing.Clip.{clip}
use package.glycin.Editing.Clip.Laws.{IsClipped, clip-IsClipped, clip_outside}

-- Two pixels of three bytes in a row.
abbrev image : EditingFrame
image = record { width = 2; height = 1; stride = 6; memory_format = basic MemoryFormat.r8g8b8 }

abbrev bytes : Buffer
bytes = 1 ∷ 2 ∷ 3 ∷ 4 ∷ 5 ∷ 6 ∷ []

image-IsValid : IsValid image bytes
unfolding extended_n_bytes to_number n_bytes
image-IsValid = record { narrow = omega arith; held = omega arith }

image-IsSmall : IsSmall image bytes
unfolding extended_n_bytes to_number n_bytes
image-IsSmall = record { columns = omega arith; rows = omega arith; bytes = omega arith }

change_orientation-IsOriented_example :
    Returns (change_orientation true deg90 image bytes) (IsOriented true deg90 image bytes)
change_orientation-IsOriented_example =
    change_orientation-IsOriented true deg90 image bytes image-IsValid (omega arith)
      (image-IsSmall.rows)

-- An orientation as a mirroring and a rotation.
abbrev pub concrete : Orientations
concrete = record {
  Orientation = Bool × Rotation;
  new = λ m r. (m, r);
  mirror = λ o. o.0;
  rotate = λ o. o.1;
  upright = (false, deg0);
  add_mirror_horizontally = λ o. (not o.0, opposite o.1);
  add_mirror_vertically = λ o. (not o.0, plus deg180 (opposite o.1));
  add_rotation = λ o r. (o.0, plus r o.1);
}

pub concrete-IsOrientation : IsOrientation concrete
concrete-IsOrientation = record {
  mirror-new = λ m r. refl;
  rotate-new = λ m r. refl;
  mirror_upright = refl;
  rotate_upright = refl;
  mirror_horizontally = λ o. (refl, refl);
  mirror_vertically = λ o. (refl, refl);
  add_rotation = λ o r. (refl, refl);
}

abbrev turn_and_mirror : Operations
turn_and_mirror = record {
  operations = Operation.rotate deg90 ∷ Operation.mirror_horizontally ∷ [];
  unknown_operations = [];
}

turned : orientation concrete turn_and_mirror ≡ some (true, deg270)
unfolding orientation
turned = refl

apply_operations-IsOriented_example :
    Returns
      (apply_operations concrete standard turn_and_mirror image bytes)
      (IsOriented true deg270 image bytes)
apply_operations-IsOriented_example =
    apply_operations-IsOriented image bytes image-IsSmall concrete concrete-IsOrientation standard
      turn_and_mirror (true, deg270) image-IsValid turned

clip-IsClipped_example : Returns (clip standard bytes image 1 0 5 1) (IsClipped image bytes 1 0 5 1)
clip-IsClipped_example =
    clip-IsClipped standard standard-IsChecked image bytes 1 0 5 1 image-IsValid (omega arith)
      (omega arith) (omega arith) (omega arith)

clip_outside_example : clip standard bytes image 3 0 1 1 ≡ err math
clip_outside_example =
    clip_outside standard standard-IsChecked image bytes 3 0 1 1 (inl (omega arith))

orientation-new_orientation_example :
    (o' : Bool × Rotation) × (orientation concrete (new_orientation concrete (true, deg180))
      ≡ some o')
    × (o'.0 ≡ true)
    × (o'.1 ≡ deg180)
orientation-new_orientation_example =
    orientation-new_orientation concrete concrete-IsOrientation (true, deg180)

abbrev entries : List MaybeOperation
entries =
    MaybeOperation.operation Operation.mirror_vertically
    ∷ MaybeOperation.unknown "sharpen"
    ∷ MaybeOperation.operation (Operation.clip 0 0 1 1)
    ∷ []

-- A selection of two formats.
abbrev two_formats : Selection
two_formats bit = bit == flag MemoryFormat.r8g8b8 || bit == flag MemoryFormat.r8g8b8a8

chosen : best_format_for two_formats MemoryFormat.g8a8 ≡ some MemoryFormat.r8g8b8a8
unfolding best_format_for flag has_alpha last? sort_by
chosen = refl

best_format_for-IsBest_example : IsBest two_formats MemoryFormat.g8a8 MemoryFormat.r8g8b8a8
best_format_for-IsBest_example =
    best_format_for-IsBest two_formats MemoryFormat.g8a8 MemoryFormat.r8g8b8a8 chosen

rgba-HasChannelsOf : HasChannelsOf MemoryFormat.g8a8 MemoryFormat.r8g8b8a8
unfolding has_alpha n_channels channel_type
rgba-HasChannelsOf = (refl, omega arith, refl)

rgba_contained : two_formats (flag MemoryFormat.r8g8b8a8) ≡ true
unfolding flag
rgba_contained = refl

best_format_for-HasChannelsOf_example : HasChannelsOf MemoryFormat.g8a8 MemoryFormat.r8g8b8a8
best_format_for-HasChannelsOf_example =
    best_format_for-HasChannelsOf two_formats MemoryFormat.g8a8 MemoryFormat.r8g8b8a8
      MemoryFormat.r8g8b8a8 rgba_contained rgba-HasChannelsOf chosen

format-HasLayout_example : HasLayout MemoryFormat.g16
format-HasLayout_example = format-HasLayout MemoryFormat.g16

ReadsBack-iff_example :
    ReadsBack (source_definition MemoryFormat.a8r8g8b8) 0 (target_definition MemoryFormat.a8r8g8b8)
    ↔ (MemoryFormat.a8r8g8b8 ≢ MemoryFormat.a8b8g8r8)
ReadsBack-iff_example = ReadsBack-iff MemoryFormat.a8r8g8b8
