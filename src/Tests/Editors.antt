-- ===== src/Tests/Editors.antt =====
-- The editors of image files at concrete inputs.
use Prim.Native.String.{String}
use glycin.Base.{
  ℕ, ◌≡◌, refl, arith, ltb, if◌then◌else◌, Bool, true, false, List, [], ◌∷◌, length, replicate,
  some, Outcome, ok, err,
}
use glycin.Math.{standard}
use glycin.Errors.{ProcessError, Cause}
use glycin.Format.Types.{MemoryFormat}
use glycin.Selection.{best_format_for}
use glycin.Operations.{deg0, deg90, deg180, deg270, Rotation, Operation, Operations}
use glycin.Tests.{concrete, concrete-IsOrientation}
use glycin.Dbus.Editor.{of_byte_changes}
use glycin.Dbus.Changes.{from_slice}
use glycin.ImageEditor.Jpeg.{JpegLibrary, apply_sparse, apply_complete}
use glycin.ImageEditor.Sparse.{IsLibrary, Agree, apply_sparse-apply_complete}
use glycin.ImageEditor.Turned.{Same, apply_sparse-turns}
use glycin.ImageEditor.Formats.{accepted, selected}
use glycin.ImageEditor.Encodable.{IsEncodable, best_format_for-IsEncodable}

best_format_for-IsEncodable_example :
    IsEncodable MemoryFormat.b8g8r8a8 (best_format_for (selected accepted) MemoryFormat.b8g8r8a8)
best_format_for-IsEncodable_example = best_format_for-IsEncodable MemoryFormat.b8g8r8a8

-- The codes of Exif.
abbrev code_of : Bool × Rotation → ℕ
code_of (false, deg0) = 1
code_of (true, deg0) = 2
code_of (false, deg180) = 3
code_of (true, deg180) = 4
code_of (true, deg270) = 5
code_of (false, deg270) = 6
code_of (true, deg90) = 7
code_of (false, deg90) = 8

abbrev too_short : {A : Type 0} → Outcome Cause A
too_short = err (Cause.other "too short")

-- Files of more than twelve bytes, where the entry has its value at the position 11.
abbrev turned_jpegs : JpegLibrary (Bool × Rotation)
turned_jpegs = record {
  Jpeg = List ℕ;
  new = λ buf. if ltb 12 (length buf) then ok buf else too_short;
  into_inner = λ buf. buf;
  metadata_orientation = λ buf. some (false, deg270);
  exif_data = λ buf. buf ∷ [];
  data_pos = λ buf. 2 ∷ [];
  identifier_length = 6;
  replace_image_data = λ old new. ok new;
  Exif = List ℕ;
  decode_exif = λ exif_data. ok exif_data;
  value_offset_position = λ exif. some 3;
  as_u8 = code_of;
  decode = λ buf. ok buf;
  info = λ buf. ok (1, 1);
  Encoder = List ℕ;
  encoder = λ jpeg. ok jpeg;
  encode = λ encoder pixels width height. ok pixels;
}

turned_jpegs-IsLibrary : IsLibrary turned_jpegs
turned_jpegs-IsLibrary = record {
  into_inner-new = λ buf jpeg e. ground arith;
  entry_inside = λ buf jpeg exif exif_data segments data_pos positions value_offset e e1 e2 e3 e4.
      ground arith;
}

abbrev quarter : Operations
quarter = record { operations = Operation.rotate deg90 ∷ []; unknown_operations = [] }

abbrev small_file : List ℕ
small_file = replicate 16 7

abbrev to_string : ProcessError → String
to_string e = "error"

abbrev editing_text : glycin.Editing.Error → String
editing_text e = "editing"

abbrev enough : ℕ → Outcome Cause (Unit {0})
enough size = ok tt

apply_sparse-turns_example :
    (out : Bool × Rotation) × (apply_sparse concrete standard turned_jpegs to_string editing_text
        enough small_file quarter
      ≡ ok (of_byte_changes (from_slice ((11, code_of out) ∷ []))))
    × Same concrete concrete-IsOrientation (false, deg0) out
unfolding glycin.Operations.add_operations
apply_sparse-turns_example =
    apply_sparse-turns concrete concrete-IsOrientation standard turned_jpegs to_string editing_text
      enough small_file quarter small_file small_file (false, deg270) (false, deg0) small_file [] 2
      [] 3 refl refl refl refl refl refl refl

apply_sparse-apply_complete_example :
    Agree
      (glycin.Errors.Client.Error.conversion_too_larger_error)
      (λ change. ok tt)
      small_file
      (apply_sparse concrete standard turned_jpegs to_string editing_text enough small_file quarter)
      (apply_complete concrete standard turned_jpegs to_string editing_text enough small_file
        quarter)
apply_sparse-apply_complete_example =
    apply_sparse-apply_complete concrete standard turned_jpegs turned_jpegs-IsLibrary to_string
      editing_text enough (λ n h. refl) (glycin.Errors.Client.Error.conversion_too_larger_error)
      (λ change. ok tt) (λ change. refl) small_file (omega arith) quarter
