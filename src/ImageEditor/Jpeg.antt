-- ===== src/ImageEditor/Jpeg.antt =====
-- `glycin-loaders/glycin-image-rs/src/editor/jpeg.rs`: the editing of JPEG files. The orientation is
-- changed in the metadata if possible, and else in the image, which is then encoded anew.
use Prim.Native.String.{String}
use glycin.Base.{ℕ, ◌+◌, ◌*◌, ◌%◌, List, [], ◌∷◌, Option, none, some, Outcome, ok, err, ◌>>=◌}
use glycin.Errors.{ProcessError, Cause, expected, internal, map_err}
use glycin.Math.{Checked}
use glycin.SharedMemory.{from_data}
use glycin.Format.Extended.{y8cb8cr8}
use glycin.Operations.{Orientations, Operations, prepend, new_orientation, orientation}
use glycin.Editing.Apply.{apply_operations}
use glycin.Dbus.Editor.{
  ByteChanges, SparseEditorOutput, CompleteEditorOutput, of_byte_changes, of_complete, new_output,
  new_lossless,
}
use glycin.Dbus.Changes.{from_slice, apply}

-- The libraries: gufo and gufo_exif, which read and write the parts of a file, zune_jpeg, which decodes, and
-- jpeg_encoder. A decoded image is its bytes, with a width and a height.
pub record JpegLibrary (Orientation : Type 0) : Type 1 where
  pub Jpeg : Type 0
  pub new : List ℕ → Outcome Cause Jpeg
  pub into_inner : Jpeg → List ℕ
  pub metadata_orientation : Jpeg → Option Orientation
  pub exif_data : Jpeg → List (List ℕ)
  pub data_pos : Jpeg → List ℕ
  pub identifier_length : ℕ
  pub replace_image_data : Jpeg → Jpeg → Outcome Cause Jpeg
  pub Exif : Type 0
  pub decode_exif : List ℕ → Outcome Cause Exif
  pub value_offset_position : Exif → Option ℕ
  pub as_u8 : Orientation → ℕ
  pub decode : List ℕ → Outcome Cause (List ℕ)
  pub info : List ℕ → Outcome Cause (ℕ × ℕ)
  pub Encoder : Type 0
  pub encoder : Jpeg → Outcome Cause Encoder
  pub encode : Encoder → List ℕ → ℕ → ℕ → Outcome Cause (List ℕ)

module _ (api : Orientations) (checked : Checked) (library : JpegLibrary api.Orientation)
    (to_string : ProcessError → String) (editing_text : glycin.Editing.Error → String)
    (map : ℕ → Outcome Cause (Unit {0})) where
  open api use {Orientation}
  open library use {Jpeg}

  -- `load`, which reads the file.
  unfoldable pub load : Outcome Cause (List ℕ) → Outcome ProcessError (List ℕ)
  unfolding internal
  load stream = map_err (internal to_string) stream

  -- The byte that the orientation is at, if there is an entry for it.
  unfoldable pub entry_change : Orientation → ℕ → Option ℕ → Option ByteChanges
  unfolding from_slice
  entry_change o data_pos none = none
  entry_change o data_pos (some value_offset) =
      some
        (from_slice ((data_pos + value_offset + library.identifier_length, library.as_u8 o) ∷ []))

  -- The first Exif segment, by its data and its position.
  unfoldable pub segment_change :
      Orientation → List (List ℕ) → List ℕ → Outcome ProcessError (Option ByteChanges)
  unfolding entry_change expected
  segment_change o [] positions = ok none
  segment_change o (exif_data ∷ segments) [] = ok none
  segment_change o (exif_data ∷ segments) (data_pos ∷ positions) =
      map_err (expected to_string) (library.decode_exif exif_data)
      >>= (λ exif. ok (entry_change o data_pos (library.value_offset_position exif)))

  unfoldable pub rotate_sparse : Orientation → Jpeg → Outcome ProcessError (Option ByteChanges)
  unfolding segment_change
  rotate_sparse o jpeg = segment_change o (library.exif_data jpeg) (library.data_pos jpeg)

  -- The operations after those for the orientation of the file.
  unfoldable pub with_existing : Option Orientation → Operations → Operations
  unfolding prepend new_orientation
  with_existing none operations = operations
  with_existing (some o) operations = prepend operations (new_orientation api o)

  -- The changes for operations that add up to an orientation.
  unfoldable pub sparse_changes :
      Jpeg → Option Orientation → Outcome ProcessError (Option ByteChanges)
  unfolding rotate_sparse
  sparse_changes jpeg none = ok none
  sparse_changes jpeg (some o) = rotate_sparse o jpeg

  -- `ok().flatten()`.
  unfoldable pub or_nothing :
      Outcome ProcessError (Option ByteChanges) → Outcome ProcessError (Option ByteChanges)
  or_nothing (ok changes) = ok changes
  or_nothing (err e) = ok none
  or_nothing Outcome.panic = Outcome.panic

  unfoldable pub apply_if_some : Option ByteChanges → List ℕ → Outcome ProcessError (List ℕ)
  unfolding apply
  apply_if_some none out_buf = ok out_buf
  apply_if_some (some changes) out_buf = apply changes out_buf

  unfoldable pub apply_non_sparse : Jpeg → Operations → Outcome ProcessError CompleteEditorOutput
  unfolding expected apply_operations rotate_sparse or_nothing apply_if_some from_data new_output
  apply_non_sparse jpeg operations = do
    encoder ← map_err (expected to_string) (library.encoder jpeg)
    pixels ← map_err (expected to_string) (library.decode (library.into_inner jpeg))
    (width, height) ← map_err (expected to_string) (library.info (library.into_inner jpeg))
    (simple_frame, pixels') ←
        map_err (λ e. expected to_string (Cause.other (editing_text e)))
          (apply_operations api checked operations
            (record {
              width = width;
              height = height;
              stride = width * 3;
              memory_format = y8cb8cr8;
            })
            pixels)
    out_buf ←
        map_err (expected to_string) (
          library.encode encoder pixels' (simple_frame.width % 65536) (simple_frame.height % 65536))
    old_jpeg ← map_err (expected to_string) (library.new (library.into_inner jpeg))
    new_jpeg ← map_err (expected to_string) (library.new out_buf)
    replaced ← map_err (expected to_string) (library.replace_image_data old_jpeg new_jpeg)
    remove_metadata_rotate ← or_nothing (rotate_sparse api.upright replaced)
    shown ← apply_if_some remove_metadata_rotate (library.into_inner replaced)
    binary_data ← map_err (expected to_string) (from_data map shown)
    ok (new_output binary_data)

  unfoldable pub sparse_output :
      Jpeg → Operations → Option ByteChanges → Outcome ProcessError SparseEditorOutput
  unfolding apply_non_sparse of_byte_changes of_complete
  sparse_output jpeg operations (some byte_changes) = ok (of_byte_changes byte_changes)
  sparse_output jpeg operations none =
      apply_non_sparse jpeg operations >>= (λ complete. ok (of_complete complete))

  unfoldable pub complete_output :
      Jpeg → Operations → Option ByteChanges → Outcome ProcessError CompleteEditorOutput
  unfolding apply_non_sparse apply new_lossless
  complete_output jpeg operations (some byte_changes) =
      apply byte_changes (library.into_inner jpeg) >>= new_lossless to_string map
  complete_output jpeg operations none = apply_non_sparse jpeg operations

  unfoldable pub apply_sparse : List ℕ → Operations → Outcome ProcessError SparseEditorOutput
  unfolding expected with_existing orientation sparse_changes sparse_output
  apply_sparse buf operations = do
    jpeg ← map_err (expected to_string) (library.new buf)
    let operations' : Operations = with_existing (library.metadata_orientation jpeg) operations
    changes ← sparse_changes jpeg (orientation api operations')
    sparse_output jpeg operations' changes

  unfoldable pub apply_complete : List ℕ → Operations → Outcome ProcessError CompleteEditorOutput
  unfolding expected with_existing orientation sparse_changes complete_output
  apply_complete buf operations = do
    jpeg ← map_err (expected to_string) (library.new buf)
    let operations' : Operations = with_existing (library.metadata_orientation jpeg) operations
    changes ← sparse_changes jpeg (orientation api operations')
    complete_output jpeg operations' changes
