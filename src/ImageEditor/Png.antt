-- ===== src/ImageEditor/Png.antt =====
-- `glycin-loaders/glycin-image-rs/src/editor/png.rs`: the editing of PNG files. The image is decoded, changed
-- and encoded anew, and put in the place of the old one in the file, which keeps its metadata.
use Prim.Native.String.{String}
use glycin.Base.{
  ℕ, ◌+◌, Bool, false, ◌==◌, if◌then◌else◌, List, [], ◌∷◌, ◌++◌, map, Option, none, some, Outcome,
  ok, ◌>>=◌,
}
use glycin.Errors.{ProcessError, Cause, expected, internal, map_err, or_internal}
use glycin.Math.{Checked}
use glycin.SharedMemory.{from_data}
use glycin.Operations.{Orientations, Operations, prepend, new_orientation}
use glycin.Editing.{EditingFrame}
use glycin.Editing.Apply.{apply_operations}
use glycin.ImageRs.{ColorType, Decoder, editing_frame, extended_memory_format_to_color_type}
use glycin.Dbus.Editor.{CompleteEditorOutput, new_output}
use glycin.Dbus.Changes.{from_slice, apply}

-- The libraries: image, which decodes and encodes, and gufo and gufo_exif, which read and write the parts of a
-- file. `decode_exif` is the metadata after `decode`, and whether it succeeded. The orientation of an
-- entry is its value as a `u32`, if it is one.
pub record PngLibrary (Orientation : Type 0) : Type 1 where
  pub Png : Type 0
  pub id_code : ℕ
  pub new : List ℕ → Outcome Cause Png
  pub into_inner : Png → List ℕ
  pub metadata_orientation : Png → Option Orientation
  pub replace_image_data : Png → Png → Outcome Cause Png
  pub decoder : List ℕ → Outcome Cause Decoder
  pub write_image : List ℕ → ℕ → ℕ → ColorType → Outcome Cause (List ℕ)
  pub Chunk : Type 0
  pub chunks : Png → List Chunk
  pub is_ornt : Chunk → Bool
  pub is_exif : Chunk → Bool
  pub chunk_data : Chunk → List ℕ
  pub start : Chunk → ℕ
  pub legacy_exif : Chunk → Option (List ℕ)
  pub remove_chunk : Png → Chunk → Png
  pub insert_exif : Png → List ℕ → Png
  pub Exif : Type 0
  pub decode_exif : List ℕ → Exif × Bool
  pub value_offset_position : Exif → Option ℕ
  pub orientation_entry : Exif → Option (Option ℕ)
  pub set_existing : Exif → ℕ → Exif
  pub into_raw : Exif → Option (List ℕ)

pub record EditorPng (Png Orientation : Type 0) : Type 0 where
  pub png : Png
  pub metadata_orientation : Option Orientation
  pub frame_buf : List ℕ
  pub editing_frame : EditingFrame

-- How the loop over the chunks goes on: with positions that are added, or it ends with another file.
pub data Next (Png : Type 0) : Type 0 where
  go_on : List ℕ → Next Png
  break_with : Png → Next Png

module _ (api : Orientations) (checked : Checked) (library : PngLibrary api.Orientation)
    (to_string : ProcessError → String) (editing_text : glycin.Editing.Error → String)
    (map_memory : ℕ → Outcome Cause (Unit {0})) where
  open api use {Orientation}
  open library use {Png, Chunk, Exif}

  -- `load`, with what reading the file comes to.
  unfoldable pub load : Outcome Cause (List ℕ) → Outcome ProcessError (EditorPng Png Orientation)
  unfolding internal expected editing_frame
  load stream = do
    old_png_data ← map_err (internal to_string) stream
    decoder ← map_err (expected to_string) (library.decoder old_png_data)
    frame ←
        map_err (λ e. expected to_string (Cause.process e))
          (editing_frame ProcessError.conversion_too_larger_error decoder)
    frame_buf ← map_err (expected to_string) decoder.read_image
    png ← map_err (expected to_string) (library.new old_png_data)
    ok (record {
      png = png;
      metadata_orientation = library.metadata_orientation png;
      frame_buf = frame_buf;
      editing_frame = frame;
    })

  -- `exif_orientation_value_position`.
  unfoldable pub exif_orientation_value_position : List ℕ → Option ℕ
  exif_orientation_value_position bytes =
      let decoded = library.decode_exif bytes in
      if decoded.1 then library.value_offset_position decoded.0 else none

  unfoldable pub byte_position : ℕ → Option ℕ → List ℕ
  byte_position chunk_position none = []
  byte_position chunk_position (some tag_position) = (chunk_position + 8 + tag_position) ∷ []

  -- `Some(value) == Some(Orientation::Id)`.
  unfoldable pub is_id : Option ℕ → Bool
  is_id none = false
  is_id (some value) = value == library.id_code

  -- The legacy metadata are put into a chunk of their own.
  unfoldable pub moved : Png → Chunk → Option (List ℕ) → Next Png
  moved png chunk none = go_on []
  moved png chunk (some exif_data) =
      break_with (library.insert_exif (library.remove_chunk png chunk) exif_data)

  unfoldable pub legacy_entry : Png → Chunk → Exif → Option (Option ℕ) → Next Png
  unfolding is_id moved
  legacy_entry png chunk exif none = go_on []
  legacy_entry png chunk exif (some value) =
      if is_id value
      then go_on []
      else moved png chunk (library.into_raw (library.set_existing exif library.id_code))

  unfoldable pub legacy : Png → Chunk → Option (List ℕ) → Next Png
  unfolding legacy_entry
  legacy png chunk none = go_on []
  legacy png chunk (some exif_data) =
      let exif = (library.decode_exif exif_data).0 in
      legacy_entry png chunk exif (library.orientation_entry exif)

  -- The body of the loop over the chunks.
  unfoldable pub reset_chunk : Png → Chunk → Next Png
  unfolding byte_position exif_orientation_value_position legacy
  reset_chunk png chunk =
      if library.is_exif chunk
      then go_on (
          byte_position (library.start chunk)
            (exif_orientation_value_position (library.chunk_data chunk)))
      else legacy png chunk (library.legacy_exif chunk)

  abbrev pub before : List ℕ → Png × List ℕ → Png × List ℕ
  before positions (png, byte_pos) = (png, positions ++ byte_pos)

  -- The loop, with the file and the positions after it.
  unfoldable pub reset_chunks : Png → List Chunk → Png × List ℕ
  unfolding reset_chunk
  reset_chunks png [] = (png, [])
  reset_chunks png (chunk ∷ chunks) = elim (reset_chunk png chunk) [
    | go_on positions ↦ before positions (reset_chunks png chunks)
    | break_with png' ↦ (png', [])
  ]

  -- The file without the first chunk `orNT`.
  unfoldable pub remove_ornt : Png → List Chunk → Png
  remove_ornt png [] = png
  remove_ornt png (chunk ∷ chunks) =
      let rest = remove_ornt png chunks in
      if library.is_ornt chunk then library.remove_chunk png chunk else rest

  unfoldable pub reset_exif_orientation : Png → Outcome ProcessError (List ℕ)
  unfolding remove_ornt reset_chunks from_slice apply
  reset_exif_orientation png =
      let png' = remove_ornt png (library.chunks png) in
      let (png2, byte_pos) = reset_chunks png' (library.chunks png') in
      apply (from_slice (map (λ x. (x, library.id_code)) byte_pos)) (library.into_inner png2)

  unfoldable pub with_existing : Option Orientation → Operations → Operations
  unfolding prepend new_orientation
  with_existing none operations = operations
  with_existing (some o) operations = prepend operations (new_orientation api o)

  -- `apply`.
  unfoldable pub apply_complete :
      EditorPng Png Orientation → Operations → Outcome ProcessError CompleteEditorOutput
  unfolding with_existing apply_operations expected internal extended_memory_format_to_color_type
      reset_exif_orientation from_data new_output
  apply_complete img_editor operations = do
    (editing_frame, buf) ←
        map_err (λ e. expected to_string (Cause.other (editing_text e)))
          (apply_operations api checked (with_existing img_editor.metadata_orientation operations)
            img_editor.editing_frame img_editor.frame_buf)
    color_type ← or_internal (extended_memory_format_to_color_type editing_frame.memory_format)
    new_png_data ←
        map_err (internal to_string)
          (library.write_image buf editing_frame.width editing_frame.height color_type)
    new_png ← map_err (expected to_string) (library.new new_png_data)
    old_png ← map_err (expected to_string) (library.replace_image_data img_editor.png new_png)
    raw_data ← reset_exif_orientation old_png
    binary_data ← map_err (expected to_string) (from_data map_memory raw_data)
    ok (new_output binary_data)
