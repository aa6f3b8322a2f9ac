-- ===== src/ImageEditor/Create.antt =====
-- The rest of `glycin-loaders/glycin-image-rs/src/editor.rs`: the choice of an editor, and the creation of
-- an image.
use Prim.Native.String.{String}
use glycin.Base.{ℕ, List, [], ◌∷◌, Option, none, some, Outcome, ok, err, ◌>>=◌}
use glycin.Base.Dict.{text, same_text, lookup}
use glycin.Errors.{ProcessError, Cause, expected, internal, map_err, or_internal}
use glycin.Math.{Checked}
use glycin.SharedMemory.{from_data}
use glycin.Format.Transform.{Floats}
use glycin.Selection.{best_format_for}
use glycin.Operations.{Orientations, Operations}
use glycin.Frame.{Frame, FrameDetails, ImageDetails}
use glycin.Editing.ChangeMemoryFormat.{change_memory_format}
use glycin.Creator.{EncodingOptions}
use glycin.ImageRs.{ExtendedColorType}
use glycin.Dbus.Editor.{SparseEditorOutput, CompleteEditorOutput, of_complete, EditorImplementation}
use glycin.ImageEditor.Jpeg.{JpegLibrary}
use glycin.ImageEditor.Png.{PngLibrary, EditorPng}
use glycin.ImageEditor.Formats.{
  ImageFormat, image_format, accepted, selected, image_memory_format, CompressionType,
  compression_type, quality,
}

-- The encoders of `image`, each for a profile, the bytes, a width, a height and a colour type; reading shared
-- memory; and gufo, which adds texts to a PNG file. A file that is not read, or that a text
-- cannot be added to, comes back as it is.
pub record Encoders : Type 1 where
  pub png :
      CompressionType
      → Option (List ℕ)
      → List ℕ
      → ℕ
      → ℕ
      → ExtendedColorType
      → Outcome Cause (List ℕ)
  pub jpeg : ℕ → Option (List ℕ) → List ℕ → ℕ → ℕ → ExtendedColorType → Outcome Cause (List ℕ)
  pub write_buffer_with_format :
      ImageFormat → List ℕ → ℕ → ℕ → ExtendedColorType → Outcome Cause (List ℕ)
  pub get_full : List ℕ → Outcome Cause (List ℕ)
  pub Png : Type 0
  pub new_png : List ℕ → Option Png
  pub insert_text : Png → String → String → Option Png
  pub into_inner : Png → List ℕ

-- `NewImage`, each frame with its texture, and the options of encoding.
pub record NewImage (Orientation : Type 0) : Type 0 where
  pub image_info : ImageDetails Orientation
  pub frames : List (Frame FrameDetails × List ℕ)

module _ (encoders : Encoders) where
  -- The loop of `add_metadata_internal`, which ends at the first error.
  unfoldable pub insert_texts : encoders.Png → List (String × String) → encoders.Png
  insert_texts out [] = out
  insert_texts out ((key, value) ∷ key_values) = elim (encoders.insert_text out key value) [
    | none ↦ out
    | some next ↦ insert_texts next key_values
  ]

  unfoldable pub add_key_values : encoders.Png → Option (List (String × String)) → List ℕ
  unfolding insert_texts
  add_key_values out none = encoders.into_inner out
  add_key_values out (some key_values) = encoders.into_inner (insert_texts out key_values)

  -- `add_metadata`.
  unfoldable pub add_metadata : List ℕ → Option (List (String × String)) → List ℕ
  unfolding add_key_values
  add_metadata buf metadata_key_value = elim (encoders.new_png buf) [
    | none ↦ buf
    | some out ↦ add_key_values out metadata_key_value
  ]

  -- A profile that can be read.
  unfoldable pub read_profile : Option (List ℕ) → Outcome ProcessError (Option (List ℕ))
  read_profile none = ok none
  read_profile (some x) = elim (encoders.get_full x) [
    | ok profile ↦ ok (some profile)
    | err e ↦ ok none
    | Outcome.panic ↦ Outcome.panic
  ]

  module _ (to_string : ProcessError → String) where
    -- The match on the format.
    unfoldable pub encode :
        ImageFormat
        → EncodingOptions
        → Option (List (String × String))
        → Option (List ℕ)
        → List ℕ
        → ℕ
        → ℕ
        → ExtendedColorType
        → Outcome ProcessError (List ℕ)
    unfolding compression_type internal add_metadata quality expected
    encode ImageFormat.png options key_value icc_profile img_buf width height color_type =
        map_err (internal to_string) (
          encoders.png (compression_type options.compression) icc_profile img_buf width height
            color_type)
        >>= (λ out_buf. ok (add_metadata out_buf key_value))
    encode ImageFormat.jpeg options key_value icc_profile img_buf width height color_type =
        map_err (internal to_string)
          (encoders.jpeg (quality options.quality) icc_profile img_buf width height color_type)
    encode format options key_value icc_profile img_buf width height color_type =
        map_err (expected to_string)
          (encoders.write_buffer_with_format format img_buf width height color_type)

    module _ (floats : Floats) (checked : Checked) (editing_text : glycin.Editing.Error → String)
        (map : ℕ → Outcome Cause (Unit {0})) where
      -- `create`, for the first frame, which is taken out of a list: without frames this is a panic.
      unfoldable pub create_first :
          {Orientation : Type 0}
          → String
          → NewImage Orientation
          → EncodingOptions
          → List (Frame FrameDetails × List ℕ)
          → Outcome ProcessError (List ℕ)
      unfolding image_format best_format_for accepted selected expected change_memory_format
          image_memory_format read_profile encode from_data
      create_first mime_type new_image options [] = Outcome.panic
      create_first mime_type new_image options ((frame, texture) ∷ frames) = do
        format ← image_format mime_type
        memory_format ← or_internal (best_format_for (selected accepted) frame.memory_format)
        v ← map_err (expected to_string) (encoders.get_full texture)
        (frame', img_buf) ←
            map_err (λ e. expected to_string (Cause.other (editing_text e)))
              (change_memory_format floats checked v frame memory_format)
        color_type ← image_memory_format memory_format
        icc_profile ← read_profile frame'.details.color_icc_profile
        image_buf ←
            encode format options new_image.image_info.metadata_key_value icc_profile img_buf
              frame'.width frame'.height color_type
        map_err (expected to_string) (from_data map image_buf)

      unfoldable pub create :
          {Orientation : Type 0}
          → String
          → NewImage Orientation × EncodingOptions
          → Outcome ProcessError (List ℕ)
      unfolding create_first
      create mime_type (new_image, options) =
          create_first mime_type new_image options new_image.frames

-- `ImgEditor`.
pub data ImgEditor (Png Orientation : Type 0) : Type 0 where
  png_editor : EditorPng Png Orientation → ImgEditor Png Orientation
  jpeg_editor : List ℕ → ImgEditor Png Orientation

module _ (api : Orientations) (checked : Checked) (jpegs : JpegLibrary api.Orientation)
    (pngs : PngLibrary api.Orientation) (to_string : ProcessError → String)
    (editing_text : glycin.Editing.Error → String) (map : ℕ → Outcome Cause (Unit {0})) where
  abbrev pub Editor : Type 0
  Editor = ImgEditor pngs.Png api.Orientation

  -- The match of `edit`.
  unfoldable pub load_format :
      Outcome Cause (List ℕ) → String → Option ImageFormat → Outcome ProcessError Editor
  unfolding glycin.ImageEditor.Png.load glycin.ImageEditor.Jpeg.load
  load_format stream mime_type (some ImageFormat.png) =
      glycin.ImageEditor.Png.load api checked pngs to_string editing_text map stream
      >>= (λ editor. ok (png_editor editor))
  load_format stream mime_type (some ImageFormat.jpeg) =
      glycin.ImageEditor.Jpeg.load api checked jpegs to_string editing_text map stream
      >>= (λ editor. ok (jpeg_editor editor))
  load_format stream mime_type _ = err (ProcessError.unsupported_image_format mime_type)

  unfoldable pub edit : Outcome Cause (List ℕ) → String → Outcome ProcessError Editor
  unfolding load_format
  edit stream mime_type = load_format stream mime_type (
      lookup same_text (text mime_type)
        ((text "image/png", ImageFormat.png) ∷ (text "image/jpeg", ImageFormat.jpeg) ∷ []))

  unfoldable pub apply_complete : Editor → Operations → Outcome ProcessError CompleteEditorOutput
  unfolding glycin.ImageEditor.Png.apply_complete glycin.ImageEditor.Jpeg.apply_complete
  apply_complete (png_editor editor) operations =
      glycin.ImageEditor.Png.apply_complete api checked pngs to_string editing_text map editor
        operations
  apply_complete (jpeg_editor editor) operations =
      glycin.ImageEditor.Jpeg.apply_complete api checked jpegs to_string editing_text map editor
        operations

  unfoldable pub apply_sparse : Editor → Operations → Outcome ProcessError SparseEditorOutput
  unfolding apply_complete glycin.ImageEditor.Jpeg.apply_sparse of_complete
  apply_sparse (jpeg_editor editor) operations =
      glycin.ImageEditor.Jpeg.apply_sparse api checked jpegs to_string editing_text map editor
        operations
  apply_sparse (png_editor editor) operations =
      apply_complete (png_editor editor) operations >>= (λ complete. ok (of_complete complete))

  -- The implementation of `EditorImplementation`.
  unfoldable pub implementation :
      Encoders
      → Floats
      → EditorImplementation Editor (NewImage api.Orientation × EncodingOptions) (List ℕ)
  unfolding edit create apply_sparse apply_complete
  implementation encoders floats = record {
    edit = edit;
    create = create encoders to_string floats checked editing_text map;
    apply_sparse = some apply_sparse;
    apply_complete = apply_complete;
  }
