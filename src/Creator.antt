-- ===== src/Creator.antt =====
-- `glycin/src/api_creator.rs`: frames of an image that is to be encoded. A frame is kept by its
-- dimensions, format and texture, and a feature is refused if the encoder has none of it. Arithmetic
-- on `u32` is as in a release build, where it wraps.
pub mod Laws
use package.glycin.Base.{
  ℕ, zero, suc, ◌+◌, ◌-◌, ◌*◌, ◌%◌, Bool, not, ltb, ◌==◌, if◌then◌else◌, List, [], ◌∷◌, ◌++◌,
  length, Option, some, none, Outcome, ok, err, ◌>>=◌, ◌>>◌, ensure, ok_or, checked_mul, u32_mod,
  slice, store, resize, for_in,
}
use package.glycin.Format.Types.{MemoryFormat, to_number}
use package.glycin.Format.Tables.{n_bytes}
use package.glycin.Base.Dict.{Text, same_text, insert}
use package.glycin.Errors.{Cause, map_err}
use package.glycin.SharedMemory.{from_data}
use package.glycin.Sandbox.{SandboxSelector}
use package.glycin.Config.{MimeType, ImageEditorConfig, Config, Lookup, found, refused, editor}
use package.glycin.Frame.{Frame, FrameDetails, no_details, new_frame}
use package.glycin.Texture.{
  Error, texture_wrong_size, stride_too_small, dimension_too_large, common,
}

pub record NewFrame : Type 0 where
  pub config : ImageEditorConfig
  pub width : ℕ
  pub height : ℕ
  pub memory_format : MemoryFormat
  pub texture : List ℕ
  pub details : FrameDetails
  pub icc_profile : Option (List ℕ)

-- `NewFrame::new`.
unfoldable pub new : ImageEditorConfig → ℕ → ℕ → MemoryFormat → List ℕ → NewFrame
unfolding no_details
new config width height memory_format texture = record {
  config = config;
  width = width;
  height = height;
  memory_format = memory_format;
  texture = texture;
  details = no_details;
  icc_profile = none;
}

pub record EncodingOptions : Type 0 where
  pub quality : Option ℕ
  pub compression : Option ℕ

-- Of `new_image`, whose frames are made last, the metadata that can be set.
pub record Creator : Type 0 where
  pub mime_type : MimeType
  pub config : ImageEditorConfig
  pub sandbox_selector : SandboxSelector
  pub encoding_options : EncodingOptions
  pub metadata_key_value : Option (List (Text × Text))
  pub new_frames : List NewFrame

-- `Creator::new`, with the configuration.
unfoldable pub new_creator : Config → MimeType → Lookup Creator
unfolding editor
new_creator config mime_type = elim (editor config mime_type) [
  | refused e ↦ refused e
  | found editor_config ↦ found (record {
    mime_type = mime_type;
    config = editor_config;
    sandbox_selector = SandboxSelector.auto;
    encoding_options = record { quality = none; compression = none };
    metadata_key_value = none;
    new_frames = [];
  })
]

-- The body of the loop that removes the stride.
unfoldable pub move_row : ℕ → ℕ → ℕ → List ℕ → Outcome Error (List ℕ)
unfolding slice store
move_row old_stride new_stride row texture = do
  source ← slice texture (row * old_stride) new_stride
  store texture (row * new_stride) source

unfoldable pub without_stride : ℕ → ℕ → ℕ → List ℕ → Outcome Error (List ℕ)
unfolding move_row for_in
without_stride old_stride new_stride height texture =
    for_in 0 height (move_row old_stride new_stride) texture
    >>= (λ texture'. ok (resize texture' (new_stride * height) 0))

-- `height - 1`.
abbrev pub last_row : ℕ → ℕ
last_row height = (height + (u32_mod - 1)) % u32_mod

unfoldable pub add_frame_with_stride :
    Creator → ℕ → ℕ → ℕ → MemoryFormat → List ℕ → Outcome Error (Creator × NewFrame)
unfolding without_stride new
add_frame_with_stride creator width height stride memory_format texture = do
  smallest_stride ←
      ok_or (checked_mul u32_mod (to_number (n_bytes memory_format)) width) dimension_too_large
  ensure (not (ltb stride smallest_stride)) stride_too_small
  ensure (not (ltb (length texture) (stride * last_row height + smallest_stride)))
      (texture_wrong_size (length texture))
  texture' ←
      (if smallest_stride == stride
        then ok texture
        else without_stride stride smallest_stride height texture)
  let frame = new creator.config width height memory_format texture'
  ok (record creator { new_frames = creator.new_frames ++ (frame ∷ []) }, frame)

unfoldable pub add_frame :
    Creator → ℕ → ℕ → MemoryFormat → List ℕ → Outcome Error (Creator × NewFrame)
unfolding add_frame_with_stride
add_frame creator width height memory_format texture = do
  stride ← ok_or (checked_mul u32_mod (to_number (n_bytes memory_format)) width) dimension_too_large
  add_frame_with_stride creator width height stride memory_format texture

module _ (map : ℕ → Outcome Cause (Unit {0})) where
  -- The details, with the profile in shared memory, if there is one.
  unfoldable pub frame_details : NewFrame → Option (List ℕ) → Outcome Error FrameDetails
  unfolding from_data
  frame_details new_frame none = ok new_frame.details
  frame_details new_frame (some icc_profile) =
      map_err (λ e. common) (from_data map icc_profile)
      >>= (λ shared. ok (record new_frame.details { color_icc_profile = some shared }))

  -- `NewFrame::frame`, with the texture.
  unfoldable pub frame : NewFrame → Outcome Error (Frame FrameDetails × List ℕ)
  unfolding frame_details from_data new_frame no_details
  frame new = do
    texture ← map_err (λ e. common) (from_data map new.texture)
    built ← new_frame dimension_too_large no_details new.width new.height new.memory_format
    details ← frame_details new new.icc_profile
    ok (record built { details = details }, texture)

  -- The frames of `create`, in their order, or the first error.
  unfoldable pub frames : List NewFrame → Outcome Error (List (Frame FrameDetails × List ℕ))
  unfolding frame
  frames [] = ok []
  frames (new ∷ news) = do first ← frame new; rest ← frames news; ok (first ∷ rest)

-- `FeatureNotSupported` is `none`.
unfoldable pub set_encoding_quality : Creator → ℕ → Option Creator
set_encoding_quality creator quality =
    if not creator.config.creator_encoding_quality
    then none
    else some (record creator {
      encoding_options = record creator.encoding_options { quality = some quality };
    })

unfoldable pub set_encoding_compression : Creator → ℕ → Option Creator
set_encoding_compression creator compression =
    if not creator.config.creator_encoding_compression
    then none
    else some (record creator {
      encoding_options = record creator.encoding_options { compression = some compression };
    })

unfoldable pub set_metadata_key_value : Creator → List (Text × Text) → Option Creator
set_metadata_key_value creator key_value =
    if not creator.config.creator_metadata_key_value
    then none
    else some (record creator { metadata_key_value = some key_value })

-- `unwrap_or_default`.
abbrev pub or_empty : Option (List (Text × Text)) → List (Text × Text)
or_empty none = []
or_empty (some key_value) = key_value

unfoldable pub add_metadata_key_value : Creator → Text → Text → Option Creator
add_metadata_key_value creator key value =
    if not creator.config.creator_metadata_key_value
    then none
    else some (record creator {
      metadata_key_value = some (insert same_text key value (or_empty creator.metadata_key_value));
    })

unfoldable pub set_color_icc_profile : NewFrame → Option (List ℕ) → Option NewFrame
set_color_icc_profile frame icc_profile =
    if not frame.config.creator_color_icc_profile
    then none
    else some (record frame { icc_profile = icc_profile })
