-- ===== src/Dbus/Editor.antt =====
-- `Editor` and `EditableImage` of `glycin-utils/src/dbus_editor_api.rs`, for any implementation of an editor.
use Prim.Native.String.{String}
use glycin.Base.{ℕ, Bool, true, false, List, Option, none, some, Outcome, ok, err, ◌>>=◌}
use glycin.Errors.{
  ProcessError, RemoteError, Cause, expected, into_loader_error, into_editor_error, map_err,
}
use glycin.SharedMemory.{from_data}
use glycin.Operations.{Operations}
use glycin.Dbus.{Served, Server, serve, select}

pub record EditorOutputInfo : Type 0 where
  pub lossless : Bool

pub record ByteChange : Type 0 where
  pub offset : ℕ
  pub new_value : ℕ

abbrev pub ByteChanges : Type 0
ByteChanges = List ByteChange

pub record CompleteEditorOutput : Type 0 where
  pub complete_data : List ℕ
  pub complete_info : EditorOutputInfo

pub record SparseEditorOutput : Type 0 where
  pub byte_changes : Option ByteChanges
  pub sparse_data : Option (List ℕ)
  pub sparse_info : EditorOutputInfo

-- `SparseEditorOutput::byte_changes`.
unfoldable pub of_byte_changes : ByteChanges → SparseEditorOutput
of_byte_changes byte_changes = record {
  byte_changes = some byte_changes;
  sparse_data = none;
  sparse_info = record { lossless = true };
}

-- `SparseEditorOutput::from`.
unfoldable pub of_complete : CompleteEditorOutput → SparseEditorOutput
of_complete value = record {
  byte_changes = none;
  sparse_data = some value.complete_data;
  sparse_info = value.complete_info;
}

-- `CompleteEditorOutput::new`, with the default of the information.
unfoldable pub new_output : List ℕ → CompleteEditorOutput
new_output bytes = record { complete_data = bytes; complete_info = record { lossless = false } }

module _ (to_string : ProcessError → String) (map : ℕ → Outcome Cause (Unit {0})) where
  unfoldable pub new_lossless : List ℕ → Outcome ProcessError CompleteEditorOutput
  unfolding expected from_data
  new_lossless bytes = map_err (expected to_string) (from_data map bytes) >>= (λ shared.
      ok (record { complete_data = shared; complete_info = record { lossless = true } }))

-- The trait `EditorImplementation`, for the data of `NewImage` and what `create` gives.
pub record EditorImplementation (E NewImage EncodedImage : Type 0) : Type 0 where
  pub edit : Outcome Cause (List ℕ) → String → Outcome ProcessError E
  pub create : String → NewImage → Outcome ProcessError EncodedImage
  pub apply_sparse : Option (E → Operations → Outcome ProcessError SparseEditorOutput)
  pub apply_complete : E → Operations → Outcome ProcessError CompleteEditorOutput

module _ {E NewImage EncodedImage : Type 0} (editor : EditorImplementation E NewImage EncodedImage)
    (to_string : ProcessError → String) where
  -- The default of the trait is the complete result.
  unfoldable pub apply_sparse : E → Operations → Outcome ProcessError SparseEditorOutput
  unfolding of_complete
  apply_sparse state operations = elim (editor.apply_sparse) [
    | some own ↦ own state operations
    | none ↦ editor.apply_complete state operations >>= (λ complete. ok (of_complete complete))
  ]

  -- `Editor::create`.
  unfoldable pub create : String → NewImage → Outcome RemoteError EncodedImage
  unfolding into_editor_error
  create mime_type new_image =
      map_err (into_editor_error to_string) (editor.create mime_type new_image)

  abbrev pub edited :
      Server E
      → Outcome Cause (Unit {0})
      → Outcome ProcessError E
      → Server E × Outcome RemoteError ℕ
  edited server at (ok state) = serve to_string server state at
  edited server at (err e) = (server, err (into_loader_error to_string e))
  edited server at Outcome.panic = (server, Outcome.panic)

  -- `Editor::edit`.
  unfoldable pub edit :
      Outcome Cause (List ℕ)
      → String
      → Outcome Cause (Unit {0})
      → Server E
      → Server E × Outcome RemoteError ℕ
  unfolding serve into_loader_error
  edit stream mime_type at server = edited server at (editor.edit stream mime_type)

  -- `EditRequest::operations`, by what reading and decoding the message come to.
  unfoldable pub operations : Outcome Cause Operations → Outcome RemoteError Operations
  unfolding expected into_editor_error
  operations decoded = map_err (λ e. into_editor_error to_string (expected to_string e)) decoded

  -- `EditableImage::apply_sparse` and `EditableImage::apply_complete`.
  unfoldable pub remote_apply_sparse :
      Outcome Cause Operations
      → (dropped : Bool) → Served E
      → Outcome RemoteError SparseEditorOutput
  unfolding operations apply_sparse select into_loader_error
  remote_apply_sparse edit_request dropped image = operations edit_request >>= (λ ops.
      select dropped
        (map_err (into_loader_error to_string) (apply_sparse image.implementation ops)))

  unfoldable pub remote_apply_complete :
      Outcome Cause Operations
      → (dropped : Bool) → Served E
      → Outcome RemoteError CompleteEditorOutput
  unfolding operations select into_loader_error
  remote_apply_complete edit_request dropped image = operations edit_request >>= (λ ops.
      select dropped
        (map_err (into_loader_error to_string) (editor.apply_complete image.implementation ops)))
