-- ===== src/EditorApi.antt =====
-- `glycin/src/api_editor.rs`: what the client makes of a result that may be sparse. A file is its bytes;
-- calls of processes are left out, and errors of writing are a parameter.
pub mod Laws
use package.glycin.Base.{
  ℕ, ◌-◌, Bool, ltb, if◌then◌else◌, List, [], ◌∷◌, ◌++◌, length, replicate, set, Option, some, none,
  Outcome, ok, err, ◌>>=◌, i64_mod,
}
use package.glycin.Errors.{RemoteError}
use package.glycin.Errors.Client.{Error, remote_error}
use package.glycin.SafeMath.{try_convert}
use package.glycin.Dbus.Editor.{ByteChange, ByteChanges, SparseEditorOutput, CompleteEditorOutput}

pub data SparseEdit : Type 0 where
  sparse : ByteChanges → SparseEdit
  complete : List ℕ → SparseEdit

pub data EditOutcome : Type 0 where
  changed unchanged : EditOutcome

-- `SparseEdit::try_from`.
unfoldable pub try_from_output : Option ByteChanges → Option (List ℕ) → Outcome Error SparseEdit
try_from_output (some byte_changes) (some bytes) = err (
    remote_error (
      RemoteError.internal_loader_error
        "Sparse editor output with 'byte_changes' and 'data' returned."))
try_from_output (some byte_changes) none = ok (sparse byte_changes)
try_from_output none (some bytes) = ok (complete bytes)
try_from_output none none = err (
    remote_error (
      RemoteError.internal_loader_error
        "Sparse editor output with neither 'bit_changes' nor 'data' returned."))

unfoldable pub try_from : SparseEditorOutput → Outcome Error SparseEdit
unfolding try_from_output
try_from value = try_from_output value.byte_changes value.sparse_data

-- `Edit::data` and `Edit::is_lossless`.
unfoldable pub edit_data : CompleteEditorOutput → List ℕ
edit_data inner = inner.complete_data

unfoldable pub is_lossless : CompleteEditorOutput → Bool
is_lossless inner = inner.complete_info.lossless

-- A byte that is written to a file, which is filled with zeros up to it.
unfoldable pub write_byte : List ℕ → ℕ → ℕ → List ℕ
write_byte file offset value =
    if ltb offset (length file)
    then set file offset value
    else file ++ replicate (offset - length file) 0 ++ (value ∷ [])

-- The changes, one after the other, where `may_write` is what writing to the file comes to.
module _ (too_large : Error) (may_write : ByteChange → Outcome Error (Unit {0})) where
  unfoldable pub write_changes : ByteChanges → List ℕ → Outcome Error (List ℕ)
  unfolding try_convert write_byte
  write_changes [] file = ok file
  write_changes (change ∷ changes) file = do
    offset ← try_convert too_large i64_mod change.offset
    _ ← may_write change
    write_changes changes (write_byte file offset change.new_value)

  -- `SparseEdit::apply_to`, with the file after it.
  unfoldable pub apply_to : SparseEdit → List ℕ → Outcome Error (EditOutcome × List ℕ)
  unfolding write_changes
  apply_to (sparse bit_changes) file =
      write_changes bit_changes file >>= (λ file'. ok (changed, file'))
  apply_to (complete bytes) file = ok (unchanged, file)
