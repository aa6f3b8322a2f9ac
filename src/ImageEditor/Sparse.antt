-- ===== src/ImageEditor/Sparse.antt =====
-- A sparse edit of a JPEG file at the client, compared with a complete one.
use Prim.Native.String.{String}
use glycin.Base.{
  ℕ, ◌+◌, ◌<◌, ◌≡◌, refl, arith, true, lt→ltb, List, [], ◌∷◌, length, Option, some, none, Outcome,
  ok, err, ◌>>=◌, i64_mod,
}
use glycin.Errors.{ProcessError, Cause, expected, map_err}
use glycin.Math.{Checked}
use glycin.SharedMemory.{new, from_data}
use glycin.Operations.{Orientations, Operations, orientation}
use glycin.Dbus.Editor.{
  ByteChange, ByteChanges, CompleteEditorOutput, SparseEditorOutput, of_complete, of_byte_changes,
  new_lossless,
}
use glycin.Dbus.Changes.{from_slice, AllInside, apply_iff}
use glycin.EditorApi.{
  SparseEdit, sparse, complete, changed, unchanged, try_from, try_from_output, edit_data,
  is_lossless, apply_to,
}
use glycin.ImageEditor.Jpeg.{
  JpegLibrary, apply_sparse, apply_complete, sparse_changes, sparse_output, complete_output,
  with_existing, rotate_sparse, segment_change, entry_change, apply_non_sparse,
}
use glycin.EditorApi.Laws.{write_changes-apply}

-- What the client has of a sparse result, for a complete one of the same file: the same bytes, either those
-- that it gets, or those that the file has after its changes are written to it.
module _ (too_large : glycin.Errors.Client.Error)
    (may_write : ByteChange → Outcome glycin.Errors.Client.Error (Unit {0})) where
  abbrev pub IsEditOf : SparseEdit → List ℕ → CompleteEditorOutput → Type 0
  IsEditOf (sparse changes) buf c =
      (apply_to too_large may_write (sparse changes) buf ≡ ok (changed, edit_data c))
      × (is_lossless c ≡ true)
  IsEditOf (complete bytes) buf c =
      (apply_to too_large may_write (complete bytes) buf ≡ ok (unchanged, buf))
      × (bytes ≡ edit_data c)

  abbrev pub Agree :
      List ℕ
      → Outcome ProcessError SparseEditorOutput
      → Outcome ProcessError CompleteEditorOutput
      → Type 0
  Agree buf (ok s) r =
      (c : CompleteEditorOutput) × (r ≡ ok c)
      × (edit : SparseEdit) × (try_from s ≡ ok edit)
      × IsEditOf edit buf c
  Agree buf (err e) r = r ≡ err e
  Agree buf Outcome.panic r = r ≡ Outcome.panic

  Agree-of_complete :
      (buf : List ℕ) (r : Outcome ProcessError CompleteEditorOutput)
      → Agree buf (r >>= (λ c. ok (of_complete c))) r
  unfolding of_complete try_from try_from_output apply_to edit_data
  Agree-of_complete buf (ok c) = (c, refl, complete c.complete_data, refl, (refl, refl))
  Agree-of_complete buf (err e) = refl
  Agree-of_complete buf Outcome.panic = refl

-- What is known of the libraries: a file that is read is kept as it is, and the value of the entry that is
-- found lies in it.
pub record IsLibrary {Orientation : Type 0} (library : JpegLibrary Orientation) : Type 0 where
  pub into_inner-new :
      (buf : List ℕ) (jpeg : library.Jpeg)
      → library.new buf ≡ ok jpeg
      → library.into_inner jpeg ≡ buf
  pub entry_inside :
      (buf : List ℕ) (jpeg : library.Jpeg) (exif : library.Exif) (exif_data : List ℕ)
      (segments : List (List ℕ)) (data_pos : ℕ) (positions : List ℕ) (value_offset : ℕ)
      → library.new buf ≡ ok jpeg
      → library.exif_data jpeg ≡ exif_data ∷ segments
      → library.data_pos jpeg ≡ data_pos ∷ positions
      → library.decode_exif exif_data ≡ ok exif
      → library.value_offset_position exif ≡ some value_offset
      → data_pos + value_offset + library.identifier_length < length buf

module _ (api : Orientations) (checked : Checked) (library : JpegLibrary api.Orientation)
    (laws : IsLibrary library) (to_string : ProcessError → String)
    (editing_text : glycin.Editing.Error → String) (map : ℕ → Outcome Cause (Unit {0}))
    (given : (n : ℕ) → n < i64_mod → map n ≡ ok tt) (too_large : glycin.Errors.Client.Error)
    (may_write : ByteChange → Outcome glycin.Errors.Client.Error (Unit {0}))
    (may : (change : ByteChange) → may_write change ≡ ok tt) (buf : List ℕ)
    (size : length buf < i64_mod) where
  abbrev Inside : Option ByteChanges → Type 0
  Inside none = Unit
  Inside (some changes) = AllInside changes buf

  abbrev Changes : Outcome ProcessError (Option ByteChanges) → Type 0
  Changes (ok changes) = Inside changes
  Changes (err e) = Unit
  Changes Outcome.panic = Unit

  entry_change-Inside :
      (o : api.Orientation) (data_pos : ℕ) (value : Option ℕ)
      → ((n : ℕ) → value ≡ some n → data_pos + n + library.identifier_length < length buf)
      → Inside (entry_change api checked library to_string editing_text map o data_pos value)
  unfolding entry_change from_slice
  entry_change-Inside o data_pos none h = tt
  entry_change-Inside o data_pos (some n) h = (h n refl, tt)

  new_lossless-given :
      (bytes : List ℕ)
      → length bytes < i64_mod
      → new_lossless to_string map bytes
        ≡ ok (record { complete_data = bytes; complete_info = record { lossless = true } })
  unfolding new_lossless from_data new
  new_lossless-given bytes h =
      rw (lt→ltb (length bytes) i64_mod h) (rw (given (length bytes) h) refl)

  output-Agree :
      (jpeg : library.Jpeg) (operations : Operations) (changes : Option ByteChanges)
      → library.into_inner jpeg ≡ buf
      → Inside changes
      → Agree too_large may_write buf
          (sparse_output api checked library to_string editing_text map jpeg operations changes)
          (complete_output api checked library to_string editing_text map jpeg operations changes)
  unfolding sparse_output complete_output of_byte_changes try_from try_from_output apply_to
      edit_data is_lossless
  output-Agree jpeg operations none whole h =
      Agree-of_complete too_large may_write buf
        (apply_non_sparse api checked library to_string editing_text map jpeg operations)
  output-Agree jpeg operations (some changes) whole h =
      let (out, e, p) = (apply_iff {E = ProcessError} changes buf).0.1 h in
      let small : length out < i64_mod = omega (arith, p.same_length) in
      (
        record { complete_data = out; complete_info = record { lossless = true } },
        rw whole (rw e (new_lossless-given out small)),
        sparse changes,
        refl,
        (rw (write_changes-apply too_large may_write may changes buf out size h e) refl, refl),
      )

  decoded-Inside :
      (jpeg : library.Jpeg)
      → library.new buf ≡ ok jpeg
      → (o : api.Orientation) (exif_data : List ℕ) (segments : List (List ℕ)) (data_pos : ℕ)
        (positions : List ℕ)
      → library.exif_data jpeg ≡ exif_data ∷ segments
      → library.data_pos jpeg ≡ data_pos ∷ positions
      → (r : Outcome Cause library.Exif) → library.decode_exif exif_data ≡ r
      → Changes (
          map_err (expected to_string) r >>= (λ exif. ok (
            entry_change api checked library to_string editing_text map o data_pos
              (library.value_offset_position exif))))
  decoded-Inside jpeg read o exif_data segments data_pos positions e e' (ok exif) d =
      entry_change-Inside o data_pos (library.value_offset_position exif) (λ n v.
        laws.entry_inside buf jpeg exif exif_data segments data_pos positions n read e e' d v)
  decoded-Inside jpeg read o exif_data segments data_pos positions e e' (err f) d = tt
  decoded-Inside jpeg read o exif_data segments data_pos positions e e' Outcome.panic d = tt

  segment_change-Inside :
      (jpeg : library.Jpeg)
      → library.new buf ≡ ok jpeg
      → (o : api.Orientation) (segments : List (List ℕ)) (positions : List ℕ)
      → library.exif_data jpeg ≡ segments
      → library.data_pos jpeg ≡ positions
      → Changes (segment_change api checked library to_string editing_text map o segments positions)
  unfolding segment_change
  segment_change-Inside jpeg read o [] positions e e' = tt
  segment_change-Inside jpeg read o (exif_data ∷ segments) [] e e' = tt
  segment_change-Inside jpeg read o (exif_data ∷ segments) (data_pos ∷ positions) e e' =
      decoded-Inside jpeg read o exif_data segments data_pos positions e e'
        (library.decode_exif exif_data) refl

  sparse_changes-Inside :
      (jpeg : library.Jpeg)
      → library.new buf ≡ ok jpeg
      → (o : Option api.Orientation)
      → Changes (sparse_changes api checked library to_string editing_text map jpeg o)
  unfolding sparse_changes rotate_sparse
  sparse_changes-Inside jpeg read none = tt
  sparse_changes-Inside jpeg read (some o) =
      segment_change-Inside jpeg read o (library.exif_data jpeg) (library.data_pos jpeg) refl refl

  changed-Agree :
      (jpeg : library.Jpeg) (operations : Operations)
      → library.into_inner jpeg ≡ buf
      → (r : Outcome ProcessError (Option ByteChanges)) → Changes r
      → Agree too_large may_write buf
          (r >>= (λ changes.
            sparse_output api checked library to_string editing_text map jpeg operations changes))
          (r >>= (λ changes.
            complete_output api checked library to_string editing_text map jpeg operations changes))
  changed-Agree jpeg operations whole (ok changes) h = output-Agree jpeg operations changes whole h
  changed-Agree jpeg operations whole (err e) h = refl
  changed-Agree jpeg operations whole Outcome.panic h = refl

  -- If there is memory for the data, and the file can be written, then a sparse and a complete edit of a JPEG
  -- file of fewer than 2^63 bytes agree: both fail alike, or both return, and the client comes to the
  -- bytes of the complete edit, be it as data or by writing the changes to the file, without loss.
  pub apply_sparse-apply_complete :
      (operations : Operations)
      → Agree too_large may_write buf
          (apply_sparse api checked library to_string editing_text map buf operations)
          (apply_complete api checked library to_string editing_text map buf operations)
  unfolding apply_sparse apply_complete
  apply_sparse-apply_complete operations = by_jpeg (library.new buf) refl
    where
      by_jpeg :
          (r : Outcome Cause library.Jpeg)
          → library.new buf ≡ r
          → Agree too_large may_write buf
              (apply_sparse api checked library to_string editing_text map buf operations)
              (apply_complete api checked library to_string editing_text map buf operations)
      by_jpeg (ok jpeg) e = rw e (
          changed-Agree jpeg
            (with_existing api checked library to_string editing_text map
              (library.metadata_orientation jpeg) operations)
            (laws.into_inner-new buf jpeg e)
            (sparse_changes api checked library to_string editing_text map jpeg (
              orientation api (
                with_existing api checked library to_string editing_text map
                  (library.metadata_orientation jpeg) operations)))
            (sparse_changes-Inside jpeg e _))
      by_jpeg (err f) e = rw e refl
      by_jpeg Outcome.panic e = rw e refl
