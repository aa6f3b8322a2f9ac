-- ===== src/ImageEditor/Turned.antt =====
-- The orientation that a sparse edit writes into a JPEG file.
use Prim.Native.String.{String}
use glycin.Base.{ℕ, ◌+◌, ◌≡◌, refl, sym, ◌∙◌, arith, List, [], ◌∷◌, ◌++◌, some, Outcome, ok}
use glycin.Errors.{ProcessError, Cause}
use glycin.Math.{Checked}
use glycin.Operations.{
  Orientations, Operation, Operations, new_orientation, orientation, add_operations, prepend,
}
use glycin.Operations.Laws.{IsOrientation, orientation-new_orientation}
use glycin.Dbus.Editor.{of_byte_changes}
use glycin.Dbus.Changes.{from_slice}
use glycin.ImageEditor.Jpeg.{
  JpegLibrary, apply_sparse, sparse_changes, sparse_output, with_existing, rotate_sparse,
  segment_change, entry_change,
}

module _ (api : Orientations) (laws : IsOrientation api) where
  open api use {Orientation}

  -- Two orientations with the same mirroring and rotation.
  abbrev pub Same : Orientation → Orientation → Type 0
  Same a b = (api.mirror a ≡ api.mirror b) × (api.rotate a ≡ api.rotate b)

  add_operations-append :
      (xs ys : List Operation) (a b : Orientation)
      → add_operations api a xs ≡ some b
      → add_operations api a (xs ++ ys) ≡ add_operations api b ys
  unfolding add_operations
  add_operations-append [] ys a b e = ground arith
  add_operations-append (Operation.mirror_horizontally ∷ xs) ys a b e =
      add_operations-append xs ys (api.add_mirror_horizontally a) b e
  add_operations-append (Operation.mirror_vertically ∷ xs) ys a b e =
      add_operations-append xs ys (api.add_mirror_vertically a) b e
  add_operations-append (Operation.rotate r ∷ xs) ys a b e =
      add_operations-append xs ys (api.add_rotation a r) b e
  add_operations-append (Operation.clip x y w h ∷ xs) ys a b e = ground arith

  add_operations-Same :
      (xs : List Operation) (a b a' : Orientation)
      → Same a b
      → add_operations api a xs ≡ some a'
      → (b' : Orientation) × (add_operations api b xs ≡ some b') × Same a' b'
  unfolding add_operations
  add_operations-Same [] a b a' (m, r) e = (b, refl, (ground arith, ground arith))
  add_operations-Same (Operation.mirror_horizontally ∷ xs) a b a' (m, r) e =
      let (ma, ra) = laws.mirror_horizontally a in
      let (mb, rb) = laws.mirror_horizontally b in
      add_operations-Same xs (api.add_mirror_horizontally a) (api.add_mirror_horizontally b) a'
        (cc, cc) e
  add_operations-Same (Operation.mirror_vertically ∷ xs) a b a' (m, r) e =
      let (ma, ra) = laws.mirror_vertically a in
      let (mb, rb) = laws.mirror_vertically b in
      add_operations-Same xs (api.add_mirror_vertically a) (api.add_mirror_vertically b) a' (cc, cc)
        e
  add_operations-Same (Operation.rotate s ∷ xs) a b a' (m, r) e =
      let (ma, ra) = laws.add_rotation a s in
      let (mb, rb) = laws.add_rotation b s in
      add_operations-Same xs (api.add_rotation a s) (api.add_rotation b s) a' (cc, cc) e
  add_operations-Same (Operation.clip x y w h ∷ xs) a b a' s e = ground arith

  module _ (checked : Checked) (library : JpegLibrary api.Orientation)
      (to_string : ProcessError → String) (editing_text : glycin.Editing.Error → String)
      (map : ℕ → Outcome Cause (Unit {0})) where
    orientation-with_existing :
        (operations : Operations) (o o' : Orientation)
        → add_operations api o operations.operations ≡ some o'
        → (out : Orientation) × (orientation api
              (with_existing api checked library to_string editing_text map (some o) operations)
            ≡ some out)
          × Same o' out
    unfolding orientation with_existing prepend
    orientation-with_existing operations o o' e =
        let (built, eb, mb, rb) = orientation-new_orientation api laws o in
        let (out, eo, same) =
          add_operations-Same operations.operations o built o' (sym mb, sym rb) e in
        (
          out,
          add_operations-append (new_orientation api o).operations operations.operations api.upright
                built eb
              ∙ eo,
          same,
        )

    -- A sparse edit of a JPEG file with an orientation, whose first Exif segment has an entry for it, by operations
    -- that turn the image as it is shown, changes one byte: the value of the entry, to the code of the
    -- orientation that the operations lead to from the one of the file.
    pub apply_sparse-turns :
        (buf : List ℕ) (operations : Operations) (jpeg : library.Jpeg) (exif : library.Exif)
        (o o' : Orientation) (exif_data : List ℕ) (segments : List (List ℕ)) (data_pos : ℕ)
        (positions : List ℕ) (value_offset : ℕ)
        → library.new buf ≡ ok jpeg
        → library.metadata_orientation jpeg ≡ some o
        → library.exif_data jpeg ≡ exif_data ∷ segments
        → library.data_pos jpeg ≡ data_pos ∷ positions
        → library.decode_exif exif_data ≡ ok exif
        → library.value_offset_position exif ≡ some value_offset
        → add_operations api o operations.operations ≡ some o'
        → (out : Orientation) × (apply_sparse api checked library to_string editing_text map buf
              operations
            ≡ ok (
                of_byte_changes (
                  from_slice (
                    (data_pos + value_offset + library.identifier_length, library.as_u8 out)
                    ∷ []))))
          × Same o' out
    unfolding apply_sparse sparse_changes rotate_sparse segment_change entry_change sparse_output
    apply_sparse-turns buf operations jpeg exif o o' exif_data segments data_pos positions
          value_offset read oriented e e' decoded entry turned =
        let (out, eo, same) = orientation-with_existing operations o o' turned in
        (out, rw read (rw oriented (rw eo (rw e (rw e' (rw decoded (rw entry refl)))))), same)
