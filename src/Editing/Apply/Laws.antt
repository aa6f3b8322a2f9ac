-- ===== src/Editing/Apply/Laws.antt =====
-- A list of operations without a clip acts as the one orientation that it adds up to.
use native.Mathlib.Nat.{le_refl}
use glycin.Base.{
  ◌*◌, ◌<◌, ◌≡◌, refl, subst, arith, Bool, true, false, List, [], ◌∷◌, some, length, Returns,
  u32_mod, usize_mod,
}
use glycin.Math.{Checked}
use glycin.Format.Extended.{pixel_size}
use glycin.Operations.{
  Rotation, deg0, deg90, deg180, deg270, Orientations, Operation, Operations, add_operations,
  orientation,
}
use glycin.Operations.Laws.{IsOrientation}
use glycin.Editing.{EditingFrame}
use glycin.Editing.Images.{Buffer, IsValid}
use glycin.Editing.Orientation.{change_orientation}
use glycin.Editing.Orientation.Laws.{IsOriented, change_orientation-IsOriented}
use glycin.Editing.Apply.{orient, apply_operation, apply_all, apply_operations}
use glycin.Editing.Apply.Compose.{IsOriented-trans, then_mirror, then_rotate}

-- Neither side of the image is so long that a row of that many pixels has 2^32 bytes.
pub record IsSmall (frame : EditingFrame) (buf : Buffer) : Type 0 where
  pub columns : frame.width * pixel_size frame.memory_format < u32_mod
  pub rows : frame.height * pixel_size frame.memory_format < u32_mod
  pub bytes : length buf < usize_mod

module _ (frame : EditingFrame) (buf : Buffer) (small : IsSmall frame buf) where
  oriented_rows :
      (m : Bool) (r : Rotation) (mid : EditingFrame × Buffer)
      → IsOriented m r frame buf mid
      → mid.0.height * pixel_size mid.0.memory_format < u32_mod
  oriented_rows m deg0 mid one = rw (one.height, one.same_format) small.rows
  oriented_rows m deg90 mid one = rw (one.height, one.same_format) small.columns
  oriented_rows m deg180 mid one = rw (one.height, one.same_format) small.rows
  oriented_rows m deg270 mid one = rw (one.height, one.same_format) small.columns

  again :
      (m m' : Bool) (r r' : Rotation) (mid : EditingFrame × Buffer)
      → IsOriented m r frame buf mid
      → Returns
          (change_orientation m' r' mid.0 mid.1)
          (IsOriented (then_mirror m m') (then_rotate r m' r') frame buf)
  again m m' r r' mid one =
      let (out, e, two) =
        change_orientation-IsOriented m' r' mid.0 mid.1 one.valid
          (omega (arith, one.no_longer, small.bytes)) (oriented_rows m r mid one) in
      (out, e, IsOriented-trans m m' r r' frame buf mid out one two)

  module _ (api : Orientations) (laws : IsOrientation api) (checked : Checked) where
    -- The image is oriented as the value says.
    abbrev IsOrientedBy : api.Orientation → EditingFrame × Buffer → Type 0
    IsOrientedBy o = IsOriented (api.mirror o) (api.rotate o) frame buf

    next :
        (o o' : api.Orientation) (m' : Bool) (r' : Rotation) (mid : EditingFrame × Buffer)
        → api.mirror o' ≡ then_mirror (api.mirror o) m'
        → api.rotate o' ≡ then_rotate (api.rotate o) m' r'
        → IsOrientedBy o mid
        → Returns (orient api checked (api.new m' r') mid.0 mid.1) (IsOrientedBy o')
    unfolding orient
    next o o' m' r' mid em er one =
        rw (laws.mirror-new m' r', laws.rotate-new m' r', em, er)
          (again (api.mirror o) m' (api.rotate o) r' mid one)

    apply_all-IsOriented :
        (ops : List Operation) (o last : api.Orientation) (mid : EditingFrame × Buffer)
        → add_operations api o ops ≡ some last
        → IsOrientedBy o mid
        → Returns (apply_all api checked ops mid.0 mid.1) (IsOrientedBy last)
    unfolding apply_all apply_operation add_operations
    apply_all-IsOriented [] o last mid e one =
        (mid, refl, let q : o ≡ last = cc in subst (λ k. IsOrientedBy k mid) q one)
    apply_all-IsOriented (Operation.mirror_horizontally ∷ ops) o last mid e one =
        let o' = api.add_mirror_horizontally o in
        let (em, er) = laws.mirror_horizontally o in
        let (out, step, two) = next o o' true deg0 mid em er one in
        rw step (apply_all-IsOriented ops o' last out e two)
    apply_all-IsOriented (Operation.mirror_vertically ∷ ops) o last mid e one =
        let o' = api.add_mirror_vertically o in
        let (em, er) = laws.mirror_vertically o in
        let (out, step, two) = next o o' true deg180 mid em er one in
        rw step (apply_all-IsOriented ops o' last out e two)
    apply_all-IsOriented (Operation.rotate r ∷ ops) o last mid e one =
        let o' = api.add_rotation o r in
        let (em, er) = laws.add_rotation o r in
        let (out, step, two) = next o o' false r mid em er one in
        rw step (apply_all-IsOriented ops o' last out e two)
    apply_all-IsOriented (Operation.clip x y width height ∷ ops) o last mid e one = cc

    upright_start : IsValid frame buf → IsOrientedBy api.upright (frame, buf)
    upright_start valid =
        rw (laws.mirror_upright, laws.rotate_upright)
          (record {
            width = refl;
            height = refl;
            same_format = refl;
            valid = valid;
            no_longer = le_refl (length buf);
            pixels = λ x y i hx hy hi. refl;
          })

    -- If `orientation` reduces the operations to one, applying them one by one to a valid image,
    -- whose sides times the pixel size are below 2^32 and whose buffer has fewer than 2^64 bytes,
    -- returns, without an error or a panic, the image oriented by that value.
    pub apply_operations-IsOriented :
        (ops : Operations) (o : api.Orientation)
        → IsValid frame buf
        → orientation api ops ≡ some o
        → Returns
            (apply_operations api checked ops frame buf)
            (IsOriented (api.mirror o) (api.rotate o) frame buf)
    unfolding apply_operations orientation
    apply_operations-IsOriented ops o valid e =
        apply_all-IsOriented ops.operations api.upright o (frame, buf) e (upright_start valid)
