-- ===== src/Editing/Apply.antt =====
-- `glycin-utils/src/editing/operations.rs`: a list of operations applied to an image one by one.
pub mod Compose
pub mod Laws
use package.glycin.Base.{ℕ, true, false, List, [], ◌∷◌, Outcome, ok, ◌>>=◌}
use package.glycin.Math.{Checked}
use package.glycin.Operations.{Rotation, deg0, deg180, Orientations, Operation, Operations}
use glycin.Editing.{EditingFrame, Error}
use glycin.Editing.Images.{Buffer}
use glycin.Editing.Orientation.{change_orientation}
use glycin.Editing.Clip.{clip}

module _ (api : Orientations) (checked : Checked) where
  -- `change_orientation` for a value of the type `Orientation`.
  unfoldable pub orient :
      api.Orientation → EditingFrame → Buffer → Outcome Error (EditingFrame × Buffer)
  orient o = change_orientation (api.mirror o) (api.rotate o)

  unfoldable pub apply_operation :
      Operation → EditingFrame → Buffer → Outcome Error (EditingFrame × Buffer)
  unfolding orient
  apply_operation (Operation.rotate rotation) frame buf = orient (api.new false rotation) frame buf
  apply_operation Operation.mirror_horizontally frame buf = orient (api.new true deg0) frame buf
  apply_operation Operation.mirror_vertically frame buf = orient (api.new true deg180) frame buf
  apply_operation (Operation.clip x y width height) frame buf =
      clip checked buf frame x y width height

  unfoldable pub apply_all :
      List Operation → EditingFrame → Buffer → Outcome Error (EditingFrame × Buffer)
  unfolding apply_operation
  apply_all [] frame buf = ok (frame, buf)
  apply_all (op ∷ ops) frame buf = do
    next ← apply_operation op frame buf
    apply_all ops next.0 next.1

  unfoldable pub apply_operations :
      Operations → EditingFrame → Buffer → Outcome Error (EditingFrame × Buffer)
  unfolding apply_all
  apply_operations ops frame buf = apply_all ops.operations frame buf
