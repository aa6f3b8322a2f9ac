-- ===== src/Editing/Apply/Compose.antt =====
-- One orientation after another is an orientation.
use mathlib.Core.Path.{ap₂}
use glycin.Base.{ℕ, ◌<◌, ◌≡◌, ◌∙◌, arith, Bool, not, if◌then◌else◌}
use glycin.Operations.{Rotation, deg0, deg90, deg180, deg270}
use glycin.Operations.Laws.{plus, opposite}
use glycin.Editing.{EditingFrame}
use glycin.Editing.Images.{Buffer, byte}
use glycin.Editing.Orientation.Laws.{
  IsOriented, mirrored, moved_x, moved_y, turned_width, turned_height,
}

-- The parts of an orientation after which another mirroring and rotation follow.
abbrev pub then_mirror : Bool → Bool → Bool
then_mirror m m' = if m' then not m else m

abbrev pub then_rotate : Rotation → Bool → Rotation → Rotation
then_rotate r m' r' = plus r' (if m' then opposite r else r)

module _ (frame : EditingFrame) (x y : ℕ) (hx : x < frame.width) (hy : y < frame.height) where
  open frame use {width as w, height as h}

  moves :
      (r : Rotation) (m' : Bool) (r' : Rotation)
      → let x1 = moved_x r w h x y in
        let y1 = moved_y r w h x y in
        let w1 = turned_width r frame in
        let h1 = turned_height r frame in
        let x0 = mirrored m' w x in
        (moved_x r' w1 h1 (mirrored m' w1 x1) y1 ≡ moved_x (then_rotate r m' r') w h x0 y)
        × (moved_y r' w1 h1 (mirrored m' w1 x1) y1 ≡ moved_y (then_rotate r m' r') w h x0 y)
  moves deg0 m' r' = ground arith
  moves deg90 m' r' = ground arith
  moves deg180 m' r' = ground arith
  moves deg270 m' r' = ground arith

  moved_inside :
      (r : Rotation)
      → (moved_x r w h x y < turned_width r frame) × (moved_y r w h x y < turned_height r frame)
  moved_inside r = ground arith

  mirrors_twice : (m m' : Bool) → mirrored m' w (mirrored m w x) ≡ mirrored (then_mirror m m') w x
  mirrors_twice m m' = ground arith

  mirrored_inside : (m : Bool) → mirrored m w x < w
  mirrored_inside m = ground arith

turned_sizes :
    (m' : Bool) (r r' : Rotation) (frame mid : EditingFrame)
    → mid.width ≡ turned_width r frame
    → mid.height ≡ turned_height r frame
    → (turned_width r' mid ≡ turned_width (then_rotate r m' r') frame)
      × (turned_height r' mid ≡ turned_height (then_rotate r m' r') frame)
turned_sizes m' deg0 r' frame mid ew eh = ground arith
turned_sizes m' deg90 r' frame mid ew eh = ground arith
turned_sizes m' deg180 r' frame mid ew eh = ground arith
turned_sizes m' deg270 r' frame mid ew eh = ground arith

-- An orientation of an oriented image is an orientation of the image.
pub IsOriented-trans :
    (m m' : Bool) (r r' : Rotation) (frame : EditingFrame) (buf : Buffer)
    (mid out : EditingFrame × Buffer)
    → IsOriented m r frame buf mid
    → IsOriented m' r' mid.0 mid.1 out
    → IsOriented (then_mirror m m') (then_rotate r m' r') frame buf out
IsOriented-trans m m' r r' frame buf mid out one two = record {
  width = two.width ∙ (turned_sizes m' r r' frame mid.0 one.width one.height).0;
  height = two.height ∙ (turned_sizes m' r r' frame mid.0 one.width one.height).1;
  same_format = two.same_format ∙ one.same_format;
  valid = two.valid;
  no_longer = omega (arith, two.no_longer, one.no_longer);
  pixels = λ x y i hx hy hi.
      let x1 = mirrored m frame.width x in
      let hx1 = mirrored_inside frame x y hx hy m in
      let (ax, ay) = moves frame x1 y hx1 hy r m' r' in
      let (kx, ky) = moved_inside frame x1 y hx1 hy r in
      let px = moved_x r frame.width frame.height x1 y in
      let py = moved_y r frame.width frame.height x1 y in
      let again = mirrors_twice frame x y hx hy m m' in
      let placed =
        two.pixels px py i (rw one.width kx) (rw one.height ky) (rw one.same_format hi) in
      ap₂ (λ (a b : ℕ). byte out.0 out.1 a b i) (rw (one.width, one.height, ax, again))
        (rw (one.width, one.height, ay, again))
      ∙ placed
      ∙ one.pixels x y i hx hy hi;
}
