-- ===== src/Operations/Laws.antt =====
-- The orientation of a list of operations.
use glycin.Base.{
  map, ◌≡◌, refl, Bool, true, false, not, arith, if◌then◌else◌, some, List, [], ◌∷◌, length, ◌+◌,
}
use glycin.Operations.{
  Rotation, deg0, deg90, deg180, deg270, Orientations, Operations, MaybeOperation, new_orientation,
  orientation, is_deg0,
}

-- The angle of one rotation after another, and of the opposite rotation.
abbrev pub next_quarter : Rotation → Rotation
next_quarter deg0 = deg90
next_quarter deg90 = deg180
next_quarter deg180 = deg270
next_quarter deg270 = deg0

abbrev pub plus : Rotation → Rotation → Rotation
plus deg0 s = s
plus deg90 s = next_quarter s
plus deg180 s = next_quarter (next_quarter s)
plus deg270 s = next_quarter (next_quarter (next_quarter s))

abbrev pub opposite : Rotation → Rotation
opposite deg0 = deg0
opposite deg90 = deg270
opposite deg180 = deg180
opposite deg270 = deg90

-- What an orientation is: a mirroring, and a counter-clockwise rotation after it. To mirror a rotated
-- image is to mirror first and rotate the other way.
pub record IsOrientation (api : Orientations) : Type 0 where
  pub mirror-new : (m : Bool) (r : Rotation) → api.mirror (api.new m r) ≡ m
  pub rotate-new : (m : Bool) (r : Rotation) → api.rotate (api.new m r) ≡ r
  pub mirror_upright : api.mirror api.upright ≡ false
  pub rotate_upright : api.rotate api.upright ≡ deg0
  pub mirror_horizontally :
      (o : api.Orientation)
      → (api.mirror (api.add_mirror_horizontally o) ≡ not (api.mirror o))
        × (api.rotate (api.add_mirror_horizontally o) ≡ opposite (api.rotate o))
  pub mirror_vertically :
      (o : api.Orientation)
      → (api.mirror (api.add_mirror_vertically o) ≡ not (api.mirror o))
        × (api.rotate (api.add_mirror_vertically o) ≡ plus deg180 (opposite (api.rotate o)))
  pub add_rotation :
      (o : api.Orientation) (r : Rotation)
      → (api.mirror (api.add_rotation o r) ≡ api.mirror o)
        × (api.rotate (api.add_rotation o r) ≡ plus r (api.rotate o))

plus_deg0 : (r : Rotation) → plus r deg0 ≡ r
plus_deg0 deg0 = refl
plus_deg0 r = refl

is_deg0_lem : (r : Rotation) → is_deg0 r ≡ true → r ≡ deg0
unfolding is_deg0
is_deg0_lem r e = ground arith

module _ (api : Orientations) (laws : IsOrientation api) where
  open api use {Orientation}

  -- The parts of an orientation that the operations of `new_orientation` build up.
  built : Orientation → Orientation
  built o =
      let o1 = if api.mirror o then api.add_mirror_horizontally api.upright else api.upright in
      if is_deg0 (api.rotate o) then o1 else api.add_rotation o1 (api.rotate o)

  -- For every orientation, the operations that `new_orientation` makes for it add up to an
  -- orientation with its mirroring and its rotation.
  pub orientation-new_orientation :
      (o : Orientation)
      → (o' : Orientation) × (orientation api (new_orientation api o) ≡ some o')
        × (api.mirror o' ≡ api.mirror o)
        × (api.rotate o' ≡ api.rotate o)
  unfolding orientation new_orientation built
  orientation-new_orientation o =
      let up = laws.mirror_upright in
      let up' = laws.rotate_upright in
      let flip = laws.mirror_horizontally api.upright in
      let r = api.rotate o in
      let turn = laws.add_rotation api.upright r in
      let turn' = laws.add_rotation (api.add_mirror_horizontally api.upright) r in
      let zero_turn = is_deg0_lem r in
      (built o, ground arith, ground arith, ground (arith, plus_deg0 r))

-- The elements of a list in their order, without those that are skipped.
pub data Subsequence {A : Type 0} : List A → List A → Type 0 where
  done : Subsequence [] []
  keep : {x : A} {xs ys : List A} → Subsequence xs ys → Subsequence (x ∷ xs) (x ∷ ys)
  skip : {y : A} {xs ys : List A} → Subsequence xs ys → Subsequence xs (y ∷ ys)

-- The operations and the unknown names are each those of the entries, in their order, and none is lost.
pub record KeepsAll (entries : List MaybeOperation) (operations : Operations) : Type 0 where
  pub known : Subsequence (map MaybeOperation.operation operations.operations) entries
  pub unknown : Subsequence (map MaybeOperation.unknown operations.unknown_operations) entries
  pub all : length operations.operations + length operations.unknown_operations ≡ length entries
