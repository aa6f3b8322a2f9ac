-- ===== src/Operations.antt =====
-- `glycin-common/src/operations.rs`: editing operations, and the orientation that they add up to.
-- The message format of `serde` is not modelled; its result, a list of known and unknown
-- operations, is what `from_intermediate` starts with.
pub mod Laws
use Prim.Native.String.{String}
use package.glycin.Base.{
  ℕ, Bool, true, false, if◌then◌else◌, Option, none, some, List, [], ◌∷◌, ◌++◌, map,
}

-- Of `gufo_common::orientation::Rotation` the source lists the four variants, by exhaustive matches.
pub data Rotation : Type 0 where
  deg0 deg90 deg180 deg270 : Rotation

-- The other type of that module, with the functions of it that are used here.
pub record Orientations : Type 1 where
  pub Orientation : Type 0
  pub new : Bool → Rotation → Orientation
  pub mirror : Orientation → Bool
  pub rotate : Orientation → Rotation
  pub upright : Orientation
  pub add_mirror_horizontally : Orientation → Orientation
  pub add_mirror_vertically : Orientation → Orientation
  pub add_rotation : Orientation → Rotation → Orientation

pub data Operation : Type 0 where
  clip : ℕ → ℕ → ℕ → ℕ → Operation
  mirror_horizontally mirror_vertically : Operation
  rotate : Rotation → Operation

pub data OperationId : Type 0 where
  clip mirror_horizontally mirror_vertically rotate : OperationId

unfoldable pub id : Operation → OperationId
id (Operation.clip x y width height) = OperationId.clip
id Operation.mirror_horizontally = OperationId.mirror_horizontally
id Operation.mirror_vertically = OperationId.mirror_vertically
id (Operation.rotate r) = OperationId.rotate

pub record Operations : Type 0 where
  pub operations : List Operation
  pub unknown_operations : List String

unfoldable pub new : List Operation → Operations
new operations = record { operations = operations; unknown_operations = [] }

unfoldable pub is_deg0 : Rotation → Bool
is_deg0 deg0 = true
is_deg0 r = false

unfoldable pub prepend : Operations → Operations → Operations
prepend self first = record first { operations = first.operations ++ self.operations }

unfoldable pub operation_ids : Operations → List OperationId
unfolding id
operation_ids self = map id self.operations

-- `MaybeOperation`, what the decoder makes of each entry.
pub data MaybeOperation : Type 0 where
  operation : Operation → MaybeOperation
  unknown : String → MaybeOperation

unfoldable pub known_of : List MaybeOperation → List Operation
known_of [] = []
known_of (operation x ∷ xs) = x ∷ known_of xs
known_of (unknown s ∷ xs) = known_of xs

unfoldable pub unknown_of : List MaybeOperation → List String
unknown_of [] = []
unknown_of (operation x ∷ xs) = unknown_of xs
unknown_of (unknown s ∷ xs) = s ∷ unknown_of xs

unfoldable pub from_intermediate : List MaybeOperation → Operations
unfolding known_of unknown_of
from_intermediate xs = record { operations = known_of xs; unknown_operations = unknown_of xs }

module _ (api : Orientations) where
  open api use {Orientation}

  unfoldable pub new_orientation : Orientation → Operations
  unfolding is_deg0
  new_orientation o = record {
    operations =
        (if api.mirror o then Operation.mirror_horizontally ∷ [] else [])
        ++ (if is_deg0 (api.rotate o) then [] else Operation.rotate (api.rotate o) ∷ []);
    unknown_operations = [];
  }

  unfoldable pub add_operations : Orientation → List Operation → Option Orientation
  add_operations o [] = some o
  add_operations o (Operation.mirror_horizontally ∷ ops) =
      add_operations (api.add_mirror_horizontally o) ops
  add_operations o (Operation.mirror_vertically ∷ ops) =
      add_operations (api.add_mirror_vertically o) ops
  add_operations o (Operation.rotate r ∷ ops) = add_operations (api.add_rotation o r) ops
  add_operations o (Operation.clip x y width height ∷ ops) = none

  unfoldable pub orientation : Operations → Option Orientation
  unfolding add_operations
  orientation self = add_operations api.upright self.operations
