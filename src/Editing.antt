-- ===== src/Editing.antt =====
-- `glycin-utils/src/editing.rs`: the dimensions of an image that is edited, and the errors.
pub mod Images
pub mod Orientation
pub mod Clip
pub mod Apply
pub mod ChangeMemoryFormat
use package.glycin.Base.{ℕ, Bool}
use package.glycin.Operations.{OperationId}
use package.glycin.Format.Extended.{ExtendedMemoryFormat}

pub record EditingFrame : Type 0 where
  pub width : ℕ
  pub height : ℕ
  pub stride : ℕ
  pub memory_format : ExtendedMemoryFormat

-- `Error` of the editing module, without the messages.
pub data Error : Type 0 where
  io math read dimension_too_large zerocopy_convert : Error
  unknown_operation : OperationId → Error
