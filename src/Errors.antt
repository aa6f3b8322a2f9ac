-- ===== src/Errors.antt =====
-- `glycin-utils/src/error.rs`: the errors of a loader or editor, and what is sent of them. Locations in the
-- source are left out; the text of an error, which has one, is a parameter.
pub mod Client
pub mod Laws
use Prim.Native.String.{String}
use package.glycin.Base.{Bool, true, false, Option, none, some, Outcome, ok, err}

pub data ProcessError : Type 0 where
  expected_error internal_error unsupported_image_format : String → ProcessError
  conversion_too_larger_error out_of_memory no_more_frames : ProcessError

pub data RemoteError : Type 0 where
  zbus loading_error internal_loader_error editing_error internal_editor_error :
      String → RemoteError
  unsupported_image_format out_of_memory : String → RemoteError
  conversion_too_larger_error aborted no_more_frames : RemoteError

-- An error of any type, as `expected_error` tells them apart: an error of this process, an
-- error of glycin-common, of which it asks whether it is `OutOfMemory`, or another, each with its text.
pub data Cause : Type 0 where
  process : ProcessError → Cause
  common : (is_out_of_memory : Bool) → String → Cause
  other : String → Cause

module _ (to_string : ProcessError → String) where
  unfoldable pub into_loader_error : ProcessError → RemoteError
  into_loader_error (ProcessError.expected_error text) =
      RemoteError.loading_error (to_string (ProcessError.expected_error text))
  into_loader_error (ProcessError.internal_error text) =
      RemoteError.internal_loader_error (to_string (ProcessError.internal_error text))
  into_loader_error (ProcessError.unsupported_image_format msg) =
      RemoteError.unsupported_image_format msg
  into_loader_error ProcessError.conversion_too_larger_error =
      RemoteError.conversion_too_larger_error
  into_loader_error ProcessError.out_of_memory =
      RemoteError.out_of_memory (to_string ProcessError.out_of_memory)
  into_loader_error ProcessError.no_more_frames = RemoteError.no_more_frames

  unfoldable pub into_editor_error : ProcessError → RemoteError
  into_editor_error (ProcessError.expected_error text) =
      RemoteError.editing_error (to_string (ProcessError.expected_error text))
  into_editor_error (ProcessError.internal_error text) =
      RemoteError.internal_editor_error (to_string (ProcessError.internal_error text))
  into_editor_error (ProcessError.unsupported_image_format msg) =
      RemoteError.unsupported_image_format msg
  into_editor_error ProcessError.conversion_too_larger_error =
      RemoteError.conversion_too_larger_error
  into_editor_error ProcessError.out_of_memory =
      RemoteError.out_of_memory (to_string ProcessError.out_of_memory)
  into_editor_error ProcessError.no_more_frames = RemoteError.no_more_frames

  -- What `expected_error` makes of an error.
  unfoldable pub expected : Cause → ProcessError
  expected (Cause.process ProcessError.out_of_memory) = ProcessError.out_of_memory
  expected (Cause.process e) = ProcessError.expected_error (to_string e)
  expected (Cause.common true text) = ProcessError.out_of_memory
  expected (Cause.common false text) = ProcessError.expected_error text
  expected (Cause.other text) = ProcessError.expected_error text

  -- What `internal_error` makes of an error.
  unfoldable pub internal : Cause → ProcessError
  internal (Cause.process e) = ProcessError.internal_error (to_string e)
  internal (Cause.common b text) = ProcessError.internal_error text
  internal (Cause.other text) = ProcessError.internal_error text

-- `internal_error` of an option.
abbrev pub or_internal {ℓ} : {A : Type ℓ} → Option A → Outcome ProcessError A
or_internal none = err (ProcessError.internal_error "None")
or_internal (some a) = ok a

-- A result with the errors changed.
abbrev pub map_err {ℓ} : {A : Type ℓ} {E F : Type 0} → (E → F) → Outcome E A → Outcome F A
map_err f (ok a) = ok a
map_err f (err e) = err (f e)
map_err f Outcome.panic = Outcome.panic
