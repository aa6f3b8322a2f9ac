-- ===== src/Errors/Client.antt =====
-- `glycin/src/error.rs`: the errors of the client, by the texts and options that they hold, and what the
-- client is told of an error in a process.
use Prim.Native.String.{String, ◌++◌}
use glycin.Base.{Bool, true, false, if◌then◌else◌, Option, none, some, Outcome, ok, err}
use glycin.Errors.{RemoteError}

pub data Error : Type 0 where
  remote_error : RemoteError → Error
  glib_error nix_error std_io_error dbus_error no_loaders_configured : String → Error
  internal_communication_canceled conversion_too_larger_error texture_too_large : Error
  unknown_image_format unknown_content_type premature_exit spawn_error : String → Error
  spawn_error_not_found texture_wrong_size stride_too_small width_or_height_zero : String → Error
  mem_fd seccomp icc_profile editing math_error common_error : String → Error
  canceled : Option String → Error
  transferred_stream loader_used_twice : Error

-- `Error::unsupported_format`, with the mime type.
unfoldable pub unsupported_format : Error → Option String
unsupported_format (unknown_image_format mime_type) = some mime_type
unsupported_format (remote_error (RemoteError.unsupported_image_format msg)) = some msg
unsupported_format e = none

unfoldable pub is_out_of_memory : Error → Bool
is_out_of_memory (remote_error (RemoteError.out_of_memory text)) = true
is_out_of_memory e = false

unfoldable pub is_no_more_frames : Error → Bool
is_no_more_frames (remote_error RemoteError.no_more_frames) = true
is_no_more_frames e = false

pub record ErrorCtx : Type 0 where
  pub error : Error
  pub stderr : Option String
  pub stdout : Option String

unfoldable pub from_error : Error → ErrorCtx
from_error kind = record { error = kind; stderr = none; stdout = none }

-- The outputs of a process, whose locks may be poisoned.
pub record Outputs : Type 0 where
  pub stderr_content : Option String
  pub stdout_content : Option String

module _ (to_string : Error → String) where
  -- A cancelled operation keeps the text of its error.
  unfoldable pub or_canceled : (cancelled : Bool) → Error → Error
  or_canceled cancelled e = if cancelled then canceled (some (to_string e)) else e

  -- `ResultExt::err_context`.
  unfoldable pub err_context {ℓ} :
      {A : Type ℓ} → Outputs → (cancelled : Bool) → Outcome Error A → Outcome ErrorCtx A
  unfolding or_canceled
  err_context process cancelled (ok x) = ok x
  err_context process cancelled (err e) = err (record {
    error = or_canceled cancelled e;
    stderr = process.stderr_content;
    stdout = process.stdout_content;
  })
  err_context process cancelled Outcome.panic = Outcome.panic

  -- `ResultExt::err_no_context`.
  unfoldable pub err_no_context {ℓ} :
      {A : Type ℓ} → (cancelled : Bool) → Outcome Error A → Outcome ErrorCtx A
  unfolding or_canceled from_error
  err_no_context cancelled (ok x) = ok x
  err_no_context cancelled (err e) = err (from_error (or_canceled cancelled e))
  err_no_context cancelled Outcome.panic = Outcome.panic

  -- The text of `ErrorCtx`: an output that is not empty is added.
  abbrev pub with_output : String → Option String → String
  with_output heading none = ""
  with_output heading (some String.[]) = ""
  with_output heading (some content) = heading ++ content

  unfoldable pub fmt : ErrorCtx → String
  fmt ctx =
      to_string ctx.error
      ++ (with_output "\n\nstderr:\n" ctx.stderr ++ with_output "\n\nstdout:\n" ctx.stdout)
