-- ===== src/Errors/Laws.antt =====
-- What is left of an error of a process at the client.
use Prim.Native.String.{String}
use glycin.Base.{◌≡◌, ◌↔◌, arith, true, some}
use glycin.Errors.{ProcessError, into_loader_error, into_editor_error}
use glycin.Errors.Client.{remote_error, unsupported_format, is_out_of_memory, is_no_more_frames}

-- An error of a loader or an editor keeps its meaning on its way to the client: the client tells that the
-- memory is out, that there are no more frames, or which format is not supported, exactly if the
-- process failed for this reason.
pub remote_error_iff :
    (to_string : ProcessError → String) (e : ProcessError) (mime_type : String)
    → ((is_out_of_memory (remote_error (into_loader_error to_string e)) ≡ true)
        ↔ (e ≡ ProcessError.out_of_memory))
      × ((is_no_more_frames (remote_error (into_loader_error to_string e)) ≡ true)
          ↔ (e ≡ ProcessError.no_more_frames))
      × ((unsupported_format (remote_error (into_loader_error to_string e)) ≡ some mime_type)
          ↔ (e ≡ ProcessError.unsupported_image_format mime_type))
      × ((is_out_of_memory (remote_error (into_editor_error to_string e)) ≡ true)
          ↔ (e ≡ ProcessError.out_of_memory))
      × ((is_no_more_frames (remote_error (into_editor_error to_string e)) ≡ true)
          ↔ (e ≡ ProcessError.no_more_frames))
      × ((unsupported_format (remote_error (into_editor_error to_string e)) ≡ some mime_type)
          ↔ (e ≡ ProcessError.unsupported_image_format mime_type))
unfolding is_out_of_memory is_no_more_frames unsupported_format into_loader_error into_editor_error
remote_error_iff to_string e mime_type = (
  (λ h. ground arith, λ h. ground arith),
  (λ h. ground arith, λ h. ground arith),
  (λ h. ground arith, λ h. ground arith),
  (λ h. ground arith, λ h. ground arith),
  (λ h. ground arith, λ h. ground arith),
  (λ h. ground arith, λ h. ground arith),
)
