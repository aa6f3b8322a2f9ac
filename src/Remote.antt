-- ===== src/Remote.antt =====
-- `RemoteProcess::request_frame` of `glycin/src/dbus.rs`: what the client makes of a frame that a loader
-- has sent, in the order of the source, with `glycin/src/orientation.rs`. The calls over D-Bus and
-- the sealing of files come before and after.
pub mod Laws
pub mod Colors
pub mod Accepted
pub mod Request
use package.glycin.Base.{ℕ, Bool, if◌then◌else◌, List, Option, none, some, Outcome, ok, err, ◌>>=◌}
use package.glycin.Math.{Checked}
use package.glycin.Errors.{map_err}
use package.glycin.Format.Types.{MemoryFormat}
use package.glycin.Format.Extended.{basic}
use package.glycin.Format.Transform.{Floats}
use package.glycin.Selection.{Selection, best_format_for}
use package.glycin.Operations.{Rotation}
use package.glycin.Frame.{Frame, FrameDetails}
use package.glycin.Editing.{EditingFrame}
use package.glycin.Editing.Orientation.{change_orientation}
use package.glycin.Editing.ChangeMemoryFormat.{change_memory_format}
use package.glycin.Texture.{validate_frame, remove_stride_if_needed}
use package.glycin.Icc.{Lcms, transform}

-- The errors of the two modules whose functions are called.
pub data Error : Type 0 where
  client : glycin.Texture.Error → Error
  editing : glycin.Editing.Error → Error

abbrev pub Cicp : Type 0
Cicp = ℕ × ℕ × ℕ × ℕ

pub data ColorState : Type 0 where
  srgb : ColorState
  cicp : Cicp → ColorState

-- Of the loader and the image, what the function reads: `transformation` is the mirroring and the rotation of
-- `image.transformation_orientation()`.
pub record Image : Type 0 where
  pub apply_transformations : Bool
  pub transformation_ignore_exif : Bool
  pub transformation : Bool × Rotation
  pub memory_format_selection : Selection

-- Other crates: the conversion to `i64`, `Cicp::from_bytes`, reading a profile that is shared, floats, checked
-- arithmetic and lcms2, with the number of threads.
pub record Others : Type 1 where
  pub to_i64 : ℕ → Option ℕ
  pub from_bytes : Cicp → Option Cicp
  pub get : List ℕ → Option (List ℕ)
  pub floats : Floats
  pub checked : Checked
  pub lcms : Lcms
  pub available_parallelism : ℕ

-- A frame as `FrameDimensions`.
abbrev pub dimensions : Frame FrameDetails → EditingFrame
dimensions frame = record {
  width = frame.width;
  height = frame.height;
  stride = frame.stride;
  memory_format = basic frame.memory_format;
}

abbrev pub with_dimensions : Frame FrameDetails → EditingFrame → Frame FrameDetails
with_dimensions frame new = record frame {
  width = new.width;
  height = new.height;
  stride = new.stride;
}

abbrev pub Shown : Type 0
Shown = Frame FrameDetails × List ℕ

-- `orientation::apply_exif_orientation`, if the loader applies transformations.
unfoldable pub apply_exif_orientation : Image → Frame FrameDetails → List ℕ → Outcome Error Shown
unfolding change_orientation
apply_exif_orientation image frame img_buf =
    if image.transformation_ignore_exif
    then ok (frame, img_buf)
    else map_err editing (
        change_orientation image.transformation.0 image.transformation.1 (dimensions frame) img_buf)
      >>= (λ out. ok (with_dimensions frame out.0, out.1))

unfoldable pub oriented : Image → Frame FrameDetails → List ℕ → Outcome Error Shown
unfolding apply_exif_orientation
oriented image frame img_buf =
    if image.apply_transformations
    then apply_exif_orientation image frame img_buf
    else ok (frame, img_buf)

module _ (others : Others) where
  abbrev pub known_cicp : Option Cicp → Option Cicp
  known_cicp none = none
  known_cicp (some bytes) = others.from_bytes bytes

  abbrev pub profile_of : Option (List ℕ) → Option (List ℕ)
  profile_of none = none
  profile_of (some shared) = others.get shared

  -- The stride is removed, and the profile applied, which always comes to sRGB.
  unfoldable pub with_profile :
      Frame FrameDetails → List ℕ → Option (List ℕ) → Outcome Error (Shown × ColorState)
  unfolding remove_stride_if_needed transform
  with_profile frame img_buf none = ok ((frame, img_buf), srgb)
  with_profile frame img_buf (some icc_profile) =
      map_err client (remove_stride_if_needed others.to_i64 img_buf frame) >>= (λ packed.
        transform others.lcms others.available_parallelism icc_profile packed.0.memory_format
          packed.1
        >>= (λ icc_mmap. ok ((packed.0, icc_mmap), srgb)))

  -- The cicp comes before the profile.
  unfoldable pub with_color :
      Frame FrameDetails → List ℕ → Option Cicp → Outcome Error (Shown × ColorState)
  unfolding with_profile
  with_color frame img_buf (some c) = ok ((frame, img_buf), cicp c)
  with_color frame img_buf none =
      with_profile frame img_buf (profile_of frame.details.color_icc_profile)

  unfoldable pub with_format :
      Frame FrameDetails → List ℕ → Option MemoryFormat → Outcome Error Shown
  unfolding change_memory_format
  with_format frame img_buf none = ok (frame, img_buf)
  with_format frame img_buf (some target_format) =
      map_err editing
        (change_memory_format others.floats others.checked img_buf frame target_format)

  unfoldable pub request_frame :
      Image → Frame FrameDetails → List ℕ → Outcome Error (Shown × ColorState)
  unfolding validate_frame oriented with_color with_format best_format_for
  request_frame image frame img_buf = do
    _ ← map_err client (validate_frame frame img_buf)
    (frame', img_buf') ← oriented image frame img_buf
    ((frame2, img_buf2), color_state) ←
        with_color frame' img_buf' (known_cicp frame'.details.color_cicp)
    (frame3, img_buf3) ←
        with_format frame2 img_buf2
          (best_format_for image.memory_format_selection frame2.memory_format)
    ok ((frame3, img_buf3), color_state)
