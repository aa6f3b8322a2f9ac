-- ===== src/Dbus/Loader.antt =====
-- `Loader` and `Image` of `glycin-utils/src/dbus_loader_api.rs`, for any implementation of a loader.
use Prim.Native.String.{String}
use glycin.Base.{ℕ, Bool, true, if◌then◌else◌, List, Outcome, ok, err, ◌>>=◌}
use glycin.Errors.{ProcessError, RemoteError, Cause, into_loader_error, map_err}
use glycin.Frame.{Frame, FrameDetails, FrameRequest, ImageDetails}
use glycin.Dbus.{Served, Server, serve, select}

-- The trait `LoaderImplementation`: `init` with what reading the stream comes to.
pub record LoaderImplementation (T Orientation : Type 0) : Type 0 where
  pub init : Outcome Cause (List ℕ) → String → Outcome ProcessError (T × ImageDetails Orientation)
  pub frame : FrameRequest → T → Outcome ProcessError (Frame FrameDetails × List ℕ) × T

module _ {T Orientation : Type 0} (loader : LoaderImplementation T Orientation)
    (to_string : ProcessError → String) where
  -- The answer to `init`: the details and the id of the path.
  abbrev pub RemoteImage : Type 0
  RemoteImage = ImageDetails Orientation × ℕ

  abbrev pub initialized :
      Server T
      → Outcome Cause (Unit {0})
      → Outcome ProcessError (T × ImageDetails Orientation)
      → Server T × Outcome RemoteError RemoteImage
  initialized server at (ok (state, image_info)) =
      let (server', id) = serve to_string server state at in
      (server', id >>= (λ i. ok (image_info, i)))
  initialized server at (err e) = (server, err (into_loader_error to_string e))
  initialized server at Outcome.panic = (server, Outcome.panic)

  -- `Loader::init`.
  unfoldable pub init :
      Outcome Cause (List ℕ)
      → String
      → Outcome Cause (Unit {0})
      → Server T
      → Server T × Outcome RemoteError RemoteImage
  unfolding serve into_loader_error
  init stream mime_type at server = initialized server at (loader.init stream mime_type)

  abbrev pub after_call : Served T → {A : Type 0} → Outcome ProcessError A → T → Served T
  after_call served Outcome.panic state = record served { poisoned = true }
  after_call served _ state = record served { implementation = state }

  -- The call of the implementation under its lock.
  unfoldable pub locked_frame :
      FrameRequest → Served T → Outcome RemoteError (Frame FrameDetails × List ℕ) × Served T
  unfolding into_loader_error
  locked_frame request served =
      if served.poisoned
      then (err (RemoteError.internal_loader_error "Failed to lock loader state"), served)
      else let (result, state) = loader.frame request served.implementation in
        (map_err (into_loader_error to_string) result, after_call served result state)

  -- `Image::frame`, which may be dropped while it waits.
  unfoldable pub frame :
      FrameRequest
      → (dropped : Bool) → Served T
      → Outcome RemoteError (Frame FrameDetails × List ℕ) × Served T
  unfolding locked_frame select
  frame request dropped served =
      let (result, served') = locked_frame request served in (select dropped result, served')
