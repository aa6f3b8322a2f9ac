-- ===== src/ImageLoader/Worker.antt =====
-- `animated_worker` and `animated_get_frame` of `glycin-loaders/glycin-image-rs/src/main.rs`: what the
-- thread of an animation sends each time that it is woken. The microseconds of a delay, which
-- floats compute, are a parameter. The size of a texture is computed as in a release build.
pub mod Cycles
pub mod Frames
use Prim.Native.String.{String}
use package.glycin.Base.{
  ℕ, zero, suc, ◌*◌, ◌%◌, Bool, true, false, not, ltb, ◌==◌, ◌||◌, if◌then◌else◌, List, [], ◌∷◌,
  ◌++◌, length, take, drop, Option, none, some, Outcome, ok, err, ◌>>=◌, ◌>>◌, usize_mod,
}
use package.glycin.Errors.{ProcessError, Cause, expected, map_err}
use package.glycin.SharedMemory.{new}
use package.glycin.SafeMath.{try_convert}
use package.glycin.Format.Types.{MemoryFormat, to_number}
use package.glycin.Format.Tables.{n_bytes}
use package.glycin.Frame.{Frame, FrameDetails, no_details, new_frame}
use package.glycin.ImageRs.{frame_details}
use package.glycin.ImageLoader.{
  Codecs, ImageFrame, ImageRsFormat, unwrap, create, into_frames, with_transparent_background,
}

-- What the thread sends: a frame, its texture and whether the animation has been looped; or an error.
pub data Message : Type 0 where
  sent : Frame FrameDetails × List ℕ → (looped : Bool) → Message
  failed : ProcessError → Message

-- Where the thread goes on after `park`: from the beginning, with the format that it was given or none, or
-- with the next frame of an animation.
pub data Resume (Codec : Type 0) : Type 0 where
  replay : (looped : Bool) → Option (ImageRsFormat Codec) → Resume Codec
  next : (looped : Bool) → (n_frame : ℕ) → List (Outcome Cause ImageFrame) → Resume Codec

module _ (codecs : Codecs) (to_string : ProcessError → String) (map : ℕ → Outcome Cause (Unit {0}))
    (micros : ℕ → ℕ → ℕ) where
  -- In microseconds.
  unfoldable pub delay : Bool → ℕ × ℕ → Option ℕ
  delay is_animated (delay_num, delay_den) =
      if not is_animated
      then none
      else if delay_num == 0 || delay_den == 0
      then some (100 * 1000)
      else some (micros delay_num delay_den)

  -- `read_exact` of a memory, unwrapped.
  unfoldable pub read_exact : List ℕ → ℕ → Outcome ProcessError (List ℕ)
  read_exact raw n = if ltb (length raw) n then Outcome.panic else ok (take n raw)

  abbrev pub details_or : Option FrameDetails → FrameDetails → FrameDetails
  details_or none default = default
  details_or (some details) default = details

  unfoldable pub animated_get_frame :
      ℕ
      → Outcome Cause ImageFrame
      → Option FrameDetails
      → Bool
      → Outcome ProcessError (Frame FrameDetails × List ℕ)
  unfolding expected delay new read_exact new_frame no_details try_convert
  animated_get_frame n_frame frame frame_details is_animated = do
    decoded ← map_err (expected to_string) frame
    memory ← unwrap (
        new map
          (decoded.width * decoded.height * to_number (n_bytes MemoryFormat.r8g8b8a8) % usize_mod))
    texture ← read_exact decoded.raw (length memory)
    out_frame ← unwrap (
        new_frame ProcessError.conversion_too_larger_error no_details decoded.width decoded.height
          MemoryFormat.r8g8b8a8)
    n ← try_convert ProcessError.conversion_too_larger_error usize_mod n_frame
    let details : FrameDetails = details_or frame_details out_frame.details
    ok (
      record out_frame {
        delay = delay is_animated decoded.numer_denom_ms;
        details = record details { n_frame = some n };
      },
      texture,
    )

  -- A message and where the thread goes on, if it does not end; or a panic.
  abbrev pub Turn : Type 0
  Turn = Option (Message × Option (Resume codecs.Codec))

  -- The body of the loop over the frames, up to `park`.
  unfoldable pub send :
      Bool
      → Bool
      → ℕ
      → List (Outcome Cause ImageFrame)
      → Outcome ProcessError (Frame FrameDetails × List ℕ)
      → Turn
  send looped is_animated n_frame rest decoded = elim decoded [
    | ok frame ↦ some (sent frame looped, later)
    | err e ↦ some (failed e, later)
    | Outcome.panic ↦ none
  ]
    where
      later : Option (Resume codecs.Codec)
      later = if is_animated then some (next looped (suc n_frame) rest) else none

  -- The loop over the frames from its beginning, by how many of the first two there are.
  unfoldable pub first_turn : Bool → FrameDetails → List (Outcome Cause ImageFrame) → Turn
  unfolding send animated_get_frame
  first_turn looped details [] = some (failed (ProcessError.expected_error "No frame found."), none)
  first_turn looped details (frame ∷ []) =
      send looped false 0 [] (animated_get_frame 0 frame (some details) false)
  first_turn looped details (frame ∷ second ∷ frames) =
      send looped true 0 (second ∷ frames) (animated_get_frame 0 frame none true)

  -- What the frames come to, where a decoder without frames is a panic.
  unfoldable pub frames_turn :
      Bool → FrameDetails → Outcome ProcessError (Option (List (Outcome Cause ImageFrame))) → Turn
  unfolding first_turn
  frames_turn looped details (ok (some frames)) = first_turn looped details frames
  frames_turn looped details _ = none

  -- The details, `x.frame_details()` of the decoder, come first.
  unfoldable pub details_turn :
      Bool
      → Outcome ProcessError FrameDetails
      → Outcome ProcessError (Option (List (Outcome Cause ImageFrame)))
      → Turn
  unfolding frames_turn
  details_turn looped (ok details) frames = frames_turn looped details frames
  details_turn looped (err e) frames = some (failed e, none)
  details_turn looped Outcome.panic frames = none

  unfoldable pub format_turn : Bool → ImageRsFormat codecs.Codec → Turn
  unfolding frame_details details_turn into_frames
  format_turn looped format =
      details_turn looped (frame_details to_string map format.handler (codecs.answers format.codec))
        (into_frames codecs to_string format)

  -- One pass of the outer loop, up to `park`.
  unfoldable pub replay_turn : List ℕ → String → Bool → Option (ImageRsFormat codecs.Codec) → Turn
  unfolding format_turn with_transparent_background create
  replay_turn file mime_type looped (some format) =
      format_turn looped (with_transparent_background codecs to_string format)
  replay_turn file mime_type looped none = by_format (create codecs to_string file mime_type)
    where
      by_format : Outcome ProcessError (ImageRsFormat codecs.Codec) → Turn
      by_format (ok format) =
          format_turn looped (with_transparent_background codecs to_string format)
      by_format _ = none

  -- `animated_worker`, from where it was parked to where it parks again or ends.
  unfoldable pub animated_worker : List ℕ → String → Resume codecs.Codec → Turn
  unfolding replay_turn send animated_get_frame
  animated_worker file mime_type (replay looped format) = replay_turn file mime_type looped format
  animated_worker file mime_type (next looped n_frame (frame ∷ rest)) =
      send looped true n_frame rest (animated_get_frame n_frame frame none true)
  animated_worker file mime_type (next looped n_frame []) = replay_turn file mime_type true none
