-- ===== src/ImageLoader/Requests.antt =====
-- `LoaderImplementation` for `ImgDecoder` of `glycin-loaders/glycin-image-rs/src/main.rs`: the
-- start of a loader and its answers to requests. The thread of an animation takes one turn
-- for each request, which is what all interleavings come to.
pub mod Answers
use Prim.Native.String.{String}
use package.glycin.Base.{
  ℕ, Bool, true, false, not, ◌==◌, ◌&&◌, if◌then◌else◌, List, Option, none, some, Outcome, ok, err,
  ◌>>=◌,
}
use package.glycin.Errors.{ProcessError, Cause, expected, internal, map_err}
use package.glycin.Frame.{Frame, FrameDetails, FrameRequest, ImageDetails}
use package.glycin.ImageRs.{info, share, frame}
use package.glycin.ImageLoader.{Codecs, Metadata, ImageRsFormat, create, is_animated, first}
use package.glycin.ImageLoader.Worker.{Message, sent, failed, Resume, replay, Turn, animated_worker}

-- The codes of `Cicp`, as `u8`.
abbrev pub Cicp : Type 0
Cicp = ℕ × ℕ × ℕ × ℕ

-- The thread is kept by the file and type that it decodes and where it is parked, if it has not ended.
pub record Animation (Codec : Type 0) : Type 0 where
  pub file : List ℕ
  pub mime_type : String
  pub parked : Option (Resume Codec)

pub record ImgDecoder (Codec : Type 0) : Type 0 where
  pub format : Option (ImageRsFormat Codec)
  pub thread : Option (Animation Codec)
  pub cicp : Option Cicp

-- What `recv` gives, with an error if the thread has ended.
unfoldable pub received : Option Message → Outcome ProcessError (Frame FrameDetails × List ℕ × Bool)
received none = err (ProcessError.internal_error "receiving on a closed channel")
received (some (failed e)) = err e
received (some (sent (frame, texture) looped)) = ok (frame, texture, looped)

-- `matches!(frame.details.n_frame, Some(0))`.
unfoldable pub is_first : Option ℕ → Bool
is_first none = false
is_first (some n) = n == 0

-- The answer to a request by a thread.
unfoldable pub animated_answer :
    FrameRequest → Option Message → Outcome ProcessError (Frame FrameDetails × List ℕ)
unfolding received is_first
animated_answer frame_request message = do
  (frame, texture, looped) ← received message
  if not frame_request.loop_animation && is_first frame.details.n_frame && looped
      then err ProcessError.no_more_frames
      else ok (frame, texture)

abbrev pub with_cicp : Option Cicp → Frame FrameDetails × List ℕ → Frame FrameDetails × List ℕ
with_cicp cicp (frame, texture) =
    (record frame { details = record frame.details { color_cicp = cicp } }, texture)

module _ (codecs : Codecs) (to_string : ProcessError → String) (map : ℕ → Outcome Cause (Unit {0}))
    (micros : ℕ → ℕ → ℕ) where
  -- What one turn of a thread sends, and the thread after it.
  unfoldable pub turned :
      Animation codecs.Codec
      → Turn codecs to_string map micros
      → Option Message × Animation codecs.Codec
  turned animation none = (none, record animation { parked = none })
  turned animation (some (message, later)) = (some message, record animation { parked = later })

  unfoldable pub turn : Animation codecs.Codec → Option Message × Animation codecs.Codec
  unfolding turned animated_worker
  turn animation = elim (animation.parked) [
    | none ↦ (none, animation)
    | some resume ↦
        turned animation
          (animated_worker codecs to_string map micros animation.file animation.mime_type resume)
  ]

  -- `ImgDecoder::frame`.
  unfoldable pub frame_request :
      FrameRequest
      → ImgDecoder codecs.Codec
      → Outcome ProcessError (Frame FrameDetails × List ℕ) × ImgDecoder codecs.Codec
  unfolding turn animated_answer frame expected
  frame_request request decoder = elim (decoder.format) [
    | some format ↦ (
      map_err (λ e. expected to_string (Cause.process e))
            (frame to_string map format.handler (codecs.answers format.codec))
          >>= (λ answer. ok (with_cicp decoder.cicp answer)),
      record decoder { format = none },
    )
    | none ↦ elim (decoder.thread) [
      | some animation ↦ (
        animated_answer request (turn animation).0
            >>= (λ answer. ok (with_cicp decoder.cicp answer)),
        record decoder { thread = some (turn animation).1 },
      )
      | none ↦ (err ProcessError.no_more_frames, decoder)
    ]
  ]

  -- The format, or a thread for it.
  unfoldable pub start :
      Option Cicp → List ℕ → String → ImageRsFormat codecs.Codec → Bool → ImgDecoder codecs.Codec
  start cicp file mime_type format animated =
      if animated
      then record {
        format = none;
        thread = some (record {
          file = file;
          mime_type = mime_type;
          parked = some (replay false (some format));
        });
        cicp = cicp;
      }
      else record { format = some format; thread = none; cicp = cicp }

  module _ {Orientation : Type 0} (for_guessed : List ℕ → Option Metadata)
      (gufo_cicp : List ℕ → Option Cicp) where
    -- The metadata that are found, in shared memory.
    unfoldable pub with_metadata :
        Option Metadata → ImageDetails Orientation → Outcome ProcessError (ImageDetails Orientation)
    unfolding share
    with_metadata none image_info = ok image_info
    with_metadata (some metadata) image_info = do
      exif ← share to_string map (first metadata.exif)
      xmp ← share to_string map (first metadata.xmp)
      ok (record image_info {
        metadata_exif = exif;
        metadata_xmp = xmp;
        metadata_key_value = some metadata.key_value;
      })

    -- `ImgDecoder::init`, with what reading the stream comes to.
    unfoldable pub init :
        Outcome Cause (List ℕ)
        → String
        → Outcome ProcessError (ImgDecoder codecs.Codec × ImageDetails Orientation)
    unfolding internal create info with_metadata is_animated start
    init stream mime_type = do
      file ← map_err (internal to_string) stream
      created ← create codecs to_string file mime_type
      let format : ImageRsFormat codecs.Codec = record created {
        codec = codecs.set_no_limits created.codec;
      }
      image_info ←
          with_metadata (for_guessed file) (info format.handler (codecs.answers format.codec))
      animated ← is_animated codecs to_string format
      ok (start (gufo_cicp file) file mime_type format animated, image_info)
