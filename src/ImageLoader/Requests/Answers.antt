-- ===== src/ImageLoader/Requests/Answers.antt =====
-- The answers to the requests for the frames of an animation, one after the other.
use Prim.Native.String.{String}
use glycin.Base.{
  ℕ, zero, suc, ◌+◌, ◌*◌, ◌<◌, ◌≡◌, ◌≢◌, refl, ap, ◌∙◌, arith, Bool, true, false, not, ltb, ◌==◌,
  ◌&&◌, if◌then◌else◌, List, length, get_or, Option, some, none, Outcome, ok, err, ◌>>=◌,
}
use glycin.Errors.{ProcessError, Cause}
use glycin.SafeMath.{try_convert}
use glycin.Frame.{Frame, FrameDetails, FrameRequest}
use glycin.ImageLoader.{Codecs, ImageFrame, ImageRsFormat}
use glycin.ImageLoader.Worker.{Message, Resume, replay, Turn, animated_get_frame, animated_worker}
use glycin.ImageLoader.Worker.Cycles.{reply, nth_frame, IsAnimation, animated_worker-cycles}
use glycin.ImageLoader.Threads.{after, message, message_of, resumed, and_then}
use glycin.ImageLoader.Requests.{
  Cicp, Animation, ImgDecoder, received, is_first, animated_answer, with_cicp, turned, turn,
  frame_request, start,
}

module _ (codecs : Codecs) (to_string : ProcessError → String) (map : ℕ → Outcome Cause (Unit {0}))
    (micros : ℕ → ℕ → ℕ) where
  -- The decoder after `k` requests.
  abbrev pub decoder_after :
      (ℕ → FrameRequest) → ImgDecoder codecs.Codec → ℕ → ImgDecoder codecs.Codec
  decoder_after requests decoder zero = decoder
  decoder_after requests decoder (suc k) =
      (frame_request codecs to_string map micros (requests k) (decoder_after requests decoder k)).1

  -- The answer to the request with index `k`.
  abbrev pub answer :
      (ℕ → FrameRequest)
      → ImgDecoder codecs.Codec
      → ℕ
      → Outcome ProcessError (Frame FrameDetails × List ℕ)
  answer requests decoder k =
      (frame_request codecs to_string map micros (requests k) (decoder_after requests decoder k)).0

  n_frame_lem :
      (n_frame : ℕ) (frame : Outcome Cause ImageFrame) (is_animated : Bool)
      (decoded : Frame FrameDetails) (texture : List ℕ)
      → animated_get_frame codecs to_string map micros n_frame frame none is_animated
        ≡ ok (decoded, texture)
      → decoded.details.n_frame ≡ some n_frame
  unfolding animated_get_frame try_convert
  n_frame_lem n_frame frame is_animated decoded texture e = ground arith

  -- A request that does not loop is refused at the first frame of a later pass.
  unfoldable pub expected_answer :
      Option Cicp
      → FrameRequest
      → ℕ
      → ℕ
      → Outcome ProcessError (Frame FrameDetails × List ℕ)
      → Outcome ProcessError (Frame FrameDetails × List ℕ)
  expected_answer cicp request pass i (ok frame) =
      if not request.loop_animation && (i == 0) && ltb 0 pass
      then err ProcessError.no_more_frames
      else ok (with_cicp cicp frame)
  expected_answer cicp request pass i (err e) = err e
  expected_answer cicp request pass i Outcome.panic = Outcome.panic

  module _ (file : List ℕ) (mime_type : String) where
    abbrev worker : Resume codecs.Codec → Turn codecs to_string map micros
    worker = animated_worker codecs to_string map micros file mime_type

    abbrev parked_at : Option (Resume codecs.Codec) → Animation codecs.Codec
    parked_at resume = record { file = file; mime_type = mime_type; parked = resume }

    turned_lem :
        (resume : Option (Resume codecs.Codec)) (t : Turn codecs to_string map micros)
        → turned codecs to_string map micros (parked_at resume) t
          ≡ (message_of worker t, parked_at (resumed worker t))
    unfolding turned
    turned_lem resume none = refl
    turned_lem resume (some (message, later)) = refl

    turn_lem :
        (resume : Option (Resume codecs.Codec))
        → turn codecs to_string map micros (parked_at resume) ≡ (
          and_then worker (λ r. message_of worker (worker r)) resume,
          parked_at (and_then worker (λ r. resumed worker (worker r)) resume),
        )
    unfolding turn
    turn_lem none = refl
    turn_lem (some r) = turned_lem (some r) (worker r)

    abbrev at_thread : Option Cicp → Animation codecs.Codec → ImgDecoder codecs.Codec
    at_thread cicp animation = record { format = none; thread = some animation; cicp = cicp }

    abbrev decoder_at : Option Cicp → Option (Resume codecs.Codec) → ImgDecoder codecs.Codec
    decoder_at cicp resume = record { format = none; thread = some (parked_at resume); cicp = cicp }

    module _ (cicp : Option Cicp) (first : Resume codecs.Codec) (requests : ℕ → FrameRequest) where
      abbrev begin : ImgDecoder codecs.Codec
      begin = decoder_at cicp (some first)

      decoder_after_lem :
          (k : ℕ) → decoder_after requests begin k ≡ decoder_at cicp (after worker first k)
      unfolding after frame_request
      decoder_after_lem zero = refl
      decoder_after_lem (suc k) =
          ap
            (λ (d : ImgDecoder codecs.Codec).
              (frame_request codecs to_string map micros (requests k) d).1)
            (decoder_after_lem k)
          ∙ (ap (λ (t : Option Message × Animation codecs.Codec). at_thread cicp t.1)
              (turn_lem (after worker first k)))

      answer_lem :
          (k : ℕ)
          → answer requests begin k ≡ (
              animated_answer (requests k) (message worker first k)
              >>= (λ a. ok (with_cicp cicp a)))
      unfolding frame_request message
      answer_lem k =
          ap
            (λ (d : ImgDecoder codecs.Codec).
              (frame_request codecs to_string map micros (requests k) d).0)
            (decoder_after_lem k)
          ∙ (ap (λ t. animated_answer (requests k) t.0 >>= (λ a. ok (with_cicp cicp a)))
              (turn_lem (after worker first k)))

  reply_lem :
      (cicp : Option Cicp) (request : FrameRequest) (pass i : ℕ)
      (decoded : Outcome ProcessError (Frame FrameDetails × List ℕ))
      → decoded ≢ Outcome.panic
      → ((frame : Frame FrameDetails) (texture : List ℕ)
          → decoded ≡ ok (frame, texture)
          → frame.details.n_frame ≡ some i)
      → (animated_answer request (reply (ltb 0 pass) decoded) >>= (λ a. ok (with_cicp cicp a)))
        ≡ expected_answer cicp request pass i decoded
  unfolding reply animated_answer received is_first expected_answer
  reply_lem cicp request pass i (ok (frame, texture)) h n =
      ap
        (λ (o : Option ℕ).
          (if not request.loop_animation && is_first o && ltb 0 pass
            then err ProcessError.no_more_frames
            else ok (frame, texture))
          >>= (λ a. ok (with_cicp cicp a)))
        (n frame texture refl)
      ∙ by_test (not request.loop_animation && (i == 0) && ltb 0 pass)
    where
      by_test :
          (b : Bool)
          → ((if b then err ProcessError.no_more_frames else ok (frame, texture))
              >>= (λ a. ok (with_cicp cicp a)))
            ≡ (if b then err ProcessError.no_more_frames else ok (with_cicp cicp (frame, texture)))
      by_test true = refl
      by_test false = refl
  reply_lem cicp request pass i (err e) h n = refl
  reply_lem cicp request pass i Outcome.panic h n = absurd (h refl)

  -- For an animation, the answer to the request with the index `pass * n + i`, where `n` is the number of
  -- frames and `i` below it, is frame `i` with the cicp of the file, or the error of decoding it; but for
  -- a request that does not loop, the first frame of a later pass is refused with `NoMoreFrames`.
  pub frame_request-cycles :
      (file : List ℕ) (mime_type : String) (frames : List (Outcome Cause ImageFrame))
      (format : ImageRsFormat codecs.Codec) (cicp : Option Cicp) (requests : ℕ → FrameRequest)
      (pass i : ℕ)
      → IsAnimation codecs to_string map micros file mime_type frames format
      → i < length frames
      → answer requests
          (start codecs to_string map micros cicp file mime_type format true)
          (pass * length frames + i)
        ≡ expected_answer cicp
            (requests (pass * length frames + i))
            pass
            i
            (nth_frame codecs to_string map micros file mime_type frames i)
  unfolding start nth_frame
  frame_request-cycles file mime_type frames format cicp requests pass i h inside =
      let k = pass * length frames + i in
      answer_lem file mime_type cicp (replay false (some format)) requests k
      ∙ ap (λ (m : Option Message). animated_answer (requests k) m >>= (λ a. ok (with_cicp cicp a)))
          (animated_worker-cycles codecs to_string map micros file mime_type frames format h pass i
            inside)
      ∙ reply_lem cicp (requests k) pass i
          (nth_frame codecs to_string map micros file mime_type frames i) (h.settled i inside)
          (n_frame_lem i (get_or frames i Outcome.panic) true)
