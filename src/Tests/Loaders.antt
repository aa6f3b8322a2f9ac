-- ===== src/Tests/Loaders.antt =====
-- The loader of image-rs at a small animation.
use Prim.Native.String.{String}
use glycin.Base.{
  ℕ, zero, suc, ◌*◌, ◌/◌, ◌<◌, ◌≡◌, ◌≢◌, refl, sym, ◌∙◌, arith, true, false, List, [], ◌∷◌, length,
  some, none, Outcome, ok, Returns,
}
use glycin.Errors.{ProcessError, Cause}
use glycin.Frame.{FrameDetails, FrameRequest}
use glycin.ImageRs.{
  ColorType, ExtendedColorType, Decoder, frame_details, default, with_default_bit_depth,
  with_format_name,
}
use glycin.ImageLoader.{
  Codecs, Variant, ImageFrame, ImageRsFormat, create, formats, into_frames,
  with_transparent_background,
}
use glycin.ImageLoader.Worker.{Message, Resume, Turn, animated_get_frame, replay}
use glycin.ImageLoader.Worker.Cycles.{nth_frame, HasFrames, IsAnimation}
use glycin.ImageLoader.Worker.Frames.{Shows, animated_get_frame-Shows}
use glycin.ImageLoader.Requests
use glycin.ImageLoader.Requests.Answers.{answer, expected_answer, frame_request-cycles}
use glycin.ImageLoader.Threads.{System, here, step, request, parked}
use glycin.ImageLoader.Threads.Answers.{AnswersIn}
use glycin.ImageLoader.Threads.Loader.{worker, parked_at, Steps-answers}

-- Two frames of one pixel, the first of which has no delay.
abbrev red : ImageFrame
red = record { numer_denom_ms = (0, 1); width = 1; height = 1; raw = 255 ∷ 0 ∷ 0 ∷ 255 ∷ [] }

abbrev blue : ImageFrame
blue = record { numer_denom_ms = (40, 1); width = 1; height = 1; raw = 0 ∷ 0 ∷ 255 ∷ 255 ∷ [] }

abbrev two_frames : List (Outcome Cause ImageFrame)
two_frames = ok red ∷ ok blue ∷ []

abbrev one_pixel : Decoder
one_pixel = record {
  width = 1;
  height = 1;
  color_type = ColorType.rgba8;
  original_color_type = ExtendedColorType.rgba8;
  icc_profile = none;
  total_bytes = 4;
  read_image = ok (red.raw);
}

-- Every file is this animation.
abbrev codecs : Codecs
codecs = record {
  Codec = Unit {0};
  new_decoder = λ variant file. ok tt;
  answers = λ codec. one_pixel;
  set_no_limits = λ codec. codec;
  set_background_color = λ codec. codec;
  is_apng = λ codec. ok true;
  has_animation = λ codec. true;
  apng = λ codec. ok codec;
  into_frames = λ codec. two_frames;
}

abbrev to_string : ProcessError → String
to_string e = "error"

abbrev enough : ℕ → Outcome Cause (Unit {0})
enough n = ok tt

abbrev micros : ℕ → ℕ → ℕ
micros num den = num * 1000 / den

abbrev gif : ImageRsFormat (Unit {0})
gif = record { variant = Variant.gif; codec = tt; handler = default }

gif-HasFrames : HasFrames codecs to_string enough micros [] "image/gif" two_frames gif
unfolding frame_details with_transparent_background into_frames
gif-HasFrames = record { details = _; has_details = refl; has_frames = refl }

-- The decoder of a later pass, as `create` makes it.
abbrev again : ImageRsFormat (Unit {0})
again = record {
  variant = Variant.gif;
  codec = tt;
  handler = with_default_bit_depth 8 (with_format_name "GIF" default);
}

again-HasFrames : HasFrames codecs to_string enough micros [] "image/gif" two_frames again
unfolding frame_details with_transparent_background into_frames
again-HasFrames = record { details = _; has_details = refl; has_frames = refl }

gif_created : create codecs to_string [] "image/gif" ≡ ok again
unfolding create formats
gif_created = refl

-- A still image with details.
abbrev described : FrameDetails
described = record {
  color_icc_profile = some (9 ∷ []);
  color_cicp = none;
  info_bit_depth = some 8;
  info_alpha_channel = some true;
  info_grayscale = none;
  n_frame = none;
}

animated_get_frame-Shows_example :
    Returns
      (animated_get_frame codecs to_string enough micros 0 (ok blue) (some described) false)
      (Shows codecs to_string enough micros 0 blue (some described) false)
animated_get_frame-Shows_example =
    animated_get_frame-Shows codecs to_string enough micros 0 blue (omega arith) (omega arith)
      (omega arith) (omega arith) refl (some described) false

two_frames-settled :
    (i : ℕ)
    → i < length two_frames
    → nth_frame codecs to_string enough micros [] "image/gif" two_frames i ≢ Outcome.panic
unfolding nth_frame
two_frames-settled zero h p =
    let (r, e, _) =
      animated_get_frame-Shows codecs to_string enough micros 0 red (omega arith) (omega arith)
        (omega arith) (omega arith) refl none true in
    let q = sym e ∙ p in ground arith
two_frames-settled (suc zero) h p =
    let (r, e, _) =
      animated_get_frame-Shows codecs to_string enough micros 1 blue (omega arith) (omega arith)
        (omega arith) (omega arith) refl none true in
    let q = sym e ∙ p in ground arith
two_frames-settled (suc (suc i)) h p = absurd (omega arith)

two_frames-IsAnimation : IsAnimation codecs to_string enough micros [] "image/gif" two_frames gif
two_frames-IsAnimation = record {
  many = omega arith;
  first = gif-HasFrames;
  again = again;
  is_created = gif_created;
  later = again-HasFrames;
  settled = two_frames-settled;
}

abbrev one_pass : ℕ → FrameRequest
one_pass k = record { scale = none; clip = none; loop_animation = false }

-- The third request, for the first frame of the second pass.
frame_request-cycles_example :
    answer codecs to_string enough micros one_pass
      (Requests.start codecs to_string enough micros none [] "image/gif" gif true)
      2
    ≡ expected_answer codecs to_string enough micros none
        (one_pass 2)
        1
        0
        (nth_frame codecs to_string enough micros [] "image/gif" two_frames 0)
frame_request-cycles_example =
    frame_request-cycles codecs to_string enough micros [] "image/gif" two_frames gif none one_pass
      1 0 two_frames-IsAnimation (omega arith)

abbrev gif_turn : Resume (Unit {0}) → Turn codecs to_string enough micros
gif_turn = worker codecs to_string enough micros [] "image/gif"

-- The first request for a frame of the animation.
abbrev asked : System (Resume (Unit {0})) Message
asked = record {
  thread = parked (replay false (some gif));
  token = true;
  channel = [];
  waiting = true;
  received = [];
}

Steps-answers_example :
    AnswersIn gif_turn 4 []
      (Requests.turn codecs to_string enough micros (
        parked_at codecs to_string enough micros [] "image/gif" (some (replay false (some gif))))).0
      asked
Steps-answers_example =
    Steps-answers codecs to_string enough micros [] "image/gif" (some gif) 1 asked
      (step here (request refl)) refl
