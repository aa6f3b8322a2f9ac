-- ===== src/ImageLoader/Worker/Frames.antt =====
-- One frame of the image-rs loader's thread.
use Prim.Native.String.{String}
use glycin.Base.{
  ℕ, ◌*◌, ◌%◌, ◌<◌, ◌≡◌, refl, ap, arith, Bool, true, false, List, [], ◌∷◌, length,
  length-replicate, take, replicate, Option, some, none, Outcome, ok, lt→ltb, le→ltb, usize_mod,
  i64_mod, u32_mod, Returns, suc,
}
use glycin.Errors.{ProcessError, Cause}
use glycin.SharedMemory.{new}
use glycin.SafeMath.{try_convert}
use glycin.Format.Types.{MemoryFormat, to_number}
use glycin.Format.Tables.{n_bytes}
use glycin.Frame.{Frame, FrameDetails, no_details, new_frame}
use glycin.ImageLoader.{ImageFrame, Codecs}
use glycin.ImageLoader.Worker.{delay, read_exact, details_or, animated_get_frame}

take_all {ℓ} : {A : Type ℓ} (xs : List A) → take (length xs) xs ≡ xs
take_all [] = refl
take_all (x ∷ xs) = ap (λ (l : List _). x ∷ l) (take_all xs)

module _ (codecs : Codecs) (to_string : ProcessError → String) (map : ℕ → Outcome Cause (Unit {0}))
    (micros : ℕ → ℕ → ℕ) where
  -- The frame shows the image whole, with the details that are given, if any, and the index, and with a
  -- delay if it is animated: a tenth of a second instead of none.
  pub record Shows (n_frame : ℕ) (image : ImageFrame) (frame_details : Option FrameDetails)
      (is_animated : Bool) (result : Frame FrameDetails × List ℕ) : Type 0 where
    pub dimensions : (result.0.width ≡ image.width) × (result.0.height ≡ image.height)
    pub stride : result.0.stride ≡ 4 * image.width
    pub texture : result.1 ≡ image.raw
    pub size : length result.1 ≡ result.0.stride * result.0.height
    pub index : result.0.details.n_frame ≡ some n_frame
    pub described :
        (details : FrameDetails)
        → frame_details ≡ some details
        → result.0.details ≡ record details { n_frame = some n_frame }
    pub undescribed :
        frame_details ≡ none → result.0.details ≡ record no_details { n_frame = some n_frame }
    pub still : is_animated ≡ false → result.0.delay ≡ none
    pub instant :
        (den : ℕ)
        → is_animated ≡ true
        → image.numer_denom_ms ≡ (0, den)
        → result.0.delay ≡ some 100000
    pub undivided :
        (num : ℕ)
        → is_animated ≡ true
        → image.numer_denom_ms ≡ (num, 0)
        → result.0.delay ≡ some 100000
    pub moving :
        (num den : ℕ)
        → is_animated ≡ true
        → image.numer_denom_ms ≡ (suc num, suc den)
        → result.0.delay ≡ some (micros (suc num) (suc den))

  module _ (n_frame : ℕ) (image : ImageFrame) (few : n_frame < usize_mod)
      (row : 4 * image.width < u32_mod) (whole : length image.raw ≡ image.width * image.height * 4)
      (small : length image.raw < i64_mod) (memory : map (length image.raw) ≡ ok tt) where
    made :
        new map (image.width * image.height * to_number (n_bytes MemoryFormat.r8g8b8a8) % usize_mod)
        ≡ ok (replicate (length image.raw) 0)
    unfolding new n_bytes to_number
    made = rw (size, lt→ltb (length image.raw) i64_mod small, memory) refl
      where
        size : image.width * image.height * 4 % usize_mod ≡ length image.raw
        size = omega arith

    abbrev zeros : List ℕ
    zeros = replicate (length image.raw) 0

    copied : read_exact codecs to_string map micros image.raw (length zeros) ≡ ok image.raw
    unfolding read_exact
    copied =
        rw
          (
            length-replicate {A = ℕ} (length image.raw) 0,
            le→ltb (length image.raw) (length image.raw) (omega arith),
            take_all image.raw,
          )
          refl

    framed :
        new_frame ProcessError.conversion_too_larger_error no_details image.width image.height
          MemoryFormat.r8g8b8a8
        ≡ ok (record {
          width = image.width;
          height = image.height;
          stride = 4 * image.width;
          memory_format = MemoryFormat.r8g8b8a8;
          delay = none;
          details = no_details;
        })
    unfolding new_frame n_bytes to_number
    framed = rw (lt→ltb (4 * image.width) u32_mod row) refl

    indexed : try_convert ProcessError.conversion_too_larger_error usize_mod n_frame ≡ ok n_frame
    unfolding try_convert
    indexed = rw (lt→ltb n_frame usize_mod few) refl

    abbrev shown : Option FrameDetails → Bool → Frame FrameDetails
    shown frame_details is_animated = record {
      width = image.width;
      height = image.height;
      stride = 4 * image.width;
      memory_format = MemoryFormat.r8g8b8a8;
      delay = delay codecs to_string map micros is_animated image.numer_denom_ms;
      details = record (details_or codecs to_string map micros frame_details no_details) {
        n_frame = some n_frame;
      };
    }

    -- A decoded image whose row fits into `u32`, whose pixels are all there and have fewer than 2^63 bytes, and
    -- for which the system has memory, is sent as a frame that shows it, with the details of a still image
    -- if they are given.
    pub animated_get_frame-Shows :
        (frame_details : Option FrameDetails) (is_animated : Bool)
        → Returns
            (animated_get_frame codecs to_string map micros n_frame
              (ok image)
              frame_details
              is_animated)
            (Shows n_frame image frame_details is_animated)
    unfolding animated_get_frame delay no_details
    animated_get_frame-Shows frame_details is_animated = (
      (shown frame_details is_animated, image.raw),
      rw (made, copied) (rw (framed, indexed) refl),
      record {
        dimensions = (refl, refl);
        stride = refl;
        texture = refl;
        size = grind arith;
        index = refl;
        described = λ details e. rw e refl;
        undescribed = λ e. rw e refl;
        still = λ e. rw e refl;
        instant = λ den e d. rw (e, d) refl;
        undivided = λ num e d. rw (e, d) (ground arith);
        moving = λ num den e d. rw (e, d) (ground arith);
      },
    )
