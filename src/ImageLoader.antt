-- ===== src/ImageLoader.antt =====
-- `glycin-loaders/glycin-image-rs/src/main.rs`: the formats of the image-rs loader, and what it reads from
-- a stream. The decoders of the `image` crate are a parameter, by their answers.
pub mod Worker
pub mod Requests
pub mod Threads
use Prim.Native.String.{String}
use text.Mathlib.Text.{◌==◌}
use package.glycin.Base.{
  ℕ, Bool, true, false, if◌then◌else◌, List, [], ◌∷◌, Option, none, some, Outcome, ok, err, ◌>>=◌,
  or_panic,
}
use package.glycin.Base.Dict.{lookup}
use package.glycin.Errors.{ProcessError, Cause, expected, internal, map_err}
use package.glycin.Frame.{ImageDetails, FrameDetails, Frame}
use package.glycin.ImageRs.{
  Handler, Decoder, default, with_format_name, with_default_bit_depth, with_two_alpha_modes,
  with_two_grayscale_modes, info, share,
}

-- The variants of `ImageRsDecoder`. Each holds one decoder.
pub data Variant : Type 0 where
  bmp dds farbfeld gif ico jpeg open_exr png pnm qoi tga tiff web_p : Variant

-- A frame of the `image` crate: its delay as `numer_denom_ms`, and its pixels of four bytes.
pub record ImageFrame : Type 0 where
  pub numer_denom_ms : ℕ × ℕ
  pub width : ℕ
  pub height : ℕ
  pub raw : List ℕ

pub record Codecs : Type 1 where
  pub Codec : Type 0
  -- `PngDecoder::new` and the others.
  pub new_decoder : Variant → List ℕ → Outcome Cause Codec
  pub answers : Codec → Decoder
  pub set_no_limits : Codec → Codec
  -- With a transparent background.
  pub set_background_color : Codec → Codec
  pub is_apng : Codec → Outcome Cause Bool
  pub has_animation : Codec → Bool
  -- `apng()`.
  pub apng : Codec → Outcome Cause Codec
  pub into_frames : Codec → List (Outcome Cause ImageFrame)

-- What other crates find in a file: the metadata of gufo, if it guesses the format, and the cicp.
pub record Metadata : Type 0 where
  pub exif : List (List ℕ)
  pub xmp : List (List ℕ)
  pub key_value : List (String × String)

pub record ImageRsFormat (Codec : Type 0) : Type 0 where
  pub variant : Variant
  pub codec : Codec
  pub handler : Handler

-- The match of `ImageRsFormat::create`.
unfoldable pub formats : List (String × (Variant × Handler))
unfolding default
formats =
    (
      "image/apng",
      (
        png,
        with_default_bit_depth 8 (
            with_two_grayscale_modes true
              (with_two_alpha_modes true (with_format_name "Animated PNG" default))),
      ),
    )
    ∷ ("image/bmp", (bmp, with_default_bit_depth 8 (with_format_name "BMP" default)))
    ∷ ("image/x-dds", (dds, with_two_grayscale_modes true (with_format_name "DDS" default)))
    ∷ ("image/x-ff", (farbfeld, with_default_bit_depth 16 (with_format_name "Farbfeld" default)))
    ∷ ("image/gif", (gif, with_default_bit_depth 8 (with_format_name "GIF" default)))
    ∷ ("image/vnd.microsoft.icon", (ico, with_format_name "ICO" default))
    ∷ (
      "image/jpeg",
      (
        jpeg,
        with_two_grayscale_modes true (with_default_bit_depth 8 (with_format_name "JPEG" default)),
      ),
    )
    ∷ (
      "image/x-exr",
      (
        open_exr,
        with_two_grayscale_modes true
            (with_default_bit_depth 32 (with_format_name "OpenEXR" default)),
      ),
    )
    ∷ (
      "image/png",
      (
        png,
        with_default_bit_depth 8 (
            with_two_grayscale_modes true
              (with_two_alpha_modes true (with_format_name "PNG" default))),
      ),
    )
    ∷ ("image/x-portable-bitmap", (pnm, with_default_bit_depth 1 (with_format_name "PBM" default)))
    ∷ ("image/x-portable-graymap", (pnm, with_format_name "PGM" default))
    ∷ ("image/x-portable-pixmap", (pnm, with_format_name "PPM" default))
    ∷ ("image/x-portable-anymap", (pnm, with_format_name "PAM" default))
    ∷ (
      "image/x-qoi",
      (qoi, with_two_alpha_modes true (with_default_bit_depth 8 (with_format_name "QOI" default))),
    )
    ∷ (
      "image/qoi",
      (qoi, with_two_alpha_modes true (with_default_bit_depth 8 (with_format_name "QOI" default))),
    )
    ∷ ("image/x-targa", (tga, with_two_grayscale_modes true (with_format_name "TGA" default)))
    ∷ ("image/x-tga", (tga, with_two_grayscale_modes true (with_format_name "TGA" default)))
    ∷ (
      "image/tiff",
      (
        tiff,
        with_two_grayscale_modes true (with_two_alpha_modes true (with_format_name "TIFF" default)),
      ),
    )
    ∷ (
      "image/webp",
      (
        web_p,
        with_two_alpha_modes true (with_default_bit_depth 8 (with_format_name "WebP" default)),
      ),
    )
    ∷ []

-- `unwrap` of a result, whose error is a panic.
abbrev pub unwrap {ℓ} : {E F : Type 0} {A : Type ℓ} → Outcome E A → Outcome F A
unwrap (ok a) = ok a
unwrap (err e) = Outcome.panic
unwrap Outcome.panic = Outcome.panic

-- `Vec::first`.
abbrev pub first {ℓ} : {A : Type ℓ} → List A → Option A
first [] = none
first (x ∷ xs) = some x

module _ (codecs : Codecs) (to_string : ProcessError → String) where
  unfoldable pub create : List ℕ → String → Outcome ProcessError (ImageRsFormat codecs.Codec)
  unfolding formats expected
  create file mime_type = known (lookup (λ s t. s == t) mime_type formats)
    where
      known : Option (Variant × Handler) → Outcome ProcessError (ImageRsFormat codecs.Codec)
      known none = err (ProcessError.unsupported_image_format mime_type)
      known (some (variant, handler)) =
          map_err (expected to_string) (codecs.new_decoder variant file)
          >>= (λ codec. ok (record { variant = variant; codec = codec; handler = handler }))

  -- `ImageRsDecoder::is_animated`.
  unfoldable pub is_animated : ImageRsFormat codecs.Codec → Outcome ProcessError Bool
  is_animated format = elim (format.variant) [
    | gif ↦ ok true
    | png ↦ unwrap (codecs.is_apng format.codec)
    | web_p ↦ ok (codecs.has_animation format.codec)
    | _ ↦ ok false
  ]

  -- `ImageRsDecoder::into_frames`.
  unfoldable pub into_frames :
      ImageRsFormat codecs.Codec → Outcome ProcessError (Option (List (Outcome Cause ImageFrame)))
  into_frames format = elim (format.variant) [
    | png ↦ unwrap (codecs.apng format.codec) >>= (λ codec. ok (some (codecs.into_frames codec)))
    | gif ↦ ok (some (codecs.into_frames format.codec))
    | web_p ↦ ok (some (codecs.into_frames format.codec))
    | _ ↦ ok none
  ]

  -- Of a WebP, before the frames are decoded.
  unfoldable pub with_transparent_background :
      ImageRsFormat codecs.Codec → ImageRsFormat codecs.Codec
  with_transparent_background format = elim (format.variant) [
    | web_p ↦ record format { codec = codecs.set_background_color format.codec }
    | _ ↦ format
  ]
