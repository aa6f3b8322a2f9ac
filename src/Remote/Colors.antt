-- ===== src/Remote/Colors.antt =====
-- The colours of a frame: the removal of its stride, and the transformation by a profile.
use native.Mathlib.Nat.{mul-le-mul_left, mul-le-mul_right}
use glycin.Base.{
  ℕ, ◌+◌, ◌*◌, ◌≤◌, ◌<◌, ◌≡◌, refl, ap, subst, ◌∙◌, arith, List, length, Option, some, none,
  Outcome, ok, ◌>>=◌, u32_mod, i64_mod, Returns,
}
use glycin.Errors.{map_err}
use glycin.Format.Types.{MemoryFormat, to_number}
use glycin.Format.Tables.{n_bytes}
use glycin.Frame.{Frame, FrameDetails}
use glycin.Texture.Validate.{IsWellFormed}
use glycin.Texture.Stride.{IsPacked, remove_stride_if_needed-IsPacked}
use glycin.Icc.{transformation, transform}
use glycin.Icc.Laws.{IsByPixel, transform-whole}
use glycin.Remote.{
  Error, client, Cicp, ColorState, srgb, cicp, Others, Shown, profile_of, with_profile, with_color,
}

-- The colours: with a cicp or without a profile the image is kept; otherwise its stride is removed, and the
-- whole of it is transformed by `f`.
abbrev pub Colored :
    (List ℕ → List ℕ) → Shown → Shown × ColorState → Option Cicp → Option (List ℕ) → Type 0
Colored f shown result (some c) profile = result ≡ (shown, cicp c)
Colored f shown result none none = result ≡ (shown, srgb)
Colored f shown result none (some icc_profile) =
    (packed : Shown) × IsPacked shown.0 shown.1 packed × (result ≡ ((packed.0, f packed.1), srgb))

-- What is relied on: the conversion to `i64`, and a profile whose transformation `f` works pixel by pixel.
pub record IsReliable (others : Others) (f : List ℕ → List ℕ) (frame : Frame FrameDetails)
    : Type 0 where
  pub converts : (n : ℕ) → n < i64_mod → others.to_i64 n ≡ some n
  pub transforms :
      (icc_profile : List ℕ)
      → profile_of others frame.details.color_icc_profile ≡ some icc_profile
      → transformation others.lcms icc_profile frame.memory_format ≡ some f
  pub by_pixel : IsByPixel (to_number (n_bytes frame.memory_format)) f
  pub in_place : (xs : List ℕ) → length (f xs) ≡ length xs

module _ (others : Others) (f : List ℕ → List ℕ) (frame : Frame FrameDetails) (buf : List ℕ)
    (reliable : IsReliable others f frame) (valid : IsWellFormed frame buf)
    (stride_fits : frame.stride + to_number (n_bytes frame.memory_format) < u32_mod) where
  abbrev pixel : ℕ
  pixel = to_number (n_bytes frame.memory_format)

  -- What a step leaves of the frame.
  pub record Keeps (shown : Shown) : Type 0 where
    pub well_formed : IsWellFormed shown.0 shown.1
    pub same_format : shown.0.memory_format ≡ frame.memory_format

  transformed-IsWellFormed :
      (new : Frame FrameDetails) (out : List ℕ) → IsWellFormed new out → IsWellFormed new (f out)
  transformed-IsWellFormed new out v = record {
    positive = v.positive;
    small = v.small;
    row_fits = v.row_fits;
    narrow = v.narrow;
    bounded = v.bounded;
    held = rw (reliable.in_place out) v.held;
  }

  one_pixel :
      (new : Frame FrameDetails) (out : List ℕ)
      → IsWellFormed new out
      → new.memory_format ≡ frame.memory_format
      → pixel ≤ length out
  one_pixel new out v e =
      let row : 1 * pixel ≤ new.width * pixel = mul-le-mul_right pixel v.positive.0 in
      let rows : new.stride * 1 ≤ new.stride * new.height =
        mul-le-mul_left new.stride v.positive.1 in
      let narrow : new.width * pixel ≤ new.stride =
        subst (λ g. new.width * to_number (n_bytes g) ≤ new.stride) e v.narrow in
      omega (arith, v.held)

  abbrev after_packing : List ℕ → Shown → Outcome Error (Shown × ColorState)
  after_packing icc_profile packed =
      transform others.lcms others.available_parallelism icc_profile packed.0.memory_format packed.1
      >>= (λ icc_mmap. ok ((packed.0, icc_mmap), srgb))

  with_profile-Colored :
      (profile : Option (List ℕ))
      → profile_of others frame.details.color_icc_profile ≡ profile
      → Returns
          (with_profile others frame buf profile)
          (λ r. Colored f (frame, buf) r none profile × Keeps r.0)
  unfolding with_profile
  with_profile-Colored none e =
      (((frame, buf), srgb), refl, (refl, record { well_formed = valid; same_format = refl }))
  with_profile-Colored (some icc_profile) e =
      let (packed, e', p) =
        remove_stride_if_needed-IsPacked others.to_i64 reliable.converts frame buf valid
          stride_fits in
      let format : packed.0.memory_format ≡ frame.memory_format =
        ap (λ (g : Frame FrameDetails). g.memory_format) p.new_frame in
      let whole : transform {E = Error} others.lcms others.available_parallelism icc_profile
            packed.0.memory_format packed.1
          ≡ ok (f packed.1) =
        ap
          (λ (g : MemoryFormat).
            transform {E = Error} others.lcms others.available_parallelism icc_profile g packed.1)
          format
        ∙ transform-whole others.lcms others.available_parallelism icc_profile frame.memory_format
            packed.1 f (reliable.transforms icc_profile e) reliable.by_pixel
            (one_pixel packed.0 packed.1 p.valid format) in
      (
        ((packed.0, f packed.1), srgb),
        ap (λ (m : Outcome Error Shown). m >>= after_packing icc_profile) (ap (map_err client) e')
            ∙ ap
                (λ (m : Outcome Error (List ℕ)).
                  m >>= (λ icc_mmap. ok ((packed.0, icc_mmap), srgb)))
                whole,
        (
          (packed, p, refl),
          record {
            well_formed = transformed-IsWellFormed packed.0 packed.1 p.valid;
            same_format = format;
          },
        ),
      )

  pub with_color-Colored :
      (known : Option Cicp)
      → Returns (with_color others frame buf known) (λ r.
        Colored f (frame, buf) r known (profile_of others frame.details.color_icc_profile)
        × Keeps r.0)
  unfolding with_color
  with_color-Colored (some c) =
      (((frame, buf), cicp c), refl, (refl, record { well_formed = valid; same_format = refl }))
  with_color-Colored none =
      with_profile-Colored (profile_of others frame.details.color_icc_profile) refl
