-- ===== src/Remote/Request.antt =====
-- All steps of a request for a frame.
use glycin.Base.{
  err, Bool-cases, if◌then◌else◌, ℕ, ◌+◌, ◌*◌, ◌<◌, ◌≡◌, inl, inr, refl, sym, ap, subst, ◌∙◌, arith,
  List, length, Option, some, none, Outcome, ok, ◌>>=◌, u32_mod, usize_mod,
}
use glycin.Errors.{map_err}
use glycin.Format.Types.{MemoryFormat, to_number}
use glycin.Format.Tables.{n_bytes}
use glycin.Selection.{best_format_for, same_format}
use glycin.Frame.{Frame, FrameDetails}
use glycin.Editing.Orientation.Laws.{IsOriented}
use glycin.Editing.ChangeMemoryFormat.{change_memory_format}
use glycin.Texture.{validate_frame}
use glycin.Texture.Validate.{IsWellFormed, validate_frame_iff}
use glycin.Icc.{transformation}
use glycin.Icc.Laws.{IsByPixel}
use glycin.Remote.{
  Error, editing, ColorState, Image, Others, dimensions, Shown, known_cicp, profile_of, with_format,
  request_frame,
}
use glycin.Remote.Accepted.{Gives, returned, same_format→≡, change_memory_format-HasTarget}
use glycin.Remote.Laws.{applied, oriented-IsTurned}
use glycin.Remote.Colors.{Colored, IsReliable, with_color-Colored}

module _ (others : Others) where
  IsReliable-same :
      (f : List ℕ → List ℕ) (frame new : Frame FrameDetails)
      → new.memory_format ≡ frame.memory_format
      → new.details ≡ frame.details
      → IsReliable others f frame
      → IsReliable others f new
  IsReliable-same f frame new same_format same_details r = record {
    converts = r.converts;
    transforms = λ icc_profile e.
        subst (λ g. transformation others.lcms icc_profile g ≡ some f) (sym same_format)
          (r.transforms icc_profile (
            subst (λ (d : FrameDetails). profile_of others d.color_icc_profile ≡ some icc_profile)
              same_details e));
    by_pixel = subst (λ g. IsByPixel (to_number (n_bytes g)) f) (sym same_format) r.by_pixel;
    in_place = r.in_place;
  }

  -- The last conversion: none without an accepted format or if the format is that of the frame.
  abbrev pub Converted :
      Option MemoryFormat → Shown × ColorState → Outcome Error (Shown × ColorState)
  Converted none (shown, color) = ok (shown, color)
  Converted (some target) (shown, color) =
      if same_format shown.0.memory_format target
      then ok (shown, color)
      else map_err editing
          (change_memory_format others.floats others.checked shown.1 shown.0 target)
        >>= (λ converted. ok (converted, color))

  with_format-Converted :
      (shown : Shown) (color : ColorState) (target : Option MemoryFormat)
      → (with_format others shown.0 shown.1 target >>= (λ last. ok (last, color)))
        ≡ Converted target (shown, color)
  unfolding with_format change_memory_format
  with_format-Converted shown color none = refl
  with_format-Converted shown color (some target) =
      elim (Bool-cases (same_format shown.0.memory_format target)) [
        | inl same ↦ rw same refl
        | inr other ↦ rw other refl
      ]

  abbrev InFormat : MemoryFormat → Shown × ColorState → Type 0
  InFormat target out = out.0.0.memory_format ≡ target

  Converted-InFormat :
      (shown : Shown) (color : ColorState) (target : MemoryFormat)
      → Gives (InFormat target) (Converted (some target) (shown, color))
  Converted-InFormat shown color target =
      elim (Bool-cases (same_format shown.0.memory_format target)) [
        | inl same ↦ rw same (same_format→≡ shown.0.memory_format target same)
        | inr other ↦ rw other (
            again (change_memory_format others.floats others.checked shown.1 shown.0 target) (
              change_memory_format-HasTarget others.floats others.checked shown.0 shown.1 target
                other))
      ]
    where
      again :
          (r : Outcome glycin.Editing.Error Shown)
          → Gives (λ (last : Shown). last.0.memory_format ≡ target) r
          → Gives (InFormat target) (map_err editing r >>= (λ last. ok (last, color)))
      again (ok last) h = h
      again (err e) h = tt
      again Outcome.panic h = tt

  -- The frame before the last conversion is oriented as asked, in its colours, and well-formed; the answer is
  -- what the conversion to the best accepted format comes to.
  pub record IsHandedOut (f : List ℕ → List ℕ) (image : Image) (frame : Frame FrameDetails)
      (buf : List ℕ) (answer : Outcome Error (Shown × ColorState)) : Type 0 where
    pub oriented_frame : Shown
    pub colored : Shown × ColorState
    pub pixels :
        IsOriented
          (applied image).0
          (applied image).1
          (dimensions frame)
          buf
          (dimensions oriented_frame.0, oriented_frame.1)
    pub colors :
        Colored f oriented_frame colored
          (known_cicp others frame.details.color_cicp)
          (profile_of others frame.details.color_icc_profile)
    pub well_formed : IsWellFormed colored.0.0 colored.0.1
    pub same_format : colored.0.0.memory_format ≡ frame.memory_format
    pub accepted :
        (target : MemoryFormat) (out : Shown × ColorState)
        → best_format_for image.memory_format_selection frame.memory_format ≡ some target
        → answer ≡ ok out
        → out.0.0.memory_format ≡ target
    pub converted :
        answer
        ≡ Converted (best_format_for image.memory_format_selection frame.memory_format) colored

  -- For a well-formed texture whose sides are so short that rows and columns of pixels, and one pixel more, stay
  -- below 2^32, and for which lcms2 accepts the profile, if it is used, with a transformation that
  -- works pixel by pixel and keeps the length: the image is oriented as asked; then, without a cicp
  -- and with a profile, packed and transformed as a whole, and otherwise kept; it is well-formed, in
  -- the format of the loader. The answer is this image, converted by `change_memory_format` to the
  -- best accepted format, if there is one and it is another, or the error of this conversion; so
  -- what is returned has the best accepted format.
  pub request_frame-IsHandedOut :
      (f : List ℕ → List ℕ) (image : Image) (frame : Frame FrameDetails) (buf : List ℕ)
      → IsReliable others f frame
      → IsWellFormed frame buf
      → (frame.height + 1) * to_number (n_bytes frame.memory_format) < u32_mod
      → frame.stride + to_number (n_bytes frame.memory_format) < u32_mod
      → length buf < usize_mod
      → IsHandedOut f image frame buf (request_frame others image frame buf)
  unfolding request_frame
  request_frame-IsHandedOut f image frame buf reliable valid column row small =
      let (shown, e, t) = oriented-IsTurned frame buf valid column row small image in
      let reliable' = IsReliable-same f frame shown.0 t.same_format t.same_details reliable in
      let (((frame2, buf2), color), e', (c, k)) =
        with_color-Colored others f shown.0 shown.1 reliable' t.again
          (subst (λ g. shown.0.stride + to_number (n_bytes g) < u32_mod) (sym t.same_format)
            t.stride_fits)
          (known_cicp others shown.0.details.color_cicp) in
      let checked : validate_frame frame buf ≡ ok tt =
        (validate_frame_iff frame buf (omega (arith, valid.small)) (omega (arith, valid.small))
            (omega (arith, row))).1
          valid in
      let format : frame2.memory_format ≡ frame.memory_format = k.same_format ∙ t.same_format in
      let answer : request_frame others image frame buf
          ≡ Converted (best_format_for image.memory_format_selection frame.memory_format)
              ((frame2, buf2), color) =
        rw (checked, e)
          (rw e' (
            with_format-Converted (frame2, buf2) color
              (best_format_for image.memory_format_selection frame2.memory_format)
            ∙ ap
                (λ (g : MemoryFormat).
                  Converted (best_format_for image.memory_format_selection g)
                    ((frame2, buf2), color))
                format)) in
      record {
        oriented_frame = shown;
        colored = ((frame2, buf2), color);
        pixels = t.pixels;
        colors =
            subst
              (λ (d : FrameDetails).
                Colored f shown ((frame2, buf2), color) (known_cicp others d.color_cicp)
                  (profile_of others d.color_icc_profile))
              t.same_details c;
        well_formed = k.well_formed;
        same_format = format;
        accepted = λ target out best e2.
            returned (InFormat target) (Converted (some target) ((frame2, buf2), color)) out
              (ap (λ o. Converted o ((frame2, buf2), color)) (sym best) ∙ sym answer ∙ e2)
              (Converted-InFormat (frame2, buf2) color target);
        converted = answer;
      }
