-- ===== src/Texture/Stride.antt =====
-- What `remove_stride_if_needed` makes of a validated texture.
use native.Mathlib.Nat.{mul-le-mul_left, mul-le-mul_right}
use glycin.Base.{
  ℕ, suc, ◌+◌, ◌-◌, ◌*◌, ◌≤◌, ◌<◌, ◌≡◌, refl, ◌∙◌, ap, arith, List, length, get_or, Option, some,
  ok, ◌>>=◌, u32_mod, i32_mod, usize_mod, i64_mod, slice, store, resize, length-resize,
  get_or-resize, for_in, row_lt, Returns,
}
use glycin.Format.Types.{MemoryFormat, to_number}
use glycin.Format.Tables.{n_bytes}
use glycin.Frame.{Frame, size_bytes}
use glycin.SafeMath.{try_convert, smul, sadd, srem}
use glycin.Texture.{
  dimension_too_large, max_texture_size, remove_row, remove_stride, remove_stride_if_needed,
}
use glycin.Texture.Validate.{IsWellFormed}
use glycin.Texture.Compact.{rows-Compacted}

pub fits : {E : Type 0} (e : E) (bound a b : ℕ) → a * b < bound → smul e bound a b ≡ ok (a * b)
unfolding smul
fits e bound a b h = ground arith

adds : {E : Type 0} (e : E) (bound a b : ℕ) → a + b < bound → sadd e bound a b ≡ ok (a + b)
unfolding sadd
adds e bound a b h = ground arith

pub converts : {E : Type 0} (e : E) (bound n : ℕ) → n < bound → try_convert e bound n ≡ ok n
unfolding try_convert
converts e bound n h = ground arith

pub positive_bytes : (f : MemoryFormat) → 0 < to_number (n_bytes f)
unfolding to_number
positive_bytes f = ground arith

remove_row-moves :
    (width stride height : ℕ)
    → width ≤ stride
    → stride * height ≤ max_texture_size
    → height < i32_mod
    → (y : ℕ) (b : List ℕ) → y < height
    → remove_row width stride y b ≡ (slice b (y * stride) width >>= store b (y * width))
unfolding remove_row
remove_row-moves width stride height narrow bounded few y b hy =
    let source : suc y * stride ≤ height * stride = mul-le-mul_right stride hy in
    let target : suc y * width ≤ suc y * stride = mul-le-mul_left (suc y) narrow in
    rw
      (
        fits dimension_too_large usize_mod y stride (omega arith),
        adds dimension_too_large usize_mod (y * stride) width (omega arith),
        (let q : y * stride + width - y * stride ≡ width = omega arith in q),
        fits dimension_too_large usize_mod y width (omega arith),
        adds dimension_too_large usize_mod y 1 (omega arith),
        fits dimension_too_large usize_mod (y + 1) width (omega arith),
      )
      refl

-- The image stands without gaps: the same pixels, and nothing after them.
pub record IsPacked {Details : Type 0} (frame : Frame Details) (buf : List ℕ)
    (result : Frame Details × List ℕ) : Type 0 where
  pub new_frame :
      result.0 ≡ record frame { stride = frame.width * to_number (n_bytes frame.memory_format) }
  pub exact : length result.1 ≡ result.0.stride * result.0.height
  pub rows :
      (y i : ℕ)
      → y < frame.height
      → i < frame.width * to_number (n_bytes frame.memory_format)
      → get_or result.1 (y * result.0.stride + i) 0 ≡ get_or buf (y * frame.stride + i) 0
  pub valid : IsWellFormed result.0 result.1

module _ {Details : Type 0} (to_i64 : ℕ → Option ℕ)
    (conversion : (n : ℕ) → n < i64_mod → to_i64 n ≡ some n) (frame : Frame Details) (buf : List ℕ)
    (valid : IsWellFormed frame buf) where
  open frame use {width as w, height as h, stride}

  abbrev pixel : ℕ
  pixel = to_number (n_bytes frame.memory_format)

  last_row : (y : ℕ) → y < h → y * stride + w * pixel ≤ length buf
  last_row y hy =
      let q : suc y * stride ≤ h * stride = mul-le-mul_right stride hy in
      omega (arith, valid.held, valid.narrow)

  first_row : (y i : ℕ) → y ≡ 0 → get_or buf (y * (w * pixel) + i) 0 ≡ get_or buf (y * stride + i) 0
  first_row y i z = rw z (
      ap (λ (k : ℕ). get_or buf k 0)
        (let q : 0 * (w * pixel) + i ≡ 0 * stride + i = omega arith in q))

  runs :
      (b : List ℕ)
      → for_in 1 (h - 1) (remove_row (w * pixel) stride) buf ≡ ok b
      → remove_stride to_i64 buf frame
        ≡ ok (record frame { stride = w * pixel }, resize b (w * pixel * h) 0)
  unfolding remove_stride size_bytes
  runs b e =
      let one : stride * 1 ≤ stride * h = mul-le-mul_left stride valid.positive.1 in
      let packed : w * pixel * h ≤ stride * h = mul-le-mul_right h valid.narrow in
      rw
        (
          converts dimension_too_large usize_mod w (omega (arith, valid.small)),
          fits dimension_too_large usize_mod w pixel (omega (arith, valid.row_fits)),
          converts dimension_too_large usize_mod stride (omega (arith, valid.bounded)),
          converts dimension_too_large usize_mod h (omega (arith, valid.small)),
          e,
          converts dimension_too_large u32_mod (w * pixel) valid.row_fits,
          converts dimension_too_large usize_mod (w * pixel) (omega (arith, valid.row_fits)),
          fits dimension_too_large usize_mod (w * pixel) h (omega (arith, valid.bounded)),
          conversion (w * pixel * h) (omega (arith, valid.bounded)),
        )
        refl

  remove_stride-IsPacked : Returns (remove_stride to_i64 buf frame) (IsPacked frame buf)
  unfolding remove_stride size_bytes
  remove_stride-IsPacked =
      let (b, e, (size', new, rest)) =
        rows-Compacted (w * pixel) stride h buf valid.narrow (remove_row (w * pixel) stride)
          (remove_row-moves (w * pixel) stride h valid.narrow valid.bounded valid.small.1) last_row
          1 (h - 1) (omega (arith, valid.positive)) buf
          (refl, λ y i hy hi. first_row y i (omega arith), λ k hk. refl) in
      let packed : w * pixel * h ≤ stride * h = mul-le-mul_right h valid.narrow in
      (
        (record frame { stride = w * pixel }, resize b (w * pixel * h) 0),
        runs b e,
        record {
          new_frame = refl;
          exact = length-resize b (w * pixel * h) 0;
          rows = λ y i hy hi.
              let q = row_lt (w * pixel) y i h 0 hi hy in
              get_or-resize b (w * pixel * h) (y * (w * pixel) + i) 0 (omega arith)
                (omega (arith, valid.held))
              ∙ new y i hy hi;
          valid = record {
            positive = valid.positive;
            small = valid.small;
            row_fits = valid.row_fits;
            narrow = omega arith;
            bounded = omega (arith, valid.bounded);
            held = omega (arith, length-resize b (w * pixel * h) 0);
          };
        },
      )

  -- With a conversion to `i64` that accepts every number below 2^63, a well-formed texture whose stride
  -- plus pixel size stays below 2^32 is always packed: its rows are
  -- moved together, the buffer ends with the last of them, and the result is well-formed again. A
  -- stride that is a multiple of the pixel size is no exception.
  pub remove_stride_if_needed-IsPacked :
      stride + pixel < u32_mod
      → Returns (remove_stride_if_needed to_i64 buf frame) (IsPacked frame buf)
  unfolding remove_stride_if_needed srem
  remove_stride_if_needed-IsPacked small =
      let (r, e, p) = remove_stride-IsPacked in
      (r, ground (arith, positive_bytes frame.memory_format, e, small), p)
