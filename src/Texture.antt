-- ===== src/Texture.antt =====
-- What the client does with the texture of a frame before it uses it (`glycin/src/dbus.rs`): the
-- validation of what a loader, which is not trusted, has sent, and the removal of the stride.
pub mod Validate
pub mod Compact
pub mod Stride
use package.glycin.Base.{
  ℕ, zero, suc, ◌+◌, ◌-◌, ◌*◌, Bool, ◌||◌, ltb, ◌==◌, if◌then◌else◌, List, [], length, Option,
  Outcome, ok, err, ◌>>=◌, ◌>>◌, ensure, not, ok_or, u32_mod, usize_mod, slice, store, resize,
  for_in,
}
use package.glycin.Format.Types.{to_number}
use package.glycin.Format.Tables.{n_bytes}
use package.glycin.Frame.{Frame, size_bytes}
use package.glycin.SafeMath.{try_usize, try_i32, try_u32, try_convert, smul, sadd, srem}

-- The errors of `glycin/src/error.rs` that this code returns, without the messages.
pub data Error : Type 0 where
  texture_wrong_size : ℕ → Error
  stride_too_small width_or_height_zero texture_too_large dimension_too_large math common : Error

-- `MAX_TEXTURE_SIZE`.
abbrev pub max_texture_size : ℕ
max_texture_size = 8000000000

module _ {Details : Type 0} where
  unfoldable pub validate_frame : Frame Details → List ℕ → Outcome Error (Unit {0})
  unfolding size_bytes try_convert smul
  validate_frame frame img_buf = do
    size ← size_bytes dimension_too_large frame
    ensure (not (ltb (length img_buf) size)) (texture_wrong_size (length img_buf))
    row ← smul dimension_too_large u32_mod frame.width (to_number (n_bytes frame.memory_format))
    ensure (not (ltb frame.stride row)) stride_too_small
    ensure (not (ltb frame.width 1 || ltb frame.height 1)) width_or_height_zero
    all ← smul dimension_too_large usize_mod frame.stride frame.height
    ensure (not (ltb max_texture_size all)) texture_too_large
    _ ← try_i32 dimension_too_large frame.width
    _ ← try_i32 dimension_too_large frame.height
    _ ← try_usize dimension_too_large frame.stride
    ok tt

-- The body of the loop of `remove_stride_if_needed`.
unfoldable pub remove_row : ℕ → ℕ → ℕ → List ℕ → Outcome Error (List ℕ)
unfolding smul sadd slice store
remove_row width stride row img_buf = do
  from ← smul dimension_too_large usize_mod row stride
  to ← sadd dimension_too_large usize_mod from width
  source ← slice img_buf from (to - from)
  at ← smul dimension_too_large usize_mod row width
  next ← sadd dimension_too_large usize_mod row 1
  end ← smul dimension_too_large usize_mod next width
  store img_buf at source

-- `to_i64` is the conversion of another crate (`gufo_common::math::ToI64`). The buffer is resized
-- as a vector; for a mapped file the code has the file resized and mapped again.
module _ {Details : Type 0} (to_i64 : ℕ → Option ℕ) where
  -- From the conversion of the width on.
  unfoldable pub remove_stride : List ℕ → Frame Details → Outcome Error (Frame Details × List ℕ)
  unfolding try_convert smul remove_row for_in size_bytes
  remove_stride img_buf frame = do
    w ← try_usize dimension_too_large frame.width
    width ← smul dimension_too_large usize_mod w (to_number (n_bytes frame.memory_format))
    stride ← try_usize dimension_too_large frame.stride
    height ← try_usize dimension_too_large frame.height
    img_buf' ← for_in 1 (height - 1) (remove_row width stride) img_buf
    new_stride ← try_u32 dimension_too_large width
    let frame' = record frame { stride = new_stride }
    size ← size_bytes dimension_too_large frame'
    new_size ← ok_or (to_i64 size) math
    ok (frame', resize img_buf' new_size 0)

  unfoldable pub remove_stride_if_needed :
      List ℕ → Frame Details → Outcome Error (Frame Details × List ℕ)
  unfolding srem remove_stride
  remove_stride_if_needed img_buf frame = do
    rest ← srem dimension_too_large u32_mod frame.stride (to_number (n_bytes frame.memory_format))
    if rest == 0 then ok (frame, img_buf) else remove_stride img_buf frame
