-- ===== src/Texture/Validate.antt =====
-- What `validate_frame` lets pass.
use glycin.Base.{ℕ, ◌*◌, ◌≤◌, ◌<◌, ◌≡◌, ◌↔◌, arith, List, length, ok, u32_mod, i32_mod}
use glycin.Format.Types.{to_number}
use glycin.Format.Tables.{n_bytes}
use glycin.Frame.{Frame, size_bytes}
use glycin.SafeMath.{try_convert, smul}
use glycin.Texture.{validate_frame, max_texture_size}

-- The frame describes an image, and the buffer holds it.
pub record IsWellFormed {Details : Type 0} (frame : Frame Details) (buf : List ℕ) : Type 0 where
  pub positive : (0 < frame.width) × (0 < frame.height)
  pub small : (frame.width < i32_mod) × (frame.height < i32_mod)
  pub row_fits : frame.width * to_number (n_bytes frame.memory_format) < u32_mod
  pub narrow : frame.width * to_number (n_bytes frame.memory_format) ≤ frame.stride
  pub bounded : frame.stride * frame.height ≤ max_texture_size
  pub held : frame.stride * frame.height ≤ length buf

-- For a frame whose fields are `u32`, the validation passes exactly if it is well-formed.
pub validate_frame_iff :
    {Details : Type 0} (frame : Frame Details) (buf : List ℕ)
    → frame.width < u32_mod
    → frame.height < u32_mod
    → frame.stride < u32_mod
    → (validate_frame frame buf ≡ ok tt) ↔ IsWellFormed frame buf
unfolding validate_frame size_bytes try_convert smul
validate_frame_iff frame buf hw hh hs = (
  λ e. record {
    positive = (ground arith, ground arith);
    small = (ground arith, ground arith);
    row_fits = ground arith;
    narrow = ground arith;
    bounded = ground arith;
    held = ground arith;
  },
  λ v. ground (arith, v.positive, v.small, v.row_fits, v.narrow, v.bounded, v.held),
)
