-- ===== src/Editing/Orientation.antt =====
-- `glycin-utils/src/editing/orientation.rs`: mirroring in place, and rotation. The two parts of an
-- orientation, `transformation.mirror()` and `transformation.rotate()`, are arguments.
--
-- Positions are computed as written; `usize` has 64 bits. The product `n_bytes` wraps as it does in
-- a release build, and so does the stride, which the source narrows to `u32`.
pub mod Grid
mod Copy
mod Swap
pub mod Laws
use package.glycin.Base.{
  ℕ, ◌+◌, ◌-◌, ◌*◌, ◌/◌, ◌%◌, Bool, true, false, ◌&&◌, ◌==◌, if◌then◌else◌, List, replicate,
}
use package.glycin.Base.{Outcome, ok, ◌>>=◌, ◌>>◌, read, write, for_in, u32_mod, usize_mod}
use package.glycin.Format.Extended.{pixel_size}
use glycin.Editing.Images.{Buffer}
use glycin.Editing.{EditingFrame, Error}
use package.glycin.Operations.{Rotation, deg0, deg90, deg180, deg270}

-- `img_buf.swap(p0, p1)`.
unfoldable pub swap : ℕ → ℕ → Buffer → Outcome Error Buffer
unfolding read write
swap p0 p1 buf = do v0 ← read buf p0; v1 ← read buf p1; buf' ← write buf p0 v1; write buf' p1 v0

unfoldable pub mirror_buffer : ℕ → ℕ → ℕ → ℕ → Buffer → Outcome Error Buffer
unfolding swap for_in
mirror_buffer stride width height pixel_size = for_in 0 (width / 2) λ x. for_in 0 height λ y.
    for_in 0 pixel_size
      λ i. swap (x * pixel_size + y * stride + i) ((width - 1 - x) * pixel_size + y * stride + i)

-- `v[p1] = img_buf[p0]`.
unfoldable pub copy_byte : Buffer → ℕ → ℕ → Buffer → Outcome Error Buffer
unfolding read write
copy_byte img_buf p1 p0 v = do b ← read img_buf p0; write v p1 b

unfoldable pub rotate_270 : ℕ → ℕ → ℕ → ℕ → Buffer → Outcome Error Buffer
unfolding copy_byte for_in
rotate_270 stride width height pixel_size img_buf =
    for_in 0 width
      (λ x. for_in 0 height λ y. for_in 0 pixel_size λ i.
        copy_byte img_buf (x * height * pixel_size + (height - 1 - y) * pixel_size + i)
          (x * pixel_size + y * stride + i))
      (replicate (width * height * pixel_size % usize_mod) 0)

unfoldable pub rotate_90 : ℕ → ℕ → ℕ → ℕ → Buffer → Outcome Error Buffer
unfolding copy_byte for_in
rotate_90 stride width height pixel_size img_buf =
    for_in 0 width
      (λ x. for_in 0 height λ y. for_in 0 pixel_size λ i.
        copy_byte img_buf ((width - 1 - x) * height * pixel_size + y * pixel_size + i)
          (x * pixel_size + y * stride + i))
      (replicate (width * height * pixel_size % usize_mod) 0)

unfoldable pub rotate_180 : ℕ → ℕ → ℕ → ℕ → Buffer → Outcome Error Buffer
unfolding swap for_in
rotate_180 stride width height pixel_size = for_in 0 ((width + 1) / 2) λ x.
    for_in 0 (if width % 2 == 1 && width / 2 == x then height / 2 else height) λ y.
      for_in 0 pixel_size λ i.
        swap (x * pixel_size + y * stride + i)
          ((width - 1 - x) * pixel_size + (height - 1 - y) * stride + i)

-- The frame of an image on its side.
unfoldable pub turned : EditingFrame → EditingFrame
turned frame = record frame {
  width = frame.height;
  height = frame.width;
  stride = frame.height * pixel_size frame.memory_format % u32_mod;
}

unfoldable pub rotate_buffer :
    Rotation → EditingFrame → Buffer → Outcome Error (EditingFrame × Buffer)
unfolding rotate_270 rotate_90 rotate_180 turned
rotate_buffer deg0 frame img_buf = ok (frame, img_buf)
rotate_buffer deg270 frame img_buf = do
  v ← rotate_270 frame.stride frame.width frame.height (pixel_size frame.memory_format) img_buf
  ok (turned frame, v)
rotate_buffer deg90 frame img_buf = do
  v ← rotate_90 frame.stride frame.width frame.height (pixel_size frame.memory_format) img_buf
  ok (turned frame, v)
rotate_buffer deg180 frame img_buf = do
  v ← rotate_180 frame.stride frame.width frame.height (pixel_size frame.memory_format) img_buf
  ok (frame, v)

unfoldable pub change_orientation :
    Bool → Rotation → EditingFrame → Buffer → Outcome Error (EditingFrame × Buffer)
unfolding mirror_buffer rotate_buffer
change_orientation mirror rotation frame img_buf = do
  img_buf' ←
      if mirror
      then mirror_buffer frame.stride frame.width frame.height (pixel_size frame.memory_format)
          img_buf
      else ok img_buf
  rotate_buffer rotation frame img_buf'
