-- ===== src/Editing/Clip.antt =====
-- `glycin-utils/src/editing/clip.rs`: cutting a rectangle out of an image, by a cursor over the
-- buffer. Of the cursor the position is kept; a seek may leave it behind the end of the buffer.
pub mod Laws
use package.glycin.Base.{
  ℕ, zero, suc, ◌+◌, ◌-◌, ◌*◌, min, Bool, leb, if◌then◌else◌, List, [], ◌++◌, length, take, drop,
  Outcome, ok, err, ◌>>=◌, ok_or, for_in, u32_mod, usize_mod, i64_mod,
}
use package.glycin.Math.{Checked}
use package.glycin.Format.Extended.{pixel_size}
use glycin.Editing.Images.{Buffer}
use glycin.Editing.{EditingFrame, Error, io, math}

-- `Cursor::read_exact` of `n` bytes at a position.
unfoldable pub read_exact : Buffer → ℕ → ℕ → Outcome Error (List ℕ)
read_exact buf n pos = if leb n (length buf - pos) then ok (take n (drop pos buf)) else err io

-- `Cursor::seek_relative` by the difference of two numbers: no position is negative.
unfoldable pub seek_by : ℕ → ℕ → ℕ → Outcome Error ℕ
seek_by forth back pos = if leb back (pos + forth) then ok (pos + forth - back) else err io

pub record Rows : Type 0 where
  pub cur : ℕ
  pub new : List ℕ

-- The body of the loop, with the bytes before a row, in it, and the stride.
unfoldable pub clip_row : Buffer → ℕ → ℕ → ℕ → Rows → Outcome Error Rows
unfolding read_exact seek_by
clip_row buf x_ width_ stride s = do
  cur ← seek_by x_ 0 s.cur
  row ← read_exact buf width_ cur
  cur' ← seek_by stride (x_ + width_) (cur + width_)
  ok (record { cur = cur'; new = s.new ++ row })

unfoldable pub clip :
    Checked → List ℕ → EditingFrame → ℕ → ℕ → ℕ → ℕ → Outcome Error (EditingFrame × List ℕ)
unfolding clip_row for_in
clip checked buf frame x y width height = do
  let ps = pixel_size frame.memory_format
  max_width ← ok_or (checked.sub frame.width x) math
  max_height ← ok_or (checked.sub frame.height y) math
  let width' = min width max_width
  let height' = min height max_height
  new_stride ← ok_or (checked.mul u32_mod width' ps) math
  size ← ok_or (checked.mul usize_mod height' new_stride) math
  x_ ← ok_or (checked.mul i64_mod x ps) math
  row_size ← ok_or (checked.mul usize_mod width' ps) math
  start ← ok_or (checked.mul i64_mod y frame.stride) math
  rows ←
      for_in 0 height' (λ _. clip_row buf x_ row_size frame.stride)
        (record { cur = start; new = [] })
  ok (record frame { width = width'; height = height'; stride = new_stride }, rows.new)
