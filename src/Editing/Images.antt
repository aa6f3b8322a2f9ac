-- ===== src/Editing/Images.antt =====
-- An image in memory: its dimensions and its bytes, row after row.
use glycin.Base.{ℕ, ◌+◌, ◌*◌, ◌≤◌, List, length, get_or}
use glycin.Format.Extended.{pixel_size}
use glycin.Editing.{EditingFrame}

abbrev pub Buffer : Type 0
Buffer = List ℕ

-- The rows fit into the stride, and the buffer holds all of them.
pub record IsValid (frame : EditingFrame) (buf : Buffer) : Type 0 where
  pub narrow : frame.width * pixel_size frame.memory_format ≤ frame.stride
  pub held : frame.stride * frame.height ≤ length buf

-- A byte of the pixel in column `x` and row `y`.
abbrev pub byte : EditingFrame → Buffer → ℕ → ℕ → ℕ → ℕ
byte frame buf x y i = get_or buf (x * pixel_size frame.memory_format + y * frame.stride + i) 0
