-- ===== src/Editing/ChangeMemoryFormat.antt =====
-- `glycin-utils/src/editing/change_memory_format.rs`: an image in another pixel format. The rows of
-- the target, which the code fills in parallel, are separate: here they are filled in their order.
-- The buffer begins at an aligned address.
pub mod Rows
pub mod Indexes
pub mod Writes
pub mod Pixels
pub mod Narrow
pub mod Laws
use package.glycin.Base.{
  ℕ, zero, suc, ◌+◌, ◌*◌, ◌/◌, min, Bool, true, false, not, ◌&&◌, ◌||◌, leb, ◌==◌, if◌then◌else◌,
  List, [], ◌∷◌, ◌++◌, length, replicate, get_elem?, take, drop, Outcome, ok, err, panic, ◌>>=◌,
  ok_or, read, write, slice, for_in, u32_mod, usize_mod,
}
use package.glycin.Math.{Checked}
use package.glycin.Frame.{Frame}
use package.glycin.Format.Types.{
  MemoryFormat, ChannelType, u8, u16, size, same_type, Source, opaque, Target, a, rgb_avg,
  source_index, target_index, contains_source, contains_target, to_number,
}
use package.glycin.Format.Tables.{
  n_bytes, n_channels, channel_type, is_premultiplied, source_definition, target_definition,
}
use package.glycin.Format.Transform.{Floats, transform}
use package.glycin.Selection.{same_bool, same_format}
use glycin.Editing.{Error, math}
use glycin.Editing.Images.{Buffer}

abbrev pub pixel_bytes : MemoryFormat → ℕ
pixel_bytes f = to_number (n_bytes f)

-- What the two shortcuts have in common: the same premultiplication, no opacity that has to be made
-- up, and no grey to be computed.
unfoldable pub copies_channels : MemoryFormat → MemoryFormat → Bool
unfolding same_bool
copies_channels src target =
    same_bool (is_premultiplied src) (is_premultiplied target)
    && (not (contains_source (source_definition src) opaque)
        || not (contains_target (target_definition target) a))
    && not (contains_target (target_definition target) rgb_avg)

-- `source_target_index_map`, from the entry `n` on.
unfoldable pub fill_map : List Source → ℕ → List Target → List ℕ → Outcome Error (List ℕ)
unfolding read write
fill_map sources n [] indexes = ok indexes
fill_map sources n (t ∷ ts) indexes = do
  s ← read sources (target_index t)
  indexes' ← write indexes n (source_index s)
  fill_map sources (suc n) ts indexes'

unfoldable pub index_map : MemoryFormat → MemoryFormat → Outcome Error (List ℕ)
unfolding fill_map
index_map src target = fill_map (source_definition src) 0 (target_definition target) (replicate 4 0)

-- A pixel of the first shortcut, at `i0` of the source and `k0` of the new row.
unfoldable pub copy_pixel : MemoryFormat → List ℕ → Buffer → ℕ → ℕ → List ℕ → Outcome Error (List ℕ)
unfolding for_in read write
copy_pixel target indexes src_data i0 k0 = for_in 0 (size (channel_type target)) λ channel_byte.
    for_in 0 (n_channels target) λ i new_row. do
      index ← read indexes i
      v ← read src_data (i0 + index + channel_byte)
      write new_row (k0 + i + channel_byte) v

-- A pixel of the second shortcut: 16 bits to 8, `from_ne_bytes(..).saturating_add(128) >> 8`.
unfoldable pub narrow_pixel :
    (ℕ → ℕ → ℕ)
    → MemoryFormat
    → MemoryFormat
    → List ℕ
    → Buffer
    → ℕ
    → ℕ
    → List ℕ
    → Outcome Error (List ℕ)
unfolding for_in read write
narrow_pixel from_ne_bytes src target indexes src_data i0 k0 =
    for_in 0 (n_channels target) λ i new_row. do
      index ← read indexes i
      b0 ← read src_data (i0 + index * size (channel_type src))
      b1 ← read src_data (i0 + index * size (channel_type src) + 1)
      write new_row (k0 + i) (min (from_ne_bytes b0 b1 + 128) 65535 / 256)

-- A pixel of the general case.
unfoldable pub transform_pixel :
    Floats → MemoryFormat → MemoryFormat → Buffer → ℕ → ℕ → List ℕ → Outcome Error (List ℕ)
unfolding slice
transform_pixel floats src target src_data i0 k0 new_row = do
  pixel ← slice src_data i0 (pixel_bytes src)
  place ← slice new_row k0 (pixel_bytes target)
  place' ← transform floats src i0 pixel target place
  ok (take k0 new_row ++ (place' ++ drop (k0 + pixel_bytes target) new_row))

-- The choice among the three, once for all pixels: a function of `i0`, `k0` and the new row.
unfoldable pub pixel_function :
    Floats
    → MemoryFormat
    → MemoryFormat
    → Buffer
    → Outcome Error (ℕ → ℕ → List ℕ → Outcome Error (List ℕ))
unfolding copies_channels index_map
pixel_function floats src target src_data =
    if same_type (channel_type src) (channel_type target) && copies_channels src target
    then index_map src target >>= (λ indexes. ok (copy_pixel target indexes src_data))
    else if same_type (channel_type src) u16
        && same_type (channel_type target) u8
        && copies_channels src target
    then index_map src target
      >>= (λ indexes. ok (narrow_pixel floats.u16_of_bytes src target indexes src_data))
    else ok (transform_pixel floats src target src_data)

module _ {Details : Type 0} where
  unfoldable pub convert_row :
      (ℕ → ℕ → List ℕ → Outcome Error (List ℕ))
      → Frame Details
      → MemoryFormat
      → ℕ
      → ℕ
      → Outcome Error (List ℕ)
  unfolding for_in
  convert_row pixel frame target new_stride y =
      for_in 0 frame.width
        (λ x.
          pixel (x * pixel_bytes frame.memory_format + y * frame.stride) (x * pixel_bytes target))
        (replicate new_stride 0)

  unfoldable pub convert_rows :
      (ℕ → ℕ → List ℕ → Outcome Error (List ℕ))
      → Frame Details
      → MemoryFormat
      → ℕ
      → Outcome Error Buffer
  unfolding convert_row for_in
  convert_rows pixel frame target new_stride =
      for_in 0 frame.height
        (λ y new_data.
          convert_row pixel frame target new_stride y >>= (λ row. ok (new_data ++ row)))
        []

module _ {Details : Type 0} (floats : Floats) (checked : Checked) where
  unfoldable pub change_memory_format :
      Buffer → Frame Details → MemoryFormat → Outcome Error (Frame Details × Buffer)
  unfolding pixel_function convert_rows same_format
  change_memory_format img_buf frame target =
      if same_format frame.memory_format target
      then ok (frame, img_buf)
      else ok_or (checked.mul u32_mod frame.width (pixel_bytes target)) math >>= (λ new_stride.
        ok_or (checked.mul usize_mod frame.height new_stride) math >>= (λ new_total_size.
          pixel_function floats frame.memory_format target img_buf >>= (λ pixel.
            convert_rows pixel frame target new_stride >>= (λ new_data.
              ok (record frame { stride = new_stride; memory_format = target }, new_data)))))
