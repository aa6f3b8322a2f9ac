-- ===== src/Editing/ChangeMemoryFormat/Laws.antt =====
-- What `change_memory_format` makes of an image, by the branch it takes.
use glycin.Base.{
  ℕ, suc, ◌+◌, ◌*◌, ◌/◌, min, ◌≤◌, ◌<◌, ◌≡◌, ◌≢◌, refl, sym, ◌∙◌, ap, arith, true, false, List,
  length, get_or, Outcome, ok, Returns, u32_mod, usize_mod,
}
use glycin.Math.{Checked, IsChecked}
use glycin.Frame.{Frame}
use glycin.Format.Types.{MemoryFormat, ChannelType, u8, u16, size, same_type}
use glycin.Format.Tables.{n_channels, channel_type}
use glycin.Format.Transform.{Floats}
use glycin.Format.Laws.{format-HasLayout}
use glycin.Selection.{same_format}
use glycin.Editing.{Error}
use glycin.Editing.Images.{Buffer}
use glycin.Editing.ChangeMemoryFormat.{
  pixel_bytes, copies_channels, index_map, copy_pixel, narrow_pixel, pixel_function, convert_rows,
  change_memory_format,
}
use glycin.Editing.ChangeMemoryFormat.Rows.{Converts, convert_rows-HasRows}
use glycin.Editing.ChangeMemoryFormat.Indexes.{
  wanted, index_map-wanted, wanted-lt-n_channels, stored, wanted-stored,
}
use glycin.Editing.ChangeMemoryFormat.Pixels.{
  overlaid, copy_pixel-Converts, overlaid_beyond, overlaid_one,
}
use glycin.Editing.ChangeMemoryFormat.Narrow.{narrow_pixel-Converts}

-- The image has been converted: the byte `i` of a pixel that begins at `i0` of the source is
-- `value i0 i`.
pub record IsConverted {Details : Type 0} (frame : Frame Details) (target : MemoryFormat)
    (value : ℕ → ℕ → ℕ) (result : Frame Details × Buffer) : Type 0 where
  pub new_frame :
      result.0 ≡ record frame { stride = frame.width * pixel_bytes target; memory_format = target }
  pub full : length result.1 ≡ frame.height * (frame.width * pixel_bytes target)
  pub pixels :
      (y x i : ℕ)
      → y < frame.height
      → x < frame.width
      → i < pixel_bytes target
      → get_or result.1 (x * pixel_bytes target + y * (frame.width * pixel_bytes target) + i) 0
        ≡ value (x * pixel_bytes frame.memory_format + y * frame.stride) i

some_channels : (f : MemoryFormat) → (0 < n_channels f) × (n_channels f ≤ 4)
unfolding n_channels
some_channels MemoryFormat.g8 = (omega arith, omega arith)
some_channels f = (omega arith, omega arith)

size_bytes :
    (f : MemoryFormat) (n : ℕ) → size (channel_type f) ≡ n → pixel_bytes f ≡ n_channels f * n
size_bytes f n e = rw (sym e) ((format-HasLayout f).packed)

channel_lt :
    (f : MemoryFormat) (i : ℕ) → size (channel_type f) ≡ 1 → i < pixel_bytes f → i < n_channels f
channel_lt f i one hi = omega (arith, size_bytes f 1 one)

same_type→≡ : (s t : ChannelType) → same_type s t ≡ true → s ≡ t
unfolding same_type
same_type→≡ u8 t h = ground arith
same_type→≡ s t h = ground arith

module _ {Details : Type 0} (floats : Floats) (checked : Checked) (laws : IsChecked checked)
    (frame : Frame Details) (buf : Buffer) (target : MemoryFormat)
    (narrow : frame.width * pixel_bytes frame.memory_format ≤ frame.stride)
    (held : frame.stride * frame.height ≤ length buf)
    (other : same_format frame.memory_format target ≡ false)
    (row_fits : frame.width * pixel_bytes target < u32_mod)
    (image_fits : frame.height * (frame.width * pixel_bytes target) < usize_mod) where
  open frame use {width as w, height as h, stride, memory_format as src}

  abbrev tb : ℕ
  tb = pixel_bytes target

  converted :
      (pixel : ℕ → ℕ → List ℕ → Outcome Error (List ℕ)) (new_data : Buffer)
      → pixel_function floats src target buf ≡ ok pixel
      → convert_rows pixel frame target (w * tb) ≡ ok new_data
      → change_memory_format floats checked buf frame target
        ≡ ok (record frame { stride = w * tb; memory_format = target }, new_data)
  unfolding change_memory_format
  converted pixel new_data choice made =
      rw
        (
          other,
          laws.mul_fits u32_mod w tb row_fits,
          laws.mul_fits usize_mod h (w * tb) image_fits,
          choice,
          made,
        )
        refl

  pixels-IsConverted :
      (pixel : ℕ → ℕ → List ℕ → Outcome Error (List ℕ)) (value : ℕ → ℕ → ℕ)
      → pixel_function floats src target buf ≡ ok pixel
      → Converts (pixel_bytes src) (pixel_bytes target) buf value pixel
      → Returns
          (change_memory_format floats checked buf frame target)
          (IsConverted frame target value)
  pixels-IsConverted pixel value choice converts =
      let (new_data, made, (size', pixels)) =
        convert_rows-HasRows frame target buf value pixel converts narrow held in
      (
        _,
        converted pixel new_data choice made,
        record { new_frame = refl; full = size'; pixels = pixels },
      )

  module _ (copies : copies_channels src target ≡ true) where
    abbrev indexes : Returns {E = Error} (index_map src target) (λ indexes.
        (length indexes ≡ 4)
        × ((i : ℕ) → i < n_channels target → get_or indexes i 0 ≡ wanted src target i))
    indexes = index_map-wanted src target copies

    below : (i : ℕ) → i < n_channels target → get_or indexes.0 i 0 < n_channels src
    below i hi = rw (indexes.2.1 i hi) (wanted-lt-n_channels src target copies i hi)

    module _ (same : same_type (channel_type src) (channel_type target) ≡ true) where
      copied : Returns (change_memory_format floats checked buf frame target) (
          IsConverted frame target
            (overlaid src target indexes.0 buf (n_channels target) (size (channel_type target))))
      unfolding pixel_function
      copied =
          let channels = some_channels target in
          pixels-IsConverted (copy_pixel target indexes.0 buf) _ (rw (same, copies, indexes.1) refl)
            (copy_pixel-Converts src target indexes.0 buf indexes.2.0 channels.1 channels.0 below
              (rw (sym (same_type→≡ _ _ same)) (format-HasLayout src).packed)
              (format-HasLayout target).packed)

      -- Between formats of one 8-bit channel type that need neither premultiplication, nor a made-up
      -- opacity, nor a grey mean, the conversion of a well-formed image whose new size the integer types
      -- can hold returns, and each channel of each pixel is the byte of the channel that holds its value
      -- in the source, by the layout that pixels of the source's format are written in. The format
      -- A8b8g8r8 as a source is excepted, which is read by another layout than it is written in.
      pub change_memory_format-copied :
          src ≢ MemoryFormat.a8b8g8r8
          → size (channel_type target) ≡ 1
          → Returns
              (change_memory_format floats checked buf frame target)
              (IsConverted frame target (λ i0 i. get_or buf (i0 + stored src target i) 0))
      change_memory_format-copied right one =
          let (r, e, c) = copied in
          (
            r,
            e,
            record {
              new_frame = c.new_frame;
              full = c.full;
              pixels = λ y x i hy hx hi.
                  c.pixels y x i hy hx hi
                  ∙ rw one (
                      overlaid_one src target indexes.0 buf (n_channels target)
                        (x * pixel_bytes src + y * stride) i (channel_lt target i one hi))
                  ∙ ap (λ (k : ℕ). get_or buf (x * pixel_bytes src + y * stride + k) 0)
                      (indexes.2.1 i (channel_lt target i one hi)
                        ∙ wanted-stored src target right copies i (channel_lt target i one hi));
            },
          )

      -- Between formats of one channel type that need neither premultiplication, nor a made-up opacity,
      -- nor a grey mean, the conversion of a well-formed image whose new size the integer types can
      -- hold returns, but the bytes of each pixel from the number of channels plus the channel size
      -- minus one on are zero whatever the source holds.
      pub change_memory_format-zeroed :
          Returns (change_memory_format floats checked buf frame target) (λ r.
            (y x i : ℕ)
            → y < h
            → x < w
            → size (channel_type target) + n_channels target ≤ suc i
            → i < tb
            → get_or r.1 (x * tb + y * (w * tb) + i) 0 ≡ 0)
      change_memory_format-zeroed =
          let (r, e, c) = copied in
          (
            r,
            e,
            λ y x i hy hx hi last.
                c.pixels y x i hy hx last
                ∙ overlaid_beyond src target indexes.0 buf (n_channels target)
                    (size (channel_type target)) _ i (some_channels target).0 hi,
          )

    -- From 16-bit to 8-bit channels, between formats that need neither premultiplication, nor a made-up
    -- opacity, nor a grey mean, the conversion of a well-formed image whose new size the integer types
    -- can hold returns, and each channel of each pixel is the source's channel for it plus 128, at most
    -- 65535, divided by 256.
    pub change_memory_format-narrowed :
        channel_type src ≡ u16
        → channel_type target ≡ u8
        → Returns (change_memory_format floats checked buf frame target) (
            IsConverted frame target (λ i0 i.
              let at = i0 + wanted src target i * 2 in
              min (floats.u16_of_bytes (get_or buf at 0) (get_or buf (at + 1) 0) + 128) 65535
              / 256))
    unfolding pixel_function same_type size
    change_memory_format-narrowed wide byte =
        let channels = some_channels target in
        let (r, e, c) =
          pixels-IsConverted (narrow_pixel floats.u16_of_bytes src target indexes.0 buf) _
            (rw (copies, indexes.1, wide, byte) refl)
            (narrow_pixel-Converts floats.u16_of_bytes src target indexes.0 buf indexes.2.0
              channels.1 below (rw wide refl) (size_bytes src 2 (rw wide refl))
              (omega (arith, size_bytes target 1 (rw byte refl)))) in
        (
          r,
          e,
          record {
            new_frame = c.new_frame;
            full = c.full;
            pixels = λ y x i hy hx hi.
                c.pixels y x i hy hx hi
                ∙ ap
                    (λ (k : ℕ).
                      let at = x * pixel_bytes src + y * stride + k * 2 in
                      min (floats.u16_of_bytes (get_or buf at 0) (get_or buf (at + 1) 0) + 128)
                        65535
                      / 256)
                    (indexes.2.1 i (channel_lt target i (rw byte refl) hi));
          },
        )
