-- ===== src/Editing/ChangeMemoryFormat/Narrow.antt =====
-- What the second shortcut of `change_memory_format` makes of one pixel.
use glycin.Base.{
  ℕ, ◌+◌, ◌*◌, ◌/◌, min, ◌≤◌, ◌<◌, ◌≡◌, inl, inr, refl, ◌∙◌, arith, List, length, get_or, read_lem,
  write_lem,
}
use glycin.Format.Types.{MemoryFormat, size}
use glycin.Format.Tables.{n_channels, channel_type}
use glycin.Editing.Images.{Buffer}
use glycin.Editing.ChangeMemoryFormat.{pixel_bytes, narrow_pixel}
use glycin.Editing.ChangeMemoryFormat.Rows.{Converts}
use glycin.Editing.ChangeMemoryFormat.Writes.{writes-Written}

-- The 16 bits of a channel, rounded to 8.
abbrev pub narrowed : (ℕ → ℕ → ℕ) → List ℕ → Buffer → ℕ → ℕ → ℕ
narrowed from_ne_bytes indexes src_data i0 i =
    let at = i0 + get_or indexes i 0 * 2 in
    min (from_ne_bytes (get_or src_data at 0) (get_or src_data (at + 1) 0) + 128) 65535 / 256

-- The pixel that the second shortcut makes.
pub narrow_pixel-Converts :
    (from_ne_bytes : ℕ → ℕ → ℕ) (src target : MemoryFormat) (indexes : List ℕ) (src_data : Buffer)
    → length indexes ≡ 4
    → n_channels target ≤ 4
    → ((i : ℕ) → i < n_channels target → get_or indexes i 0 < n_channels src)
    → size (channel_type src) ≡ 2
    → pixel_bytes src ≡ n_channels src * 2
    → pixel_bytes target ≡ n_channels target
    → Converts
        (pixel_bytes src)
        (pixel_bytes target)
        src_data
        (narrowed from_ne_bytes indexes src_data)
        (narrow_pixel from_ne_bytes src target indexes src_data)
unfolding narrow_pixel
narrow_pixel-Converts from_ne_bytes src target indexes src_data entries few in_range two src_bytes
      target_bytes i0 k0 row held room fresh =
    let (out, e, (size', new, old)) =
      writes-Written _ (narrowed from_ne_bytes indexes src_data i0) k0 (n_channels target) row
        (λ i r hi e.
          rw
            (
              read_lem indexes i 0 (omega arith),
              two,
              read_lem src_data (i0 + get_or indexes i 0 * 2) 0 (omega (arith, in_range i hi)),
              read_lem src_data (i0 + get_or indexes i 0 * 2 + 1) 0 (omega (arith, in_range i hi)),
              write_lem r (k0 + i) (narrowed from_ne_bytes indexes src_data i0 i) (omega arith),
            )
            refl)
        (omega arith) in
    (
      out,
      e,
      (
        size',
        λ i hi. new i (omega arith),
        λ k hk. old k (inl hk),
        λ k hk. old k (inr (omega arith)) ∙ fresh k (omega arith),
      ),
    )
