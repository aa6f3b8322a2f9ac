-- ===== src/Format/Laws.antt =====
-- The tables of the pixel formats agree with one another.
use glycin.Base.{ℕ, suc, ◌*◌, ◌≡◌, ◌≢◌, refl, arith, true}
use mathlib.Core.Option
use glycin.Base.{not, ◌↔◌, List, [], ◌∷◌, length, get_elem?, some}
use glycin.Format.Types.{
  MemoryFormat, a8b8g8r8, Source, Target, opaque, r, g, b, a, rgb_avg, to_number, size,
  source_index, target_index, contains_source, contains_target,
}
use glycin.Format.Tables.{
  n_bytes, n_channels, channel_type, has_alpha, is_premultiplied, source_definition,
  target_definition,
}

-- The entry names the channel with number `i`.
abbrev IsChannel : List Source → ℕ → Target → Type 0
IsChannel sources i t = Option.map source_index (get_elem? sources (target_index t)) ≡ some i

-- Reading a pixel by `sources` finds each value where writing it by the targets has put it, where
-- the first target writes the channel `i`. A grey channel is read for each of the three colours.
abbrev pub ReadsBack : List Source → ℕ → List Target → Type 0
ReadsBack sources i [] = Unit {0}
ReadsBack sources i (rgb_avg ∷ ts) =
    IsChannel sources i r
    × IsChannel sources i g
    × IsChannel sources i b
    × ReadsBack sources (suc i) ts
ReadsBack sources i (t ∷ ts) = IsChannel sources i t × ReadsBack sources (suc i) ts

-- The layout that the tables give to a format.
pub record HasLayout (f : MemoryFormat) : Type 0 where
  pub packed : to_number (n_bytes f) ≡ n_channels f * size (channel_type f)
  pub one_target_each : length (target_definition f) ≡ n_channels f
  pub four_sources : length (source_definition f) ≡ 4
  pub alpha_read : contains_source (source_definition f) opaque ≡ not (has_alpha f)
  pub alpha_written : contains_target (target_definition f) a ≡ has_alpha f
  pub premultiplied_alpha : is_premultiplied f ≡ true → has_alpha f ≡ true

-- Every format satisfies `HasLayout`: its pixels are its channels with no padding, it has a target for each
-- channel and four sources, opacity is read and written exactly if it has an alpha channel, and
-- only formats with an alpha channel are premultiplied.
pub format-HasLayout : (f : MemoryFormat) → HasLayout f
unfolding to_number n_bytes n_channels size channel_type has_alpha is_premultiplied
    source_definition target_definition contains_target contains_source target_index source_index
format-HasLayout MemoryFormat.b8g8r8a8 = record {
  packed = refl;
  one_target_each = refl;
  four_sources = refl;
  alpha_read = refl;
  alpha_written = refl;
  premultiplied_alpha = λ h. ground arith;
}
format-HasLayout f = record {
  packed = refl;
  one_target_each = refl;
  four_sources = refl;
  alpha_read = refl;
  alpha_written = refl;
  premultiplied_alpha = λ h. ground arith;
}

-- A format's source table undoes its target table exactly if the format is not `A8b8g8r8`.
pub ReadsBack-iff :
    (f : MemoryFormat) → ReadsBack (source_definition f) 0 (target_definition f) ↔ (f ≢ a8b8g8r8)
unfolding source_definition target_definition source_index target_index
ReadsBack-iff MemoryFormat.a8b8g8r8 = (λ h. ground arith, λ h. absurd (h refl))
ReadsBack-iff f = (λ h e. cc, λ h. ground arith)
