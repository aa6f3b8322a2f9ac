-- ===== src/Format/Transform.antt =====
-- `MemoryFormat::transform` of `glycin-common/src/memory_format.rs`: one pixel from one format to
-- another by way of four 32-bit floats. The floats, and how numbers stand in memory, are a
-- parameter. References to 16-bit and 32-bit channels must be aligned: `unwrap` panics on others.
use Prim.Native.Nat.{◌%◌}
use glycin.Base.{
  ℕ, suc, ◌+◌, ◌*◌, Bool, true, ◌&&◌, leb, ◌==◌, if◌then◌else◌, List, [], ◌∷◌, length, get_or,
  Outcome, ok, panic, ◌>>=◌, read, write,
}
use glycin.Format.Types.{
  MemoryFormat, ChannelType, u8, u16, f16, f32, size, Source, opaque, Target, r, g, b, a, rgb_avg,
  source_index,
}
use glycin.Format.Tables.{channel_type, is_premultiplied, source_definition, target_definition}

-- `f32` with the operations that are used, `half::f16`, and the native byte order. `round_to` is
-- `round` and the cast to an integer type with the given largest value.
pub record Floats : Type 1 where
  pub F32 : Type 0
  pub one : F32
  pub three : F32
  pub add : F32 → F32 → F32
  pub mul : F32 → F32 → F32
  pub div : F32 → F32 → F32
  pub is_positive : F32 → Bool
  pub of_number : ℕ → F32
  pub round_to : ℕ → F32 → ℕ
  pub u16_of_bytes : ℕ → ℕ → ℕ
  pub u16_bytes : ℕ → ℕ × ℕ
  pub f16_of_bytes : ℕ → ℕ → F32
  pub f16_bytes : F32 → ℕ × ℕ
  pub f32_of_bytes : ℕ → ℕ → ℕ → ℕ → F32
  pub f32_bytes : F32 → ℕ × ℕ × ℕ × ℕ

module _ (floats : Floats) where
  open floats use {F32}

  -- `[f32; 4]`, in the order red, green, blue, opacity.
  pub record Rgba : Type 0 where
    pub red : F32
    pub green : F32
    pub blue : F32
    pub alpha : F32

  -- `to_f32_normed` of the channel whose bytes begin at `at`.
  unfoldable pub to_f32_normed : ChannelType → List ℕ → ℕ → F32
  to_f32_normed u8 src at = floats.div (floats.of_number (get_or src at 0)) (floats.of_number 255)
  to_f32_normed u16 src at =
      floats.div (floats.of_number (floats.u16_of_bytes (get_or src at 0) (get_or src (at + 1) 0)))
        (floats.of_number 65535)
  to_f32_normed f16 src at = floats.f16_of_bytes (get_or src at 0) (get_or src (at + 1) 0)
  to_f32_normed f32 src at =
      floats.f32_of_bytes (get_or src at 0) (get_or src (at + 1) 0) (get_or src (at + 2) 0)
        (get_or src (at + 3) 0)

  -- The bytes of `from_f32_normed`.
  unfoldable pub from_f32_normed : ChannelType → F32 → List ℕ
  from_f32_normed u8 v = floats.round_to 255 (floats.mul v (floats.of_number 255)) ∷ []
  from_f32_normed u16 v =
      let (b0, b1) =
        floats.u16_bytes (floats.round_to 65535 (floats.mul v (floats.of_number 65535))) in
      b0 ∷ b1 ∷ []
  from_f32_normed f16 v = let (b0, b1) = floats.f16_bytes v in b0 ∷ b1 ∷ []
  from_f32_normed f32 v = let (b0, b1, b2, b3) = floats.f32_bytes v in b0 ∷ b1 ∷ b2 ∷ b3 ∷ []

  -- `source_channels[k].to_f32_normed()`, or 1 for `Opaque`.
  unfoldable pub channel_value : {E : Type 0} → ChannelType → List ℕ → Source → Outcome E F32
  unfolding to_f32_normed source_index size
  channel_value t src opaque = ok floats.one
  channel_value t src s =
      let k = source_index s in
      if leb ((k + 1) * size t) (length src) then ok (to_f32_normed t src (k * size t)) else panic

  unfoldable pub unpremultiply : MemoryFormat → Rgba → Rgba
  unpremultiply format c =
      if is_premultiplied format && floats.is_positive c.alpha
      then record {
        red = floats.div c.red c.alpha;
        green = floats.div c.green c.alpha;
        blue = floats.div c.blue c.alpha;
        alpha = c.alpha;
      }
      else c

  unfoldable pub to_f32_internal : {E : Type 0} → MemoryFormat → List ℕ → Outcome E Rgba
  unfolding channel_value unpremultiply read source_definition channel_type is_premultiplied
  to_f32_internal format src = do
    s0 ← read (source_definition format) 0
    red ← channel_value (channel_type format) src s0
    s1 ← read (source_definition format) 1
    green ← channel_value (channel_type format) src s1
    s2 ← read (source_definition format) 2
    blue ← channel_value (channel_type format) src s2
    s3 ← read (source_definition format) 3
    alpha ← channel_value (channel_type format) src s3
    ok (unpremultiply format (record { red = red; green = green; blue = blue; alpha = alpha }))

  -- Whether the bytes at the address are a slice of channels. The half floats are read from bytes.
  unfoldable pub is_slice : ChannelType → ℕ → List ℕ → Bool
  is_slice u8 address src = true
  is_slice u16 address src = address % 2 == 0 && length src % 2 == 0
  is_slice f16 address src = true
  is_slice f32 address src = address % 4 == 0 && length src % 4 == 0

  unfoldable pub to_f32 : {E : Type 0} → MemoryFormat → ℕ → List ℕ → Outcome E Rgba
  unfolding is_slice to_f32_internal
  to_f32 format address src =
      if is_slice (channel_type format) address src then to_f32_internal format src else panic

  unfoldable pub target_value : MemoryFormat → Rgba → Target → F32
  unfolding is_premultiplied
  target_value format c r =
      floats.mul c.red (if is_premultiplied format then c.alpha else floats.one)
  target_value format c g =
      floats.mul c.green (if is_premultiplied format then c.alpha else floats.one)
  target_value format c b =
      floats.mul c.blue (if is_premultiplied format then c.alpha else floats.one)
  target_value format c a = c.alpha
  target_value format c rgb_avg =
      floats.div (floats.add (floats.add c.red c.green) c.blue) floats.three

  -- `target[at + i] = bytes[i]` for every `i`.
  unfoldable pub write_bytes : {E : Type 0} → List ℕ → ℕ → List ℕ → Outcome E (List ℕ)
  unfolding write
  write_bytes target at [] = ok target
  write_bytes target at (v ∷ vs) = do target' ← write target at v; write_bytes target' (at + 1) vs

  unfoldable pub write_targets :
      {E : Type 0} → MemoryFormat → Rgba → ℕ → List Target → List ℕ → Outcome E (List ℕ)
  unfolding write_bytes target_value from_f32_normed channel_type size
  write_targets format c n [] target = ok target
  write_targets format c n (t ∷ ts) target = do
    target' ←
        write_bytes target (n * size (channel_type format))
          (from_f32_normed (channel_type format) (target_value format c t))
    write_targets format c (suc n) ts target'

  unfoldable pub from_f32 : {E : Type 0} → Rgba → MemoryFormat → List ℕ → Outcome E (List ℕ)
  unfolding write_targets target_definition
  from_f32 c format target = write_targets format c 0 (target_definition format) target

  -- `src` is a slice that begins at `address`.
  unfoldable pub transform :
      {E : Type 0} → MemoryFormat → ℕ → List ℕ → MemoryFormat → List ℕ → Outcome E (List ℕ)
  unfolding to_f32 from_f32
  transform src_format address src target_format target = do
    c ← to_f32 src_format address src
    from_f32 c target_format target
