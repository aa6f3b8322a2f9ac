-- ===== src/Creator/Laws.antt =====
-- What adding a frame to a creator does.
use native.Mathlib.Nat.{mul-le-mul_left, mul-le-mul_right}
use glycin.Base.{
  ℕ, zero, suc, ◌+◌, ◌-◌, ◌*◌, ◌≤◌, ◌<◌, ◌≡◌, ◌↔◌, inl, inr, refl, subst, ◌∙◌, ap, arith, false,
  ltb, ◌==◌, if◌then◌else◌, Bool-cases, List, [], ◌∷◌, ◌++◌, length, get_or, Outcome, ok, ok_or,
  checked_mul, u32_mod, resize, length-resize, get_or-resize, row_lt, Returns,
}
use glycin.Format.Types.{MemoryFormat, to_number}
use glycin.Format.Tables.{n_bytes}
use glycin.Texture.{Error, dimension_too_large}
use glycin.Texture.Compact.{rows-Compacted}
use glycin.Creator.{
  NewFrame, Creator, new, move_row, without_stride, last_row, add_frame_with_stride,
}

-- The new frame holds the pixels without a stride, and stands behind the frames there were.
pub record IsAdded (creator : Creator) (width height stride : ℕ) (memory_format : MemoryFormat)
    (texture : List ℕ) (result : Creator × NewFrame) : Type 0 where
  pub appended : result.0 ≡ record creator { new_frames = creator.new_frames ++ (result.1 ∷ []) }
  pub dimensions :
      (result.1.width ≡ width)
      × (result.1.height ≡ height)
      × (result.1.memory_format ≡ memory_format)
  pub held : to_number (n_bytes memory_format) * width * height ≤ length result.1.texture
  pub rows :
      (y i : ℕ)
      → y < height
      → i < to_number (n_bytes memory_format) * width
      → get_or result.1.texture (y * (to_number (n_bytes memory_format) * width) + i) 0
        ≡ get_or texture (y * stride + i) 0

whole : (s h n : ℕ) → 0 < h → s * (h - 1) + s ≤ n → s * h ≤ n
whole s zero n some_row q = absurd (omega arith)
whole s (suc h) n some_row q =
    let e : s * (suc h - 1) ≡ s * h = ap (λ (k : ℕ). s * k) (omega arith) in omega arith

module _ (creator : Creator) (width height stride : ℕ) (memory_format : MemoryFormat)
    (texture : List ℕ) where
  abbrev smallest : ℕ
  smallest = to_number (n_bytes memory_format) * width

  module _ (row_fits : smallest < u32_mod) (narrow : smallest ≤ stride) (some_row : 0 < height)
      (few : height < u32_mod) (enough : stride * (height - 1) + smallest ≤ length texture) where
    row_in : (y : ℕ) → y < height → y * stride + smallest ≤ length texture
    row_in y hy =
        let q : y * stride ≤ (height - 1) * stride = mul-le-mul_right stride (omega arith) in
        omega arith

    packed : Returns (without_stride stride smallest height texture) (λ t.
        (length t ≡ smallest * height)
        × ((y i : ℕ)
            → y < height
            → i < smallest
            → get_or t (y * smallest + i) 0 ≡ get_or texture (y * stride + i) 0))
    unfolding without_stride move_row
    packed =
        let (b, e, (size, new, rest)) =
          rows-Compacted smallest stride height texture narrow (move_row stride smallest)
            (λ y b hy. refl) row_in 0 height (omega arith) texture
            (refl, λ y i hy. absurd (omega arith), λ k hk. refl) in
        (
          resize b (smallest * height) 0,
          rw e refl,
          (
            length-resize b (smallest * height) 0,
            λ y i hy hi.
                let q = row_lt smallest y i height 0 hi hy in
                get_or-resize b (smallest * height) (y * smallest + i) 0 (omega arith) (
                  let t : y * smallest ≤ y * stride = mul-le-mul_left y narrow in
                  omega (arith, row_in y hy))
                ∙ new y i hy hi,
          ),
        )

    last_row_lem : last_row height ≡ height - 1
    last_row_lem = omega arith

    -- With or without a stride to be removed.
    chosen :
        Returns
          (if smallest == stride then ok texture else without_stride stride smallest height texture)
          (λ t.
            (smallest * height ≤ length t)
            × ((y i : ℕ)
                → y < height
                → i < smallest
                → get_or t (y * smallest + i) 0 ≡ get_or texture (y * stride + i) 0))
    chosen = elim (Bool-cases (smallest == stride)) [
      | inl same ↦
          let e : smallest ≡ stride = ground arith in
          (
            texture,
            rw same refl,
            (
              whole smallest height (length texture) some_row (rw e (rw e at enough)),
              λ y i hy hi. ap (λ (n : ℕ). get_or texture (y * n + i) 0) e,
            ),
          )
      | inr other ↦ let (t, e, (size, rows)) = packed in (t, rw other e, (omega arith, rows))
    ]

    -- A frame with rows that fit into the stride, at least one row, and a texture that holds all rows,
    -- where the last may lack what the stride adds, is appended with its pixels next to one another.
    pub add_frame_with_stride-IsAdded :
        Returns
          (add_frame_with_stride creator width height stride memory_format texture)
          (IsAdded creator width height stride memory_format texture)
    unfolding add_frame_with_stride new
    add_frame_with_stride-IsAdded =
        let (t, e, (held, rows)) = chosen in
        let frame = new creator.config width height memory_format t in
        let fits : ok_or {E = Error} (checked_mul u32_mod (to_number (n_bytes memory_format)) width)
              dimension_too_large
            ≡ Outcome.ok smallest =
          ground arith in
        let wide : ltb stride smallest ≡ false = ground arith in
        let long : ltb (length texture) (stride * last_row height + smallest) ≡ false =
          rw last_row_lem (ground arith) in
        (
          (record creator { new_frames = creator.new_frames ++ (frame ∷ []) }, frame),
          rw (fits, wide, long, e) refl,
          record { appended = refl; dimensions = (refl, refl, refl); held = held; rows = rows },
        )

  -- For at least one row, the frame is added exactly if its row fits into `u32`, the row fits into the
  -- stride, and the texture holds all rows.
  pub add_frame_with_stride_iff :
      0 < height
      → height < u32_mod
      → Returns
          (add_frame_with_stride creator width height stride memory_format texture)
          (λ _. Unit {0})
        ↔ ((smallest < u32_mod)
            × (smallest ≤ stride)
            × (stride * (height - 1) + smallest ≤ length texture))
  unfolding add_frame_with_stride
  add_frame_with_stride_iff some_row few = (
    λ (r, e, _). (
      ground arith,
      ground arith,
      subst (λ (k : ℕ). stride * k + smallest ≤ length texture)
          (let q : last_row height ≡ height - 1 = omega arith in q)
          (let t : stride * last_row height + smallest ≤ length texture = ground arith in t),
    ),
    λ (row_fits, narrow, enough).
        let (r, e, _) = add_frame_with_stride-IsAdded row_fits narrow some_row few enough in
        (r, e, tt),
  )
