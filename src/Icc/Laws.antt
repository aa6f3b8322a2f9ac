-- ===== src/Icc/Laws.antt =====
-- The parts that the threads transform, and the format that they take.
use native.Mathlib.Nat.{mod-add-div', mod-lt, mul-le-mul}
use glycin.Base.{
  ℕ, zero, suc, ◌+◌, ◌*◌, ◌/◌, ◌%◌, ◌^◌, ◌≤◌, ◌<◌, ◌≡◌, ◌⊎◌, inl, inr, refl, sym, ap, ◌∙◌, arith,
  Bool-cases, false, ◌==◌, if◌then◌else◌, List, [], ◌∷◌, ◌++◌, length, length-take, length-drop,
  take, drop, min, some, ok,
}
use glycin.Format.Types.{MemoryFormat, to_number}
use glycin.Format.Tables.{n_bytes, is_premultiplied}
use glycin.Texture.Stride.{positive_bytes}
use glycin.Icc.{
  Lcms, PixelFormat, premul, lcms_pixel_format, transformation, chunks, transform_chunks, div_ceil,
  chunk_size, transform,
}

-- A transformation of pixels of some size: it is the same on parts.
pub record IsByPixel (pixel : ℕ) (f : List ℕ → List ℕ) : Type 0 where
  pub parts : (xs ys : List ℕ) (k : ℕ) → length xs ≡ k * pixel → f (xs ++ ys) ≡ f xs ++ f ys

module _ {ℓ} {A : Type ℓ} where
  take-drop : (n : ℕ) (xs : List A) → take n xs ++ drop n xs ≡ xs
  take-drop zero xs = refl
  take-drop (suc n) [] = refl
  take-drop (suc n) (x ∷ xs) = ap (λ (l : List A). x ∷ l) (take-drop n xs)

  take_short : (n : ℕ) (xs : List A) → length xs ≤ n → take n xs ≡ xs
  take_short zero [] h = refl
  take_short zero (x ∷ xs) h = absurd (omega arith)
  take_short (suc n) [] h = refl
  take_short (suc n) (x ∷ xs) h = ap (λ (l : List A). x ∷ l) (take_short n xs (omega arith))

  drop_short : (n : ℕ) (xs : List A) → length xs ≤ n → drop n xs ≡ []
  drop_short zero [] h = refl
  drop_short zero (x ∷ xs) h = absurd (omega arith)
  drop_short (suc n) [] h = refl
  drop_short (suc n) (x ∷ xs) h = drop_short n xs (omega arith)

  append_nil : (xs : List A) → xs ++ [] ≡ xs
  append_nil [] = refl
  append_nil (x ∷ xs) = ap (λ (l : List A). x ∷ l) (append_nil xs)

module _ (pixel : ℕ) (f : List ℕ → List ℕ) (by_pixel : IsByPixel pixel f) (k size : ℕ)
    (multiple : size ≡ k * pixel) (some_bytes : 0 < size) where
  abbrev parts : ℕ → List ℕ → List ℕ
  parts fuel xs = transform_chunks (some f) (chunks fuel size xs)

  none_left : (fuel : ℕ) → parts fuel [] ≡ []
  unfolding chunks transform_chunks
  none_left zero = refl
  none_left (suc fuel) = refl

  short_or_long : (xs : List ℕ) → (length xs ≤ size) ⊎ (size < length xs)
  short_or_long xs = omega arith

  parts_lem : (fuel : ℕ) (xs : List ℕ) → 0 < length xs → length xs ≤ fuel → parts fuel xs ≡ f xs
  unfolding chunks transform_chunks
  parts_lem fuel [] filled h = absurd (omega arith)
  parts_lem zero (x ∷ xs) filled h = absurd (omega arith)
  parts_lem (suc fuel) (x ∷ xs) filled h = elim (short_or_long (x ∷ xs)) [
    | inl short ↦
        rw (take_short size (x ∷ xs) short, drop_short size (x ∷ xs) short)
          (ap (λ (l : List ℕ). f (x ∷ xs) ++ l) (none_left fuel) ∙ append_nil (f (x ∷ xs)))
    | inr long ↦
        let left = length-drop size (x ∷ xs) in
        ap (λ (l : List ℕ). f (take size (x ∷ xs)) ++ l)
          (parts_lem fuel (drop size (x ∷ xs)) (omega arith) (omega arith))
        ∙ sym (
            by_pixel.parts (take size (x ∷ xs)) (drop size (x ∷ xs)) k (
              length-take size (x ∷ xs)
              ∙ (let q : min size (length (x ∷ xs)) ≡ k * pixel = omega (arith, multiple) in q)))
        ∙ ap f (take-drop size (x ∷ xs))
  ]

zero_or_positive : (n : ℕ) → (n ≡ 0) ⊎ (0 < n)
zero_or_positive n = omega arith

-- `div_ceil` of a positive number is positive.
div_ceil-positive : (a b : ℕ) → 0 < a → 0 < div_ceil a b
div_ceil-positive a b ha = elim (Bool-cases (a % b == 0)) [
  | inl even ↦ rw even (elim (zero_or_positive (a / b)) [
    | inl none_left ↦
        let r : a % b ≡ 0 = ground arith in
        absurd (let q : 0 + 0 * b ≡ a = rw (r, none_left) at (mod-add-div' a b) in omega arith)
    | inr some_left ↦ some_left
  ])
  | inr uneven ↦ rw uneven (omega arith)
]

div-positive : (a b : ℕ) → 0 < b → b ≤ a → 0 < a / b
div-positive a b hb h = elim (zero_or_positive (a / b)) [
  | inl none_left ↦ absurd (
      let q : a % b + 0 * b ≡ a = rw none_left at (mod-add-div' a b) in
      let r = mod-lt a hb in omega arith)
  | inr some_left ↦ some_left
]

mul-positive : (a b : ℕ) → 0 < a → 0 < b → 0 < a * b
mul-positive a b ha hb = let q : 1 * 1 ≤ a * b = mul-le-mul ha hb in omega arith

not_zero : (n : ℕ) → 0 < n → (n == 0) ≡ false
not_zero n h = ground arith

module _ (lcms : Lcms) (threads : ℕ) (icc_profile : List ℕ) (memory_format : MemoryFormat)
    (buf : List ℕ) where
  abbrev pixel : ℕ
  pixel = to_number (n_bytes memory_format)

  -- For a transformation that works pixel by pixel, and a buffer of at least one pixel, transforming the
  -- parts for any number of threads returns what transforming the whole buffer gives.
  pub transform-whole :
      {E : Type 0} (f : List ℕ → List ℕ)
      → transformation lcms icc_profile memory_format ≡ some f
      → IsByPixel pixel f
      → pixel ≤ length buf
      → transform {E = E} lcms threads icc_profile memory_format buf ≡ ok (f buf)
  unfolding transform
  transform-whole f e by_pixel h =
      rw (==-false, e)
        (ap (λ (r : List ℕ). ok r)
          (parts_lem pixel f by_pixel (div_ceil (length buf / pixel) threads)
            (chunk_size threads pixel (length buf)) refl chunk-positive (length buf) buf
            (omega (arith, positive_bytes memory_format)) (omega arith)))
    where
      chunk-positive : 0 < chunk_size threads pixel (length buf)
      chunk-positive =
          mul-positive _ _
            (div_ceil-positive (length buf / pixel) threads
              (div-positive (length buf) pixel (positive_bytes memory_format) h))
            (positive_bytes memory_format)

      ==-false : (chunk_size threads pixel (length buf) == 0) ≡ false
      ==-false = not_zero _ chunk-positive

premul_bit : (n : ℕ) → n / 2 ^ 23 % 2 ≡ 0 → premul n / 2 ^ 23 % 2 ≡ 1
unfolding premul
premul_bit n h = rw h (omega arith)

-- Where the constants of lcms2 do not say premultiplied, the format that it is given does exactly if
-- the memory format is premultiplied.
pub lcms_pixel_format-premultiplied :
    (lcms : Lcms) (f : MemoryFormat)
    → ((c : PixelFormat) → lcms.number c / 2 ^ 23 % 2 ≡ 0)
    → lcms_pixel_format lcms f / 2 ^ 23 % 2 ≡ (if is_premultiplied f then 1 else 0)
unfolding lcms_pixel_format is_premultiplied
lcms_pixel_format-premultiplied lcms MemoryFormat.b8g8r8a8_premultiplied h = premul_bit _ (h _)
lcms_pixel_format-premultiplied lcms MemoryFormat.a8r8g8b8_premultiplied h = premul_bit _ (h _)
lcms_pixel_format-premultiplied lcms MemoryFormat.r8g8b8a8_premultiplied h = premul_bit _ (h _)
lcms_pixel_format-premultiplied lcms MemoryFormat.r16g16b16a16_premultiplied h = premul_bit _ (h _)
lcms_pixel_format-premultiplied lcms MemoryFormat.r32g32b32a32_float_premultiplied h =
    premul_bit _ (h _)
lcms_pixel_format-premultiplied lcms MemoryFormat.g8a8_premultiplied h = premul_bit _ (h _)
lcms_pixel_format-premultiplied lcms MemoryFormat.g16a16_premultiplied h = premul_bit _ (h _)
lcms_pixel_format-premultiplied lcms f h = h _
