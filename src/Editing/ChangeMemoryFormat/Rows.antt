-- ===== src/Editing/ChangeMemoryFormat/Rows.antt =====
-- The loops of `change_memory_format`, for any function that converts one pixel.
use native.Mathlib.Nat.{mul-le-mul_right}
use glycin.Base.{
  ℕ, zero, suc, ◌+◌, ◌*◌, ◌≤◌, ◌<◌, ◌≡◌, inl, inr, refl, ◌∙◌, ap, arith, leb, Bool-cases, List, [],
  ◌++◌, length, get_or, replicate, length-replicate, length-append, get_or-append_left,
  get_or-append_right, Outcome, ok, ◌>>=◌, for_in-Returns, Returns, row_lt,
}
use glycin.Frame.{Frame}
use glycin.Format.Types.{MemoryFormat}
use glycin.Editing.{Error}
use glycin.Editing.Images.{Buffer}
use glycin.Editing.ChangeMemoryFormat.{pixel_bytes, convert_row, convert_rows}

pub get_or-replicate : (n i : ℕ) → get_or {A = ℕ} (replicate n 0) i 0 ≡ 0
get_or-replicate zero i = refl
get_or-replicate (suc n) zero = refl
get_or-replicate (suc n) (suc i) = get_or-replicate n i

-- The function converts the pixel at `i0` to the bytes `value i0`, at `k0` of a row that has not been
-- written from there on, and keeps what stands before.
abbrev pub Converts :
    ℕ → ℕ → Buffer → (ℕ → ℕ → ℕ) → (ℕ → ℕ → List ℕ → Outcome Error (List ℕ)) → Type 0
Converts source_bytes target_bytes src_data value pixel =
    (i0 k0 : ℕ) (row : List ℕ)
    → i0 + source_bytes ≤ length src_data
    → k0 + target_bytes ≤ length row
    → ((k : ℕ) → k0 ≤ k → get_or row k 0 ≡ 0)
    → Returns (pixel i0 k0 row) (λ row'.
      (length row' ≡ length row)
      × ((i : ℕ) → i < target_bytes → get_or row' (k0 + i) 0 ≡ value i0 i)
      × ((k : ℕ) → k < k0 → get_or row' k 0 ≡ get_or row k 0)
      × ((k : ℕ) → k0 + target_bytes ≤ k → get_or row' k 0 ≡ 0))

module _ {Details : Type 0} (frame : Frame Details) (target : MemoryFormat) (src_data : Buffer)
    (value : ℕ → ℕ → ℕ) (pixel : ℕ → ℕ → List ℕ → Outcome Error (List ℕ))
    (converts : Converts
      (pixel_bytes frame.memory_format)
      (pixel_bytes target)
      src_data
      value
      pixel)
    (narrow : frame.width * pixel_bytes frame.memory_format ≤ frame.stride)
    (held : frame.stride * frame.height ≤ length src_data) where
  open frame use {width as w, height as h, stride}

  abbrev sb : ℕ
  sb = pixel_bytes frame.memory_format

  abbrev tb : ℕ
  tb = pixel_bytes target

  in_source : (x y : ℕ) → x < w → y < h → x * sb + y * stride + sb ≤ length src_data
  in_source x y hx hy =
      let a : suc x * sb ≤ w * sb = mul-le-mul_right sb hx in
      let b : suc y * stride ≤ h * stride = mul-le-mul_right stride hy in omega arith

  abbrev HasRow : ℕ → ℕ → List ℕ → Type 0
  HasRow y x row =
      (length row ≡ w * tb)
      × ((x' i : ℕ) → x' < x → i < tb → get_or row (x' * tb + i) 0 ≡ value (x' * sb + y * stride) i)
      × ((k : ℕ) → x * tb ≤ k → get_or row k 0 ≡ 0)

  pixel_step :
      (y x : ℕ) (row : List ℕ)
      → y < h
      → x < w
      → HasRow y x row
      → Returns (pixel (x * sb + y * stride) (x * tb) row) (HasRow y (suc x))
  pixel_step y x row hy hx (size, old, fresh) =
      let room : suc x * tb ≤ w * tb = mul-le-mul_right tb hx in
      let (row', e, (size', new, kept, fresh')) =
        converts (x * sb + y * stride) (x * tb) row (in_source x y hx hy) (omega arith) fresh in
      (
        row',
        e,
        (
          size' ∙ size,
          λ x' i hx' hi. elim (Bool-cases (leb x x')) [
            | inl last ↦ let ex : x' ≡ x = ground arith in rw ex (new i hi)
            | inr earlier ↦
                kept (x' * tb + i)
                  (let q : x' < x = ground arith in omega (arith, row_lt tb x' i x 0 hi q))
                ∙ old x' i (ground arith) hi
          ],
          λ k hk. fresh' k (omega arith),
        ),
      )

  pub convert_row-HasRow :
      (y : ℕ) → y < h → Returns (convert_row pixel frame target (w * tb) y) (HasRow y w)
  unfolding convert_row
  convert_row-HasRow y hy =
      for_in-Returns (HasRow y) (λ x. pixel (x * sb + y * stride) (x * tb)) w
        (λ x row hx c. pixel_step y x row hy hx c) w 0 (replicate (w * tb) 0) (omega arith)
        (
          length-replicate (w * tb) 0,
          λ x' i hx'. absurd (omega arith),
          λ k _. get_or-replicate (w * tb) k,
        )

  abbrev HasRows : ℕ → List ℕ → Type 0
  HasRows y out =
      (length out ≡ y * (w * tb))
      × ((y' x i : ℕ)
          → y' < y
          → x < w
          → i < tb
          → get_or out (x * tb + y' * (w * tb) + i) 0 ≡ value (x * sb + y' * stride) i)

  row_step :
      (y : ℕ) (out : List ℕ)
      → y < h
      → HasRows y out
      → Returns
          (convert_row pixel frame target (w * tb) y >>= (λ row. ok (out ++ row)))
          (HasRows (suc y))
  row_step y out hy (size, old) =
      let (row, e, (row_size, new, _)) = convert_row-HasRow y hy in
      (
        out ++ row,
        rw e,
        (
          omega (arith, length-append out row),
          λ y' x i hy' hx hi. elim (Bool-cases (leb y y')) [
            | inl last ↦
                let ey : y' ≡ y = ground arith in
                ap (λ (n : ℕ). get_or (out ++ row) n 0)
                  (let q : x * tb + y' * (w * tb) + i ≡ length out + (x * tb + i) =
                      rw ey (omega arith) in
                    q)
                ∙ get_or-append_right out row (x * tb + i) 0
                ∙ rw ey (new x i hx hi)
            | inr earlier ↦
                let q : y' < y = ground arith in
                let inner : x * tb + i < w * tb = omega (arith, row_lt tb x i w 0 hi hx) in
                get_or-append_left out row (x * tb + y' * (w * tb) + i) 0
                  (omega (arith, row_lt (w * tb) y' (x * tb + i) y 0 inner q))
                ∙ old y' x i q hx hi
          ],
        ),
      )

  -- All pixels are converted.
  pub convert_rows-HasRows : Returns (convert_rows pixel frame target (w * tb)) (HasRows h)
  unfolding convert_rows
  convert_rows-HasRows =
      for_in-Returns HasRows _ h (λ y out hy c. row_step y out hy c) h 0 [] (omega arith)
        (omega arith, λ y' x i hy'. absurd (omega arith))
