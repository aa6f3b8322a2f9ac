-- ===== src/Texture/Compact.antt =====
-- Rows of a texture that are moved together in place, one after the other.
use glycin.Base.{
  ℕ, suc, ◌+◌, ◌*◌, ◌≤◌, ◌<◌, ◌≡◌, inl, inr, ◌∙◌, arith, leb, Bool-cases, List, length, get_or,
  Outcome, ◌>>=◌, slice, store, slice_lem, store_lem, Returns, for_in, for_in-Returns, row_lt,
}
use native.Mathlib.Nat.{mul-le-mul_left}

-- The first `n` rows of `width` bytes stand next to one another, and the rest is as it was.
abbrev pub Compacted : ℕ → ℕ → List ℕ → ℕ → List ℕ → Type 0
Compacted width stride buf n out =
    (length out ≡ length buf)
    × ((y i : ℕ) → y < n → i < width → get_or out (y * width + i) 0 ≡ get_or buf (y * stride + i) 0)
    × ((k : ℕ) → n * width ≤ k → get_or out k 0 ≡ get_or buf k 0)

module _ {E : Type 0} (width stride height : ℕ) (buf : List ℕ) (narrow : width ≤ stride)
    (body : ℕ → List ℕ → Outcome E (List ℕ))
    (moves : (y : ℕ) (b : List ℕ)
      → y < height
      → body y b ≡ (slice b (y * stride) width >>= store b (y * width)))
    (held : (y : ℕ) → y < height → y * stride + width ≤ length buf) where
  row_step :
      (y : ℕ) (b : List ℕ)
      → y < height
      → Compacted width stride buf y b
      → Returns (body y b) (Compacted width stride buf (suc y))
  row_step y b hy (size, old, rest) =
      let below : y * width ≤ y * stride = mul-le-mul_left y narrow in
      let (source, e, (n, bytes)) =
        slice_lem {E = E} b (y * stride) width 0 (omega (arith, held y hy)) in
      let (out, e', (size', new, kept)) =
        store_lem {E = E} b (y * width) source 0 (omega (arith, held y hy)) in
      (
        out,
        moves y b hy ∙ rw e e',
        (
          size' ∙ size,
          λ y' i hy' hi. elim (Bool-cases (leb y y')) [
            | inl last ↦
                let same : y' ≡ y = ground arith in
                rw same (new i (omega arith) ∙ bytes i hi ∙ rest (y * stride + i) (omega arith))
            | inr earlier ↦
                let q : y' < y = ground arith in
                kept (y' * width + i) (inl (let t = row_lt width y' i y 0 hi q in omega arith))
                ∙ old y' i q hi
          ],
          λ k hk. kept k (inr (omega arith)) ∙ rest k (omega arith),
        ),
      )

  pub rows-Compacted :
      (start n : ℕ)
      → start + n ≡ height
      → (b : List ℕ) → Compacted width stride buf start b
      → Returns (for_in start n body b) (Compacted width stride buf height)
  rows-Compacted start n e b h =
      for_in-Returns (Compacted width stride buf) body height (λ y b hy c. row_step y b hy c) n
        start b e h
