-- ===== src/Base/Slices.antt =====
-- Ranges of a slice: reading one and overwriting one.
use Prim.Native.Nat.{ℕ, ◌+◌, ◌-◌, ◌<◌, ◌≤◌}
use mathlib.Core.Path.{◌≡◌, ap, ◌∙◌}
use mathlib.Core.Logic.{◌⊎◌, inl, inr}
use mathlib.Core.List.{List, ◌++◌}
use native.Mathlib.Omega.{arith}
use glycin.Base.Tests.{leb, if◌then◌else◌, Bool-cases}
use glycin.Base.Lists.{
  length, get_or, take, drop, replicate, length-append, length-take, length-drop, length-replicate,
  get_or-append_left, get_or-append_right, get_or-take, get_or-drop,
}
use glycin.Base.Outcomes.{Outcome, ok, panic}
use glycin.Base.Loops.{Returns}

module _ {ℓ} {E : Type 0} {A : Type ℓ} where
  -- `buf[at..at + n]`, which panics out of bounds.
  unfoldable pub slice : List A → ℕ → ℕ → Outcome E (List A)
  slice buf at n = if leb (at + n) (length buf) then ok (take n (drop at buf)) else panic

  -- `buf[at..at + source.len()].copy_from_slice(&source)`.
  unfoldable pub store : List A → ℕ → List A → Outcome E (List A)
  store buf at source =
      if leb (at + length source) (length buf)
      then ok (take at buf ++ (source ++ drop (at + length source) buf))
      else panic

  pub slice_lem :
      (buf : List A) (at n : ℕ) (d : A)
      → at + n ≤ length buf
      → Returns
          (slice buf at n)
          (λ s. (length s ≡ n) × ((i : ℕ) → i < n → get_or s i d ≡ get_or buf (at + i) d))
  unfolding slice
  slice_lem buf at n d h = (
    take n (drop at buf),
    ground arith,
    (
      length-take n (drop at buf) ∙ omega (arith, length-drop at buf),
      λ i hi. get_or-take n (drop at buf) i d hi ∙ get_or-drop at buf i d,
    ),
  )

  pub store_lem :
      (buf : List A) (at : ℕ) (source : List A) (d : A)
      → at + length source ≤ length buf
      → Returns (store buf at source) (λ s.
        (length s ≡ length buf)
        × ((i : ℕ) → i < length source → get_or s (at + i) d ≡ get_or source i d)
        × ((k : ℕ) → (k < at) ⊎ (at + length source ≤ k) → get_or s k d ≡ get_or buf k d))
  unfolding store
  store_lem buf at source d h =
      let n = length source in
      let front = take at buf in
      let back = drop (at + n) buf in
      let size_front : length front ≡ at = length-take at buf ∙ omega arith in
      let size_rest : length (source ++ back) ≡ n + (length buf - (at + n)) =
        length-append source back ∙ omega (arith, length-drop (at + n) buf) in
      (
        front ++ (source ++ back),
        ground arith,
        (
          length-append front (source ++ back) ∙ omega arith,
          λ i hi.
              ap (λ (k : ℕ). get_or (front ++ (source ++ back)) k d)
                (let q : at + i ≡ length front + i = omega arith in q)
              ∙ get_or-append_right front (source ++ back) i d
              ∙ get_or-append_left source back i d hi,
          λ k hk. elim hk [
            | inl before ↦
                get_or-append_left front (source ++ back) k d (omega arith)
                ∙ get_or-take at buf k d before
            | inr after ↦
                ap (λ (j : ℕ). get_or (front ++ (source ++ back)) j d)
                  (let q : k ≡ length front + (n + (k - (at + n))) = omega arith in q)
                ∙ get_or-append_right front (source ++ back) (n + (k - (at + n))) d
                ∙ get_or-append_right source back (k - (at + n)) d
                ∙ get_or-drop (at + n) buf (k - (at + n)) d
                ∙ ap (λ (j : ℕ). get_or buf j d)
                    (let q : at + n + (k - (at + n)) ≡ k = omega arith in q)
          ],
        ),
      )

module _ {ℓ} {A : Type ℓ} where
  -- `Vec::resize`.
  abbrev pub resize : List A → ℕ → A → List A
  resize xs n d = if leb n (length xs) then take n xs else xs ++ replicate (n - length xs) d

  pub length-resize : (xs : List A) (n : ℕ) (d : A) → length (resize xs n d) ≡ n
  length-resize xs n d = elim (Bool-cases (leb n (length xs))) [
    | inl e ↦ rw e (length-take n xs ∙ ground arith)
    | inr e ↦ rw e (
        length-append xs (replicate (n - length xs) d)
        ∙ ground (arith, length-replicate (n - length xs) d))
  ]

  pub get_or-resize :
      (xs : List A) (n i : ℕ) (d : A)
      → i < n
      → i < length xs
      → get_or (resize xs n d) i d ≡ get_or xs i d
  get_or-resize xs n i d h h' = elim (Bool-cases (leb n (length xs))) [
    | inl e ↦ rw e (get_or-take n xs i d h)
    | inr e ↦ rw e (get_or-append_left xs (replicate (n - length xs) d) i d h')
  ]
