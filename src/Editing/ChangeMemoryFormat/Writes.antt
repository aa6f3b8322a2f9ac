-- ===== src/Editing/ChangeMemoryFormat/Writes.antt =====
-- A loop that writes a run of bytes into a row, and bounds on the places it writes.
use native.Mathlib.Nat.{mul-le-mul_left}
use glycin.Base.{
  ℕ, zero, suc, ◌+◌, ◌*◌, ◌≤◌, ◌<◌, ◌≡◌, ◌⊎◌, inl, inr, refl, ◌∙◌, arith, ltb, ◌==◌, if◌then◌else◌,
  lt→ltb, le→ltb, Bool-cases, List, length, get_or, set, length-set, get_or-set_self, get_or-set_ne,
  Outcome, ok, for_in, for_in-Returns, Returns,
}
use glycin.Format.Types.{ChannelType, size}
use glycin.Editing.{Error}

-- The bytes `value j` stand from `at` on, and all others are as in `row`.
abbrev pub Written : (ℕ → ℕ) → ℕ → ℕ → List ℕ → List ℕ → Type 0
Written value at m row out =
    (length out ≡ length row)
    × ((j : ℕ) → j < m → get_or out (at + j) 0 ≡ value j)
    × ((k : ℕ) → (k < at) ⊎ (at + m ≤ k) → get_or out k 0 ≡ get_or row k 0)

pub Written-step :
    (value : ℕ → ℕ) (at i : ℕ) (row r : List ℕ)
    → at + i < length row
    → Written value at i row r
    → Written value at (suc i) row (set r (at + i) (value i))
Written-step value at i row r room (size, new, old) = (
  length-set r (at + i) (value i) ∙ size,
  λ j hj. elim (Bool-cases (j == i)) [
    | inl last ↦
        let e : j ≡ i = ground arith in rw e (get_or-set_self r (at + i) (value i) 0 (omega arith))
    | inr earlier ↦
        let e : j < i = ground arith in
        get_or-set_ne r (at + i) (at + j) (value i) 0 (omega arith) ∙ new j e
  ],
  λ k hk. get_or-set_ne r (at + i) k (value i) 0 (omega arith) ∙ old k (omega arith),
)

-- A loop that writes the byte `value i` at `at + i`.
pub writes-Written :
    (body : ℕ → List ℕ → Outcome Error (List ℕ)) (value : ℕ → ℕ) (at n : ℕ) (row : List ℕ)
    → ((i : ℕ) (r : List ℕ)
        → i < n
        → length r ≡ length row
        → body i r ≡ ok (set r (at + i) (value i)))
    → at + n ≤ length row
    → Returns (for_in 0 n body row) (Written value at n row)
writes-Written body value at n row writes room =
    for_in-Returns (λ m. Written value at m row) body n
      (λ i r hi w. (
        set r (at + i) (value i),
        writes i r hi w.0,
        Written-step value at i row r (omega arith) w,
      ))
      n 0 row (omega arith) (refl, λ j hj. absurd (omega arith), λ k _. refl)

pub if_lt : {A : Type 0} (m n : ℕ) (x y : A) → m < n → (if ltb m n then x else y) ≡ x
if_lt m n x y h = rw (lt→ltb m n h) refl

pub if_le : {A : Type 0} (m n : ℕ) (x y : A) → n ≤ m → (if ltb m n then x else y) ≡ y
if_le m n x y h = rw (le→ltb m n h) refl

pub positive_size : (c : ChannelType) → 0 < size c
unfolding size
positive_size c = ground arith

pub sum_lt : (i n c s : ℕ) → i < n → c < s → i + c < n * s
sum_lt i zero c s hi hc = absurd (omega arith)
sum_lt i (suc n) c s hi hc = let q : n * 1 ≤ n * s = mul-le-mul_left n (omega arith) in omega arith
