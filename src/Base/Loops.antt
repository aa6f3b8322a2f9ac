-- ===== src/Base/Loops.antt =====
-- `for k in start..start + n { body }` over a state, and its invariant rule.
use Prim.Native.Nat.{ℕ, zero, suc, ◌+◌, ◌*◌, ◌<◌}
use mathlib.Core.Path.{◌≡◌, refl, subst}
use native.Mathlib.Omega.{arith}
use glycin.Base.Outcomes.{Outcome, ok, ◌>>=◌}

module _ {ℓ} {E : Type 0} {S : Type ℓ} where
  unfoldable pub for_in : ℕ → ℕ → (ℕ → S → Outcome E S) → S → Outcome E S
  for_in start zero body s = ok s
  for_in start (suc n) body s = body start s >>= for_in (suc start) n body

  -- The call comes to a value with the property.
  abbrev pub Returns {κ} : Outcome E S → (S → Type κ) → Type (ℓ ⊔ κ)
  Returns r P = (s : S) × (r ≡ ok s) × P s

  pub for_in-Returns {κ} :
      (P : ℕ → S → Type κ) (body : ℕ → S → Outcome E S) (stop : ℕ)
      → ((k : ℕ) (s : S) → k < stop → P k s → Returns (body k s) (P (suc k)))
      → (n start : ℕ) (s : S) → start + n ≡ stop
      → P start s
      → Returns (for_in start n body s) (P stop)
  unfolding for_in
  for_in-Returns P body stop keep zero start s e h =
      (s, refl, subst (λ k. P k s) (let q : start ≡ stop = omega arith in q) h)
  for_in-Returns P body stop keep (suc n) start s e h =
      let (t, eq, ht) = keep start s (omega arith) h in
      let (u, eq', hu) = for_in-Returns P body stop keep n (suc start) t (omega arith) ht in
      (u, rw eq eq', hu)

-- Row-major positions: `a * n + b` with `b` below `n` determines `a` and `b`.
pub row_lt : (n a b a' b' : ℕ) → b < n → a < a' → a * n + b < a' * n + b'
row_lt n a b a' b' hb ha = grind arith

pub row_inj : (n a b a' b' : ℕ) → b < n → b' < n → a * n + b ≡ a' * n + b' → (a ≡ a') × (b ≡ b')
row_inj n a b a' b' hb hb' e = ground (arith, row_lt n a b a' b', row_lt n a' b' a b)

-- A loop in a loop in a loop. The bound of the second may depend on the first.
module _ {ℓ κ} {E : Type 0} {S : Type ℓ} where
  pub for_in3-Returns :
      (P : ℕ → ℕ → ℕ → S → Type κ) (body : ℕ → ℕ → ℕ → S → Outcome E S) (nx : ℕ) (ny : ℕ → ℕ)
      (nz : ℕ)
      → ((x y z : ℕ) (s : S)
          → x < nx
          → y < ny x
          → z < nz
          → P x y z s
          → Returns (body x y z s) (P x y (suc z)))
      → ((x y : ℕ) (s : S) → x < nx → y < ny x → P x y nz s → P x (suc y) 0 s)
      → ((x : ℕ) (s : S) → x < nx → P x (ny x) 0 s → P (suc x) 0 0 s)
      → (s : S) → P 0 0 0 s
      → Returns
          (for_in 0 nx (λ x. for_in 0 (ny x) (λ y. for_in 0 nz (λ z. body x y z))) s)
          (P nx 0 0)
  for_in3-Returns P body nx ny nz step row column s start =
      for_in-Returns (λ x. P x 0 0) _ nx
        (λ x s hx h. finish (column x) hx (
          for_in-Returns (λ y. P x y 0) _ (ny x)
            (λ y s hy h'.
              finish (λ t. row x y t hx) hy
                (for_in-Returns (λ z. P x y z) _ nz (λ z s hz hs. step x y z s hx hy hz hs) nz 0 s
                  (omega arith) h'))
            (ny x) 0 s (omega arith) h))
        nx 0 s (omega arith) start
    where
      finish :
          {H : Type 0} {P Q : S → Type κ} {r : Outcome E S}
          → ((s : S) → H → P s → Q s)
          → H
          → Returns r P
          → Returns r Q
      finish f h (t, e, p) = (t, e, f t h p)
