-- ===== src/Base/Dict.antt =====
-- Maps as lists of pairs, where the first pair of a key counts, and texts as lists of code points.
use Prim.Native.Nat.{ℕ}
use Prim.Native.String.{String}
use Prim.Native.Char.{code}
use mathlib.Core.Path.{◌≡◌, refl}
use mathlib.Core.Bool.{Bool, true, false, ◌&&◌}
use mathlib.Core.Option.{Option, none, some}
use mathlib.Core.List.{List, [], ◌∷◌}
use native.Mathlib.Omega.{arith}
use glycin.Base.Tests.{if◌then◌else◌, ◌==◌}

module _ {ℓ κ} {K : Type ℓ} {V : Type κ} (same : K → K → Bool) where
  abbrev pub lookup : K → List (K × V) → Option V
  lookup k [] = none
  lookup k ((j, v) ∷ entries) = if same k j then some v else lookup k entries

  -- A key that is there gets another value.
  abbrev pub insert : K → V → List (K × V) → List (K × V)
  insert k v entries = (k, v) ∷ entries

  abbrev pub contains_key : K → List (K × V) → Bool
  contains_key k [] = false
  contains_key k ((j, v) ∷ entries) = if same k j then true else contains_key k entries

abbrev pub Text : Type 0
Text = List ℕ

abbrev pub text : String → Text
text String.[] = []
text (String.◌∷◌ c s) = code c ∷ text s

abbrev pub same_text : Text → Text → Bool
same_text [] [] = true
same_text [] (y ∷ ys) = false
same_text (x ∷ xs) [] = false
same_text (x ∷ xs) (y ∷ ys) = (x == y) && same_text xs ys

pub same_text_refl : (s : Text) → same_text s s ≡ true
same_text_refl [] = refl
same_text_refl (x ∷ xs) = ground (arith, same_text_refl xs)

pub same_text→≡ : (s t : Text) → same_text s t ≡ true → s ≡ t
same_text→≡ [] [] e = refl
same_text→≡ [] (y ∷ ys) e = ground arith
same_text→≡ (x ∷ xs) [] e = ground arith
same_text→≡ (x ∷ xs) (y ∷ ys) e = ground (arith, same_text→≡ xs ys)
