-- ===== src/Config/Laws.antt =====
-- Entries of the configuration, where the one that is there stays.
use glycin.Base.{
  ◌≡◌, refl, sym, ap, ◌∙◌, arith, Bool, true, false, Bool-cases, inl, inr, if◌then◌else◌, List, [],
  ◌∷◌, Option, none, some,
}
use glycin.Base.Dict.{Text, same_text, same_text→≡, lookup, insert, contains_key}
use glycin.Config.{MimeType, add}

abbrev pub or_else {ℓ} : {A : Type ℓ} → Option A → Option A → Option A
or_else (some a) o = some a
or_else none o = o

pub or_else-none {ℓ} : {A : Type ℓ} (o : Option A) → or_else o none ≡ o
or_else-none none = refl
or_else-none (some a) = refl

pub or_else_assoc {ℓ} :
    {A : Type ℓ} (o p q : Option A) → or_else (or_else o p) q ≡ or_else o (or_else p q)
or_else_assoc none p q = refl
or_else_assoc (some a) p q = refl

module _ {V : Type 0} where
  contains_key-true :
      (k : Text) (d : List (Text × V))
      → contains_key same_text k d ≡ true
      → (v : V) × (lookup same_text k d ≡ some v)
  contains_key-true k [] e = absurd (ground arith)
  contains_key-true k ((j, v) ∷ d) e = elim (Bool-cases (same_text k j)) [
    | inl same ↦ (v, rw same refl)
    | inr other ↦ let (w, e') = contains_key-true k d (rw other at e) in (w, rw other e')
  ]

  contains_key-false :
      (k : Text) (d : List (Text × V))
      → contains_key same_text k d ≡ false
      → lookup same_text k d ≡ none
  contains_key-false k [] e = refl
  contains_key-false k ((j, v) ∷ d) e = elim (Bool-cases (same_text k j)) [
    | inl same ↦ absurd (let q = rw same at e in ground arith)
    | inr other ↦ rw other (contains_key-false k d (rw other at e))
  ]

module _ {V : Type 0} where
  lookup-insert :
      (m k : MimeType) (c : V) (d : List (MimeType × V))
      → lookup same_text k d ≡ none
      → lookup same_text m (insert same_text k c d)
        ≡ or_else (lookup same_text m d) (if same_text m k then some c else none)
  lookup-insert m k c d free = elim (Bool-cases (same_text m k)) [
    | inl same ↦ rw same (
        sym (
          ap (λ (o : Option V). or_else o (some c))
            (ap (λ (j : Text). lookup same_text j d) (same_text→≡ m k same) ∙ free)))
    | inr other ↦ rw other (sym (or_else-none (lookup same_text m d)))
  ]

  or_else-taken :
      (m k : MimeType) (o : Option V) (d : List (MimeType × V)) (v : V)
      → lookup same_text k d ≡ some v
      → lookup same_text m d ≡ or_else (lookup same_text m d) (if same_text m k then o else none)
  or_else-taken m k o d v taken = elim (Bool-cases (same_text m k)) [
    | inl same ↦
        let e : lookup same_text m d ≡ some v =
          ap (λ (j : Text). lookup same_text j d) (same_text→≡ m k same) ∙ taken in
        rw e refl
    | inr other ↦ rw other (sym (or_else-none (lookup same_text m d)))
  ]

  pub lookup-add :
      (m k : MimeType) (o : Option V) (d : List (MimeType × V))
      → lookup same_text m (add k o d)
        ≡ or_else (lookup same_text m d) (if same_text m k then o else none)
  unfolding add
  lookup-add m k none d = elim (Bool-cases (contains_key same_text k d)) [
    | inl taken ↦
        let (v, e) = contains_key-true k d taken in rw taken (or_else-taken m k none d v e)
    | inr free ↦ rw free (both (same_text m k))
  ]
    where
      both :
          (b : Bool)
          → lookup same_text m d ≡ or_else (lookup same_text m d) (if b then none else none)
      both true = sym (or_else-none (lookup same_text m d))
      both false = sym (or_else-none (lookup same_text m d))
  lookup-add m k (some c) d = elim (Bool-cases (contains_key same_text k d)) [
    | inl taken ↦
        let (v, e) = contains_key-true k d taken in rw taken (or_else-taken m k (some c) d v e)
    | inr free ↦ rw free (lookup-insert m k c d (contains_key-false k d free))
  ]
