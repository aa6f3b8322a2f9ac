-- ===== src/Selection/Sort.antt =====
-- A stable sort by a Boolean order, and the last entry of its result.
use glycin.Base.{
  subst, ap, ℕ, ◌≤◌, ◌≡◌, refl, Bool, ltb, if◌then◌else◌, Bool-cases, inl, inr, arith,
}
use glycin.Base.{Option, none, some, List, [], ◌∷◌, All}

module _ {ℓ} {A : Type ℓ} where
  -- `x` comes before the entries of `ys` that are equal to it.
  unfoldable pub insert_by : (A → A → Bool) → A → List A → List A
  insert_by lt x [] = x ∷ []
  insert_by lt x (y ∷ ys) =
      let later = insert_by lt x ys in if lt y x then y ∷ later else x ∷ y ∷ ys

  -- `slice::sort_by_key`, which is stable.
  unfoldable pub sort_by : (A → A → Bool) → List A → List A
  unfolding insert_by
  sort_by lt [] = []
  sort_by lt (x ∷ xs) = insert_by lt x (sort_by lt xs)

  unfoldable pub last? : List A → Option A
  last? [] = none
  last? (x ∷ []) = some x
  last? (x ∷ y ∷ ys) = last? (y ∷ ys)

  module _ {κ} (P : A → Type κ) where
    All-insert :
        (lt : A → A → Bool) (x : A) (ys : List A) → P x → All P ys → All P (insert_by lt x ys)
    unfolding insert_by
    All-insert lt x [] px h = (px, tt)
    All-insert lt x (y ∷ ys) px h = elim (Bool-cases (lt y x)) [
      | inl e ↦ rw e (h.0, All-insert lt x ys px h.1)
      | inr e ↦ rw e (px, h)
    ]

    All-of_insert :
        (lt : A → A → Bool) (x : A) (ys : List A) → All P (insert_by lt x ys) → P x × All P ys
    unfolding insert_by
    All-of_insert lt x [] h = h
    All-of_insert lt x (y ∷ ys) h = elim (Bool-cases (lt y x)) [
      | inl e ↦
          let k : All P (y ∷ insert_by lt x ys) = rw e at h in
          let (px, rest) = All-of_insert lt x ys k.1 in (px, (k.0, rest))
      | inr e ↦ rw e at h
    ]

    pub All-sort : (lt : A → A → Bool) (xs : List A) → All P xs → All P (sort_by lt xs)
    unfolding sort_by
    All-sort lt [] h = tt
    All-sort lt (x ∷ xs) h = All-insert lt x (sort_by lt xs) h.0 (All-sort lt xs h.1)

    pub All-of_sort : (lt : A → A → Bool) (xs : List A) → All P (sort_by lt xs) → All P xs
    unfolding sort_by
    All-of_sort lt [] h = tt
    All-of_sort lt (x ∷ xs) h =
        let (px, rest) = All-of_insert lt x (sort_by lt xs) h in (px, All-of_sort lt xs rest)

    pub All-last : (xs : List A) (m : A) → last? xs ≡ some m → All P xs → P m
    unfolding last?
    All-last [] m e h = cc
    All-last (x ∷ []) m e h = let q : x ≡ m = cc in subst P q h.0
    All-last (x ∷ y ∷ ys) m e h = All-last (y ∷ ys) m e h.1

  no-last : (xs : List A) → last? xs ≡ none → xs ≡ []
  unfolding last?
  no-last [] e = refl
  no-last (x ∷ []) e = cc
  no-last (x ∷ y ∷ ys) e = let none_later : y ∷ ys ≡ [] = no-last (y ∷ ys) e in cc

  -- A sort with no last entry is one of no entries.
  pub last-none : (lt : A → A → Bool) (xs : List A) → last? (sort_by lt xs) ≡ none → All (λ _. ⊥) xs
  last-none lt xs e = All-of_sort (λ _. ⊥) lt xs (rw (no-last (sort_by lt xs) e) tt)

  module _ (rank : A → ℕ) where
    abbrev IsSorted : List A → Type 0
    IsSorted [] = Unit
    IsSorted (x ∷ xs) = All (λ y. rank x ≤ rank y) xs × IsSorted xs

    abbrev by_rank : A → A → Bool
    by_rank x y = ltb (rank x) (rank y)

    All-trans :
        (n m : ℕ) (xs : List A) → n ≤ m → All (λ y. m ≤ rank y) xs → All (λ y. n ≤ rank y) xs
    All-trans n m [] h all = tt
    All-trans n m (x ∷ xs) h all = (omega arith, All-trans n m xs h all.1)

    insert-IsSorted : (x : A) (ys : List A) → IsSorted ys → IsSorted (insert_by by_rank x ys)
    unfolding insert_by
    insert-IsSorted x [] h = (tt, tt)
    insert-IsSorted x (y ∷ ys) h = elim (Bool-cases (by_rank y x)) [
      | inl e ↦ rw e (
        All-insert (λ z. rank y ≤ rank z) by_rank x ys (ground arith) h.0,
        insert-IsSorted x ys h.1,
      )
      | inr e ↦ rw e ((ground arith, All-trans (rank x) (rank y) ys (ground arith) h.0), h)
    ]

    sort-IsSorted : (xs : List A) → IsSorted (sort_by by_rank xs)
    unfolding sort_by
    sort-IsSorted [] = tt
    sort-IsSorted (x ∷ xs) = insert-IsSorted x (sort_by by_rank xs) (sort-IsSorted xs)

    last-max :
        (xs : List A) (m : A) → IsSorted xs → last? xs ≡ some m → All (λ y. rank y ≤ rank m) xs
    unfolding last?
    last-max [] m h e = tt
    last-max (x ∷ []) m h e = ((let q : x ≡ m = cc in omega (arith, ap rank q)), tt)
    last-max (x ∷ y ∷ ys) m h e =
        let later = last-max (y ∷ ys) m h.1 e in (omega (arith, h.0.0, later.0), later)

    -- The last entry of the sorted list ranks highest in the list.
    pub last-sort-max :
        (xs : List A) (m : A) → last? (sort_by by_rank xs) ≡ some m → All (λ y. rank y ≤ rank m) xs
    last-sort-max xs m e =
        All-of_sort (λ y. rank y ≤ rank m) by_rank xs
          (last-max (sort_by by_rank xs) m (sort-IsSorted xs) e)
