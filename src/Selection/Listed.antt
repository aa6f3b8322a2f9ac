-- ===== src/Selection/Listed.antt =====
-- Which formats `memory_formats` lists: those whose flag the selection contains.
use glycin.Base.{
  ℕ, zero, suc, ◌≡◌, refl, sym, ap, subst, ◌∙◌, arith, true, false, ◌==◌, ==→≡, if◌then◌else◌,
  Bool-cases, inl, inr, Option, none, some, List, [], ◌∷◌, get_elem?, All,
}
use glycin.Format.Types.{MemoryFormat}
use glycin.Selection.{
  Selection, flag, pairs, push_contained, memory_formats, same_format, contains_format,
}

index_in : ℕ → List (ℕ × MemoryFormat) → ℕ
index_in k [] = 0
index_in k ((j, f) ∷ rest) = let i = index_in k rest in if j == k then 0 else suc i

format_at : ℕ → List (ℕ × MemoryFormat) → Option MemoryFormat
format_at k [] = none
format_at k ((j, f) ∷ rest) = let o = format_at k rest in if j == k then some f else o

-- `pairs` has each format, with its own flag.
get_elem?-pairs : (f : MemoryFormat) → get_elem? pairs (index_in (flag f) pairs) ≡ some (flag f, f)
unfolding pairs index_in
get_elem?-pairs MemoryFormat.g8 = refl
get_elem?-pairs f = refl

pairs_flags : All (λ p. p.0 ≡ flag p.1) pairs
unfolding pairs
pairs_flags = omega arith

format_at-flag : (f : MemoryFormat) → format_at (flag f) pairs ≡ some f
unfolding pairs format_at
format_at-flag MemoryFormat.g8 = refl
format_at-flag f = refl

pub flag_inj : (x y : MemoryFormat) → flag x ≡ flag y → x ≡ y
flag_inj x y e =
    let q : some x ≡ some y =
      sym (format_at-flag x) ∙ ap (λ k. format_at k pairs) e ∙ format_at-flag y in
    cc

-- `All` along an implication.
pub All-map {ℓ κ ν} :
    {A : Type ℓ} {P : A → Type κ} {Q : A → Type ν}
    → ((a : A) → P a → Q a)
    → (xs : List A) → All P xs
    → All Q xs
All-map g [] h = tt
All-map g (x ∷ xs) h = (g x h.0, All-map g xs h.1)

module _ (contains : Selection) where
  All-push {κ} :
      (P : MemoryFormat → Type κ) (ps : List (ℕ × MemoryFormat))
      → All (λ p. contains p.0 ≡ true → P p.1) ps
      → All P (push_contained contains ps)
  unfolding push_contained
  All-push P [] h = tt
  All-push P ((k, f) ∷ ps) h = elim (Bool-cases (contains k)) [
    | inl e ↦ rw e (h.0 e, All-push P ps h.1)
    | inr e ↦ rw e (All-push P ps h.1)
  ]

  All-of_push {κ} :
      (P : MemoryFormat → Type κ) (ps : List (ℕ × MemoryFormat)) (i k : ℕ) (f : MemoryFormat)
      → All P (push_contained contains ps)
      → get_elem? ps i ≡ some (k, f)
      → contains k ≡ true
      → P f
  unfolding push_contained
  All-of_push P [] i k f h e c = cc
  All-of_push P ((j, g) ∷ ps) zero k f h e c =
      let hit : contains j ≡ true = ap contains (let q : j ≡ k = cc in q) ∙ c in
      let kept : All P (g ∷ push_contained contains ps) = rw hit at h in
      let q : g ≡ f = cc in subst P q kept.0
  All-of_push P ((j, g) ∷ ps) (suc i) k f h e c = elim (Bool-cases (contains j)) [
    | inl hit ↦
        let kept : All P (g ∷ push_contained contains ps) = rw hit at h in
        All-of_push P ps i k f kept.1 e c
    | inr miss ↦ All-of_push P ps i k f (rw miss at h) e c
  ]

  -- What holds of every listed format holds of every format that is contained.
  pub All-of_memory_formats {κ} :
      (P : MemoryFormat → Type κ)
      → All P (memory_formats contains)
      → (f : MemoryFormat) → contains (flag f) ≡ true
      → P f
  unfolding memory_formats
  All-of_memory_formats P h f c =
      All-of_push P pairs (index_in (flag f) pairs) (flag f) f h (get_elem?-pairs f) c

  pub memory_formats-contained : All (λ f. contains (flag f) ≡ true) (memory_formats contains)
  unfolding memory_formats
  memory_formats-contained = All-push _ pairs (
      All-map {P = λ p. p.0 ≡ flag p.1} {Q = λ p. contains p.0 ≡ true → contains (flag p.1) ≡ true}
        (λ p e c. sym (ap contains e) ∙ c) pairs pairs_flags)

same_format_refl : (f : MemoryFormat) → same_format f f ≡ true
unfolding same_format
same_format_refl f = ground arith

contains_format→All :
    (xs : List MemoryFormat) (src : MemoryFormat)
    → contains_format xs src ≡ false
    → All (λ x. same_format x src ≡ false) xs
unfolding contains_format
contains_format→All [] src e = tt
contains_format→All (x ∷ xs) src e = (ground arith, contains_format→All xs src (ground arith))

All→contains_format {κ} :
    (P : MemoryFormat → Type κ) (xs : List MemoryFormat) (src : MemoryFormat)
    → All P xs
    → contains_format xs src ≡ true
    → P src
unfolding contains_format same_format
All→contains_format P [] src h e = cc
All→contains_format P (x ∷ xs) src h e = elim (Bool-cases (flag x == flag src)) [
  | inl same ↦ subst P (flag_inj x src (==→≡ _ _ same)) h.0
  | inr other ↦ All→contains_format P xs src h.1 (ground arith)
]

-- The shortcut of `best_format_for` is taken exactly if the selection contains the format.
pub contains_format-memory_formats :
    (contains : Selection) (src : MemoryFormat)
    → contains_format (memory_formats contains) src ≡ contains (flag src)
contains_format-memory_formats contains src =
    elim (Bool-cases (contains_format (memory_formats contains) src)) [
      | inl e ↦ e ∙ sym (All→contains_format _ _ src (memory_formats-contained contains) e)
      | inr e ↦ elim (Bool-cases (contains (flag src))) [
        | inl c ↦
            let miss =
              All-of_memory_formats contains (λ x. same_format x src ≡ false)
                (contains_format→All _ src e) src c in
            cc (same_format_refl src)
        | inr c ↦ cc
      ]
    ]
