-- ===== src/Selection/Best.antt =====
-- What `best_format_for` chooses.
use glycin.Base.{
  ℕ, ◌≤◌, ◌≡◌, ◌↔◌, refl, sym, ◌∙◌, inl, inr, arith, Bool, true, false, ltb, le→ltb, leb,
  Bool-cases, fun_ext, ap, All, none, some, List, [], ◌∷◌,
}
use native.Mathlib.Nat.{le_refl}
use glycin.Format.Types.{MemoryFormat, ChannelType, same_type}
use glycin.Format.Tables.{has_alpha, n_channels, channel_type}
use glycin.Selection.{
  Selection, flag, memory_formats, key_for, lt_key, Key, same_bool, best_format_for,
}
use glycin.Selection.Sort.{sort_by, last?, last-sort-max, All-last, All-sort, last-none}
use glycin.Selection.Rank.{rank, lt_key-rank}
use glycin.Selection.Listed.{
  All-map, All-of_memory_formats, memory_formats-contained, contains_format-memory_formats,
}

-- The format `best` is accepted; it is `src` itself where that is accepted, and else no accepted
-- format has a higher key.
pub record IsBest (contains : Selection) (src best : MemoryFormat) : Type 0 where
  pub accepted : contains (flag best) ≡ true
  pub keeps : contains (flag src) ≡ true → best ≡ src
  pub highest :
      contains (flag src) ≡ false
      → (f : MemoryFormat) → contains (flag f) ≡ true
      → lt_key (key_for src best) (key_for src f) ≡ false

module _ (contains : Selection) (src : MemoryFormat) where
  by_key : MemoryFormat → MemoryFormat → Bool
  by_key x y = lt_key (key_for src x) (key_for src y)

  shortcut : contains (flag src) ≡ true → best_format_for contains src ≡ some src
  unfolding best_format_for
  shortcut c = rw (contains_format-memory_formats contains src ∙ c)

  sorted :
      contains (flag src) ≡ false
      → best_format_for contains src ≡ last? (sort_by by_key (memory_formats contains))
  unfolding best_format_for by_key
  sorted c = rw (contains_format-memory_formats contains src ∙ c)

  by_key-rank : by_key ≡ (λ x y. ltb (rank src x) (rank src y))
  unfolding by_key
  by_key-rank = fun_ext λ x. fun_ext λ y. lt_key-rank src x y

  chosen-IsBest :
      (best : MemoryFormat)
      → contains (flag src) ≡ false
      → last? (sort_by by_key (memory_formats contains)) ≡ some best
      → IsBest contains src best
  chosen-IsBest best c e = record {
    accepted =
        All-last (λ f. contains (flag f) ≡ true) _ best e
          (All-sort _ by_key _ (memory_formats-contained contains));
    keeps = λ c'. cc;
    highest = λ _ f cf.
        lt_key-rank src best f
        ∙ le→ltb _ _ (
            All-of_memory_formats contains (λ y. rank src y ≤ rank src best)
              (last-sort-max (rank src) _ best (rw by_key-rank at e)) f cf);
  }

  none_accepted :
      best_format_for contains src ≡ none → (f : MemoryFormat) → contains (flag f) ≡ true → ⊥
  none_accepted e f cf = elim (Bool-cases (contains (flag src))) [
    | inl c ↦ cc (shortcut c)
    | inr c ↦ All-of_memory_formats contains (λ _. ⊥) (last-none by_key _ (sym (sorted c) ∙ e)) f cf
  ]

nothing : (fs : List MemoryFormat) → All (λ _. ⊥) fs → fs ≡ []
nothing [] h = refl
nothing (f ∷ fs) h = absurd h.0

nothing_listed :
    (contains : Selection)
    → ((f : MemoryFormat) → contains (flag f) ≡ false)
    → memory_formats contains ≡ []
nothing_listed contains h = nothing _ (
    All-map {P = λ f. contains (flag f) ≡ true} {Q = λ _. ⊥} (λ f c. cc (h f)) _
      (memory_formats-contained contains))

-- Where `best_format_for` returns a format, it is `IsBest`: accepted, `src` itself if that is
-- accepted, and otherwise no accepted format has a higher key.
pub best_format_for-IsBest :
    (contains : Selection) (src best : MemoryFormat)
    → best_format_for contains src ≡ some best
    → IsBest contains src best
best_format_for-IsBest contains src best e = elim (Bool-cases (contains (flag src))) [
  | inl c ↦
      let same : src ≡ best = cc (shortcut contains src c) in
      record {
        accepted = sym (ap (λ f. contains (flag f)) same) ∙ c;
        keeps = λ _. sym same;
        highest = λ c'. cc;
      }
  | inr c ↦ chosen-IsBest contains src best c (sym (sorted contains src c) ∙ e)
]

-- `best_format_for` returns no format exactly if the selection contains none.
pub best_format_for-none :
    (contains : Selection) (src : MemoryFormat)
    → (best_format_for contains src ≡ none) ↔ ((f : MemoryFormat) → contains (flag f) ≡ false)
unfolding last? sort_by
best_format_for-none contains src = (
  λ e f. elim (Bool-cases (contains (flag f))) [
    | inl c ↦ absurd (none_accepted contains src e f c)
    | inr c ↦ c
  ],
  λ h.
      sorted contains src (h src)
      ∙ ap (λ fs. last? (sort_by (by_key contains src) fs)) (nothing_listed contains h),
)

-- The format has the opacity of `src`, at least its channels, and its channel type. Whether the colours are
-- premultiplied makes no difference.
abbrev pub HasChannelsOf : MemoryFormat → MemoryFormat → Type 0
HasChannelsOf src f =
    (has_alpha f ≡ has_alpha src)
    × (n_channels src ≤ n_channels f)
    × (channel_type f ≡ channel_type src)

same_type→≡ : (s t : ChannelType) → same_type s t ≡ true → s ≡ t
unfolding same_type
same_type→≡ s t e = ground arith

not_lower_key :
    (j k : Key)
    → k.same_alpha ≡ true
    → k.enough_channels ≡ true
    → k.same_channel_type ≡ true
    → lt_key j k ≡ false
    → (j.same_alpha ≡ true) × (j.enough_channels ≡ true) × (j.same_channel_type ≡ true)
unfolding lt_key
not_lower_key j k e1 e2 e3 h = ground arith

same_bool_iff : (x y : Bool) → (same_bool x y ≡ true) ↔ (x ≡ y)
unfolding same_bool
same_bool_iff true y = ground arith
same_bool_iff false y = ground arith

same_type_refl : (s : ChannelType) → same_type s s ≡ true
unfolding same_type
same_type_refl s = ground arith

leb_iff : (m n : ℕ) → (leb m n ≡ true) ↔ (m ≤ n)
leb_iff m n = ground arith

HasChannelsOf-iff :
    (src f : MemoryFormat)
    → ((key_for src f).same_alpha ≡ true)
        × ((key_for src f).enough_channels ≡ true)
        × ((key_for src f).same_channel_type ≡ true)
      ↔ HasChannelsOf src f
unfolding key_for
HasChannelsOf-iff src f = (
  λ (x, y, z). ((same_bool_iff _ _).0 x, (leb_iff _ _).0 y, same_type→≡ _ _ z),
  λ (x, y, z).
      ((same_bool_iff _ _).1 x, (leb_iff _ _).1 y, rw z (same_type_refl (channel_type src))),
)

not_lower :
    (src f best : MemoryFormat)
    → HasChannelsOf src f
    → lt_key (key_for src best) (key_for src f) ≡ false
    → HasChannelsOf src best
not_lower src f best rep h =
    let (x, y, z) = (HasChannelsOf-iff src f).1 rep in
    (HasChannelsOf-iff src best).0 (not_lower_key (key_for src best) (key_for src f) x y z h)

-- If a selection accepts some format that has the alpha mode, at least the channels and the channel
-- type of `src`, then a format that `best_format_for` returns has them too. This does not say that nothing
-- is lost, as premultiplication is not considered.
pub best_format_for-HasChannelsOf :
    (contains : Selection) (src f best : MemoryFormat)
    → contains (flag f) ≡ true
    → HasChannelsOf src f
    → best_format_for contains src ≡ some best
    → HasChannelsOf src best
best_format_for-HasChannelsOf contains src f best cf rep e =
    elim (Bool-cases (contains (flag src))) [
      | inl c ↦
          let same : best ≡ src = (best_format_for-IsBest contains src best e).keeps c in
          rw same (refl, le_refl _, refl)
      | inr c ↦
          not_lower src f best rep ((best_format_for-IsBest contains src best e).highest c f cf)
    ]
