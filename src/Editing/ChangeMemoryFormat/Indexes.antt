-- ===== src/Editing/ChangeMemoryFormat/Indexes.antt =====
-- The index map of the shortcuts: it has the source channel for each target channel, and none that
-- the source lacks.
use glycin.Base.{
  ℕ, zero, suc, ◌+◌, ◌≤◌, ◌<◌, ◌≡◌, ◌≢◌, ◌⊎◌, inl, inr, refl, sym, ◌∙◌, ap, arith, Bool, true,
  false, ◌==◌, if◌then◌else◌, ltb, ==→≢, Bool-cases, List, [], ◌∷◌, length, get_or, set, length-set,
  get_or-set_self, get_or-set_ne, replicate, read_lem, write_lem, Returns,
}
use glycin.Format.Types.{
  MemoryFormat, Source, opaque, Target, r, g, b, a, rgb_avg, source_index, target_index,
  contains_source, contains_target,
}
use glycin.Format.Tables.{n_channels, source_definition, target_definition}
use glycin.Format.Laws.{format-HasLayout}
use glycin.Editing.ChangeMemoryFormat.{fill_map, index_map, copies_channels}

-- The channel of `src` that holds what the channel `i` of `target` is to hold.
unfoldable pub wanted : MemoryFormat → MemoryFormat → ℕ → ℕ
wanted src target i =
    source_index
      (get_or (source_definition src) (target_index (get_or (target_definition target) i a)) opaque)

abbrev wanted_in : List Source → List Target → ℕ → ℕ
wanted_in sources ts i = source_index (get_or sources (target_index (get_or ts i a)) opaque)

abbrev AllBelow : ℕ → List Target → Type 0
AllBelow n ts = (i : ℕ) → i < length ts → target_index (get_or ts i a) < n

here_or_later :
    (sources : List Source) (n : ℕ) (t : Target) (ts : List Target) (out : List ℕ)
    → get_or out n 0 ≡ source_index (get_or sources (target_index t) opaque)
    → ((i : ℕ) → i < length ts → get_or out (suc n + i) 0 ≡ wanted_in sources ts i)
    → (i : ℕ) → i < length (t ∷ ts)
    → get_or out (n + i) 0 ≡ wanted_in sources (t ∷ ts) i
here_or_later sources n t ts out now after zero hi =
    ap (λ (k : ℕ). get_or out k 0) (let q : n + zero ≡ n = omega arith in q) ∙ now
here_or_later sources n t ts out now after (suc i) hi =
    ap (λ (k : ℕ). get_or out k 0) (let q : n + suc i ≡ suc n + i = omega arith in q)
    ∙ after i (omega arith)

fill_map_lem :
    (sources : List Source) (n : ℕ) (ts : List Target) (indexes : List ℕ)
    → AllBelow (length sources) ts
    → n + length ts ≤ length indexes
    → Returns (fill_map sources n ts indexes) (λ out.
      (length out ≡ length indexes)
      × ((i : ℕ) → i < n → get_or out i 0 ≡ get_or indexes i 0)
      × ((i : ℕ) → i < length ts → get_or out (n + i) 0 ≡ wanted_in sources ts i))
unfolding fill_map
fill_map_lem sources n [] indexes below room =
    (indexes, refl, (refl, λ i hi. refl, λ i hi. absurd (omega arith)))
fill_map_lem sources n (t ∷ ts) indexes below room =
    let v = source_index (get_or sources (target_index t) opaque) in
    let (out, e, (size, before, after)) =
      fill_map_lem sources (suc n) ts (set indexes n v) (λ i hi. below (suc i) (omega arith))
        (omega (arith, length-set indexes n v)) in
    (
      out,
      rw
          (
            read_lem sources (target_index t) opaque (below 0 (omega arith)),
            write_lem indexes n v (omega arith),
          )
          e,
      (
        size ∙ length-set indexes n v,
        λ i hi. before i (omega arith) ∙ get_or-set_ne indexes n i v 0 (omega arith),
        λ i hi.
            here_or_later sources n t ts out
              (before n (omega arith) ∙ get_or-set_self indexes n v 0 (omega arith)) after i hi,
      ),
    )

no_target :
    (t : Target) (ts : List Target)
    → contains_target ts t ≡ false
    → (i : ℕ) → i < length ts
    → target_index (get_or ts i a) ≢ target_index t
unfolding contains_target
no_target t [] h i hi = absurd (omega arith)
no_target t (x ∷ xs) h zero hi = ==→≢ _ _ (ground arith)
no_target t (x ∷ xs) h (suc i) hi = no_target t xs (ground arith) i (omega arith)

target_index_lt : (t : Target) → target_index t < 5
unfolding target_index
target_index_lt t = ground arith

target_index_alpha : target_index a ≡ 3
unfolding target_index
target_index_alpha = refl

channels_le : (f : MemoryFormat) → n_channels f ≤ 4
unfolding n_channels
channels_le MemoryFormat.g8 = omega arith
channels_le f = omega arith

abbrev source_at : MemoryFormat → ℕ → ℕ
source_at f k = source_index (get_or (source_definition f) k opaque)

sources_below :
    (f : MemoryFormat)
    → (source_at f 0 < n_channels f)
      × (source_at f 1 < n_channels f)
      × (source_at f 2 < n_channels f)
      × (contains_source (source_definition f) opaque ≡ false → source_at f 3 < n_channels f)
unfolding source_index source_definition n_channels contains_source
sources_below MemoryFormat.g8 = (omega arith, omega arith, omega arith, λ h. cc)
sources_below f = (omega arith, omega arith, omega arith, λ h. ground arith)

colour_below : (f : MemoryFormat) (k : ℕ) → k < 3 → source_at f k < n_channels f
colour_below f zero h = (sources_below f).0
colour_below f (suc zero) h = (sources_below f).1
colour_below f (suc (suc zero)) h = (sources_below f).2
colour_below f (suc (suc (suc k))) h = absurd (omega arith)

module _ (src target : MemoryFormat) (copies : copies_channels src target ≡ true) where
  no_grey : contains_target (target_definition target) rgb_avg ≡ false
  unfolding copies_channels
  no_grey = ground arith

  opacity :
      (contains_source (source_definition src) opaque ≡ false)
      ⊎ (contains_target (target_definition target) a ≡ false)
  unfolding copies_channels
  opacity = ground arith

  target_below : AllBelow 4 (target_definition target)
  unfolding target_index
  target_below i hi =
      let q = no_target rgb_avg (target_definition target) no_grey i hi in
      let b = target_index_lt (get_or (target_definition target) i a) in omega arith

  pub wanted-lt-n_channels : (i : ℕ) → i < n_channels target → wanted src target i < n_channels src
  unfolding wanted
  wanted-lt-n_channels i hi =
      let in_targets =
        (let q : i < length (target_definition target) =
            omega (arith, (format-HasLayout target).one_target_each) in
          q) in
      let k = target_index (get_or (target_definition target) i a) in
      elim (Bool-cases (ltb k 3)) [
        | inl colour ↦ colour_below src k (ground arith)
        | inr other ↦
            let three : k ≡ 3 = ground (arith, target_below i in_targets) in
            elim opacity [
              | inl opaque_free ↦ rw three ((sources_below src).3 opaque_free)
              | inr alpha_free ↦ absurd (
                  no_target a (target_definition target) alpha_free i in_targets
                    (three ∙ sym target_index_alpha))
            ]
      ]

  -- The map is computed without a panic.
  pub index_map-wanted : Returns (index_map src target) (λ indexes.
      (length indexes ≡ 4)
      × ((i : ℕ) → i < n_channels target → get_or indexes i 0 ≡ wanted src target i))
  unfolding index_map wanted
  index_map-wanted =
      let sizes = format-HasLayout target in
      let (out, e, (size, _, all)) =
        fill_map_lem (source_definition src) 0 (target_definition target) (replicate 4 0)
          (λ i hi. omega (arith, target_below i hi, (format-HasLayout src).four_sources))
          (omega (arith, sizes.one_target_each, channels_le target)) in
      (
        out,
        e,
        (
          size,
          λ i hi.
              ap (λ (k : ℕ). get_or out k 0) (let q : i ≡ 0 + i = omega arith in q)
              ∙ all i (omega (arith, sizes.one_target_each)),
        ),
      )

-- Whether a channel holds a value: it is that of the value, or it is grey and the value is a colour.
abbrev pub holds : Target → Target → Bool
holds rgb_avg a = false
holds rgb_avg t = true
holds u t = target_index u == target_index t

abbrev stored_in : List Target → Target → ℕ
stored_in [] t = 0
stored_in (u ∷ us) t = if holds u t then 0 else suc (stored_in us t)

-- The first channel of `src` that holds the value of the channel `i` of `target`.
pub stored : MemoryFormat → MemoryFormat → ℕ → ℕ
unfolding target_index
stored src target i = stored_in (target_definition src) (get_or (target_definition target) i a)

stored_values :
    (f : MemoryFormat)
    → f ≢ MemoryFormat.a8b8g8r8
    → (source_at f 0 ≡ stored_in (target_definition f) r)
      × (source_at f 1 ≡ stored_in (target_definition f) g)
      × (source_at f 2 ≡ stored_in (target_definition f) b)
      × (contains_source (source_definition f) opaque ≡ false
          → source_at f 3 ≡ stored_in (target_definition f) a)
unfolding source_index source_definition target_definition target_index contains_source
stored_values MemoryFormat.a8b8g8r8 h = absurd (h refl)
stored_values f h = (refl, refl, refl, λ e. ground arith)

module _ (src target : MemoryFormat) (right : src ≢ MemoryFormat.a8b8g8r8)
    (copies : copies_channels src target ≡ true) where
  -- The table of the source names the channel that holds the value.
  pub wanted-stored : (i : ℕ) → i < n_channels target → wanted src target i ≡ stored src target i
  unfolding wanted stored target_index
  wanted-stored i hi = by_target (get_or (target_definition target) i a) refl
    where
      in_targets : i < length (target_definition target)
      in_targets = omega (arith, (format-HasLayout target).one_target_each)

      by_target :
          (t : Target)
          → get_or (target_definition target) i a ≡ t
          → source_at src (target_index t) ≡ stored_in (target_definition src) t
      by_target r e = (stored_values src right).0
      by_target g e = (stored_values src right).1
      by_target b e = (stored_values src right).2
      by_target a e = elim (opacity src target copies) [
        | inl opaque_free ↦ (stored_values src right).3 opaque_free
        | inr alpha_free ↦
            absurd
              (no_target a (target_definition target) alpha_free i in_targets (ap target_index e))
      ]
      by_target rgb_avg e = absurd (
          no_target rgb_avg (target_definition target) (no_grey src target copies) i in_targets
            (ap target_index e))
