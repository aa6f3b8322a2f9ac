-- ===== src/Dbus/Changes.antt =====
-- `ByteChanges` of `glycin-utils/src/dbus_editor_api.rs`: single bytes of a file that are written anew.
use glycin.Base.{
  ℕ, ◌<◌, ◌≡◌, ◌≢◌, ◌↔◌, ◌⊎◌, refl, sym, ap, ◌∙◌, arith, Bool-cases, inl, inr, true, ltb, ◌==◌,
  if◌then◌else◌, List, [], ◌∷◌, All, length, length-set, get_or, get_or-set_self, get_or-set_ne,
  set, map, Outcome, ok, ◌>>=◌, write, write_lem, Returns, ==→≡, ==→≢,
}
use glycin.Dbus.Editor.{ByteChanges}

-- `ByteChanges::from_slice`.
unfoldable pub from_slice : List (ℕ × ℕ) → ByteChanges
from_slice changes = map (λ change. record { offset = change.0; new_value = change.1 }) changes

-- `ByteChanges::apply`: a write past the end is a panic, as nothing is written there.
unfoldable pub apply : {E : Type 0} → ByteChanges → List ℕ → Outcome E (List ℕ)
unfolding write
apply [] bytes = ok bytes
apply (change ∷ changes) bytes = do
  bytes' ← write bytes change.offset change.new_value
  apply changes bytes'

-- The value at a position: of the last change of it, if there is one.
abbrev pub last_value : ByteChanges → ℕ → ℕ → ℕ
last_value [] i value = value
last_value (change ∷ changes) i value =
    last_value changes i (if change.offset == i then change.new_value else value)

pub record IsPatched (changes : ByteChanges) (bytes out : List ℕ) : Type 0 where
  pub same_length : length out ≡ length bytes
  pub values : (i : ℕ) → i < length bytes → get_or out i 0 ≡ last_value changes i (get_or bytes i 0)

abbrev pub AllInside : ByteChanges → List ℕ → Type 0
AllInside changes bytes = All (λ change. change.offset < length bytes) changes

pub inside-length :
    (changes : ByteChanges) (xs ys : List ℕ)
    → length xs ≡ length ys
    → AllInside changes xs
    → AllInside changes ys
inside-length [] xs ys e h = tt
inside-length (change ∷ changes) xs ys e (h, hs) = (omega arith, inside-length changes xs ys e hs)

get_or-set :
    (xs : List ℕ) (i j v : ℕ)
    → i < length xs
    → get_or (set xs i v) j 0 ≡ (if i == j then v else get_or xs j 0)
get_or-set xs i j v h = elim (Bool-cases (i == j)) [
  | inl same ↦
      rw same
        (ap (λ (k : ℕ). get_or (set xs i v) k 0) (sym (==→≡ i j same)) ∙ get_or-set_self xs i v 0 h)
  | inr other ↦ rw other (get_or-set_ne xs i j v 0 (==→≢ i j other))
]

patched :
    {E : Type 0} (changes : ByteChanges) (bytes : List ℕ)
    → AllInside changes bytes
    → Returns (apply {E = E} changes bytes) (IsPatched changes bytes)
unfolding apply
patched {E} [] bytes h = (bytes, refl, record { same_length = refl; values = λ i hi. refl })
patched {E} (change ∷ changes) bytes (h, hs) =
    let size = length-set bytes change.offset change.new_value in
    let (out, e, p) =
      patched {E = E} changes (set bytes change.offset change.new_value)
        (inside-length changes bytes (set bytes change.offset change.new_value) (sym size) hs) in
    (
      out,
      rw (write_lem bytes change.offset change.new_value h) e,
      record {
        same_length = p.same_length ∙ size;
        values = λ i hi.
            p.values i (omega arith)
            ∙ ap (last_value changes i) (get_or-set bytes change.offset i change.new_value h);
      },
    )

inside :
    {E : Type 0} (changes : ByteChanges) (bytes out : List ℕ)
    → apply {E = E} changes bytes ≡ ok out
    → AllInside changes bytes
unfolding apply write
inside [] bytes out e = tt
inside (change ∷ changes) bytes out e = elim (Bool-cases (ltb change.offset (length bytes))) [
  | inl within ↦ (
    ground arith,
    inside-length changes (set bytes change.offset change.new_value) bytes
        (length-set bytes change.offset change.new_value)
        (inside changes (set bytes change.offset change.new_value) out (rw within at e)),
  )
  | inr beyond ↦ absurd (let q = rw beyond at e in ground arith)
]

inside_or_panic :
    {E : Type 0} (changes : ByteChanges) (bytes : List ℕ)
    → AllInside changes bytes ⊎ (apply {E = E} changes bytes ≡ Outcome.panic)
unfolding apply write
inside_or_panic {E} [] bytes = inl tt
inside_or_panic {E} (change ∷ changes) bytes =
    elim (Bool-cases (ltb change.offset (length bytes))) [
      | inl within ↦
          later within (inside_or_panic {E = E} changes (set bytes change.offset change.new_value))
      | inr beyond ↦ inr (rw beyond refl)
    ]
  where
    later :
        ltb change.offset (length bytes) ≡ true
        → AllInside changes (set bytes change.offset change.new_value)
          ⊎ (apply {E = E} changes (set bytes change.offset change.new_value) ≡ Outcome.panic)
        → AllInside (change ∷ changes) bytes
          ⊎ (apply {E = E} (change ∷ changes) bytes ≡ Outcome.panic)
    later within (inl h) = inl (
      ground arith,
      inside-length changes (set bytes change.offset change.new_value) bytes
          (length-set bytes change.offset change.new_value) h,
    )
    later within (inr e) = inr (rw within e)

-- Changes are applied without a panic exactly if all of their offsets lie inside of the data. This is also
-- exactly when they return data of the same length in which each byte is that of the last change of
-- it, or else what it was.
pub apply_iff :
    {E : Type 0} (changes : ByteChanges) (bytes : List ℕ)
    → (Returns (apply {E = E} changes bytes) (IsPatched changes bytes) ↔ AllInside changes bytes)
      × ((apply {E = E} changes bytes ≢ Outcome.panic) ↔ AllInside changes bytes)
apply_iff {E} changes bytes = (
  (λ (out, e, p). inside changes bytes out e, patched changes bytes),
  (
    λ safe. elim (inside_or_panic {E = E} changes bytes) [ inl h ↦ h | inr e ↦ absurd (safe e) ],
    λ h e. let (out, e', p) = patched {E = E} changes bytes h in ground (arith, sym e', e),
  ),
)
