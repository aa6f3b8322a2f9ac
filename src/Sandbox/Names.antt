-- ===== src/Sandbox/Names.antt =====
-- The names of system calls in a list, and their numbers in a filter.
use Prim.Native.String.{String}
use text.Mathlib.Text.{◌==◌}
use text.Mathlib.TextPositions.{eq_refl}
use text.Mathlib.TextEquality.{eq_iff}
use glycin.Base.{
  ℕ, ◌≡◌, refl, sym, ap, ◌∙◌, Bool, true, false, if◌then◌else◌, List, [], ◌∷◌, All, map, Bool-cases,
  inl, inr,
}
use glycin.Sandbox.Filters.{elem, elem_here, elem_later}
use glycin.Sandbox.Command.{allowed_syscalls, allowed_syscalls_fontconfig, append, allowed_names}

abbrev pub contains : String → List String → Bool
contains name [] = false
contains name (other ∷ names) = if name == other then true else contains name names

pub contains-append :
    (name : String) (before names : List String)
    → contains name (append before (name ∷ names)) ≡ true
contains-append name [] names = rw (eq_refl name) refl
contains-append name (other ∷ before) names = elim (Bool-cases (name == other)) [
  | inl same ↦ rw same refl
  | inr different ↦ rw different (contains-append name before names)
]

pub contains_here : (name : String) (names : List String) → contains name (name ∷ names) ≡ true
contains_here name names = rw (eq_refl name) refl

pub contains_later :
    (name other : String) (names : List String)
    → contains name names ≡ true
    → contains name (other ∷ names) ≡ true
contains_later name other names h = elim (Bool-cases (name == other)) [
  | inl same ↦ rw same refl
  | inr different ↦ rw different h
]

-- The system calls for the cache of fontconfig are allowed exactly with fontconfig, and `close_range` never.
pub allowed_names-fontconfig :
    (fontconfig : Bool)
    → All
        (λ name. contains name (allowed_names fontconfig) ≡ fontconfig)
        allowed_syscalls_fontconfig
      × (contains "close_range" (allowed_names fontconfig) ≡ false)
unfolding allowed_names allowed_syscalls allowed_syscalls_fontconfig
allowed_names-fontconfig true =
    ((refl, (refl, (refl, (refl, (refl, (refl, (refl, (refl, tt)))))))), refl)
allowed_names-fontconfig false =
    ((refl, (refl, (refl, (refl, (refl, (refl, (refl, (refl, tt)))))))), refl)

-- What is asked of a filter: the calls that fontconfig needs for its cache.
abbrev pub watched : List String
watched = "close_range" ∷ allowed_syscalls_fontconfig

module _ (number : String → ℕ) where
  pub allowed_iff :
      (name : String) (names : List String)
      → ((other : String) → contains other names ≡ true → number name ≡ number other → name ≡ other)
      → elem (map number names) (number name) ≡ contains name names
  allowed_iff name [] distinct = refl
  allowed_iff name (other ∷ names) distinct = elim (Bool-cases (name == other)) [
    | inl same ↦ rw same (
        ap (λ (n : String). elem (number n ∷ map number names) (number name))
          (sym ((eq_iff name other).0 same))
        ∙ elem_here (map number names) (number name))
    | inr different ↦ rw different (
        elem_later (map number names) (number other) (number name) (λ e.
          let q : (name == other) ≡ true =
            (eq_iff name other).1 (distinct other (contains_here other names) (sym e)) in
          cc)
        ∙ allowed_iff name names (λ n h e. distinct n (contains_later n other names h) e))
  ]
