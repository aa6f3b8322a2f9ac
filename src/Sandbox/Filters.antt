-- ===== src/Sandbox/Filters.antt =====
-- What a filter of system calls allows, and the options of a command.
use Prim.Native.String.{String}
use Prim.Native.Char.{code}
use glycin.Base.{ℕ, ◌≡◌, ◌≢◌, arith, Bool, true, false, ◌==◌, if◌then◌else◌, List, [], ◌∷◌}
use glycin.Sandbox.Command.{Filter}

abbrev pub elem : List ℕ → ℕ → Bool
elem [] k = false
elem (n ∷ ns) k = if n == k then true else elem ns k

-- Whether a filter allows a system call.
abbrev pub allows : Filter → ℕ → Bool
allows filter syscall = elem filter.allowed syscall

pub elem_here : (ns : List ℕ) (k : ℕ) → elem (k ∷ ns) k ≡ true
elem_here ns k = ground arith

pub elem_later : (ns : List ℕ) (n k : ℕ) → n ≢ k → elem (n ∷ ns) k ≡ elem ns k
elem_later ns n k h = ground (arith, h)

-- An option of a command begins with a dash.
abbrev pub is_option : String → Bool
is_option String.[] = false
is_option (String.◌∷◌ c s) = code c == 45
