-- ===== src/Sandbox.antt =====
-- The memory limit of a sandbox (`glycin/src/sandbox.rs`) and the choice of its mechanism
-- (`glycin/src/api_common.rs`). A line of /proc/meminfo is given by whether it starts with one of the two
-- words that count, and by the number that its second word parses to. The product with 0.8 as a
-- float, cast back, is a parameter.
pub mod Laws
pub mod Command
pub mod Filters
pub mod Names
pub mod Confined
use package.glycin.Base.{
  ℕ, ◌+◌, ◌-◌, ◌*◌, min, Bool, true, if◌then◌else◌, List, [], ◌∷◌, Option, some, none, usize_mod,
}

pub record Line : Type 0 where
  pub counts : Bool
  pub mem_avail_kb : Option ℕ

abbrev pub saturating_add : ℕ → ℕ → ℕ
saturating_add a b = min (a + b) (usize_mod - 1)

abbrev pub saturating_mul : ℕ → ℕ → ℕ
saturating_mul a b = min (a * b) (usize_mod - 1)

abbrev pub unwrap_or_zero : Option ℕ → ℕ
unwrap_or_zero none = 0
unwrap_or_zero (some n) = n

-- The total after one line.
unfoldable pub add_line : Line → Option ℕ → Option ℕ
add_line line total =
    if line.counts
    then elim line.mem_avail_kb as (λ _. Option ℕ) [
      | none ↦ total
      | some kb ↦ some (saturating_add (unwrap_or_zero total) kb)
    ]
    else total

unfoldable pub total_kb : List Line → Option ℕ → Option ℕ
unfolding add_line
total_kb [] total = total
total_kb (line ∷ lines) total = total_kb lines (add_line line total)

-- `none` for a file that cannot be opened.
unfoldable pub mem_available : Option (List Line) → Option ℕ
unfolding total_kb
mem_available none = none
mem_available (some lines) = elim (total_kb lines none) as (λ _. Option ℕ) [
  | none ↦ none
  | some kb ↦ some (saturating_mul kb 1024)
]

module _ (four_fifths : ℕ → ℕ) where
  unfoldable pub calculate_memory_limit : ℕ → ℕ
  calculate_memory_limit mem_available =
      four_fifths (min mem_available (1024 * 1024 * 1024 * 20) - 1024 * 1024 * 200)

  unfoldable pub memory_limit : Option (List Line) → ℕ
  unfolding mem_available calculate_memory_limit
  memory_limit meminfo = elim (mem_available meminfo) as (λ _. ℕ) [
    | none ↦ 1024 * 1024 * 1024
    | some mem ↦ calculate_memory_limit mem
  ]

pub data RunEnvironment : Type 0 where
  flatpak_devel flatpak host host_bwrap_syscalls_blocked : RunEnvironment

-- `check_native_sandbox_syscalls_blocked`.
abbrev pub check_native_sandbox_syscalls_blocked : Bool
check_native_sandbox_syscalls_blocked = true

-- `RunEnvironment::cached`, from what `flatpak_devel` reads in /.flatpak-info.
unfoldable pub run_environment : Option Bool → RunEnvironment
run_environment (some devel) = if devel then flatpak_devel else flatpak
run_environment none =
    if check_native_sandbox_syscalls_blocked then host_bwrap_syscalls_blocked else host

pub data SandboxMechanism : Type 0 where
  native_sandbox flatpak_spawn not_sandboxed : SandboxMechanism

pub data SandboxSelector : Type 0 where
  auto native_sandbox flatpak_spawn not_sandboxed : SandboxSelector

-- `SandboxMechanism::detect` in an environment.
unfoldable pub detect : RunEnvironment → SandboxMechanism
detect flatpak_devel = SandboxMechanism.not_sandboxed
detect flatpak = SandboxMechanism.flatpak_spawn
detect host = SandboxMechanism.native_sandbox
detect host_bwrap_syscalls_blocked = SandboxMechanism.not_sandboxed

unfoldable pub into_selector : SandboxMechanism → SandboxSelector
into_selector SandboxMechanism.native_sandbox = SandboxSelector.native_sandbox
into_selector SandboxMechanism.flatpak_spawn = SandboxSelector.flatpak_spawn
into_selector SandboxMechanism.not_sandboxed = SandboxSelector.not_sandboxed

unfoldable pub determine_sandbox_mechanism : RunEnvironment → SandboxSelector → SandboxMechanism
unfolding detect
determine_sandbox_mechanism env SandboxSelector.auto = detect env
determine_sandbox_mechanism env SandboxSelector.native_sandbox = SandboxMechanism.native_sandbox
determine_sandbox_mechanism env SandboxSelector.flatpak_spawn = SandboxMechanism.flatpak_spawn
determine_sandbox_mechanism env SandboxSelector.not_sandboxed = SandboxMechanism.not_sandboxed
