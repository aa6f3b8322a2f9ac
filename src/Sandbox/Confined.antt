-- ===== src/Sandbox/Confined.antt =====
-- What every command of a sandbox has in common, and what the mechanisms have of their own.
use Prim.Native.String.{String, ◌++◌}
use glycin.Base.{ℕ, ◌≡◌, ◌⊎◌, Bool, true, false, List, [], ◌∷◌, All, map, Option, some, Outcome, ok}
use glycin.Sandbox.{SandboxMechanism}
use glycin.Sandbox.Filters.{allows, is_option}
use glycin.Sandbox.Command.{
  allowed_syscalls_fontconfig, inherited_environment_variables, Filter, set_memory_limit,
  set_pdeathsig, load_filter, close_fds_except, Command, Sandbox, append, inherit, allowed_names,
  default_action_of,
}
use glycin.Sandbox.Names.{contains, watched}

module _ {E : Type 0} (var_os : String → Option String) (kill : Bool)
    (from_name : String → Outcome E ℕ) (show : ℕ → String) (memory_limit : ℕ) (number : String → ℕ)
    (sandbox : Sandbox) where
  abbrev dbus_args : List String
  dbus_args = "--dbus-fd" ∷ show sandbox.dbus_socket ∷ []

  -- The native sandbox: the process is started by itself, with a limit of the memory, and with a filter that
  -- allows the calls for the cache of fontconfig exactly if it is used. The files are closed last, by
  -- a call that the filter does not allow.
  pub record IsNative (command : Command) : Type 0 where
    pub filter : Filter
    pub program : command.program ≡ sandbox.exec
    pub args : command.args ≡ dbus_args
    pub order :
        command.pre_exec
        ≡ set_memory_limit ∷ load_filter filter ∷ close_fds_except (sandbox.dbus_socket ∷ []) ∷ []
    pub action : filter.default_action ≡ default_action_of kill
    pub closing : allows filter (number "close_range") ≡ false
    pub caching :
        All (λ name. allows filter (number name) ≡ sandbox.fontconfig) allowed_syscalls_fontconfig

  -- Flatpak: `flatpak-spawn` makes a sandbox, watches the bus and forwards the socket, and in it runs
  -- `prlimit`, which limits the memory of the process.
  pub record IsFlatpak (command : Command) : Type 0 where
    pub options : List String
    pub program : command.program ≡ "flatpak-spawn"
    pub args :
        command.args
        ≡ append options ("prlimit" ∷ ("--as=" ++ show memory_limit) ∷ sandbox.exec ∷ dbus_args)
    pub only_options :
        All
          (λ option.
            (is_option option ≡ true) ⊎ (option ≡ "--forward-fd=" ++ show sandbox.dbus_socket))
          options
    pub sandboxed : contains "--sandbox" options ≡ true
    pub watched_bus : contains "--watch-bus" options ≡ true
    pub forwarded : contains ("--forward-fd=" ++ show sandbox.dbus_socket) options ≡ true
    pub order : command.pre_exec ≡ set_pdeathsig ∷ close_fds_except (sandbox.dbus_socket ∷ []) ∷ []

  -- Without a sandbox: neither a limit nor a filter.
  pub record IsUnsandboxed (command : Command) : Type 0 where
    pub program : command.program ≡ sandbox.exec
    pub args : command.args ≡ dbus_args
    pub order : command.pre_exec ≡ set_pdeathsig ∷ close_fds_except (sandbox.dbus_socket ∷ []) ∷ []

  abbrev pub MechanismOf : SandboxMechanism → Command → Type 0
  MechanismOf SandboxMechanism.native_sandbox command = IsNative command
  MechanismOf SandboxMechanism.flatpak_spawn command = IsFlatpak command
  MechanismOf SandboxMechanism.not_sandboxed command = IsUnsandboxed command

  -- The environment has inherited variables alone.
  pub record IsConfined (command : Command) : Type 0 where
    pub environment :
        All
          (λ variable.
            (contains variable.0 inherited_environment_variables ≡ true)
            × (var_os variable.0 ≡ some variable.1))
          command.env
    pub own : MechanismOf sandbox.sandbox_mechanism command

  abbrev Inherited : List String → List (String × String) → Type 0
  Inherited keys =
      All (λ variable. (contains variable.0 keys ≡ true) × (var_os variable.0 ≡ some variable.1))

  module _ (known : (name : String) → from_name name ≡ ok (number name))
      (distinct : (name other : String)
        → contains name watched ≡ true
        → contains other (allowed_names sandbox.fontconfig) ≡ true
        → number name ≡ number other
        → name ≡ other) where
    abbrev filter_of : Filter
    filter_of = record {
      default_action = default_action_of kill;
      allowed = map number (allowed_names sandbox.fontconfig);
    }

    -- The command before the last two arguments and the last closure are added.
    record IsCommandOf (mechanism : SandboxMechanism) (command : Command) : Type 0 where
      environment : Inherited inherited_environment_variables command.env
      own : MechanismOf mechanism (record command {
        args = append command.args ("--dbus-fd" ∷ show sandbox.dbus_socket ∷ []);
        pre_exec = append command.pre_exec (close_fds_except (sandbox.dbus_socket ∷ []) ∷ []);
      })

    abbrev native_of : Filter → Command
    native_of filter = record {
      program = sandbox.exec;
      args = [];
      env = inherit var_os inherited_environment_variables;
      pre_exec = set_memory_limit ∷ load_filter filter ∷ [];
    }

    abbrev spawn_options : List String
    spawn_options =
        "--sandbox"
        ∷ "--watch-bus"
        ∷ "--directory=/"
        ∷ ("--forward-fd=" ++ show sandbox.dbus_socket)
        ∷ []
