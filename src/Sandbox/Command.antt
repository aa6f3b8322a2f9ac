-- ===== src/Sandbox/Command.antt =====
-- The commands of the sandboxes in `glycin/src/sandbox.rs`: what is set up before a loader or editor is
-- executed. Files and file descriptors are named by numbers or texts. Numbers in texts, the
-- variables of the environment and libseccomp are parameters.
use Prim.Native.String.{String, ◌++◌}
use glycin.Base.{
  ℕ, Bool, true, false, if◌then◌else◌, List, [], ◌∷◌, Option, some, none, Outcome, ok, ◌>>=◌,
}
use glycin.Sandbox.{SandboxMechanism}

unfoldable pub allowed_syscalls : List String
allowed_syscalls =
    "access" ∷ "arch_prctl" ∷ "arm_fadvise64_64" ∷ "brk" ∷ "capget" ∷ "capset" ∷ "chdir"
    ∷ "clock_getres" ∷ "clock_gettime" ∷ "clock_gettime64" ∷ "clone" ∷ "clone3" ∷ "close"
    ∷ "connect" ∷ "creat" ∷ "dup" ∷ "epoll_create" ∷ "epoll_create1" ∷ "epoll_ctl" ∷ "epoll_pwait"
    ∷ "epoll_wait" ∷ "eventfd" ∷ "eventfd2" ∷ "execve" ∷ "exit" ∷ "exit_group" ∷ "faccessat"
    ∷ "fadvise64" ∷ "fadvise64_64" ∷ "fchdir" ∷ "fcntl" ∷ "fcntl" ∷ "fcntl64" ∷ "fstat" ∷ "fstatfs"
    ∷ "fstatfs64" ∷ "ftruncate" ∷ "ftruncate64" ∷ "futex" ∷ "futex_time64" ∷ "get_mempolicy"
    ∷ "getcwd" ∷ "getdents64" ∷ "getegid" ∷ "getegid32" ∷ "geteuid" ∷ "geteuid32" ∷ "getgid"
    ∷ "getgid32" ∷ "getpid" ∷ "getppid" ∷ "getpriority" ∷ "getrandom" ∷ "gettid" ∷ "gettimeofday"
    ∷ "getuid" ∷ "getuid32" ∷ "ioctl" ∷ "madvise" ∷ "membarrier" ∷ "memfd_create" ∷ "mmap" ∷ "mmap2"
    ∷ "mprotect" ∷ "mremap" ∷ "munmap" ∷ "newfstatat" ∷ "open" ∷ "openat" ∷ "pipe" ∷ "pipe2"
    ∷ "pivot_root" ∷ "poll" ∷ "ppoll" ∷ "ppoll_time64" ∷ "prctl" ∷ "pread64" ∷ "prlimit64" ∷ "read"
    ∷ "readlink" ∷ "readlinkat" ∷ "recv" ∷ "recvfrom" ∷ "recvmsg" ∷ "rseq" ∷ "rt_sigaction"
    ∷ "rt_sigprocmask" ∷ "rt_sigreturn" ∷ "sched_getaffinity" ∷ "sched_yield" ∷ "sendmsg" ∷ "sendto"
    ∷ "set_mempolicy" ∷ "set_mempolicy" ∷ "set_robust_list" ∷ "set_thread_area" ∷ "set_tid_address"
    ∷ "set_tls" ∷ "setpriority" ∷ "sigaltstack" ∷ "signalfd4" ∷ "socket" ∷ "socketcall" ∷ "stat"
    ∷ "statfs" ∷ "statfs64" ∷ "statx" ∷ "sysinfo" ∷ "tgkill" ∷ "timerfd_create" ∷ "timerfd_settime"
    ∷ "timerfd_settime64" ∷ "ugetrlimit" ∷ "uname" ∷ "unshare" ∷ "wait4" ∷ "write" ∷ "writev" ∷ []

unfoldable pub allowed_syscalls_fontconfig : List String
allowed_syscalls_fontconfig =
    "chmod" ∷ "link" ∷ "linkat" ∷ "rename" ∷ "renameat" ∷ "renameat2" ∷ "unlink" ∷ "unlinkat" ∷ []

unfoldable pub inherited_environment_variables : List String
inherited_environment_variables = "RUST_BACKTRACE" ∷ "RUST_LOG" ∷ "XDG_RUNTIME_DIR" ∷ []

pub data ScmpAction : Type 0 where
  kill_process trap : ScmpAction

-- A filter, with the numbers of the system calls that are allowed.
pub record Filter : Type 0 where
  pub default_action : ScmpAction
  pub allowed : List ℕ

-- What a child does between `fork` and `execve`.
pub data PreExec : Type 0 where
  set_memory_limit set_pdeathsig : PreExec
  load_filter : Filter → PreExec
  close_fds_except : List ℕ → PreExec

pub record Command : Type 0 where
  pub program : String
  pub args : List String
  pub env : List (String × String)
  pub pre_exec : List PreExec

-- The fields of `Sandbox` that are used. Of the configuration it reads `exec` and `fontconfig`.
pub record Sandbox : Type 0 where
  pub sandbox_mechanism : SandboxMechanism
  pub exec : String
  pub fontconfig : Bool
  pub dbus_socket : ℕ

-- The list, which ends with more.
abbrev pub append {ℓ} : {A : Type ℓ} → List A → List A → List A
append [] ys = ys
append (x ∷ xs) ys = x ∷ append xs ys

-- The variables of a cleared environment that are inherited.
unfoldable pub env_if_set : String → Option String → List (String × String) → List (String × String)
env_if_set key none env = env
env_if_set key (some val) env = (key, val) ∷ env

unfoldable pub inherit : (String → Option String) → List String → List (String × String)
unfolding env_if_set
inherit var_os [] = []
inherit var_os (key ∷ keys) = env_if_set key (var_os key) (inherit var_os keys)

-- The names that a filter allows.
unfoldable pub allowed_names : Bool → List String
unfolding allowed_syscalls allowed_syscalls_fontconfig
allowed_names fontconfig =
    append allowed_syscalls (if fontconfig then allowed_syscalls_fontconfig else [])

-- `ScmpSyscall::from_name` and the rules for the names, or the first error.
unfoldable pub add_rules : {E : Type 0} → (String → Outcome E ℕ) → List String → Outcome E (List ℕ)
add_rules from_name [] = ok []
add_rules from_name (name ∷ names) = do
  syscall ← from_name name
  rules ← add_rules from_name names
  ok (syscall ∷ rules)

abbrev pub default_action_of : Bool → ScmpAction
default_action_of true = ScmpAction.kill_process
default_action_of false = ScmpAction.trap

-- `seccomp_filter`, where the first argument is whether the variable asks for `KILL_PROCESS`.
unfoldable pub seccomp_filter :
    {E : Type 0} → Bool → (String → Outcome E ℕ) → Sandbox → Outcome E Filter
unfolding allowed_names add_rules
seccomp_filter kill from_name sandbox = do
  rules ← add_rules from_name (allowed_names sandbox.fontconfig)
  ok (record { default_action = default_action_of kill; allowed = rules })

module _ {E : Type 0} (var_os : String → Option String) (kill : Bool)
    (from_name : String → Outcome E ℕ) (show : ℕ → String) (memory_limit : ℕ) where
  -- The filter is built in the child: an error of it is one of `execve`.
  unfoldable pub native_sandbox_command : Sandbox → Outcome E Command
  unfolding inherit seccomp_filter inherited_environment_variables
  native_sandbox_command sandbox = seccomp_filter kill from_name sandbox >>= (λ filter. ok (record {
    program = sandbox.exec;
    args = [];
    env = inherit var_os inherited_environment_variables;
    pre_exec = set_memory_limit ∷ load_filter filter ∷ [];
  }))

  unfoldable pub flatpak_spawn_command : Sandbox → Command
  unfolding inherit inherited_environment_variables
  flatpak_spawn_command sandbox = record {
    program = "flatpak-spawn";
    args =
        "--sandbox"
        ∷ "--watch-bus"
        ∷ "--directory=/"
        ∷ ("--forward-fd=" ++ show sandbox.dbus_socket)
        ∷ "prlimit"
        ∷ ("--as=" ++ show memory_limit)
        ∷ sandbox.exec
        ∷ [];
    env = inherit var_os inherited_environment_variables;
    pre_exec = set_pdeathsig ∷ [];
  }

  unfoldable pub no_sandbox_command : Sandbox → Command
  unfolding inherit inherited_environment_variables
  no_sandbox_command sandbox = record {
    program = sandbox.exec;
    args = [];
    env = inherit var_os inherited_environment_variables;
    pre_exec = set_pdeathsig ∷ [];
  }

  -- The match of `spawn`.
  unfoldable pub mechanism_command : SandboxMechanism → Sandbox → Outcome E Command
  unfolding native_sandbox_command flatpak_spawn_command no_sandbox_command
  mechanism_command SandboxMechanism.native_sandbox sandbox = native_sandbox_command sandbox
  mechanism_command SandboxMechanism.flatpak_spawn sandbox = ok (flatpak_spawn_command sandbox)
  mechanism_command SandboxMechanism.not_sandboxed sandbox = ok (no_sandbox_command sandbox)

  -- `Sandbox::spawn`, up to the pipes of the standard streams.
  unfoldable pub spawn : Sandbox → Outcome E Command
  unfolding mechanism_command
  spawn sandbox = do
    command ← mechanism_command sandbox.sandbox_mechanism sandbox
    ok (record command {
      args = append command.args ("--dbus-fd" ∷ show sandbox.dbus_socket ∷ []);
      pre_exec = append command.pre_exec (close_fds_except (sandbox.dbus_socket ∷ []) ∷ []);
    })
