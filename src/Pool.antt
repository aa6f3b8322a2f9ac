-- ===== src/Pool.antt =====
-- `glycin/src/pool.rs`: the processes that are kept to be used again. The maps are functions of the
-- hash of a configuration, where a missing entry is the empty list. The lock is held for the whole of an
-- operation, which is one step here. Of a usage tracker, the number of its owners is kept, and of
-- its timer the time at which it fires. The spawning of a process is a parameter.
pub mod Laws
pub mod Invariant
use package.glycin.Base.{
  ℕ, zero, suc, ◌+◌, ◌-◌, Bool, true, false, not, ◌&&◌, ◌||◌, ltb, leb, ◌==◌, if◌then◌else◌, List,
  [], ◌∷◌, ◌++◌, Option, some, none, Outcome, ok, err, ◌>>=◌, usize_mod,
}

pub record PooledProcess : Type 0 where
  pub last_use : ℕ
  pub timeout : Option ℕ
  pub process : ℕ
  pub process_disconnected : Bool
  pub n_users : ℕ

pub record PoolConfig : Type 0 where
  pub loader_retention_time : ℕ
  pub max_parallel_operations : ℕ

abbrev pub default_config : PoolConfig
default_config = record { loader_retention_time = 30; max_parallel_operations = usize_mod - 1 }

-- `PoolConfig::max_parallel_operations`.
unfoldable pub with_max : ℕ → PoolConfig → PoolConfig
with_max n config = record config { max_parallel_operations = if n == 0 then usize_mod - 1 else n }

abbrev pub Processes : Type 0
Processes = ℕ → List PooledProcess

pub record Pool : Type 0 where
  pub loaders : Processes
  pub editors : Processes
  pub config : PoolConfig

pub data Error : Type 0 where
  canceled : Error
  failed : ℕ → Error

abbrev pub no_processes : Processes
no_processes hash = []

abbrev pub new : PoolConfig → Pool
new config = record { loaders = no_processes; editors = no_processes; config = config }

-- `entry(hash)`, written back.
unfoldable pub insert : Processes → ℕ → List PooledProcess → Processes
insert map hash ps k = if k == hash then ps else map k

-- `use_`.
abbrev pub use_ : ℕ → PooledProcess → PooledProcess
use_ now p = record p { last_use = now }

-- What is found among the processes behind `p`.
unfoldable pub past :
    PooledProcess
    → Option (PooledProcess × List PooledProcess)
    → Option (PooledProcess × List PooledProcess)
past p none = none
past p (some (q, qs)) = some (q, p ∷ qs)

abbrev pub occupied : PooledProcess → PooledProcess
occupied p = record p { n_users = suc p.n_users }

-- The loop over the processes: the one that is used, with one more owner of its tracker, and the list
-- in which it stands.
unfoldable pub find_process :
    PoolConfig → List PooledProcess → Option (PooledProcess × List PooledProcess)
unfolding past
find_process config [] = none
find_process config (p ∷ ps) =
    let later = past p (find_process config ps) in
    if p.process_disconnected
    then later
    else if leb config.max_parallel_operations p.n_users
    then later
    else some (occupied p, occupied p ∷ ps)

-- A process that has been spawned.
abbrev pub pooled : ℕ → ℕ → PooledProcess
pooled now process = record {
  last_use = now;
  timeout = none;
  process = process;
  process_disconnected = false;
  n_users = 1;
}

-- The list of one configuration and what the call comes to, if no process is found. `cancelled` is a
-- cancellation before the process is spawned, `spawned` what spawning comes to.
unfoldable pub spawn_in :
    ℕ
    → Bool
    → Outcome Error ℕ
    → List PooledProcess
    → List PooledProcess × Outcome Error PooledProcess
spawn_in now true spawned ps = (ps, err canceled)
spawn_in now false (ok process) ps = (ps ++ (pooled now process ∷ []), ok (pooled now process))
spawn_in now false (err e) ps = (ps, err e)
spawn_in now false Outcome.panic ps = (ps, Outcome.panic)

unfoldable pub given :
    Option (PooledProcess × List PooledProcess)
    → List PooledProcess × Outcome Error PooledProcess
    → List PooledProcess × Outcome Error PooledProcess
given none new = new
given (some (p, ps)) new = (ps, ok p)

unfoldable pub get_in :
    PoolConfig
    → ℕ
    → Bool
    → Outcome Error ℕ
    → List PooledProcess
    → List PooledProcess × Outcome Error PooledProcess
unfolding find_process given spawn_in
get_in config now cancelled spawned ps =
    given (find_process config ps) (spawn_in now cancelled spawned ps)

unfoldable pub get_process :
    PoolConfig
    → ℕ
    → ℕ
    → Bool
    → Outcome Error ℕ
    → Processes
    → Processes × Outcome Error PooledProcess
unfolding get_in insert
get_process config hash now cancelled spawned map =
    let r = get_in config now cancelled spawned (map hash) in (insert map hash r.0, r.1)

unfoldable pub get_loader :
    ℕ → ℕ → Bool → Outcome Error ℕ → Pool → Pool × Outcome Error PooledProcess
unfolding get_process
get_loader hash now cancelled spawned pool =
    let r = get_process pool.config hash now cancelled spawned pool.loaders in
    (record pool { loaders = r.0 }, r.1)

unfoldable pub get_editor :
    ℕ → ℕ → Bool → Outcome Error ℕ → Pool → Pool × Outcome Error PooledProcess
unfolding get_process
get_editor hash now cancelled spawned pool =
    let r = get_process pool.config hash now cancelled spawned pool.editors in
    (record pool { editors = r.0 }, r.1)

-- One owner of the tracker is gone; `UsageTracker::drop` runs after the last one.
unfoldable pub release : PoolConfig → ℕ → PooledProcess → PooledProcess
release config now p =
    if p.n_users == 1
    then record p { n_users = 0; timeout = some (now + config.loader_retention_time) }
    else record p { n_users = p.n_users - 1 }

-- The test of `clean_loaders`.
unfoldable pub is_dropped : PoolConfig → ℕ → PooledProcess → Bool
is_dropped config now p = p.n_users == 0 && ltb config.loader_retention_time (now - p.last_use)

unfoldable pub retain : (PooledProcess → Bool) → List PooledProcess → List PooledProcess
retain keep [] = []
retain keep (p ∷ ps) = let rest = retain keep ps in if keep p then p ∷ rest else rest

unfoldable pub clean_loaders : ℕ → Pool → Pool
unfolding retain is_dropped
clean_loaders now pool = record pool {
  loaders = λ hash. retain (λ p. not (is_dropped pool.config now p)) (pool.loaders hash);
}
