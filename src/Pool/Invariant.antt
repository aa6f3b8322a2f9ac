-- ===== src/Pool/Invariant.antt =====
-- What holds of a pool after any sequence of operations.
use glycin.Base.{
  ℕ, ◌≤◌, ◌<◌, ◌≡◌, inl, inr, refl, arith, Bool, true, false, leb, ◌==◌, if◌then◌else◌, Bool-cases,
  List, [], ◌∷◌, ◌++◌, All, Option, some, none, Outcome, ok, err,
}
use glycin.Pool.{
  PooledProcess, PoolConfig, Processes, Pool, Error, new, use_, release, past, occupied,
  find_process, given, spawn_in, get_in, get_process, get_loader, get_editor, insert, retain,
  clean_loaders,
}

-- Something happens to one process of a list.
pub data OneChanged (f : PooledProcess → PooledProcess)
    : List PooledProcess → List PooledProcess → Type 0 where
  here : {p : PooledProcess} {ps : List PooledProcess} → OneChanged f (p ∷ ps) (f p ∷ ps)
  there :
      {p : PooledProcess} {ps qs : List PooledProcess}
      → OneChanged f ps qs
      → OneChanged f (p ∷ ps) (p ∷ qs)

-- A process that exits on its own.
abbrev pub disconnected : PooledProcess → PooledProcess
disconnected p = record p { process_disconnected = true }

-- What may happen to a process that a client holds, or that is idle.
pub data Event (config : PoolConfig) : (PooledProcess → PooledProcess) → Type 0 where
  used : (now : ℕ) → Event config (use_ now)
  released : (now : ℕ) → Event config (release config now)
  exited : Event config disconnected

-- The pools that the operations lead to from a new one, in any order.
pub data Reachable (config : PoolConfig) : Pool → Type 0 where
  started : Reachable config (new config)
  loader :
      {pool : Pool} (hash now : ℕ) (cancelled : Bool) (spawned : Outcome Error ℕ)
      → Reachable config pool
      → Reachable config (get_loader hash now cancelled spawned pool).0
  editor :
      {pool : Pool} (hash now : ℕ) (cancelled : Bool) (spawned : Outcome Error ℕ)
      → Reachable config pool
      → Reachable config (get_editor hash now cancelled spawned pool).0
  on_loader :
      {pool : Pool} {f : PooledProcess → PooledProcess} {ps : List PooledProcess} (hash : ℕ)
      → Event config f
      → OneChanged f (pool.loaders hash) ps
      → Reachable config pool
      → Reachable config (record pool { loaders = insert pool.loaders hash ps })
  on_editor :
      {pool : Pool} {f : PooledProcess → PooledProcess} {ps : List PooledProcess} (hash : ℕ)
      → Event config f
      → OneChanged f (pool.editors hash) ps
      → Reachable config pool
      → Reachable config (record pool { editors = insert pool.editors hash ps })
  cleaned :
      {pool : Pool} (now : ℕ) → Reachable config pool → Reachable config (clean_loaders now pool)

-- No process has more users than allowed.
abbrev pub Bounded : ℕ → List PooledProcess → Type 0
Bounded most = All (λ p. p.n_users ≤ most)

pub record IsBounded (config : PoolConfig) (pool : Pool) : Type 0 where
  pub same_config : pool.config ≡ config
  pub loaders : (hash : ℕ) → Bounded config.max_parallel_operations (pool.loaders hash)
  pub editors : (hash : ℕ) → Bounded config.max_parallel_operations (pool.editors hash)

abbrev FoundBounded : ℕ → Option (PooledProcess × List PooledProcess) → Type 0
FoundBounded most none = Unit
FoundBounded most (some (p, ps)) = Bounded most ps

past-Bounded :
    (most : ℕ) (p : PooledProcess) (found : Option (PooledProcess × List PooledProcess))
    → p.n_users ≤ most
    → FoundBounded most found
    → FoundBounded most (past p found)
unfolding past
past-Bounded most p none h b = tt
past-Bounded most p (some (q, qs)) h b = (h, b)

find_process-Bounded :
    (config : PoolConfig) (ps : List PooledProcess)
    → Bounded config.max_parallel_operations ps
    → FoundBounded config.max_parallel_operations (find_process config ps)
unfolding find_process
find_process-Bounded config [] b = tt
find_process-Bounded config (p ∷ ps) (h, b) =
    choose p.process_disconnected (leb config.max_parallel_operations p.n_users) refl
      (past-Bounded _ p (find_process config ps) h (find_process-Bounded config ps b))
  where
    most : ℕ
    most = config.max_parallel_operations

    later : Option (PooledProcess × List PooledProcess)
    later = past p (find_process config ps)

    choose :
        (gone full : Bool)
        → leb most p.n_users ≡ full
        → FoundBounded most later
        → FoundBounded most
            (if gone then later else if full then later else some (occupied p, occupied p ∷ ps))
    choose true full e l = l
    choose false true e l = l
    choose false false e l = (ground arith, b)

append-Bounded :
    (most : ℕ) (ps : List PooledProcess) (p : PooledProcess)
    → Bounded most ps
    → p.n_users ≤ most
    → Bounded most (ps ++ (p ∷ []))
append-Bounded most [] p b h = (h, tt)
append-Bounded most (q ∷ ps) p (h', b) h = (h', append-Bounded most ps p b h)

spawn_in-Bounded :
    (most now : ℕ) (cancelled : Bool) (spawned : Outcome Error ℕ) (ps : List PooledProcess)
    → 0 < most
    → Bounded most ps
    → Bounded most (spawn_in now cancelled spawned ps).0
unfolding spawn_in
spawn_in-Bounded most now true spawned ps h b = b
spawn_in-Bounded most now false (ok process) ps h b = append-Bounded most ps _ b h
spawn_in-Bounded most now false (err e) ps h b = b
spawn_in-Bounded most now false Outcome.panic ps h b = b

given-Bounded :
    (most : ℕ) (found : Option (PooledProcess × List PooledProcess))
    (new : List PooledProcess × Outcome Error PooledProcess)
    → FoundBounded most found
    → Bounded most new.0
    → Bounded most (given found new).0
unfolding given
given-Bounded most none new f b = b
given-Bounded most (some (p, ps)) new f b = f

insert-Bounded :
    (most : ℕ) (map : Processes) (hash : ℕ) (ps : List PooledProcess)
    → ((k : ℕ) → Bounded most (map k))
    → Bounded most ps
    → (k : ℕ) → Bounded most (insert map hash ps k)
unfolding insert
insert-Bounded most map hash ps b h k = choose (k == hash)
  where
    choose : (c : Bool) → Bounded most (if c then ps else map k)
    choose true = h
    choose false = b k

get_process-Bounded :
    (config : PoolConfig) (hash now : ℕ) (cancelled : Bool) (spawned : Outcome Error ℕ)
    (map : Processes)
    → 0 < config.max_parallel_operations
    → ((k : ℕ) → Bounded config.max_parallel_operations (map k))
    → (k : ℕ)
    → Bounded config.max_parallel_operations
        ((get_process config hash now cancelled spawned map).0 k)
unfolding get_process get_in
get_process-Bounded config hash now cancelled spawned map pos b = insert-Bounded _ map hash _ b (
    given-Bounded _ (find_process config (map hash)) (spawn_in now cancelled spawned (map hash))
      (find_process-Bounded config (map hash) (b hash))
      (spawn_in-Bounded _ now cancelled spawned (map hash) pos (b hash)))

Event-le :
    {config : PoolConfig} {f : PooledProcess → PooledProcess}
    → Event config f
    → (p : PooledProcess) → (f p).n_users ≤ p.n_users
unfolding release
Event-le (used now) p = omega arith
Event-le {config} (released now) p = elim (Bool-cases (p.n_users == 1)) [
  | inl one ↦ rw one (omega arith)
  | inr more ↦ rw more (omega arith)
]
Event-le exited p = omega arith

changed-Bounded :
    {f : PooledProcess → PooledProcess} {ps qs : List PooledProcess} (most : ℕ)
    → ((p : PooledProcess) → (f p).n_users ≤ p.n_users)
    → OneChanged f ps qs
    → Bounded most ps
    → Bounded most qs
changed-Bounded most less (here {p}) (h, b) = (omega (arith, less p), b)
changed-Bounded most less (there c) (h, b) = (h, changed-Bounded most less c b)

retain-Bounded :
    (most : ℕ) (keep : PooledProcess → Bool) (ps : List PooledProcess)
    → Bounded most ps
    → Bounded most (retain keep ps)
unfolding retain
retain-Bounded most keep [] b = tt
retain-Bounded most keep (p ∷ ps) (h, b) = choose (keep p) (retain-Bounded most keep ps b)
  where
    choose :
        (c : Bool)
        → Bounded most (retain keep ps)
        → Bounded most (if c then p ∷ retain keep ps else retain keep ps)
    choose true r = (h, r)
    choose false r = r

-- With a configuration that allows an operation, no sequence of calls, uses, releases, exits and
-- clean-ups leads to a process with more users than allowed.
pub Reachable-IsBounded :
    (config : PoolConfig) (pool : Pool)
    → 0 < config.max_parallel_operations
    → Reachable config pool
    → IsBounded config pool
unfolding get_loader get_editor clean_loaders
Reachable-IsBounded config pool pos started = record {
  same_config = refl;
  loaders = λ hash. tt;
  editors = λ hash. tt;
}
Reachable-IsBounded config pool pos (loader hash now cancelled spawned r) =
    let b = Reachable-IsBounded config _ pos r in
    record {
      same_config = b.same_config;
      loaders =
          rw b.same_config (get_process-Bounded config hash now cancelled spawned _ pos b.loaders);
      editors = b.editors;
    }
Reachable-IsBounded config pool pos (editor hash now cancelled spawned r) =
    let b = Reachable-IsBounded config _ pos r in
    record {
      same_config = b.same_config;
      loaders = b.loaders;
      editors =
          rw b.same_config (get_process-Bounded config hash now cancelled spawned _ pos b.editors);
    }
Reachable-IsBounded config pool pos (on_loader {pool = before} hash event changed r) =
    let b = Reachable-IsBounded config _ pos r in
    record {
      same_config = b.same_config;
      loaders =
          insert-Bounded _ before.loaders hash _ b.loaders
            (changed-Bounded _ (Event-le event) changed (b.loaders hash));
      editors = b.editors;
    }
Reachable-IsBounded config pool pos (on_editor {pool = before} hash event changed r) =
    let b = Reachable-IsBounded config _ pos r in
    record {
      same_config = b.same_config;
      loaders = b.loaders;
      editors =
          insert-Bounded _ before.editors hash _ b.editors
            (changed-Bounded _ (Event-le event) changed (b.editors hash));
    }
Reachable-IsBounded config pool pos (cleaned now r) =
    let b = Reachable-IsBounded config _ pos r in
    record {
      same_config = b.same_config;
      loaders = λ hash. retain-Bounded _ _ _ (b.loaders hash);
      editors = b.editors;
    }
