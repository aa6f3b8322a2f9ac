-- ===== src/Pool/Laws.antt =====
-- Which process a client is given, and which ones are dropped.
use mathlib.Core.List.{Memᴰ}
use mathlib.Core.List.Memᴰ
use glycin.Base.{
  ==→≡, ℕ, ◌-◌, ◌≤◌, ◌<◌, ◌≡◌, ◌⊎◌, ◌↔◌, inl, inr, refl, sym, ◌∙◌, ap, arith, Bool, true, false,
  not, leb, ◌==◌, if◌then◌else◌, Bool-cases, List, [], ◌∷◌, ◌++◌, All, Option, some, none, Outcome,
  ok, err,
}
use glycin.Pool.{
  PooledProcess, PoolConfig, Processes, Pool, Error, past, occupied, find_process, given, spawn_in,
  get_in, get_process, insert, pooled, is_dropped, retain, clean_loaders,
}

-- A process that may be given to one more client.
pub record IsAvailable (config : PoolConfig) (p : PooledProcess) : Type 0 where
  pub connected : p.process_disconnected ≡ false
  pub room : p.n_users < config.max_parallel_operations

abbrev pub IsTaken : PoolConfig → PooledProcess → Type 0
IsTaken config p = (p.process_disconnected ≡ true) ⊎ (config.max_parallel_operations ≤ p.n_users)

if_either :
    {A : Type 0} (b c : Bool) (x y : A)
    → (b ≡ true) ⊎ (c ≡ true)
    → (if b then x else if c then x else y) ≡ x
if_either true c x y h = refl
if_either false true x y h = refl
if_either false false x y h = ground arith

if_neither :
    {A : Type 0} (b c : Bool) (x y : A)
    → b ≡ false
    → c ≡ false
    → (if b then x else if c then x else y) ≡ y
if_neither false false x y h h' = refl
if_neither false true x y h h' = cc
if_neither true c x y h h' = cc

find_process-taken :
    (config : PoolConfig) (p : PooledProcess) (ps : List PooledProcess)
    → IsTaken config p
    → find_process config (p ∷ ps) ≡ past p (find_process config ps)
unfolding find_process
find_process-taken config p ps (inl gone) =
    if_either p.process_disconnected (leb config.max_parallel_operations p.n_users) _ _ (inl gone)
find_process-taken config p ps (inr full) =
    if_either p.process_disconnected (leb config.max_parallel_operations p.n_users) _ _
      (inr (ground arith))

find_process-first :
    (config : PoolConfig) (before after : List PooledProcess) (p : PooledProcess)
    → All (IsTaken config) before
    → IsAvailable config p
    → find_process config (before ++ (p ∷ after))
      ≡ some (occupied p, before ++ (occupied p ∷ after))
unfolding find_process past
find_process-first config [] after p taken free =
    if_neither p.process_disconnected (leb config.max_parallel_operations p.n_users) _ _
      free.connected (let t = free.room in ground arith)
find_process-first config (q ∷ before) after p (h, taken) free =
    find_process-taken config q (before ++ (p ∷ after)) h
    ∙ ap (past q) (find_process-first config before after p taken free)

find_process-none :
    (config : PoolConfig) (ps : List PooledProcess)
    → All (IsTaken config) ps
    → find_process config ps ≡ none
unfolding find_process past
find_process-none config [] taken = refl
find_process-none config (p ∷ ps) (h, taken) =
    find_process-taken config p ps h ∙ ap (past p) (find_process-none config ps taken)

insert_self :
    (map : Processes) (hash : ℕ) (ps : List PooledProcess)
    → ps ≡ map hash
    → (k : ℕ) → insert map hash ps k ≡ map k
unfolding insert
insert_self map hash ps e k = elim (Bool-cases (k == hash)) [
  | inl same ↦ rw same (e ∙ ap map (sym (==→≡ k hash same)))
  | inr other ↦ rw other refl
]

-- What is spawned is added only if the call gives a process.
add_spawned-err :
    (cancelled : Bool) (now : ℕ) (spawned : Outcome Error ℕ) (ps : List PooledProcess) (e : Error)
    → (spawn_in now cancelled spawned ps).1 ≡ err e
    → (spawn_in now cancelled spawned ps).0 ≡ ps
unfolding spawn_in
add_spawned-err true now spawned ps e failed = refl
add_spawned-err false now (ok process) ps e failed = ground arith
add_spawned-err false now (err e') ps e failed = refl
add_spawned-err false now Outcome.panic ps e failed = refl

get_in-err :
    (config : PoolConfig) (now : ℕ) (cancelled : Bool) (spawned : Outcome Error ℕ)
    (ps : List PooledProcess) (e : Error)
    → (get_in config now cancelled spawned ps).1 ≡ err e
    → (get_in config now cancelled spawned ps).0 ≡ ps
unfolding get_in given
get_in-err config now cancelled spawned ps e = go (find_process config ps)
  where
    go :
        (found : Option (PooledProcess × List PooledProcess))
        → (given found (spawn_in now cancelled spawned ps)).1 ≡ err e
        → (given found (spawn_in now cancelled spawned ps)).0 ≡ ps
    go none failed = add_spawned-err cancelled now spawned ps e failed
    go (some (p, ps')) failed = ground arith

module _ (config : PoolConfig) (hash now : ℕ) (cancelled : Bool) (spawned : Outcome Error ℕ)
    (map : Processes) where
  -- The first process of the configuration that is connected and has fewer users than allowed is given,
  -- with one user more; nothing else of the map changes, whatever spawning would come to.
  pub get_process-reuses :
      (before after : List PooledProcess) (p : PooledProcess)
      → map hash ≡ before ++ (p ∷ after)
      → All (IsTaken config) before
      → IsAvailable config p
      → get_process config hash now cancelled spawned map
        ≡ (insert map hash (before ++ (occupied p ∷ after)), ok (occupied p))
  unfolding get_process get_in
  get_process-reuses before after p e taken free =
      rw (e, get_in, find_process-first config before after p taken free) refl

  -- If all of them are disconnected or have as many users as allowed, and a process is spawned, it is
  -- given and stands last, with one user.
  pub get_process-spawns :
      (process : ℕ)
      → All (IsTaken config) (map hash)
      → cancelled ≡ false
      → spawned ≡ ok process
      → get_process config hash now cancelled spawned map
        ≡ (insert map hash (map hash ++ (pooled now process ∷ [])), ok (pooled now process))
  unfolding get_process
  get_process-spawns process taken running new =
      rw (get_in, find_process-none config (map hash) taken, running, new) refl

  -- A call that returns an error leaves the processes of every configuration as they were.
  pub get_process-err :
      (e : Error)
      → (get_process config hash now cancelled spawned map).1 ≡ err e
      → (k : ℕ) → (get_process config hash now cancelled spawned map).0 k ≡ map k
  unfolding get_process insert
  get_process-err e failed k =
      insert_self map hash _ (get_in-err config now cancelled spawned (map hash) e failed) k

kept_cons :
    (keep : PooledProcess → Bool) (p q : PooledProcess) (ps : List PooledProcess) (b : Bool)
    → keep q ≡ b
    → Memᴰ p (retain keep ps) ↔ (Memᴰ p ps × (keep p ≡ true))
    → Memᴰ p (if b then q ∷ retain keep ps else retain keep ps)
      ↔ (Memᴰ p (q ∷ ps) × (keep p ≡ true))
kept_cons keep p q ps true e (there, back) = (
  λ m. elim (Memᴰ.cases_cons m) [
    | inl h ↦ (Memᴰ.head h, ap keep h ∙ e)
    | inr m' ↦ let (t, k) = there m' in (Memᴰ.tail t, k)
  ],
  λ (m, k). elim (Memᴰ.cases_cons m) [ inl h ↦ Memᴰ.head h | inr m' ↦ Memᴰ.tail (back (m', k)) ],
)
kept_cons keep p q ps false e (there, back) = (
  λ m. let (t, k) = there m in (Memᴰ.tail t, k),
  λ (m, k). elim (Memᴰ.cases_cons m) [
    | inl h ↦ let q' : keep p ≡ false = ap keep h ∙ e in cc
    | inr m' ↦ back (m', k)
  ],
)

-- Kept by `retain`.
retain-Mem :
    (keep : PooledProcess → Bool) (p : PooledProcess) (ps : List PooledProcess)
    → Memᴰ p (retain keep ps) ↔ (Memᴰ p ps × (keep p ≡ true))
unfolding retain
retain-Mem keep p [] = (λ m. absurd (Memᴰ.not-nil m), λ (m, _). absurd (Memᴰ.not-nil m))
retain-Mem keep p (q ∷ ps) = kept_cons keep p q ps (keep q) refl (retain-Mem keep p ps)

-- Cleaning up keeps exactly the processes that have a user or have been used within the retention
-- time, in each configuration.
pub clean_loaders-Mem_iff :
    (now : ℕ) (pool : Pool) (hash : ℕ) (p : PooledProcess)
    → Memᴰ p ((clean_loaders now pool).loaders hash) ↔ (
        Memᴰ p (pool.loaders hash)
        × ((0 < p.n_users) ⊎ (now - p.last_use ≤ pool.config.loader_retention_time)))
unfolding clean_loaders retain is_dropped
clean_loaders-Mem_iff now pool hash p =
    let (there, back) =
      retain-Mem (λ q. not (is_dropped pool.config now q)) p (pool.loaders hash) in
    (
      λ m. let (t, k) = there m in (t, ground arith),
      λ (m, k). back (m, elim k [ inl used ↦ ground arith | inr recent ↦ ground arith ]),
    )
