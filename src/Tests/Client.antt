-- ===== src/Tests/Client.antt =====
-- What the client does with textures and processes, at concrete inputs.
use glycin.Sandbox.{SandboxSelector}
use glycin.Config.{ImageEditorConfig}
use glycin.Base.{
  ℕ, ◌+◌, ◌-◌, ◌*◌, ◌≤◌, ◌<◌, ◌≡◌, ◌↔◌, ◌⊎◌, inr, refl, arith, Bool, true, false, ltb,
  if◌then◌else◌, List, [], ◌∷◌, length, Option, some, none, ok, err, Returns, u32_mod, i64_mod,
}
use mathlib.Core.List.{Memᴰ}
use glycin.Format.Types.{MemoryFormat, to_number}
use glycin.Format.Tables.{n_bytes}
use glycin.Frame.{Frame}
use glycin.Texture.{validate_frame, remove_stride_if_needed}
use glycin.Texture.Validate.{IsWellFormed, validate_frame_iff}
use glycin.Texture.Stride.{IsPacked, remove_stride_if_needed-IsPacked}
use glycin.Creator.{Creator, add_frame_with_stride}
use glycin.Creator.Laws.{IsAdded, add_frame_with_stride-IsAdded, add_frame_with_stride_iff}
use glycin.Pool.{
  PooledProcess, PoolConfig, Processes, Pool, failed, occupied, pooled, get_process, get_loader,
  insert, clean_loaders, new, no_processes,
}
use glycin.Pool.Laws.{
  get_process-reuses, get_process-spawns, get_process-err, clean_loaders-Mem_iff,
}
use glycin.Pool.Invariant.{started, loader, IsBounded, Reachable-IsBounded}

-- Two rows of one pixel, with a byte of padding each.
abbrev padded : ℕ → Frame Bool
padded stride = record {
  width = 1;
  height = 2;
  stride = stride;
  memory_format = MemoryFormat.r8g8b8;
  delay = none;
  details = true;
}

abbrev texture : List ℕ
texture = 1 ∷ 2 ∷ 3 ∷ 0 ∷ 4 ∷ 5 ∷ 6 ∷ 0 ∷ []

validate_frame_iff_example :
    (validate_frame (padded 4) texture ≡ ok tt) ↔ IsWellFormed (padded 4) texture
validate_frame_iff_example =
    validate_frame_iff (padded 4) texture (omega arith) (omega arith) (omega arith)

padded_valid : IsWellFormed (padded 4) texture
unfolding to_number n_bytes
padded_valid = record {
  positive = (omega arith, omega arith);
  small = (omega arith, omega arith);
  row_fits = omega arith;
  narrow = omega arith;
  bounded = omega arith;
  held = omega arith;
}

abbrev to_i64 : ℕ → Option ℕ
to_i64 n = if ltb n i64_mod then some n else none

to_i64_lem : (n : ℕ) → n < i64_mod → to_i64 n ≡ some n
to_i64_lem n h = ground arith

three_bytes : to_number (n_bytes MemoryFormat.r8g8b8) ≡ 3
unfolding to_number n_bytes
three_bytes = refl

remove_stride_if_needed-IsPacked_example :
    Returns (remove_stride_if_needed to_i64 texture (padded 4)) (IsPacked (padded 4) texture)
remove_stride_if_needed-IsPacked_example =
    remove_stride_if_needed-IsPacked to_i64 to_i64_lem (padded 4) texture padded_valid
      (omega (arith, three_bytes))

abbrev config : ImageEditorConfig
config = record {
  exec = [];
  expose_base_dir = false;
  fontconfig = false;
  operations = [];
  creator = true;
  creator_color_icc_profile = true;
  creator_encoding_quality = true;
  creator_encoding_compression = false;
  creator_metadata_key_value = true;
}

abbrev creator : Creator
creator = record {
  mime_type = [];
  config = config;
  sandbox_selector = SandboxSelector.auto;
  encoding_options = record { quality = none; compression = none };
  metadata_key_value = none;
  new_frames = [];
}

add_frame_with_stride-IsAdded_example :
    Returns
      (add_frame_with_stride creator 1 2 4 MemoryFormat.r8g8b8 texture)
      (IsAdded creator 1 2 4 MemoryFormat.r8g8b8 texture)
add_frame_with_stride-IsAdded_example =
    add_frame_with_stride-IsAdded creator 1 2 4 MemoryFormat.r8g8b8 texture
      (omega (arith, three_bytes)) (omega (arith, three_bytes)) (omega arith) (omega arith)
      (omega (arith, three_bytes))

add_frame_with_stride_iff_example :
    Returns (add_frame_with_stride creator 1 2 4 MemoryFormat.r8g8b8 texture) (λ _. Unit {0}) ↔ (
      (to_number (n_bytes MemoryFormat.r8g8b8) * 1 < u32_mod)
      × (to_number (n_bytes MemoryFormat.r8g8b8) * 1 ≤ 4)
      × (4 * (2 - 1) + to_number (n_bytes MemoryFormat.r8g8b8) * 1 ≤ length texture))
add_frame_with_stride_iff_example =
    add_frame_with_stride_iff creator 1 2 4 MemoryFormat.r8g8b8 texture (omega arith) (omega arith)

abbrev two_users : PoolConfig
two_users = record { loader_retention_time = 30; max_parallel_operations = 2 }

-- A process with two users, and one with one.
abbrev full : PooledProcess
full = record {
  last_use = 0;
  timeout = none;
  process = 1;
  process_disconnected = false;
  n_users = 2;
}

abbrev free : PooledProcess
free = record {
  last_use = 0;
  timeout = none;
  process = 2;
  process_disconnected = false;
  n_users = 1;
}

abbrev two_processes : Processes
two_processes hash = full ∷ free ∷ []

abbrev one_full : Processes
one_full hash = full ∷ []

get_process-reuses_example :
    get_process two_users 7 100 false (ok 3) two_processes
    ≡ (insert two_processes 7 (full ∷ occupied free ∷ []), ok (occupied free))
get_process-reuses_example =
    get_process-reuses two_users 7 100 false (ok 3) two_processes (full ∷ []) [] free refl
      (inr (omega arith), tt) (record { connected = refl; room = omega arith })

get_process-spawns_example :
    get_process two_users 7 100 false (ok 3) one_full
    ≡ (insert one_full 7 (full ∷ pooled 100 3 ∷ []), ok (pooled 100 3))
get_process-spawns_example =
    get_process-spawns two_users 7 100 false (ok 3) one_full 3 (inr (omega arith), tt) refl refl

spawning_fails : (get_process two_users 7 100 false (err (failed 1)) one_full).1 ≡ err (failed 1)
unfolding get_process
spawning_fails = refl

get_process-err_example :
    (get_process two_users 7 100 false (err (failed 1)) one_full).0 7 ≡ one_full 7
get_process-err_example =
    get_process-err two_users 7 100 false (err (failed 1)) one_full (failed 1) spawning_fails 7

abbrev pool : Pool
pool = record { loaders = two_processes; editors = no_processes; config = two_users }

clean_loaders-Mem_iff_example :
    Memᴰ free ((clean_loaders 100 pool).loaders 7)
    ↔ (Memᴰ free (pool.loaders 7) × ((0 < 1) ⊎ (100 - 0 ≤ 30)))
clean_loaders-Mem_iff_example = clean_loaders-Mem_iff 100 pool 7 free

Reachable-IsBounded_example : IsBounded two_users (get_loader 7 100 false (ok 3) (new two_users)).0
Reachable-IsBounded_example =
    Reachable-IsBounded two_users (get_loader 7 100 false (ok 3) (new two_users)).0 (omega arith)
      (loader 7 100 false (ok 3) started)
