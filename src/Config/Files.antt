-- ===== src/Config/Files.antt =====
-- `Config::load` of `glycin/src/config.rs`: the files that the configuration is read from. A path is
-- its components. What a directory and a file come to is a parameter.
use glycin.Base.{Bool, false, ◌==◌, if◌then◌else◌, List, [], ◌∷◌, ◌++◌, Option, none, some}
use glycin.Base.Dict.{Text, text, same_text}
use glycin.Operations.{OperationId}
use glycin.Config.{Config, KeyFile, empty, load_file}

abbrev pub FilePath : Type 0
FilePath = List Text

-- What stands behind the last dot.
unfoldable pub after_dot : Text → Option Text
after_dot [] = none
after_dot (c ∷ cs) = elim (after_dot cs) [
  | some e ↦ some e
  | none ↦ if c == b'.' then some cs else none
]

-- `Path::extension`: a dot at the beginning of the file name does not count.
unfoldable pub file_extension : FilePath → Option Text
unfolding after_dot
file_extension [] = none
file_extension ((c ∷ cs) ∷ []) = after_dot cs
file_extension ([] ∷ []) = none
file_extension (directory ∷ name ∷ rest) = file_extension (name ∷ rest)

unfoldable pub is_config_file : FilePath → Bool
unfolding file_extension
is_config_file path = elim (file_extension path) [
  | none ↦ false
  | some e ↦ same_text e (text "conf")
]

-- `data_dirs`, with the environment variable and the directories of GLib.
unfoldable pub data_dirs : Option FilePath → FilePath → List FilePath → List FilePath
data_dirs (some data_dir) user_data_dir system_data_dirs = data_dir ∷ []
data_dirs none user_data_dir system_data_dirs = user_data_dir ∷ system_data_dirs

-- The components that `load` pushes.
unfoldable pub conf_d : FilePath → FilePath
conf_d data_dir = data_dir ++ (text "glycin-loaders" ∷ text "2+" ∷ text "conf.d" ∷ [])

module _ (from_str : Text → Option OperationId)
    (read_dir : FilePath → Option (List (Option FilePath)))
    (key_file : FilePath → Option KeyFile) where
  -- The loop over the files of a directory.
  unfoldable pub load_paths : List (Option FilePath) → Config → Config
  unfolding load_file is_config_file
  load_paths [] config = config
  load_paths (none ∷ paths) config = load_paths paths config
  load_paths (some path ∷ paths) config =
      load_paths paths
        (if is_config_file path then load_file from_str (key_file path) config else config)

  unfoldable pub load_dir : Option (List (Option FilePath)) → Config → Config
  unfolding load_paths
  load_dir none config = config
  load_dir (some paths) config = load_paths paths config

  unfoldable pub load_dirs : List FilePath → Config → Config
  unfolding load_dir conf_d
  load_dirs [] config = config
  load_dirs (data_dir ∷ dirs) config = load_dirs dirs (load_dir (read_dir (conf_d data_dir)) config)

  -- `Config::load`.
  unfoldable pub load : List FilePath → Config
  unfolding load_dirs empty
  load dirs = load_dirs dirs empty
