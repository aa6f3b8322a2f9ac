-- ===== src/Config/First.antt =====
-- The first group that defines a mime type counts, over all directories and files.
use Prim.Native.String.{String}
use glycin.Base.{
  ◌≡◌, refl, sym, ap, ◌∙◌, ◌&&◌, if◌then◌else◌, List, [], ◌∷◌, ◌++◌, map, Option, none, some,
}
use glycin.Base.Dict.{Text, text, same_text, lookup}
use glycin.Operations.{OperationId}
use glycin.Config.{
  MimeType, ImageLoaderConfig, ImageEditorConfig, Config, KeyFile, loader_config, editor_config,
  trim, until, second,
}
use glycin.Config.Files.{FilePath, is_config_file, conf_d}
use glycin.Config.Laws.{or_else, or_else-none, or_else_assoc}

-- What a group says of a mime type, for the groups of one kind.
abbrev pub said {ℓ} : {V : Type ℓ} → String → MimeType → Text → Option Text → Option V → Option V
said kind m group none config = none
said kind m group (some mime_type) config =
    if same_text (until b':' group) (text kind) && same_text m mime_type then config else none

module _ {ℓ} {V : Type ℓ} (kind : String) (config : KeyFile → Text → Option V) (m : MimeType) where
  unfoldable pub group_says : KeyFile → Text → Option V
  unfolding until second
  group_says keyfile group =
      said kind m (trim group) (second b':' (trim group)) (config keyfile (trim group))

  unfoldable pub first : List (KeyFile × Text) → Option V
  unfolding group_says
  first [] = none
  first ((keyfile, group) ∷ groups) = or_else (group_says keyfile group) (first groups)

  first-append : (gs hs : List (KeyFile × Text)) → first (gs ++ hs) ≡ or_else (first gs) (first hs)
  unfolding first
  first-append [] hs = refl
  first-append ((keyfile, group) ∷ gs) hs =
      ap (or_else (group_says keyfile group)) (first-append gs hs)
      ∙ sym (or_else_assoc (group_says keyfile group) (first gs) (first hs))

  chained :
      (x y z : Option V) (gs hs : List (KeyFile × Text))
      → y ≡ or_else x (first gs)
      → z ≡ or_else y (first hs)
      → z ≡ or_else x (first (gs ++ hs))
  chained x y z gs hs e f =
      f
      ∙ ap (λ (o : Option V). or_else o (first hs)) e
      ∙ or_else_assoc x (first gs) (first hs)
      ∙ ap (or_else x) (sym (first-append gs hs))

abbrev pub groups_of : Option KeyFile → List (KeyFile × Text)
groups_of none = []
groups_of (some keyfile) = map (λ group. (keyfile, group)) keyfile.groups

-- The groups of all files, in the order in which they are read.
module _ (read_dir : FilePath → Option (List (Option FilePath)))
    (key_file : FilePath → Option KeyFile) where
  abbrev pub path_groups : List (Option FilePath) → List (KeyFile × Text)
  path_groups [] = []
  path_groups (none ∷ paths) = path_groups paths
  path_groups (some path ∷ paths) =
      (if is_config_file path then groups_of (key_file path) else []) ++ path_groups paths

  abbrev pub dir_groups : Option (List (Option FilePath)) → List (KeyFile × Text)
  dir_groups none = []
  dir_groups (some paths) = path_groups paths

  unfoldable pub all_groups : List FilePath → List (KeyFile × Text)
  unfolding conf_d
  all_groups [] = []
  all_groups (data_dir ∷ dirs) = dir_groups (read_dir (conf_d data_dir)) ++ all_groups dirs

module _ (from_str : Text → Option OperationId) where
  -- What the groups say of a loader and of an editor.
  abbrev pub first_loader : MimeType → List (KeyFile × Text) → Option ImageLoaderConfig
  first_loader = first "loader" (loader_config from_str)

  abbrev pub first_editor : MimeType → List (KeyFile × Text) → Option ImageEditorConfig
  first_editor = first "editor" (editor_config from_str)

  -- The second configuration is the first, and what groups add.
  pub record Follows (groups : List (KeyFile × Text)) (before after : Config) : Type 0 where
    pub loaders :
        (m : MimeType)
        → lookup same_text m after.image_loader
          ≡ or_else (lookup same_text m before.image_loader) (first_loader m groups)
    pub editors :
        (m : MimeType)
        → lookup same_text m after.image_editor
          ≡ or_else (lookup same_text m before.image_editor) (first_editor m groups)

  pub nothing-Follows : (config : Config) → Follows [] config config
  unfolding first
  nothing-Follows config = record {
    loaders = λ m. sym (or_else-none (lookup same_text m config.image_loader));
    editors = λ m. sym (or_else-none (lookup same_text m config.image_editor));
  }

  pub append-Follows :
      (gs hs : List (KeyFile × Text)) (a b c : Config)
      → Follows gs a b
      → Follows hs b c
      → Follows (gs ++ hs) a c
  append-Follows gs hs a b c f g = record {
    loaders =
        λ m. chained "loader" (loader_config from_str) m _ _ _ gs hs (f.loaders m) (g.loaders m);
    editors =
        λ m. chained "editor" (editor_config from_str) m _ _ _ gs hs (f.editors m) (g.editors m);
  }
