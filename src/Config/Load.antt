-- ===== src/Config/Load.antt =====
-- Reading all files of the configuration, and looking a mime type up in it.
use glycin.Base.{
  ◌≡◌, refl, sym, ap, ◌∙◌, Bool, true, false, Bool-cases, inl, inr, ◌⊎◌, ◌&&◌, if◌then◌else◌, List,
  [], ◌∷◌, map, Option, none, some,
}
use glycin.Base.Dict.{Text, text, same_text, same_text→≡, lookup}
use glycin.Operations.{OperationId}
use glycin.Config.{
  MimeType, ImageLoaderConfig, Config, KeyFile, empty, add, loader_config, editor_config, load_kind,
  load_named, load_group, load_groups, load_file, trim, until, second, no_loaders_configured,
  refused, or_unknown, loader_in, loader, editor,
}
use glycin.Config.Files.{FilePath, is_config_file, conf_d, load_paths, load_dir, load_dirs, load}
use glycin.Config.Laws.{or_else, or_else-none, lookup-add}
use glycin.Config.First.{
  said, group_says, first, groups_of, path_groups, dir_groups, all_groups, first_loader,
  first_editor, Follows, nothing-Follows, append-Follows,
}

module _ (from_str : Text → Option OperationId) where
  module _ (keyfile : KeyFile) (group kind : Text) (mime_type : MimeType) (config : Config)
      (m : MimeType) where
    load_kind-loader :
        lookup same_text m (load_kind from_str keyfile group kind mime_type config).image_loader
        ≡ or_else (lookup same_text m config.image_loader) (
            if same_text kind (text "loader") && same_text m mime_type
            then loader_config from_str keyfile group
            else none)
    unfolding load_kind
    load_kind-loader = elim (Bool-cases (same_text kind (text "loader"))) [
      | inl is_loader ↦
          rw is_loader
            (lookup-add m mime_type (loader_config from_str keyfile group) config.image_loader)
      | inr other ↦ rw other (kept (same_text kind (text "editor")))
    ]
      where
        kept :
            (b : Bool)
            → lookup same_text m
                (if b
                  then record config {
                    image_editor =
                        add mime_type (editor_config from_str keyfile group) config.image_editor;
                  }
                  else config).image_loader
              ≡ or_else (lookup same_text m config.image_loader) none
        kept true = sym (or_else-none (lookup same_text m config.image_loader))
        kept false = sym (or_else-none (lookup same_text m config.image_loader))

    not_editor : same_text kind (text "loader") ≡ true → same_text kind (text "editor") ≡ false
    not_editor e =
        ap (λ (k : Text). same_text k (text "editor")) (same_text→≡ kind (text "loader") e)

    load_kind-editor :
        lookup same_text m (load_kind from_str keyfile group kind mime_type config).image_editor
        ≡ or_else (lookup same_text m config.image_editor) (
            if same_text kind (text "editor") && same_text m mime_type
            then editor_config from_str keyfile group
            else none)
    unfolding load_kind
    load_kind-editor = elim (Bool-cases (same_text kind (text "loader"))) [
      | inl is_loader ↦
          rw (is_loader, not_editor is_loader)
            (sym (or_else-none (lookup same_text m config.image_editor)))
      | inr other ↦ elim (Bool-cases (same_text kind (text "editor"))) [
        | inl is_editor ↦
            rw (other, is_editor)
              (lookup-add m mime_type (editor_config from_str keyfile group) config.image_editor)
        | inr neither ↦
            rw (other, neither) (sym (or_else-none (lookup same_text m config.image_editor)))
      ]
    ]

  one_more : {V : Type 0} (o p q : Option V) → p ≡ or_else o q → p ≡ or_else o (or_else q none)
  one_more o p q e = e ∙ ap (or_else o) (sym (or_else-none q))

  load_named-loader :
      (keyfile : KeyFile) (group : Text) (named : Option MimeType) (config : Config) (m : MimeType)
      → lookup same_text m (load_named from_str keyfile group named config).image_loader
        ≡ or_else
            (lookup same_text m config.image_loader)
            (said "loader" m group named (loader_config from_str keyfile group))
  unfolding load_named
  load_named-loader keyfile group none config m =
      sym (or_else-none (lookup same_text m config.image_loader))
  load_named-loader keyfile group (some mime_type) config m =
      load_kind-loader keyfile group (until b':' group) mime_type config m

  load_named-editor :
      (keyfile : KeyFile) (group : Text) (named : Option MimeType) (config : Config) (m : MimeType)
      → lookup same_text m (load_named from_str keyfile group named config).image_editor
        ≡ or_else
            (lookup same_text m config.image_editor)
            (said "editor" m group named (editor_config from_str keyfile group))
  unfolding load_named
  load_named-editor keyfile group none config m =
      sym (or_else-none (lookup same_text m config.image_editor))
  load_named-editor keyfile group (some mime_type) config m =
      load_kind-editor keyfile group (until b':' group) mime_type config m

  load_group-Follows :
      (keyfile : KeyFile) (group : Text) (config : Config)
      → Follows from_str ((keyfile, group) ∷ []) config (load_group from_str keyfile group config)
  unfolding load_group first group_says
  load_group-Follows keyfile group config = record {
    loaders = λ m.
        one_more _ _ _ (load_named-loader keyfile (trim group) (second b':' (trim group)) config m);
    editors = λ m.
        one_more _ _ _ (load_named-editor keyfile (trim group) (second b':' (trim group)) config m);
  }

  load_groups-Follows :
      (keyfile : KeyFile) (groups : List Text) (config : Config)
      → Follows from_str
          (map (λ group. (keyfile, group)) groups)
          config
          (load_groups from_str keyfile groups config)
  unfolding load_groups
  load_groups-Follows keyfile [] config = nothing-Follows from_str config
  load_groups-Follows keyfile (group ∷ groups) config =
      append-Follows from_str ((keyfile, group) ∷ []) _ _ _ _
        (load_group-Follows keyfile group config) (load_groups-Follows keyfile groups _)

  load_file-Follows :
      (keyfile : Option KeyFile) (config : Config)
      → Follows from_str (groups_of keyfile) config (load_file from_str keyfile config)
  unfolding load_file
  load_file-Follows none config = nothing-Follows from_str config
  load_file-Follows (some keyfile) config = load_groups-Follows keyfile keyfile.groups config

  module _ (read_dir : FilePath → Option (List (Option FilePath)))
      (key_file : FilePath → Option KeyFile) where
    load_paths-Follows :
        (paths : List (Option FilePath)) (config : Config)
        → Follows from_str
            (path_groups read_dir key_file paths)
            config
            (load_paths from_str read_dir key_file paths config)
    unfolding load_paths
    load_paths-Follows [] config = nothing-Follows from_str config
    load_paths-Follows (none ∷ paths) config = load_paths-Follows paths config
    load_paths-Follows (some path ∷ paths) config =
        append-Follows from_str _ _ _ _ _ (one (is_config_file path)) (load_paths-Follows paths _)
      where
        one :
            (b : Bool)
            → Follows from_str
                (if b then groups_of (key_file path) else [])
                config
                (if b then load_file from_str (key_file path) config else config)
        one true = load_file-Follows (key_file path) config
        one false = nothing-Follows from_str config

    load_dir-Follows :
        (paths : Option (List (Option FilePath))) (config : Config)
        → Follows from_str
            (dir_groups read_dir key_file paths)
            config
            (load_dir from_str read_dir key_file paths config)
    unfolding load_dir
    load_dir-Follows none config = nothing-Follows from_str config
    load_dir-Follows (some paths) config = load_paths-Follows paths config

    load_dirs-Follows :
        (dirs : List FilePath) (config : Config)
        → Follows from_str
            (all_groups read_dir key_file dirs)
            config
            (load_dirs from_str read_dir key_file dirs config)
    unfolding load_dirs all_groups
    load_dirs-Follows [] config = nothing-Follows from_str config
    load_dirs-Follows (data_dir ∷ dirs) config =
        append-Follows from_str _ _ _ _ _ (load_dir-Follows (read_dir (conf_d data_dir)) config)
          (load_dirs-Follows dirs _)

    -- After all directories have been read, the loader and the editor of a mime type are those of the first
    -- group, in the order of the directories, files and groups, that is of their kind, names the mime
    -- type and has an `Exec`; there is none if there is no such group.
    pub load-first :
        (dirs : List FilePath) (m : MimeType)
        → (lookup same_text m (load from_str read_dir key_file dirs).image_loader
            ≡ first_loader from_str m (all_groups read_dir key_file dirs))
          × (lookup same_text m (load from_str read_dir key_file dirs).image_editor
              ≡ first_editor from_str m (all_groups read_dir key_file dirs))
    unfolding load empty
    load-first dirs m = let f = load_dirs-Follows dirs empty in (f.loaders m, f.editors m)

    -- A mime type is looked up in what has been read: an editor is that of the first group for it, or the
    -- format is unknown; so is a loader, but if no group defines a loader at all, this is the error.
    pub lookup-first :
        (dirs : List FilePath) (m : MimeType)
        → (editor (load from_str read_dir key_file dirs) m
            ≡ or_unknown m (first_editor from_str m (all_groups read_dir key_file dirs)))
          × ((loader (load from_str read_dir key_file dirs) m
                ≡ or_unknown m (first_loader from_str m (all_groups read_dir key_file dirs)))
              ⊎ ((loader (load from_str read_dir key_file dirs) m ≡ refused no_loaders_configured)
                  × ((m' : MimeType)
                      → first_loader from_str m' (all_groups read_dir key_file dirs) ≡ none)))
    unfolding editor loader loader_in
    lookup-first dirs m = (
      ap (or_unknown m) (load-first dirs m).1,
      by_loaders (load from_str read_dir key_file dirs).image_loader (λ m'. (load-first dirs m').0),
    )
      where
        by_loaders :
            (entries : List (MimeType × ImageLoaderConfig))
            → ((m' : MimeType)
                → lookup same_text m' entries
                  ≡ first_loader from_str m' (all_groups read_dir key_file dirs))
            → (loader_in entries m
                ≡ or_unknown m (first_loader from_str m (all_groups read_dir key_file dirs)))
              ⊎ ((loader_in entries m ≡ refused no_loaders_configured)
                  × ((m' : MimeType)
                      → first_loader from_str m' (all_groups read_dir key_file dirs) ≡ none))
        by_loaders [] e = inr (refl, λ m'. sym (e m'))
        by_loaders (entry ∷ entries) e = inl (ap (or_unknown m) (e m))
