-- ===== src/Config.antt =====
-- `glycin/src/config.rs`: which loader and editor is used for a mime type. Texts are their code points.
-- A key file of GLib is given by what it answers, and the files by what reading them comes to.
pub mod Laws
pub mod Files
pub mod First
pub mod Load
use Prim.Native.String.{String}
use package.glycin.Base.{
  ℕ, Bool, true, false, leb, ◌==◌, ◌&&◌, ◌||◌, if◌then◌else◌, List, [], ◌∷◌, ◌++◌, Option, none,
  some,
}
use package.glycin.Base.Dict.{Text, text, same_text, lookup, insert, contains_key}
use package.glycin.Operations.{OperationId}
use package.glycin.Sandbox.{SandboxMechanism}

-- `MimeType`, of which only the text is compared.
abbrev pub MimeType : Type 0
MimeType = Text

unfoldable pub extensions : List (MimeType × Text)
extensions =
    (text "image/avif", text "avif")
    ∷ (text "image/bmp", text "bmp")
    ∷ (text "image/x-dds", text "dds")
    ∷ (text "image/gif", text "gif")
    ∷ (text "image/heif", text "heic")
    ∷ (text "image/vnd.microsoft.icon", text "ico")
    ∷ (text "image/jpeg", text "jpg")
    ∷ (text "image/jxl", text "jxl")
    ∷ (text "image/x-exr", text "exr")
    ∷ (text "image/png", text "png")
    ∷ (text "image/qoi", text "qoi")
    ∷ (text "image/x-tga", text "tga")
    ∷ (text "image/tiff", text "tiff")
    ∷ (text "image/webp", text "webp")
    ∷ []

-- `MimeType::extension`.
unfoldable pub extension : MimeType → Option Text
unfolding extensions
extension mime_type = lookup same_text mime_type extensions

pub record ImageLoaderConfig : Type 0 where
  pub exec : Text
  pub expose_base_dir : Bool
  pub fontconfig : Bool

pub record ImageEditorConfig : Type 0 where
  pub exec : Text
  pub expose_base_dir : Bool
  pub fontconfig : Bool
  pub operations : List OperationId
  pub creator : Bool
  pub creator_color_icc_profile : Bool
  pub creator_encoding_quality : Bool
  pub creator_encoding_compression : Bool
  pub creator_metadata_key_value : Bool

pub record Config : Type 0 where
  pub image_loader : List (MimeType × ImageLoaderConfig)
  pub image_editor : List (MimeType × ImageEditorConfig)

unfoldable pub empty : Config
empty = record { image_loader = []; image_editor = [] }

pub data ConfigEntry : Type 0 where
  editor_entry : ImageEditorConfig → ConfigEntry
  loader_entry : ImageLoaderConfig → ConfigEntry

pub record ConfigEntryHash : Type 0 where
  pub fontconfig : Bool
  pub exec : Text
  pub expose_base_dir : Bool
  pub base_dir : Option Text
  pub sandbox_mechanism : SandboxMechanism

unfoldable pub hash_value : ConfigEntry → Option Text → SandboxMechanism → ConfigEntryHash
hash_value (editor_entry e) base_dir sandbox_mechanism = record {
  fontconfig = e.fontconfig;
  exec = e.exec;
  expose_base_dir = e.expose_base_dir;
  base_dir = base_dir;
  sandbox_mechanism = sandbox_mechanism;
}
hash_value (loader_entry l) base_dir sandbox_mechanism = record {
  fontconfig = l.fontconfig;
  exec = l.exec;
  expose_base_dir = l.expose_base_dir;
  base_dir = base_dir;
  sandbox_mechanism = sandbox_mechanism;
}

pub data LookupError : Type 0 where
  no_loaders_configured : LookupError
  unknown_image_format : MimeType → LookupError

pub data Lookup (A : Type 0) : Type 0 where
  found : A → Lookup A
  refused : LookupError → Lookup A

abbrev pub or_unknown : {A : Type 0} → MimeType → Option A → Lookup A
or_unknown mime_type none = refused (unknown_image_format mime_type)
or_unknown mime_type (some a) = found a

-- `Config::loader` and `Config::editor`. Only the first asks whether there is any.
unfoldable pub loader_in : List (MimeType × ImageLoaderConfig) → MimeType → Lookup ImageLoaderConfig
loader_in [] mime_type = refused no_loaders_configured
loader_in (entry ∷ entries) mime_type =
    or_unknown mime_type (lookup same_text mime_type (entry ∷ entries))

unfoldable pub loader : Config → MimeType → Lookup ImageLoaderConfig
unfolding loader_in
loader config mime_type = loader_in config.image_loader mime_type

unfoldable pub editor : Config → MimeType → Lookup ImageEditorConfig
editor config mime_type = or_unknown mime_type (lookup same_text mime_type config.image_editor)

-- What `glib::KeyFile` answers: its groups, and the value of a key in a group, if there is one.
pub record KeyFile : Type 0 where
  pub groups : List Text
  pub string : Text → Text → Option Text
  pub boolean : Text → Text → Option Bool
  pub string_list : Text → Text → Option (List Text)

-- The white space of Unicode.
unfoldable pub is_whitespace : ℕ → Bool
is_whitespace c =
    (leb 9 c && leb c 13)
    || (c == 32)
    || (c == 133)
    || (c == 160)
    || (c == 5760)
    || (leb 8192 c && leb c 8202)
    || (c == 8232)
    || (c == 8233)
    || (c == 8239)
    || (c == 8287)
    || (c == 12288)

unfoldable pub trim_start : Text → Text
trim_start [] = []
trim_start (c ∷ cs) = let rest = trim_start cs in if is_whitespace c then rest else c ∷ cs

unfoldable pub kept_end : ℕ → Text → Text
kept_end c [] = if is_whitespace c then [] else c ∷ []
kept_end c (d ∷ ds) = c ∷ d ∷ ds

unfoldable pub trim_end : Text → Text
unfolding kept_end
trim_end [] = []
trim_end (c ∷ cs) = kept_end c (trim_end cs)

-- `str::trim`.
abbrev pub trim : Text → Text
trim s = trim_end (trim_start s)

-- `s.split(separator)`: its first element, and the next, if there is one.
unfoldable pub until : ℕ → Text → Text
until separator [] = []
until separator (c ∷ cs) = let rest = until separator cs in if c == separator then [] else c ∷ rest

unfoldable pub second : ℕ → Text → Option Text
unfolding until
second separator [] = none
second separator (c ∷ cs) =
    let rest = second separator cs in if c == separator then some (until separator cs) else rest

-- `unwrap_or_default`.
abbrev pub or_false : Option Bool → Bool
or_false none = false
or_false (some b) = b

abbrev pub or_nil : Option (List Text) → List Text
or_nil none = []
or_nil (some xs) = xs

abbrev pub map_some {ℓ κ} : {A : Type ℓ} {B : Type κ} → (A → B) → Option A → Option B
map_some f none = none
map_some f (some a) = some (f a)

-- `flat_map` over options.
abbrev pub filter_map : {A B : Type 0} → (A → Option B) → List A → List B
filter_map f [] = []
filter_map f (x ∷ xs) = elim (f x) [ none ↦ filter_map f xs | some b ↦ b ∷ filter_map f xs ]

-- A map keeps the entry that it has.
unfoldable pub add : {V : Type 0} → MimeType → Option V → List (MimeType × V) → List (MimeType × V)
add mime_type config entries =
    if contains_key same_text mime_type entries
    then entries
    else elim config [ none ↦ entries | some c ↦ insert same_text mime_type c entries ]

module _ (from_str : Text → Option OperationId) where
  -- The configurations that a group makes, if it has an `Exec`.
  unfoldable pub loader_config : KeyFile → Text → Option ImageLoaderConfig
  loader_config keyfile group =
      map_some
        (λ exec. record {
          exec = exec;
          expose_base_dir = or_false (keyfile.boolean group (text "ExposeBaseDir"));
          fontconfig = or_false (keyfile.boolean group (text "Fontconfig"));
        })
        (keyfile.string group (text "Exec"))

  unfoldable pub editor_config : KeyFile → Text → Option ImageEditorConfig
  editor_config keyfile group =
      map_some
        (λ exec. record {
          exec = exec;
          expose_base_dir = or_false (keyfile.boolean group (text "ExposeBaseDir"));
          fontconfig = or_false (keyfile.boolean group (text "Fontconfig"));
          operations = filter_map from_str (or_nil (keyfile.string_list group (text "Operations")));
          creator = or_false (keyfile.boolean group (text "Creator"));
          creator_color_icc_profile =
              or_false (keyfile.boolean group (text "CreatorColorIccProfile"));
          creator_encoding_quality =
              or_false (keyfile.boolean group (text "CreatorEncodingQuality"));
          creator_encoding_compression =
              or_false (keyfile.boolean group (text "CreatorEncodingCompression"));
          creator_metadata_key_value =
              or_false (keyfile.boolean group (text "CreatorMetadataKeyValue"));
        })
        (keyfile.string group (text "Exec"))

  -- The match on the kind of a group.
  unfoldable pub load_kind : KeyFile → Text → Text → MimeType → Config → Config
  unfolding add loader_config editor_config
  load_kind keyfile group kind mime_type config =
      if same_text kind (text "loader")
      then record config {
        image_loader = add mime_type (loader_config keyfile group) config.image_loader;
      }
      else if same_text kind (text "editor")
      then record config {
        image_editor = add mime_type (editor_config keyfile group) config.image_editor;
      }
      else config

  -- The group is trimmed, and its second element is the mime type.
  unfoldable pub load_named : KeyFile → Text → Option MimeType → Config → Config
  unfolding load_kind until
  load_named keyfile group none config = config
  load_named keyfile group (some mime_type) config =
      load_kind keyfile group (until b':' group) mime_type config

  -- The body of the loop of `load_file`.
  unfoldable pub load_group : KeyFile → Text → Config → Config
  unfolding load_named trim_start trim_end second
  load_group keyfile group config =
      load_named keyfile (trim group) (second b':' (trim group)) config

  unfoldable pub load_groups : KeyFile → List Text → Config → Config
  unfolding load_group
  load_groups keyfile [] config = config
  load_groups keyfile (group ∷ groups) config =
      load_groups keyfile groups (load_group keyfile group config)

  -- `Config::load_file`, of which `none` is what cannot be read or parsed, which changes nothing.
  unfoldable pub load_file : Option KeyFile → Config → Config
  unfolding load_groups
  load_file none config = config
  load_file (some keyfile) config = load_groups keyfile keyfile.groups config
