-- ===== src/Tests/Services.antt =====
-- The configuration, the commands of sandboxes, the D-Bus side of processes, and the frames that the
-- client hands out, at concrete inputs.
use Prim.Native.String.{String}
use glycin.Base.{
  ℕ, suc, ◌-◌, ◌≡◌, ◌≢◌, ◌↔◌, ◌⊎◌, refl, ap, arith, if◌then◌else◌, true, List, [], ◌∷◌, ◌++◌, map,
  length, Option, some, none, Outcome, ok, Returns,
}
use glycin.Base.Dict.{Text, text}
use glycin.Errors.{ProcessError, into_loader_error, into_editor_error}
use glycin.Errors.Client.{remote_error, is_out_of_memory, is_no_more_frames, unsupported_format}
use glycin.Errors.Laws.{remote_error_iff}
use glycin.Format.Types.{MemoryFormat, to_number}
use glycin.Format.Tables.{n_bytes}
use glycin.Operations.{OperationId}
use glycin.Sandbox.{SandboxMechanism}
use package.text.Mathlib.Text.{◌==◌}
use glycin.Sandbox.Command.{Sandbox, allowed_names}
use glycin.Config.{KeyFile, refused, no_loaders_configured, or_unknown, loader, editor}
use glycin.Config.Files.{FilePath, load}
use glycin.Config.First.{all_groups, first_loader, first_editor}
use glycin.Config.Load.{lookup-first}
use glycin.Dbus.{Server, started, serve, done}
use glycin.Dbus.Editor.{ByteChanges}
use glycin.Dbus.Changes.{apply, IsPatched, AllInside, apply_iff}
use glycin.Dbus.Ids.{Reachable, HasIds, Reachable-HasIds}
use glycin.Icc.{Lcms, transformation, transform}
use glycin.Icc.Laws.{IsByPixel, transform-whole}

abbrev to_string : ProcessError → String
to_string e = "error"

remote_error_iff_example :
    ((is_out_of_memory (
          remote_error
            (into_loader_error to_string (ProcessError.unsupported_image_format "image/x")))
        ≡ true)
      ↔ (ProcessError.unsupported_image_format "image/x" ≡ ProcessError.out_of_memory))
    × ((is_no_more_frames (
            remote_error
              (into_loader_error to_string (ProcessError.unsupported_image_format "image/x")))
          ≡ true)
        ↔ (ProcessError.unsupported_image_format "image/x" ≡ ProcessError.no_more_frames))
    × ((unsupported_format (
            remote_error
              (into_loader_error to_string (ProcessError.unsupported_image_format "image/x")))
          ≡ some "image/x")
        ↔ (ProcessError.unsupported_image_format "image/x"
            ≡ ProcessError.unsupported_image_format "image/x"))
    × ((is_out_of_memory (
            remote_error
              (into_editor_error to_string (ProcessError.unsupported_image_format "image/x")))
          ≡ true)
        ↔ (ProcessError.unsupported_image_format "image/x" ≡ ProcessError.out_of_memory))
    × ((is_no_more_frames (
            remote_error
              (into_editor_error to_string (ProcessError.unsupported_image_format "image/x")))
          ≡ true)
        ↔ (ProcessError.unsupported_image_format "image/x" ≡ ProcessError.no_more_frames))
    × ((unsupported_format (
            remote_error
              (into_editor_error to_string (ProcessError.unsupported_image_format "image/x")))
          ≡ some "image/x")
        ↔ (ProcessError.unsupported_image_format "image/x"
            ≡ ProcessError.unsupported_image_format "image/x"))
remote_error_iff_example =
    remote_error_iff to_string (ProcessError.unsupported_image_format "image/x") "image/x"

-- One variable is set, and every name has the same number.
abbrev variables : String → Option String
variables key = some "value"

abbrev sandbox : Sandbox
sandbox = record {
  sandbox_mechanism = SandboxMechanism.native_sandbox;
  exec = "/usr/libexec/glycin-svg";
  fontconfig = true;
  dbus_socket = 7;
}

-- A name has the number of its place, and the names that are not allowed have the number after these.
abbrev place : String → List String → ℕ
place name [] = 0
place name (other ∷ names) = if name == other then 0 else suc (place name names)

abbrev number : String → ℕ
number name = place name (allowed_names true)

abbrev from_name : String → Outcome ℕ ℕ
from_name name = ok (number name)

abbrev show : ℕ → String
show n = "7"

-- A file with two groups for one mime type.
abbrev keyfile : KeyFile
keyfile = record {
  groups = text "loader:image/png" ∷ text " loader:image/png " ∷ text "editor:image/png" ∷ [];
  string = λ group key. some (text "/usr/libexec/a");
  boolean = λ group key. none;
  string_list = λ group key. none;
}

abbrev read_dir : FilePath → Option (List (Option FilePath))
read_dir path = some (some (text "a.conf" ∷ []) ∷ none ∷ some (text "b.txt" ∷ []) ∷ [])

abbrev key_file : FilePath → Option KeyFile
key_file path = some keyfile

abbrev no_operation : Text → Option OperationId
no_operation name = none

abbrev data_dirs : List FilePath
data_dirs = (text "usr" ∷ text "share" ∷ []) ∷ []

lookup-first_example :
    (editor (load no_operation read_dir key_file data_dirs) (text "image/png")
      ≡ or_unknown
          (text "image/png")
          (first_editor no_operation (text "image/png") (all_groups read_dir key_file data_dirs)))
    × ((loader (load no_operation read_dir key_file data_dirs) (text "image/png")
          ≡ or_unknown (text "image/png") (
              first_loader no_operation
                (text "image/png")
                (all_groups read_dir key_file data_dirs)))
        ⊎ ((loader (load no_operation read_dir key_file data_dirs) (text "image/png")
              ≡ refused no_loaders_configured)
            × ((m' : Text)
                → first_loader no_operation m' (all_groups read_dir key_file data_dirs) ≡ none)))
lookup-first_example = lookup-first no_operation read_dir key_file data_dirs (text "image/png")

abbrev two_changes : ByteChanges
two_changes = record { offset = 1; new_value = 7 } ∷ record { offset = 1; new_value = 8 } ∷ []

apply_iff_example :
    (Returns (apply {E = ℕ} two_changes (5 ∷ 6 ∷ [])) (IsPatched two_changes (5 ∷ 6 ∷ []))
      ↔ AllInside two_changes (5 ∷ 6 ∷ []))
    × ((apply {E = ℕ} two_changes (5 ∷ 6 ∷ []) ≢ Outcome.panic)
        ↔ AllInside two_changes (5 ∷ 6 ∷ []))
apply_iff_example = apply_iff {E = ℕ} two_changes (5 ∷ 6 ∷ [])

abbrev one_served : Server ℕ
one_served = (serve to_string started 3 (ok tt)).0

Reachable-HasIds_example : HasIds to_string 1 (done 5 one_served)
Reachable-HasIds_example =
    Reachable-HasIds to_string 1 (done 5 one_served) (omega arith)
      (Reachable.ends 5 (Reachable.serves 3 (ok tt) Reachable.start))

-- A profile that inverts every byte.
abbrev pub invert : List ℕ → List ℕ
invert = map (λ b. 255 - b)

map-append : (f : ℕ → ℕ) (xs ys : List ℕ) → map f (xs ++ ys) ≡ map f xs ++ map f ys
map-append f [] ys = refl
map-append f (x ∷ xs) ys = ap (λ (l : List ℕ). f x ∷ l) (map-append f xs ys)

pub length-map : (f : ℕ → ℕ) (xs : List ℕ) → length (map f xs) ≡ length xs
length-map f [] = refl
length-map f (x ∷ xs) = ap suc (length-map f xs)

pub invert-IsByPixel : (pixel : ℕ) → IsByPixel pixel invert
invert-IsByPixel pixel = record { parts = λ xs ys k e. map-append (λ b. 255 - b) xs ys }

abbrev pub lcms : Lcms
lcms = record { number = λ c. 0; new_transform = λ icc_profile format srgb. some invert }

pub inverts : transformation lcms (9 ∷ []) MemoryFormat.r8g8b8 ≡ some invert
unfolding transformation
inverts = refl

abbrev two_pixels : List ℕ
two_pixels = 1 ∷ 2 ∷ 3 ∷ 4 ∷ 5 ∷ 6 ∷ []

three_bytes : to_number (n_bytes MemoryFormat.r8g8b8) ≡ 3
unfolding to_number n_bytes
three_bytes = refl

transform-whole_example :
    transform {E = ℕ} lcms 2 (9 ∷ []) MemoryFormat.r8g8b8 two_pixels ≡ ok (invert two_pixels)
transform-whole_example =
    transform-whole lcms 2 (9 ∷ []) MemoryFormat.r8g8b8 two_pixels {E = ℕ} invert inverts
      (invert-IsByPixel _) (omega (arith, three_bytes))
