-- ===== src/Dbus.antt =====
-- The D-Bus side of loaders and editors: the images that a process serves, in
-- `glycin-utils/src/dbus_loader_api.rs` and `glycin-utils/src/dbus_editor_api.rs`. What D-Bus makes of a
-- new object is a parameter, and so is the text of an error.
pub mod Loader
pub mod Editor
pub mod Changes
pub mod Ids
use Prim.Native.String.{String}
use package.glycin.Base.{
  ℕ, suc, ◌+◌, ◌%◌, Bool, true, false, ◌==◌, if◌then◌else◌, List, [], ◌∷◌, Option, none, some,
  Outcome, ok, err, usize_mod,
}
use package.glycin.Errors.{ProcessError, RemoteError, Cause, internal, into_loader_error, map_err}

-- `Image` and `EditableImage`: the implementation behind a lock, which is poisoned by a panic.
pub record Served (T : Type 0) : Type 0 where
  pub implementation : T
  pub poisoned : Bool

-- `Loader` and `Editor`, with the images at their paths, which end with the id.
pub record Server (T : Type 0) : Type 0 where
  pub image_id : ℕ
  pub lock_poisoned : Bool
  pub objects : List (ℕ × Served T)

module _ {T : Type 0} where
  unfoldable pub started : Server T
  started = record { image_id = 0; lock_poisoned = false; objects = [] }

  unfoldable pub new_object : T → Served T
  new_object implementation = record { implementation = implementation; poisoned = false }

  -- The id that is taken, in 64 bits.
  unfoldable pub take_id : Server T → Server T
  take_id server = record server { image_id = (server.image_id + 1) % usize_mod }

  -- From the id on, with what the path and `object_server.at` come to.
  unfoldable pub serve :
      (ProcessError → String)
      → Server T
      → T
      → Outcome Cause (Unit {0})
      → Server T × Outcome RemoteError ℕ
  unfolding take_id new_object internal into_loader_error
  serve to_string server state at =
      if server.lock_poisoned
      then (server, err (RemoteError.internal_loader_error "poisoned lock"))
      else elim at [
        | ok _ ↦ (
          record (take_id server) {
            objects = (server.image_id, new_object state) ∷ server.objects;
          },
          ok (server.image_id),
        )
        | err e ↦ (take_id server, err (into_loader_error to_string (internal to_string e)))
        | Outcome.panic ↦ (take_id server, Outcome.panic)
      ]

  unfoldable pub find : ℕ → List (ℕ × Served T) → Option (Served T)
  find id [] = none
  find id ((i, served) ∷ objects) =
      let rest = find id objects in if i == id then some served else rest

  unfoldable pub remove : ℕ → List (ℕ × Served T) → List (ℕ × Served T)
  remove id [] = []
  remove id ((i, served) ∷ objects) =
      let rest = remove id objects in if i == id then rest else (i, served) ∷ rest

  unfoldable pub replace : ℕ → Served T → List (ℕ × Served T) → List (ℕ × Served T)
  replace id served [] = []
  replace id served ((i, other) ∷ objects) =
      let rest = replace id served objects in
      if i == id then (i, served) ∷ rest else (i, other) ∷ rest

  -- `done`: the object is removed from its path. Requests that are waiting end as aborted.
  unfoldable pub done : ℕ → Server T → Server T
  unfolding remove
  done id server = record server { objects = remove id server.objects }

-- The race of an answer and `dropped`: an answer, or `Aborted` if the image was dropped before.
unfoldable pub select :
    {A : Type 0} → (dropped : Bool) → Outcome RemoteError A → Outcome RemoteError A
select dropped result = if dropped then err RemoteError.aborted else result
