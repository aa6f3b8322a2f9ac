-- ===== src/EditorApi/Laws.antt =====
-- Writing the changes of bytes to a file, and applying them in memory.
use glycin.Base.{
  ℕ, ◌<◌, ◌≡◌, sym, arith, lt→ltb, List, [], ◌∷◌, length, length-set, set, Outcome, ok, write,
  i64_mod,
}
use glycin.Texture.Stride.{converts}
use glycin.Dbus.Editor.{ByteChange, ByteChanges}
use glycin.Dbus.Changes.{apply, AllInside, inside-length}
use glycin.EditorApi.{write_changes, write_byte}

module _ (too_large : glycin.Errors.Client.Error)
    (may_write : ByteChange → Outcome glycin.Errors.Client.Error (Unit {0}))
    (may : (change : ByteChange) → may_write change ≡ ok tt) where
  -- On changes inside of a file, `write_changes` writes what `apply` does.
  pub write_changes-apply :
      {E : Type 0} (changes : ByteChanges) (file out : List ℕ)
      → length file < i64_mod
      → AllInside changes file
      → apply {E = E} changes file ≡ ok out
      → write_changes too_large may_write changes file ≡ ok out
  unfolding write_changes apply write_byte write
  write_changes-apply [] file out size h e = ground arith
  write_changes-apply (change ∷ changes) file out size (h, hs) e =
      let same = length-set file change.offset change.new_value in
      rw (converts too_large i64_mod change.offset (omega arith)) (
        rw (may change) (
          rw (lt→ltb change.offset (length file) h) (
            write_changes-apply changes (set file change.offset change.new_value) out
              (omega (arith, same))
              (inside-length changes file (set file change.offset change.new_value) (sym same) hs)
              (rw (lt→ltb change.offset (length file) h) at e))))
