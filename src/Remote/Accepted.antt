-- ===== src/Remote/Accepted.antt =====
-- The format of what the client hands out.
use glycin.Base.{
  subst, ok_or, u32_mod, usize_mod, ◌>>=◌, err, ℕ, ◌≡◌, refl, arith, true, false, List, ok, Outcome,
}
use glycin.Math.{Checked}
use glycin.Format.Types.{MemoryFormat}
use glycin.Format.Transform.{Floats}
use glycin.Selection.{flag, same_format}
use glycin.Frame.{Frame}
use glycin.Editing.{math}
use glycin.Editing.ChangeMemoryFormat.{
  change_memory_format, pixel_bytes, pixel_function, convert_rows,
}

pub same_format→≡ : (x y : MemoryFormat) → same_format x y ≡ true → x ≡ y
unfolding same_format flag
same_format→≡ MemoryFormat.g8 y e = ground arith
same_format→≡ x y e = ground arith

-- What an outcome returns, if it returns.
abbrev pub Gives : {E : Type 0} {A : Type 0} → (A → Type 0) → Outcome E A → Type 0
Gives P (ok x) = P x
Gives P (err e) = Unit
Gives P Outcome.panic = Unit

bind-Gives :
    {E : Type 0} {A B : Type 0} (P : B → Type 0) (f : A → Outcome E B) (m : Outcome E A)
    → ((x : A) → Gives P (f x))
    → Gives P (m >>= f)
bind-Gives P f (ok x) h = h x
bind-Gives P f (err e) h = tt
bind-Gives P f Outcome.panic h = tt

pub returned :
    {E : Type 0} {A : Type 0} (P : A → Type 0) (m : Outcome E A) (x : A)
    → m ≡ ok x
    → Gives P m
    → P x
returned P m x e h = subst (Gives P) e h

module _ {Details : Type 0} (floats : Floats) (checked : Checked) (frame : Frame Details)
    (buf : List ℕ) (target : MemoryFormat) where
  abbrev pub HasTarget : Frame Details × List ℕ → Type 0
  HasTarget out = out.0.memory_format ≡ target

  -- What `change_memory_format` returns has the target's format.
  pub change_memory_format-HasTarget :
      same_format frame.memory_format target ≡ false
      → Gives HasTarget (change_memory_format floats checked buf frame target)
  unfolding change_memory_format
  change_memory_format-HasTarget other = rw other (
      bind-Gives HasTarget _ (ok_or (checked.mul u32_mod frame.width (pixel_bytes target)) math)
        (λ new_stride.
          bind-Gives HasTarget _ (ok_or (checked.mul usize_mod frame.height new_stride) math)
            (λ new_total_size.
              bind-Gives HasTarget _ (pixel_function floats frame.memory_format target buf)
                (λ pixel.
                  bind-Gives HasTarget
                    (λ new_data.
                      ok (record frame { stride = new_stride; memory_format = target }, new_data))
                    (convert_rows pixel frame target new_stride) (λ new_data. refl)))))
