-- ===== src/Dbus/Ids.antt =====
-- The paths of the images that a process serves.
use Prim.Native.String.{String}
use glycin.Base.{
  ℕ, suc, ◌<◌, ◌≡◌, ◌≢◌, refl, arith, false, Bool-cases, inl, inr, ◌==◌, List, [], ◌∷◌, All,
  Outcome, ok, err, usize_mod,
}
use glycin.Errors.{ProcessError, Cause}
use glycin.Dbus.{Served, Server, started, take_id, serve, remove, replace, done}

module _ {T : Type 0} (to_string : ProcessError → String) where
  -- The states of a server after some calls that take an id, in any order with the end of images and
  -- changes of an image.
  pub data Reachable : ℕ → Server T → Type 0 where
    start : Reachable 0 started
    serves :
        {n : ℕ} {server : Server T} (state : T) (at : Outcome Cause (Unit {0}))
        → Reachable n server
        → Reachable (suc n) (serve to_string server state at).0
    ends : {n : ℕ} {server : Server T} (id : ℕ) → Reachable n server → Reachable n (done id server)
    changes :
        {n : ℕ} {server : Server T} (id : ℕ) (served : Served T)
        → Reachable n server
        → Reachable n (record server { objects = replace id served server.objects })

  abbrev pub Below : ℕ → List (ℕ × Served T) → Type 0
  Below n = All (λ object. object.0 < n)

  -- No two images have the same path.
  abbrev pub Distinct : List (ℕ × Served T) → Type 0
  Distinct [] = Unit
  Distinct ((id, served) ∷ objects) = All (λ object. object.0 ≢ id) objects × Distinct objects

  pub record HasIds (n : ℕ) (server : Server T) : Type 0 where
    pub unpoisoned : server.lock_poisoned ≡ false
    pub next : server.image_id ≡ n
    pub below : Below n server.objects
    pub distinct : Distinct server.objects

  module _ {ℓ} (P : ℕ → Type ℓ) where
    remove-All :
        (id : ℕ) (objects : List (ℕ × Served T))
        → All (λ object. P object.0) objects
        → All (λ object. P object.0) (remove id objects)
    unfolding remove
    remove-All id [] h = tt
    remove-All id ((i, served) ∷ objects) (h, hs) = elim (Bool-cases (i == id)) [
      | inl same ↦ rw same (remove-All id objects hs)
      | inr other ↦ rw other (h, remove-All id objects hs)
    ]

    replace-All :
        (id : ℕ) (served : Served T) (objects : List (ℕ × Served T))
        → All (λ object. P object.0) objects
        → All (λ object. P object.0) (replace id served objects)
    unfolding replace
    replace-All id served [] h = tt
    replace-All id served ((i, other) ∷ objects) (h, hs) = elim (Bool-cases (i == id)) [
      | inl same ↦ rw same (h, replace-All id served objects hs)
      | inr different ↦ rw different (h, replace-All id served objects hs)
    ]

  remove-Distinct :
      (id : ℕ) (objects : List (ℕ × Served T)) → Distinct objects → Distinct (remove id objects)
  unfolding remove
  remove-Distinct id [] h = tt
  remove-Distinct id ((i, served) ∷ objects) (h, hs) = elim (Bool-cases (i == id)) [
    | inl same ↦ rw same (remove-Distinct id objects hs)
    | inr other ↦ rw other (remove-All (λ k. k ≢ i) id objects h, remove-Distinct id objects hs)
  ]

  replace-Distinct :
      (id : ℕ) (served : Served T) (objects : List (ℕ × Served T))
      → Distinct objects
      → Distinct (replace id served objects)
  unfolding replace
  replace-Distinct id served [] h = tt
  replace-Distinct id served ((i, other) ∷ objects) (h, hs) = elim (Bool-cases (i == id)) [
    | inl same ↦
        rw same
          (replace-All (λ k. k ≢ i) id served objects h, replace-Distinct id served objects hs)
    | inr different ↦
        rw different
          (replace-All (λ k. k ≢ i) id served objects h, replace-Distinct id served objects hs)
  ]

  Below-more : (n : ℕ) (objects : List (ℕ × Served T)) → Below n objects → Below (suc n) objects
  Below-more n [] h = tt
  Below-more n (object ∷ objects) (h, hs) = (omega arith, Below-more n objects hs)

  Below-other :
      (n : ℕ) (objects : List (ℕ × Served T))
      → Below n objects
      → All (λ object. object.0 ≢ n) objects
  Below-other n [] h = tt
  Below-other n (object ∷ objects) (h, hs) = ((λ e. omega arith), Below-other n objects hs)

  -- At an id that is not used up, as long as there are fewer than 2^64 of them.
  serve-HasIds :
      (n : ℕ) (server : Server T) (state : T) (at : Outcome Cause (Unit {0}))
      → suc n < usize_mod
      → HasIds n server
      → HasIds (suc n) (serve to_string server state at).0
  unfolding serve take_id
  serve-HasIds n server state (ok u) few h = rw h.unpoisoned (record {
    unpoisoned = refl;
    next = rw h.next (omega arith);
    below = (omega (arith, h.next), Below-more n server.objects h.below);
    distinct = (rw h.next (Below-other n server.objects h.below), h.distinct);
  })
  serve-HasIds n server state (err e) few h = rw h.unpoisoned (record {
    unpoisoned = refl;
    next = rw h.next (omega arith);
    below = Below-more n server.objects h.below;
    distinct = h.distinct;
  })
  serve-HasIds n server state Outcome.panic few h = rw h.unpoisoned (record {
    unpoisoned = refl;
    next = rw h.next (omega arith);
    below = Below-more n server.objects h.below;
    distinct = h.distinct;
  })

  -- Of fewer than 2^64 images that a process has been asked to serve, each has an id of its own: after any
  -- sequence of new images, ends and changes of images, the next id is the number of images so far,
  -- all images are at paths below it, and no two are at the same path.
  pub Reachable-HasIds :
      (n : ℕ) (server : Server T) → n < usize_mod → Reachable n server → HasIds n server
  unfolding started done
  Reachable-HasIds _ server few start = record {
    unpoisoned = refl;
    next = refl;
    below = tt;
    distinct = tt;
  }
  Reachable-HasIds _ _ few (serves {n} {server} state at r) =
      serve-HasIds n server state at few (Reachable-HasIds n server (omega arith) r)
  Reachable-HasIds n _ few (ends {server} id r) =
      let h = Reachable-HasIds n server few r in
      record {
        unpoisoned = h.unpoisoned;
        next = h.next;
        below = remove-All (λ k. k < n) id server.objects h.below;
        distinct = remove-Distinct id server.objects h.distinct;
      }
  Reachable-HasIds n _ few (changes {server} id served r) =
      let h = Reachable-HasIds n server few r in
      record {
        unpoisoned = h.unpoisoned;
        next = h.next;
        below = replace-All (λ k. k < n) id served server.objects h.below;
        distinct = replace-Distinct id served server.objects h.distinct;
      }
