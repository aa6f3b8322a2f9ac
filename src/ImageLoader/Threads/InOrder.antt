-- ===== src/ImageLoader/Threads/InOrder.antt =====
-- What is true in all interleavings of the two threads.
use mathlib.Core.List.{append_assoc}
use glycin.Base.{
  ℕ, zero, suc, ◌<◌, ◌≡◌, ◌⊎◌, inl, inr, refl, sym, ap, subst, ◌∙◌, arith, true, List, [], ◌∷◌,
  ◌++◌, length, length-append, get_elem?, Option, some, none,
}
use glycin.ImageLoader.Threads.{
  Thread, parked, running, ended, System, parks, after_turn, Step, request, receive, disconnected,
  unparked, spurious, takes_turn, Steps, here, step, spawned, after, message,
}

module _ {ℓ} {A : Type ℓ} where
  get_elem?-append_left :
      (xs ys : List A) (i : ℕ) → i < length xs → get_elem? (xs ++ ys) i ≡ get_elem? xs i
  get_elem?-append_left [] ys i h = absurd (omega arith)
  get_elem?-append_left (x ∷ xs) ys zero h = refl
  get_elem?-append_left (x ∷ xs) ys (suc i) h = get_elem?-append_left xs ys i (omega arith)

  get_elem?-append_last : (xs : List A) (x : A) → get_elem? (xs ++ (x ∷ [])) (length xs) ≡ some x
  get_elem?-append_last [] x = refl
  get_elem?-append_last (y ∷ xs) x = get_elem?-append_last xs x

-- Where a thread parks or parked last.
abbrev pub place : {R : Type 0} → Thread R → Option R
place (parked r) = some r
place (running r) = some r
place ended = none

module _ {R M : Type 0} (turn : R → Option (M × Option R)) (start : R) where
  -- The messages so far are those of the turns, and the thread is where these lead.
  pub record InOrder (log : List M) (thread : Thread R) : Type 0 where
    pub live : (r : R) → place thread ≡ some r → after turn start (length log) ≡ some r
    pub sends : (i : ℕ) → i < length log → get_elem? log i ≡ message turn start i
    pub over : thread ≡ ended → message turn start (length log) ≡ none

  place-parks : (later : Option R) → place (parks turn later) ≡ later
  place-parks none = refl
  place-parks (some r) = refl

  ended-none : (later : Option R) → parks turn later ≡ ended → later ≡ none
  ended-none none e = refl
  ended-none (some r) e = ground arith

  turn-InOrder :
      (log : List M) (r : R) (m : M) (later : Option R)
      → turn r ≡ some (m, later)
      → InOrder log (running r)
      → InOrder (log ++ (m ∷ [])) (parks turn later)
  unfolding after message
  turn-InOrder log r m later e h = record {
    live = λ r' e'. rw size (rw (h.live r refl, e) (sym (place-parks later) ∙ e'));
    sends = λ i hi. elim (split i (rw size at hi)) [
      | inl before ↦ get_elem?-append_left log (m ∷ []) i before ∙ h.sends i before
      | inr last ↦ rw last (get_elem?-append_last log m ∙ sym (rw (h.live r refl, e) refl))
    ];
    over = λ e'. rw size (rw (h.live r refl, e) (rw (ended-none later e') refl));
  }
    where
      size : length (log ++ (m ∷ [])) ≡ suc (length log)
      size = length-append log (m ∷ []) ∙ omega arith

      split : (i : ℕ) → i < suc (length log) → (i < length log) ⊎ (i ≡ length log)
      split i hi = omega arith

  panic-InOrder :
      (log : List M) (r : R) → turn r ≡ none → InOrder log (running r) → InOrder log ended
  unfolding message
  panic-InOrder log r e h = record {
    live = λ r' e'. ground arith;
    sends = h.sends;
    over = λ e'. rw (h.live r refl, e) refl;
  }

  -- A request that waits has left a token, unless the thread is awake or there is a message.
  pub record IsInOrder (s : System R M) : Type 0 where
    pub order : InOrder (s.received ++ s.channel) s.thread
    pub awake : (r : R) → s.waiting ≡ true → s.thread ≡ parked r → s.channel ≡ [] → s.token ≡ true

  pub after_turn-IsInOrder :
      (s : System R M) (r : R) (o : Option (M × Option R))
      → s.thread ≡ running r
      → turn r ≡ o
      → IsInOrder s
      → IsInOrder (after_turn turn s o)
  unfolding after_turn
  after_turn-IsInOrder s r none e t h = record {
    order = panic-InOrder _ r t (subst (InOrder _) e h.order);
    awake = λ r' w e' c. ground arith;
  }
  after_turn-IsInOrder s r (some (m, later)) e t h = record {
    order =
        subst (λ log. InOrder log (parks turn later)) (append_assoc s.received s.channel (m ∷ []))
          (turn-InOrder _ r m later t (subst (InOrder _) e h.order));
    awake = λ r' w e' c. absurd (not_empty s.channel c);
  }
    where
      not_empty : (ms : List M) → ms ++ (m ∷ []) ≡ [] → ⊥
      not_empty [] e = ground arith
      not_empty (m' ∷ ms) e = ground arith

  pub Step-IsInOrder : (s t : System R M) → Step turn s t → IsInOrder s → IsInOrder t
  Step-IsInOrder s _ (request w) h = record { order = h.order; awake = λ r w' e c. refl }
  Step-IsInOrder s _ (receive m ms w c) h = record {
    order =
        subst (λ log. InOrder log s.thread)
          (ap (λ (c : List M). s.received ++ c) c ∙ sym (append_assoc s.received (m ∷ []) ms))
          h.order;
    awake = λ r w' e c'. ground arith;
  }
  Step-IsInOrder s _ (disconnected w c e) h = record {
    order = h.order;
    awake = λ r w' e' c'. ground arith;
  }
  Step-IsInOrder s _ (unparked r e t) h = record {
    order = record {
      live = λ r' e'. h.order.live r' (rw e e');
      sends = h.order.sends;
      over = λ e'. ground arith;
    };
    awake = λ r' w e' c. ground arith;
  }
  Step-IsInOrder s _ (spurious r e) h = record {
    order = record {
      live = λ r' e'. h.order.live r' (rw e e');
      sends = h.order.sends;
      over = λ e'. ground arith;
    };
    awake = λ r' w e' c. ground arith;
  }
  Step-IsInOrder s _ (takes_turn r e) h = after_turn-IsInOrder s r (turn r) e refl h

  pub Steps-IsInOrder :
      (s : System R M) → IsInOrder s → {n : ℕ} {t : System R M} → Steps turn s n t → IsInOrder t
  Steps-IsInOrder s h here = h
  Steps-IsInOrder s h (step steps last) = Step-IsInOrder _ _ last (Steps-IsInOrder s h steps)

  pub spawned-IsInOrder : IsInOrder (spawned turn start)
  unfolding after
  spawned-IsInOrder = record {
    order = record {
      live = λ r e. e;
      sends = λ i h. absurd (omega arith);
      over = λ e. ground arith;
    };
    awake = λ r w e c. ground arith;
  }
