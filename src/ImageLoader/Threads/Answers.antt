-- ===== src/ImageLoader/Threads/Answers.antt =====
-- A request to the thread of an animation is always answered.
use glycin.Base.{
  ℕ, zero, suc, ◌+◌, ◌<◌, ◌≤◌, ◌≡◌, refl, sym, ap, subst, ◌∙◌, arith, ◌⊎◌, inl, inr, Bool, true,
  false, List, [], ◌∷◌, ◌++◌, length, length-append, get_elem?, Option, some, none,
}
use glycin.ImageLoader.Threads.{
  Thread, parked, running, ended, System, after_turn, Step, receive, disconnected, unparked,
  takes_turn, spurious, request, Steps, spawned, message,
}
use glycin.ImageLoader.Threads.InOrder.{
  IsInOrder, Step-IsInOrder, Steps-IsInOrder, spawned-IsInOrder,
}

abbrev pub to_list : {M : Type 0} → Option M → List M
to_list none = []
to_list (some m) = m ∷ []

module _ {ℓ} {A : Type ℓ} where
  append_nil : (xs : List A) → xs ≡ xs ++ []
  append_nil [] = refl
  append_nil (x ∷ xs) = ap (λ (l : List A). x ∷ l) (append_nil xs)

  get_elem?-append_head : (xs ys : List A) (y : A) → get_elem? (xs ++ (y ∷ ys)) (length xs) ≡ some y
  get_elem?-append_head [] ys y = refl
  get_elem?-append_head (x ∷ xs) ys y = get_elem?-append_head xs ys y

-- How much a thread can still do before it parks for lack of a token.
abbrev of_thread : {R : Type 0} → Thread R → ℕ
of_thread (parked r) = 0
of_thread (running r) = 1
of_thread ended = 0

abbrev of_token : Bool → ℕ
of_token true = 2
of_token false = 0

abbrev weight : {R M : Type 0} → System R M → ℕ
weight s = of_token s.token + of_thread s.thread

weight-le : (b : Bool) {R : Type 0} (thread : Thread R) → of_token b + of_thread thread ≤ 3
weight-le true (parked r) = omega arith
weight-le true (running r) = omega arith
weight-le true ended = omega arith
weight-le false (parked r) = omega arith
weight-le false (running r) = omega arith
weight-le false ended = omega arith

module _ {R M : Type 0} (turn : R → Option (M × Option R)) where
  -- A step that is not a park that ends for no reason.
  abbrev pub IsOwn : {s t : System R M} → Step turn s t → Type 0
  IsOwn (request w) = Unit
  IsOwn (receive m ms w c) = Unit
  IsOwn (disconnected w c e) = Unit
  IsOwn (unparked r e t) = Unit
  IsOwn (spurious r e) = ⊥
  IsOwn (takes_turn r e) = Unit

  -- The request has been answered by a message or, without one, by an error.
  abbrev pub IsAnswered : List M → Option M → System R M → Type 0
  IsAnswered log o s = (s.waiting ≡ false) × (s.received ≡ log ++ to_list o)

  -- However the threads go on, but for wake-ups without a reason, they go on until the request has been
  -- answered, and it is within `n` steps.
  abbrev pub AnswersIn : ℕ → List M → Option M → System R M → Type 0
  AnswersIn zero log o s = IsAnswered log o s
  AnswersIn (suc n) log o s =
      IsAnswered log o s
      ⊎ (((t : System R M) × (first : Step turn s t) × IsOwn first)
          × ((t : System R M) (first : Step turn s t) → IsOwn first → AnswersIn n log o t))

  answered_already :
      (n : ℕ) (log : List M) (o : Option M) (s : System R M)
      → IsAnswered log o s
      → AnswersIn n log o s
  answered_already zero log o s h = h
  answered_already (suc n) log o s h = inl h

  module _ (start : R) where
    abbrev pub next_message : System R M → Option M
    next_message s = message turn start (length s.received)

    received_next :
        (s : System R M) (m : M) (ms : List M)
        → IsInOrder turn start s
        → s.channel ≡ m ∷ ms
        → s.received ++ (m ∷ []) ≡ s.received ++ to_list (next_message s)
    received_next s m ms h c =
        ap (λ o. s.received ++ to_list o)
          (sym (get_elem?-append_head s.received ms m)
            ∙ sends (length s.received) (let e = length-append s.received (m ∷ ms) in omega arith))
      where
        sends :
            (i : ℕ)
            → i < length (s.received ++ (m ∷ ms))
            → get_elem? (s.received ++ (m ∷ ms)) i ≡ message turn start i
        sends =
            subst
              (λ c.
                (i : ℕ)
                → i < length (s.received ++ c)
                → get_elem? (s.received ++ c) i ≡ message turn start i)
              c h.order.sends

    received_no_more :
        (s : System R M)
        → IsInOrder turn start s
        → s.channel ≡ []
        → s.thread ≡ ended
        → s.received ≡ s.received ++ to_list (next_message s)
    received_no_more s h c e =
        append_nil s.received ∙ ap (λ (o : Option M). s.received ++ to_list o) (sym no_more)
      where
        no_more : next_message s ≡ none
        no_more =
            subst (λ (ms : List M). message turn start (length ms) ≡ none)
              (ap (λ (ms : List M). s.received ++ ms) c ∙ sym (append_nil s.received))
              (h.order.over e)

    goes_on :
        (s : System R M)
        → IsInOrder turn start s
        → s.waiting ≡ true
        → (t : System R M) × (first : Step turn s t) × IsOwn first
    goes_on s h w = by_channel s.channel s.thread refl refl
      where
        by_channel :
            (ms : List M) (thread : Thread R)
            → s.channel ≡ ms
            → s.thread ≡ thread
            → (t : System R M) × (first : Step turn s t) × IsOwn first
        by_channel (m ∷ ms) thread c e = (_, receive m ms w c, tt)
        by_channel [] ended c e = (_, disconnected w c e, tt)
        by_channel [] (running r) c e = (_, takes_turn r e, tt)
        by_channel [] (parked r) c e = (_, unparked r e (h.awake r w e c), tt)

    after_turn_lem :
        (s : System R M) (r : R) (o : Option (M × Option R))
        → s.thread ≡ running r
        → ((after_turn turn s o).waiting ≡ s.waiting)
          × ((after_turn turn s o).received ≡ s.received)
          × (weight (after_turn turn s o) < weight s)
    unfolding after_turn
    after_turn_lem s r none e = (refl, refl, let q = ap of_thread e in omega arith)
    after_turn_lem s r (some (m, none)) e = (refl, refl, let q = ap of_thread e in omega arith)
    after_turn_lem s r (some (m, some later)) e =
        (refl, refl, let q = ap of_thread e in omega arith)

    answers :
        (n : ℕ) (s : System R M)
        → IsInOrder turn start s
        → s.waiting ≡ true
        → weight s < n
        → AnswersIn n s.received (next_message s) s
    answers zero s h w b = absurd (omega arith)
    answers (suc n) s h w b = inr (goes_on s h w, every (answers n))
      where
        every :
            ((u : System R M)
              → IsInOrder turn start u
              → u.waiting ≡ true
              → weight u < n
              → AnswersIn n u.received (next_message u) u)
            → (t : System R M) (first : Step turn s t) → IsOwn first
            → AnswersIn n s.received (next_message s) t
        every later _ (request w') own = absurd (ground arith)
        every later _ (receive m ms w' c) own =
            answered_already n _ _ _ (refl, received_next s m ms h c)
        every later _ (disconnected w' c e) own =
            answered_already n _ _ _ (refl, received_no_more s h c e)
        every later _ (unparked r e t) own =
            later _ (Step-IsInOrder turn start s _ (unparked r e t) h) w
              (let q = ap of_token t in let q' = ap of_thread e in omega arith)
        every later _ (spurious r e) own = elim own [ ]
        every later _ (takes_turn r e) own =
            let (w', same, less) = after_turn_lem s r (turn r) e in
            subst
              (λ (log : List M).
                AnswersIn n log (message turn start (length log)) (after_turn turn s (turn r)))
              same
              (later (after_turn turn s (turn r)) (Step-IsInOrder turn start s _ (takes_turn r e) h)
                (w' ∙ w) (omega arith))

    -- A request that waits is answered.
    pub Steps-AnswersIn :
        (n : ℕ) (s : System R M)
        → Steps turn (spawned turn start) n s
        → s.waiting ≡ true
        → AnswersIn 4 s.received (next_message s) s
    Steps-AnswersIn n s steps w =
        answers 4 s (Steps-IsInOrder turn start _ (spawned-IsInOrder turn start) steps) w
          (let q = weight-le s.token s.thread in omega arith)
