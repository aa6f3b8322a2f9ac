-- ===== src/Editing/Orientation/Swap.antt =====
-- A loop that swaps each byte of an image with its partner under an involution of the pixels.
use glycin.Base.{
  ◌↔◌, ==→≡, ==→≢, ◌==◌, Bool-cases, ℕ, suc, ◌*◌, ◌≤◌, ◌<◌, ◌≡◌, ◌≢◌, ◌⊎◌, inl, inr, refl, sym, ◌∙◌,
  arith, length, get_or, set, length-set, get_or-set_self, get_or-set_ne, for_in, Returns,
  for_in3-Returns,
}
use glycin.Editing.Images.{Buffer}
use glycin.Editing.Orientation.{swap}
use glycin.Editing.Orientation.Grid.{
  Before, SameByte, Before-suc, not-Before, swap_lem, position, InPixels, position-lt, position_inj,
}

module _ (w h ps stride : ℕ) (narrow : w * ps ≤ stride) (img_buf : Buffer)
    (held : stride * h ≤ length img_buf) (mx my : ℕ → ℕ) (nx : ℕ) (ny : ℕ → ℕ)
    (mx-lt : (x : ℕ) → x < w → (mx x < w) × (mx (mx x) ≡ x))
    (my-lt : (y : ℕ) → y < h → (my y < h) × (my (my y) ≡ y))
    (visited_inside : (x y : ℕ) → x < nx → y < ny x → (x < w) × (y < h))
    (visited_once : (x y : ℕ) → x < nx → y < ny x → mx x < nx → my y < ny (mx x) → ⊥) where
  abbrev In : ℕ → ℕ → ℕ → Type 0
  In = InPixels w h ps stride narrow

  abbrev pos : ℕ → ℕ → ℕ → ℕ
  pos = position w h ps stride narrow

  abbrev Visited : ℕ → ℕ → ℕ → ℕ → ℕ → ℕ → Type 0
  Visited x y i x' y' i' = (x < nx) × (y < ny x) × Before x y i x' y' i'

  abbrev Done : ℕ → ℕ → ℕ → ℕ → ℕ → ℕ → Type 0
  Done x y i x' y' i' = Visited x y i x' y' i' ⊎ Visited (mx x) (my y) i x' y' i'

  -- A byte is that of its partner once it or its partner was visited, and unchanged before.
  abbrev Swapped : ℕ → ℕ → ℕ → Buffer → Type 0
  Swapped x' y' i' buf =
      (length buf ≡ length img_buf)
      × ((x y i : ℕ)
          → In x y i
          → (Done x y i x' y' i'
              → get_or buf (pos x y i) 0 ≡ get_or img_buf (pos (mx x) (my y) i) 0)
            × (¬ Done x y i x' y' i' → get_or buf (pos x y i) 0 ≡ get_or img_buf (pos x y i) 0))

  Done-suc :
      (x y i x' y' i' : ℕ)
      → Done x y i x' y' (suc i')
      → Done x y i x' y' i' ⊎ (SameByte x y i x' y' i' ⊎ SameByte (mx x) (my y) i x' y' i')
  Done-suc x y i x' y' i' (inl (vx, vy, b)) = elim (Before-suc x y i x' y' i' b) [
    | inl b' ↦ inl (inl (vx, vy, b'))
    | inr s ↦ inr (inl s)
  ]
  Done-suc x y i x' y' i' (inr (vx, vy, b)) = elim (Before-suc (mx x) (my y) i x' y' i' b) [
    | inl b' ↦ inl (inr (vx, vy, b'))
    | inr s ↦ inr (inr s)
  ]

  Done-later : (x y i x' y' i' : ℕ) → Done x y i x' y' i' → Done x y i x' y' (suc i')
  Done-later x y i x' y' i' (inl (vx, vy, b)) = inl (vx, vy, omega arith)
  Done-later x y i x' y' i' (inr (vx, vy, b)) = inr (vx, vy, omega arith)

  -- One swap, at a visited pixel.
  module _ (x' y' i' : ℕ) (buf : Buffer) (vx : x' < nx) (vy : y' < ny x') (vi : i' < ps)
      (state : Swapped x' y' i' buf) where
    abbrev p : ℕ
    p = pos x' y' i'

    abbrev q : ℕ
    q = pos (mx x') (my y') i'

    abbrev after : Buffer
    after = set (set buf p (get_or buf q 0)) q (get_or buf p 0)

    In-p : In x' y' i'
    In-p = let (a, b) = visited_inside x' y' vx vy in (a, b, vi)

    In-q : In (mx x') (my y') i'
    In-q = ((mx-lt x' In-p.0).0, (my-lt y' In-p.1).0, vi)

    p_lt : p < length buf
    p_lt = position-lt w h ps stride narrow (length buf) x' y' i' (omega (arith, state.0)) In-p

    q_lt : q < length buf
    q_lt =
        position-lt w h ps stride narrow (length buf) (mx x') (my y') i' (omega (arith, state.0))
          In-q

    p_not-Done : ¬ Done x' y' i' x' y' i'
    p_not-Done (inl (_, _, b)) = not-Before x' y' i' b
    p_not-Done (inr (a, b, _)) = visited_once x' y' vx vy a b

    q_not-Done : ¬ Done (mx x') (my y') i' x' y' i'
    q_not-Done (inl (a, b, _)) = visited_once x' y' vx vy a b
    q_not-Done (inr (_, _, b)) =
        let e = (mx-lt x' In-p.0).1 in let e' = (my-lt y' In-p.1).1 in omega arith

    p_ne_q : p ≢ q
    p_ne_q e =
        let (ex, ey, _) =
          position_inj w h ps stride narrow x' y' i' (mx x') (my y') i' In-p In-q e in
        visited_once x' y' vx vy (omega arith)
          (let b : my y' < ny (mx x') = rw (← ex, ← ey) vy in b)

    read_p : get_or after p 0 ≡ get_or img_buf q 0
    read_p =
        get_or-set_ne (set buf p (get_or buf q 0)) q p (get_or buf p 0) 0 (λ e. p_ne_q (sym e))
        ∙ get_or-set_self buf p (get_or buf q 0) 0 p_lt
        ∙ (state.1 (mx x') (my y') i' In-q).1 q_not-Done

    read_q : get_or after q 0 ≡ get_or img_buf p 0
    read_q =
        get_or-set_self (set buf p (get_or buf q 0)) q (get_or buf p 0) 0
          (omega (arith, length-set buf p (get_or buf q 0), q_lt))
        ∙ (state.1 x' y' i' In-p).1 p_not-Done

    read_other : (k : ℕ) → p ≢ k → q ≢ k → get_or after k 0 ≡ get_or buf k 0
    read_other k np nq =
        get_or-set_ne (set buf p (get_or buf q 0)) q k (get_or buf p 0) 0 nq
        ∙ get_or-set_ne buf p k (get_or buf q 0) 0 np

    abbrev Kept : ℕ → ℕ → ℕ → Type 0
    Kept x y i =
        (Done x y i x' y' (suc i')
          → get_or after (pos x y i) 0 ≡ get_or img_buf (pos (mx x) (my y) i) 0)
        × (¬ Done x y i x' y' (suc i') → get_or after (pos x y i) 0 ≡ get_or img_buf (pos x y i) 0)

    at_p : Kept x' y' i'
    at_p = (λ _. read_p, λ nd. absurd (nd (inl (vx, vy, omega arith))))

    at_q : Kept (mx x') (my y') i'
    at_q =
        rw ((mx-lt x' In-p.0).1, (my-lt y' In-p.1).1)
          (λ _. read_q, λ nd. absurd (nd (inr (vx, vy, omega arith))))

    at_other : (x y i : ℕ) → In x y i → p ≢ pos x y i → q ≢ pos x y i → Kept x y i
    at_other x y i inside np nq = (
      λ d. read_other (pos x y i) np nq ∙ elim (Done-suc x y i x' y' i' d) [
        | inl d' ↦ (state.1 x y i inside).0 d'
        | inr (inl (ex, ey, ei)) ↦ absurd (np (rw (ex, ey, ei)))
        | inr (inr (ex, ey, ei)) ↦
            absurd (nq (rw (← ex, ← ey, ← ei, (mx-lt x inside.0).1, (my-lt y inside.1).1)))
      ],
      λ nd.
          read_other (pos x y i) np nq
          ∙ (state.1 x y i inside).1 (λ d. nd (Done-later x y i x' y' i' d)),
    )

    Swapped-step : Returns (swap p q buf) (Swapped x' y' (suc i'))
    Swapped-step = (
      after,
      swap_lem p q buf p_lt q_lt,
      (
        length-set (set buf p (get_or buf q 0)) q (get_or buf p 0)
            ∙ length-set buf p (get_or buf q 0)
            ∙ state.0,
        each,
      ),
    )
      where
        each : (x y i : ℕ) → In x y i → Kept x y i
        each x y i inside = elim (Bool-cases (p == pos x y i)) [
          | inl e ↦
              let (ex, ey, ei) =
                position_inj w h ps stride narrow x' y' i' x y i In-p inside (==→≡ _ _ e) in
              rw (← ex, ← ey, ← ei) at_p
          | inr np ↦ elim (Bool-cases (q == pos x y i)) [
            | inl e ↦
                let (ex, ey, ei) =
                  position_inj w h ps stride narrow (mx x') (my y') i' x y i In-q inside
                    (==→≡ _ _ e) in
                rw (← ex, ← ey, ← ei) at_q
            | inr nq ↦ at_other x y i inside (==→≢ _ _ np) (==→≢ _ _ nq)
          ]
        ]

  -- Loops that end a row or a column.
  same_done :
      (X Y I X' Y' I' : ℕ) (buf : Buffer)
      → ((x y i : ℕ) → y < ny x → i < ps → Before x y i X Y I ↔ Before x y i X' Y' I')
      → Swapped X Y I buf
      → Swapped X' Y' I' buf
  same_done X Y I X' Y' I' buf same (size, old) = (
    size,
    λ x y i inside. (
      λ d. (old x y i inside).0 (back x y i inside d),
      λ nd. (old x y i inside).1 (λ d. nd (forth x y i inside d)),
    ),
  )
    where
      back : (x y i : ℕ) → In x y i → Done x y i X' Y' I' → Done x y i X Y I
      back x y i inside (inl (a, b, c)) = inl (a, b, (same x y i b inside.2).1 c)
      back x y i inside (inr (a, b, c)) = inr (a, b, (same (mx x) (my y) i b inside.2).1 c)

      forth : (x y i : ℕ) → In x y i → Done x y i X Y I → Done x y i X' Y' I'
      forth x y i inside (inl (a, b, c)) = inl (a, b, (same x y i b inside.2).0 c)
      forth x y i inside (inr (a, b, c)) = inr (a, b, (same (mx x) (my y) i b inside.2).0 c)

  Before-row : (X Y x y i : ℕ) → i < ps → Before x y i X Y ps ↔ Before x y i X (suc Y) 0
  Before-row X Y x y i hi = (λ h. omega arith, λ h. omega arith)

  Before-column : (X x y i : ℕ) → y < ny x → Before x y i X (ny X) 0 ↔ Before x y i (suc X) 0 0
  Before-column X x y i hy = (λ h. omega arith, λ h. ground arith)

  -- After the loops every byte is that of its partner, where each pixel or its partner is visited
  -- or the pixel is its own partner.
  pub swaps-Swapped :
      ((x y : ℕ)
        → x < w
        → y < h
        → (x < nx) × (y < ny x) ⊎ ((mx x < nx) × (my y < ny (mx x)) ⊎ (mx x ≡ x) × (my y ≡ y)))
      → Returns
          (for_in 0 nx
            (λ x. for_in 0 (ny x) λ y. for_in 0 ps λ i. swap (pos x y i) (pos (mx x) (my y) i))
            img_buf)
          (λ buf.
            (length buf ≡ length img_buf)
            × ((x y i : ℕ)
                → In x y i
                → get_or buf (pos x y i) 0 ≡ get_or img_buf (pos (mx x) (my y) i) 0))
  swaps-Swapped covered =
      let (buf, e, (size, all)) =
        for_in3-Returns Swapped (λ x y i. swap (pos x y i) (pos (mx x) (my y) i)) nx ny ps
          (λ x y i s hx hy hi st. Swapped-step x y i s hx hy hi st)
          (λ X Y s hx hy st.
            same_done X Y ps X (suc Y) 0 s (λ x y i _ hi. Before-row X Y x y i hi) st)
          (λ X s hx st.
            same_done X (ny X) 0 (suc X) 0 0 s (λ x y i hy _. Before-column X x y i hy) st)
          img_buf (refl, λ x y i inside. (λ d. absurd (none_done x y i d), λ _. refl)) in
      (
        buf,
        e,
        (
          size,
          λ x y i inside. elim (covered x y inside.0 inside.1) [
            | inl (a, b) ↦ (all x y i inside).0 (inl (a, b, omega arith))
            | inr (inl (a, b)) ↦ (all x y i inside).0 (inr (a, b, omega arith))
            | inr (inr (ex, ey)) ↦
                rw (ex, ey) ((all x y i inside).1 (λ d. fixed_not_done x y i inside ex ey d))
          ],
        ),
      )
    where
      none_done : (x y i : ℕ) → Done x y i 0 0 0 → ⊥
      none_done x y i (inl (_, _, b)) = omega arith
      none_done x y i (inr (_, _, b)) = omega arith

      fixed_not_done : (x y i : ℕ) → In x y i → mx x ≡ x → my y ≡ y → Done x y i nx 0 0 → ⊥
      fixed_not_done x y i inside ex ey (inl (a, b, _)) =
          visited_once x y a b (omega arith) (let t : my y < ny (mx x) = rw (ex, ey) b in t)
      fixed_not_done x y i inside ex ey (inr (a, b, _)) =
          visited_once x y (omega arith) (let t : y < ny x = rw (ex, ey) at b in t) a b
