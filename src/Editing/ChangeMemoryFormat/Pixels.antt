-- ===== src/Editing/ChangeMemoryFormat/Pixels.antt =====
-- What the first shortcut of `change_memory_format` makes of one pixel.
use glycin.Base.{
  ℕ, zero, suc, ◌+◌, ◌-◌, ◌*◌, ◌≤◌, ◌<◌, ◌≡◌, inl, inr, refl, sym, ◌∙◌, ap, arith, ltb,
  if◌then◌else◌, Bool-cases, List, length, get_or, set, ok, ◌>>=◌, read, read_lem, write, write_lem,
  for_in, for_in-Returns, Returns,
}
use glycin.Format.Types.{MemoryFormat, size}
use glycin.Format.Tables.{n_channels, channel_type}
use glycin.Editing.{Error}
use glycin.Editing.Images.{Buffer}
use glycin.Editing.ChangeMemoryFormat.{pixel_bytes, copy_pixel}
use glycin.Editing.ChangeMemoryFormat.Rows.{Converts}
use glycin.Editing.ChangeMemoryFormat.Writes.{
  Written, writes-Written, if_lt, if_le, positive_size, sum_lt,
}

module _ (src target : MemoryFormat) (indexes : List ℕ) (src_data : Buffer) where
  abbrev index : ℕ → ℕ
  index i = get_or indexes i 0

  -- The first shortcut, for channels of `c` bytes and `n` channels: each pass writes the byte
  -- `channel_byte` of all channels next to one another, `channel_byte` places on, and so over what
  -- the pass before it wrote.
  abbrev pub overlaid : ℕ → ℕ → ℕ → ℕ → ℕ
  overlaid n zero i0 j = 0
  overlaid n (suc c) i0 j =
      if ltb j (suc c)
      then get_or src_data (i0 + index 0 + j) 0
      else if ltb j (c + n)
      then get_or src_data (i0 + index (j - c) + c) 0
      else 0

  -- After `c` passes over a row that was zero from `k0` on.
  abbrev Overlaid : ℕ → ℕ → ℕ → ℕ → List ℕ → List ℕ → Type 0
  Overlaid n c i0 k0 row out =
      (length out ≡ length row)
      × ((j : ℕ) → get_or out (k0 + j) 0 ≡ overlaid n c i0 j)
      × ((k : ℕ) → k < k0 → get_or out k 0 ≡ get_or row k 0)

  overlaid_last :
      (n c i0 j : ℕ) → j < n → overlaid n (suc c) i0 (c + j) ≡ get_or src_data (i0 + index j + c) 0
  overlaid_last n c i0 zero hj =
      if_lt (c + 0) (suc c) _ _ (omega arith)
      ∙ ap (λ (k : ℕ). get_or src_data k 0)
          (let q : i0 + index 0 + (c + 0) ≡ i0 + index 0 + c = omega arith in q)
  overlaid_last n c i0 (suc j) hj =
      if_le (c + suc j) (suc c) _ _ (omega arith)
      ∙ if_lt (c + suc j) (c + n) _ _ (omega arith)
      ∙ ap (λ (k : ℕ). get_or src_data (i0 + index k + c) 0)
          (let q : c + suc j - c ≡ suc j = omega arith in q)

  -- One pass writes each channel where it belongs.
  pub overlaid_one : (n i0 j : ℕ) → j < n → overlaid n 1 i0 j ≡ get_or src_data (i0 + index j) 0
  overlaid_one n i0 j hj =
      ap (overlaid n 1 i0) (let q : j ≡ 0 + j = omega arith in q)
      ∙ overlaid_last n 0 i0 j hj
      ∙ ap (λ (k : ℕ). get_or src_data k 0)
          (let q : i0 + index j + 0 ≡ i0 + index j = omega arith in q)

  overlaid_before : (n c i0 j : ℕ) → j < c → overlaid n (suc c) i0 j ≡ overlaid n c i0 j
  overlaid_before n zero i0 j hj = absurd (omega arith)
  overlaid_before n (suc c) i0 j hj = ground arith

  overlaid_after : (n c i0 j : ℕ) → 0 < n → c + n ≤ j → overlaid n (suc c) i0 j ≡ overlaid n c i0 j
  overlaid_after n zero i0 j hn hj = ground arith
  overlaid_after n (suc c) i0 j hn hj = ground arith

  -- The bytes past the last one written.
  pub overlaid_beyond : (n c i0 j : ℕ) → 0 < n → c + n ≤ suc j → overlaid n c i0 j ≡ 0
  overlaid_beyond n zero i0 j hn h = refl
  overlaid_beyond n (suc c) i0 j hn h =
      if_le j (suc c) _ _ (omega arith) ∙ if_le j (c + n) _ _ (omega arith)

  Overlaid-step :
      (n c i0 k0 : ℕ) (row r out : List ℕ)
      → 0 < n
      → Overlaid n c i0 k0 row r
      → Written (λ i. get_or src_data (i0 + index i + c) 0) (k0 + c) n r out
      → Overlaid n (suc c) i0 k0 row out
  Overlaid-step n c i0 k0 row r out hn (size, laid, kept) (size', new, old) = (
    size' ∙ size,
    λ j. elim (Bool-cases (ltb j c)) [
      | inl before ↦
          old (k0 + j) (inl (ground arith)) ∙ laid j ∙ sym (overlaid_before n c i0 j (ground arith))
      | inr later ↦ elim (Bool-cases (ltb j (c + n))) [
        | inl here ↦
            let q : j ≡ c + (j - c) = ground arith in
            let i : j - c < n = ground arith in
            ap (λ (k : ℕ). get_or out k 0)
              (let e : k0 + j ≡ k0 + c + (j - c) = omega (arith, q) in e)
            ∙ new (j - c) i
            ∙ sym (overlaid_last n c i0 (j - c) i)
            ∙ ap (overlaid n (suc c) i0) (sym q)
        | inr after ↦
            old (k0 + j) (inr (ground arith))
            ∙ laid j
            ∙ sym (overlaid_after n c i0 j hn (ground arith))
      ]
    ],
    λ k hk. old k (inl (omega arith)) ∙ kept k hk,
  )

  -- The indexes are in range, and a pixel is its channels.
  abbrev s : ℕ
  s = size (channel_type target)

  abbrev nt : ℕ
  nt = n_channels target

  module _ (entries : length indexes ≡ 4) (few : nt ≤ 4) (some_channel : 0 < nt)
      (in_range : (i : ℕ) → i < nt → index i < n_channels src)
      (src_bytes : pixel_bytes src ≡ n_channels src * s)
      (target_bytes : pixel_bytes target ≡ nt * s) where
    pass :
        (i0 k0 c : ℕ) (row : List ℕ)
        → i0 + pixel_bytes src ≤ length src_data
        → k0 + pixel_bytes target ≤ length row
        → c < s
        → Returns {E = Error}
            (for_in 0 nt
              (λ i new_row.
                read indexes i
                >>= (λ n. read src_data (i0 + n + c) >>= (λ v. write new_row (k0 + i + c) v)))
              row)
            (Written (λ i. get_or src_data (i0 + index i + c) 0) (k0 + c) nt row)
    pass i0 k0 c row held room hc =
        writes-Written _ (λ i. get_or src_data (i0 + index i + c) 0) (k0 + c) nt row
          (λ i r hi e.
            rw
              (
                read_lem indexes i 0 (omega arith),
                read_lem src_data (i0 + index i + c) 0
                    (omega (arith, sum_lt (index i) (n_channels src) c s (in_range i hi) hc)),
                write_lem r (k0 + i + c) (get_or src_data (i0 + index i + c) 0)
                    (omega (arith, sum_lt i nt c s hi hc)),
              )
              (ap (λ (k : ℕ). ok (set r k (get_or src_data (i0 + index i + c) 0)))
                (let q : k0 + i + c ≡ k0 + c + i = omega arith in q)))
          (omega (arith, sum_lt (nt - 1) nt c s (omega arith) hc))

    -- The pixel that the first shortcut makes.
    pub copy_pixel-Converts :
        Converts
          (pixel_bytes src)
          (pixel_bytes target)
          src_data
          (overlaid nt s)
          (copy_pixel target indexes src_data)
    unfolding copy_pixel
    copy_pixel-Converts i0 k0 row held room fresh =
        let (out, e, (size', laid, kept)) =
          for_in-Returns (λ c. Overlaid nt c i0 k0 row) _ s
            (λ c r hc o.
              let (out, e, written) = pass i0 k0 c r held (omega (arith, o.0)) hc in
              (out, e, Overlaid-step nt c i0 k0 row r out some_channel o written))
            s 0 row (omega arith) (refl, λ j. fresh (k0 + j) (omega arith), λ k hk. refl) in
        (
          out,
          e,
          (
            size',
            λ i hi. laid i,
            kept,
            λ k hk.
                ap (λ (n : ℕ). get_or out n 0) (let q : k ≡ k0 + (k - k0) = omega arith in q)
                ∙ laid (k - k0)
                ∙ overlaid_beyond nt s i0 (k - k0) some_channel (
                    omega (
                      arith,
                      sum_lt (nt - 1) nt (s - 1) s (omega arith)
                          (omega (arith, positive_size (channel_type target))),
                    )),
          ),
        )
