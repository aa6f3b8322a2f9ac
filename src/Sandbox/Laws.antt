-- ===== src/Sandbox/Laws.antt =====
-- Bounds of the memory limit, and the available memory as a sum.
use glycin.Base.{
  ℕ, ◌+◌, ◌-◌, ◌*◌, ◌≤◌, ◌≡◌, inl, inr, refl, ◌∙◌, ap, arith, min, Bool, true, false, if◌then◌else◌,
  List, [], ◌∷◌, Option, some, none, Option-cases, usize_mod,
}
use glycin.Sandbox.{
  Line, saturating_add, unwrap_or_zero, add_line, total_kb, mem_available, calculate_memory_limit,
  memory_limit,
}

-- The numbers of the lines that count.
abbrev pub counted : List Line → List ℕ
counted [] = []
counted (line ∷ lines) =
    let rest = counted lines in
    if line.counts
    then elim line.mem_avail_kb as (λ _. List ℕ) [ none ↦ rest | some kb ↦ kb ∷ rest ]
    else rest

abbrev pub sum : List ℕ → ℕ
sum [] = 0
sum (n ∷ ns) = n + sum ns

-- A total that starts with the given one, if there is any.
abbrev capped : Option ℕ → List ℕ → Option ℕ
capped total [] = total
capped total (n ∷ ns) = some (min (unwrap_or_zero total + sum (n ∷ ns)) (usize_mod - 1))

capped-step :
    (total : Option ℕ) (n : ℕ) (ns : List ℕ)
    → capped (some (saturating_add (unwrap_or_zero total) n)) ns ≡ capped total (n ∷ ns)
capped-step total n [] = ap some (omega arith)
capped-step total n (m ∷ ns) = ap some (omega arith)

total_kb-capped :
    (lines : List Line) (total : Option ℕ) → total_kb lines total ≡ capped total (counted lines)
unfolding total_kb add_line
total_kb-capped [] total = refl
total_kb-capped (line ∷ lines) total =
    step line.counts line.mem_avail_kb (total_kb-capped lines total) (λ n.
      total_kb-capped lines (some (saturating_add (unwrap_or_zero total) n))
      ∙ capped-step total n (counted lines))
  where
    step :
        (counts : Bool) (kb : Option ℕ)
        → total_kb lines total ≡ capped total (counted lines)
        → ((n : ℕ)
            → total_kb lines (some (saturating_add (unwrap_or_zero total) n))
              ≡ capped total (n ∷ counted lines))
        → total_kb lines (
            if counts
            then elim kb as (λ _. Option ℕ) [
              | none ↦ total
              | some n ↦ some (saturating_add (unwrap_or_zero total) n)
            ]
            else total)
          ≡ capped total (
              if counts
              then elim kb as (λ _. List ℕ) [ none ↦ counted lines | some n ↦ n ∷ counted lines ]
              else counted lines)
    step false kb skip add = skip
    step true none skip add = skip
    step true (some n) skip add = add n

-- What the numbers of the lines come to in bytes.
abbrev pub in_bytes : List ℕ → Option ℕ
in_bytes [] = none
in_bytes (n ∷ ns) = some (min (sum (n ∷ ns) * 1024) (usize_mod - 1))

abbrev pub counted_in : Option (List Line) → List ℕ
counted_in none = []
counted_in (some lines) = counted lines

-- The available memory is the sum of the numbers of all lines that count, in bytes, or the largest number if
-- that is exceeded; it is unknown exactly if no line counts, or the file cannot be opened.
pub mem_available-sum :
    (meminfo : Option (List Line)) → mem_available meminfo ≡ in_bytes (counted_in meminfo)
unfolding mem_available
mem_available-sum none = refl
mem_available-sum (some lines) = by_numbers (counted lines) refl
  where
    by_numbers :
        (ns : List ℕ) → counted lines ≡ ns → mem_available (some lines) ≡ in_bytes (counted lines)
    by_numbers [] e = rw (mem_available, total_kb-capped lines none, e) refl
    by_numbers (n ∷ ns) e =
        rw (mem_available, total_kb-capped lines none, e) (ap some (omega arith))

module _ (four_fifths : ℕ → ℕ) (shrinks : (n : ℕ) → four_fifths n ≤ n) where
  -- If the product with 0.8 is not larger than the number, a sandbox may never use more than 20 GiB less
  -- 200 MiB, whatever the system reports.
  pub memory_limit-le :
      (meminfo : Option (List Line))
      → memory_limit four_fifths meminfo ≤ 1024 * 1024 * 1024 * 20 - 1024 * 1024 * 200
  unfolding memory_limit calculate_memory_limit
  memory_limit-le meminfo = elim (Option-cases (mem_available meminfo)) [
    | inl unknown ↦ rw (memory_limit, unknown) (omega arith)
    | inr (mem, known) ↦
        rw (memory_limit, known)
          (omega (arith, shrinks (min mem (1024 * 1024 * 1024 * 20) - 1024 * 1024 * 200)))
  ]

  -- If the product with 0.8 is not larger than the number, and the available memory is known and at least
  -- 200 MiB, the limit leaves 200 MiB of it free.
  pub memory_limit-leaves :
      (meminfo : Option (List Line)) (mem : ℕ)
      → mem_available meminfo ≡ some mem
      → 1024 * 1024 * 200 ≤ mem
      → memory_limit four_fifths meminfo + 1024 * 1024 * 200 ≤ mem
  unfolding memory_limit calculate_memory_limit
  memory_limit-leaves meminfo mem known enough =
      rw (memory_limit, known)
        (omega (arith, shrinks (min mem (1024 * 1024 * 1024 * 20) - 1024 * 1024 * 200)))
