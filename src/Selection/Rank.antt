-- ===== src/Selection/Rank.antt =====
-- The keys of `best_format_for` as numbers: the order of tuples is the order of a weighted sum.
use glycin.Base.{ℕ, ◌+◌, ◌*◌, ◌-◌, ◌≤◌, ◌<◌, ◌≡◌, arith, Bool, true, false, ltb, ◌==◌}
use glycin.Base.{◌||◌, ◌&&◌}
use glycin.Format.Types.{MemoryFormat, size}
use glycin.Format.Tables.{n_channels, channel_type}
use glycin.Selection.{Key, key_for, lt_key, bool_then}

abbrev bit : Bool → ℕ
bit true = 1
bit false = 0

bit-le : (b : Bool) → bit b ≤ 1
bit-le true = omega arith
bit-le false = omega arith

-- The two numbers of a key, as one that falls where they grow.
abbrev small_part : ℕ → ℕ → ℕ
small_part channels type_size = (4 - channels) * 5 + (4 - type_size)

-- A number for the place of a key in the order of tuples.
abbrev weigh : Key → ℕ
weigh k =
    bit k.same_alpha * 200
    + (bit k.enough_channels * 100
        + (bit k.same_channel_type * 50
            + (bit k.large_enough * 25 + small_part k.channels k.type_size)))

unfoldable pub rank : MemoryFormat → MemoryFormat → ℕ
unfolding key_for
rank src x = weigh (key_for src x)

bool_then-weigh :
    (w m n : ℕ) (x y : Bool)
    → m < w
    → n < w
    → bool_then x y (ltb m n) ≡ ltb (bit x * w + m) (bit y * w + n)
unfolding bool_then
bool_then-weigh w m n true true hm hn = ground arith
bool_then-weigh w m n true false hm hn = ground arith
bool_then-weigh w m n false true hm hn = ground arith
bool_then-weigh w m n false false hm hn = ground arith

numbers-weigh :
    (c s c' s' : ℕ)
    → c ≤ 4
    → s ≤ 4
    → c' ≤ 4
    → s' ≤ 4
    → (ltb c' c || c' == c && ltb s' s) ≡ ltb (small_part c s) (small_part c' s')
numbers-weigh c s c' s' hc hs hc' hs' = ground arith

lt_key-weigh :
    (j k : Key)
    → j.channels ≤ 4
    → j.type_size ≤ 4
    → k.channels ≤ 4
    → k.type_size ≤ 4
    → lt_key j k ≡ ltb (weigh j) (weigh k)
unfolding lt_key
lt_key-weigh j k h1 h2 h3 h4 =
    rw (numbers-weigh j.channels j.type_size k.channels k.type_size h1 h2 h3 h4) (
      rw (bool_then-weigh 25 _ _ j.large_enough k.large_enough (small j) (small k)) (
        rw (bool_then-weigh 50 _ _ j.same_channel_type k.same_channel_type (sizes j) (sizes k)) (
          rw (bool_then-weigh 100 _ _ j.enough_channels k.enough_channels (types j) (types k))
            (bool_then-weigh 200 _ _ j.same_alpha k.same_alpha (counts j) (counts k)))))
  where
    small : (k : Key) → small_part k.channels k.type_size < 25
    small k = omega arith

    sizes : (k : Key) → bit k.large_enough * 25 + small_part k.channels k.type_size < 50
    sizes k = omega (arith, bit-le k.large_enough)

    types :
        (k : Key)
        → bit k.same_channel_type * 50
            + (bit k.large_enough * 25 + small_part k.channels k.type_size)
          < 100
    types k = omega (arith, bit-le k.large_enough, bit-le k.same_channel_type)

    counts :
        (k : Key)
        → bit k.enough_channels * 100
            + (bit k.same_channel_type * 50
                + (bit k.large_enough * 25 + small_part k.channels k.type_size))
          < 200
    counts k =
        omega (arith, bit-le k.large_enough, bit-le k.same_channel_type, bit-le k.enough_channels)

format_sizes : (f : MemoryFormat) → (n_channels f ≤ 4) × (size (channel_type f) ≤ 4)
unfolding n_channels channel_type size
format_sizes MemoryFormat.g8 = omega arith
format_sizes f = omega arith

pub lt_key-rank :
    (src x y : MemoryFormat)
    → lt_key (key_for src x) (key_for src y) ≡ ltb (rank src x) (rank src y)
unfolding rank
lt_key-rank src x y =
    lt_key-weigh (key_for src x) (key_for src y) (format_sizes x).0 (format_sizes x).1
      (format_sizes y).0 (format_sizes y).1
