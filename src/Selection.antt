-- ===== src/Selection.antt =====
-- `glycin-common/src/memory_format_selection.rs`: the formats that the user of the API accepts, and
-- the choice of the one that represents a given format best. The set of flags itself is of another
-- crate (`bitflags`, or `glib::flags`): a selection is a parameter, by its `contains` alone.
pub mod Sort
mod Rank
mod Listed
pub mod Best
use package.glycin.Base.{ℕ, zero, suc, ◌^◌, ◌<◌, Bool, true, false, not, ◌&&◌, ◌||◌, ltb, leb, ◌==◌}
use package.glycin.Base.{if◌then◌else◌, Option, none, some, List, [], ◌∷◌}
use package.glycin.Format.Types.{
  MemoryFormat, b8g8r8a8_premultiplied, a8r8g8b8_premultiplied, r8g8b8a8_premultiplied, b8g8r8a8,
  a8r8g8b8, r8g8b8a8, a8b8g8r8, r8g8b8, b8g8r8, r16g16b16, r16g16b16a16_premultiplied, r16g16b16a16,
  r16g16b16_float, r16g16b16a16_float, r32g32b32_float, r32g32b32a32_float_premultiplied,
  r32g32b32a32_float, g8a8_premultiplied, g8a8, g8, g16a16_premultiplied, g16a16, g16, ChannelType,
  size, same_type,
}
use package.glycin.Format.Types.{source_index}
use package.glycin.Format.Tables.{n_channels, channel_type, has_alpha}
use Sort.{sort_by, last?}

-- The bit of each flag.
unfoldable pub flag : MemoryFormat → ℕ
flag b8g8r8a8_premultiplied = 2 ^ 0
flag a8r8g8b8_premultiplied = 2 ^ 1
flag r8g8b8a8_premultiplied = 2 ^ 2
flag b8g8r8a8 = 2 ^ 3
flag a8r8g8b8 = 2 ^ 4
flag r8g8b8a8 = 2 ^ 5
flag a8b8g8r8 = 2 ^ 6
flag r8g8b8 = 2 ^ 7
flag b8g8r8 = 2 ^ 8
flag r16g16b16 = 2 ^ 9
flag r16g16b16a16_premultiplied = 2 ^ 10
flag r16g16b16a16 = 2 ^ 11
flag r16g16b16_float = 2 ^ 12
flag r16g16b16a16_float = 2 ^ 13
flag r32g32b32_float = 2 ^ 14
flag r32g32b32a32_float_premultiplied = 2 ^ 15
flag r32g32b32a32_float = 2 ^ 16
flag g8a8_premultiplied = 2 ^ 17
flag g8a8 = 2 ^ 18
flag g8 = 2 ^ 19
flag g16a16_premultiplied = 2 ^ 20
flag g16a16 = 2 ^ 21
flag g16 = 2 ^ 22

-- `MemoryFormatSelection::X`.
unfoldable pub pairs : List (ℕ × MemoryFormat)
unfolding flag
pairs =
    (flag b8g8r8a8_premultiplied, b8g8r8a8_premultiplied)
    ∷ (flag a8r8g8b8_premultiplied, a8r8g8b8_premultiplied)
    ∷ (flag r8g8b8a8_premultiplied, r8g8b8a8_premultiplied)
    ∷ (flag b8g8r8a8, b8g8r8a8)
    ∷ (flag a8r8g8b8, a8r8g8b8)
    ∷ (flag r8g8b8a8, r8g8b8a8)
    ∷ (flag a8b8g8r8, a8b8g8r8)
    ∷ (flag r8g8b8, r8g8b8)
    ∷ (flag b8g8r8, b8g8r8)
    ∷ (flag r16g16b16, r16g16b16)
    ∷ (flag r16g16b16a16_premultiplied, r16g16b16a16_premultiplied)
    ∷ (flag r16g16b16a16, r16g16b16a16)
    ∷ (flag r16g16b16_float, r16g16b16_float)
    ∷ (flag r16g16b16a16_float, r16g16b16a16_float)
    ∷ (flag r32g32b32_float, r32g32b32_float)
    ∷ (flag r32g32b32a32_float_premultiplied, r32g32b32a32_float_premultiplied)
    ∷ (flag r32g32b32a32_float, r32g32b32a32_float)
    ∷ (flag g8a8_premultiplied, g8a8_premultiplied)
    ∷ (flag g8a8, g8a8)
    ∷ (flag g8, g8)
    ∷ (flag g16a16_premultiplied, g16a16_premultiplied)
    ∷ (flag g16a16, g16a16)
    ∷ (flag g16, g16)
    ∷ []

-- `selection.contains(flag)`.
abbrev pub Selection : Type 0
Selection = ℕ → Bool

unfoldable pub push_contained : Selection → List (ℕ × MemoryFormat) → List MemoryFormat
push_contained contains [] = []
push_contained contains ((selection, format) ∷ rest) =
    let vec = push_contained contains rest in if contains selection then format ∷ vec else vec

unfoldable pub memory_formats : Selection → List MemoryFormat
unfolding push_contained pairs
memory_formats contains = push_contained contains pairs

-- The key by which formats are ranked. `channels` and `type_size` stand for the negated numbers of
-- the code, so a smaller number ranks higher.
pub record Key : Type 0 where
  pub same_alpha : Bool
  pub enough_channels : Bool
  pub same_channel_type : Bool
  pub large_enough : Bool
  pub channels : ℕ
  pub type_size : ℕ

unfoldable pub same_bool : Bool → Bool → Bool
same_bool true y = y
same_bool false y = not y

unfoldable pub key_for : MemoryFormat → MemoryFormat → Key
unfolding same_bool
key_for src x = record {
  same_alpha = same_bool (has_alpha x) (has_alpha src);
  enough_channels = leb (n_channels src) (n_channels x);
  same_channel_type = same_type (channel_type x) (channel_type src);
  large_enough = leb (size (channel_type src)) (size (channel_type x));
  channels = n_channels x;
  type_size = size (channel_type x);
}

-- The order of tuples: the first entry that differs decides, and `false` is below `true`.
unfoldable pub bool_then : Bool → Bool → Bool → Bool
bool_then false true rest = true
bool_then true false rest = false
bool_then x y rest = rest

unfoldable pub lt_key : Key → Key → Bool
unfolding bool_then
lt_key j k = bool_then j.same_alpha k.same_alpha (
    bool_then j.enough_channels k.enough_channels (
      bool_then j.same_channel_type k.same_channel_type (
        bool_then j.large_enough k.large_enough
          (ltb k.channels j.channels || k.channels == j.channels && ltb k.type_size j.type_size))))

unfoldable pub same_format : MemoryFormat → MemoryFormat → Bool
unfolding flag
same_format x y = flag x == flag y

unfoldable pub contains_format : List MemoryFormat → MemoryFormat → Bool
contains_format [] src = false
contains_format (x ∷ xs) src = same_format x src || contains_format xs src

unfoldable pub best_format_for : Selection → MemoryFormat → Option MemoryFormat
unfolding memory_formats contains_format same_format lt_key key_for
best_format_for contains src =
    if contains_format (memory_formats contains) src
    then some src
    else last? (sort_by (λ x y. lt_key (key_for src x) (key_for src y)) (memory_formats contains))
