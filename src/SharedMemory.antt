-- ===== src/SharedMemory.antt =====
-- `glycin-common/src/shared_memory.rs`: memory that is shared by a file descriptor, as its bytes. What
-- the system makes of a request for a file of some size and its mapping is a parameter: nothing, an
-- error of the mapping, or a panic.
use glycin.Base.{ℕ, ltb, if◌then◌else◌, List, length, replicate, Outcome, ok, ◌>>=◌, ◌>>◌, i64_mod}
use glycin.Errors.{Cause}

module _ (map : ℕ → Outcome Cause (Unit {0})) where
  -- `SharedMemory::new`. The size of a file is an `i64`, and new bytes are zero.
  unfoldable pub new : ℕ → Outcome Cause (List ℕ)
  new size = if ltb size i64_mod then (map size >> ok (replicate size 0)) else Outcome.panic

  -- `BinaryData::from_data`: the copy has the length of the data.
  unfoldable pub from_data : List ℕ → Outcome Cause (List ℕ)
  unfolding new
  from_data value = new (length value) >>= (λ _. ok value)
