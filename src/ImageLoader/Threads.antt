-- ===== src/ImageLoader/Threads.antt =====
-- The threads of an animation in `glycin-loaders/glycin-image-rs/src/main.rs`: the requests, which unpark
-- the decoding thread and wait for its channel, and that thread, which parks between frames. A park
-- may also end for no reason.
pub mod InOrder
pub mod Answers
pub mod Loader
use package.glycin.Base.{
  ℕ, zero, suc, ◌≡◌, Bool, true, false, List, [], ◌∷◌, ◌++◌, Option, some, none,
}

-- Where the decoding thread is. `R` are the places where it parks.
pub data Thread (R : Type 0) : Type 0 where
  parked : R → Thread R
  running : R → Thread R
  ended : Thread R

-- The token is what `unpark` leaves for the next `park`.
pub record System (R M : Type 0) : Type 0 where
  pub thread : Thread R
  pub token : Bool
  pub channel : List M
  pub waiting : Bool
  pub received : List M

module _ {R M : Type 0} (turn : R → Option (M × Option R)) where
  -- Where a thread parks after a turn.
  abbrev pub parks : Option R → Thread R
  parks none = ended
  parks (some r) = parked r

  -- A thread that panics sends nothing.
  unfoldable pub after_turn : System R M → Option (M × Option R) → System R M
  after_turn s none = record s { thread = ended }
  after_turn s (some (m, later)) = record s {
    thread = parks later;
    channel = s.channel ++ (m ∷ []);
  }

  pub data Step (s : System R M) : System R M → Type 0 where
    -- `thread.unpark()`, and the beginning of `recv`.
    request : s.waiting ≡ false → Step s (record s { waiting = true; token = true })
    -- `recv` returns a message, or finds that the thread has ended.
    receive :
        (m : M) (ms : List M)
        → s.waiting ≡ true
        → s.channel ≡ m ∷ ms
        → Step s (record s { waiting = false; channel = ms; received = s.received ++ (m ∷ []) })
    disconnected :
        s.waiting ≡ true → s.channel ≡ [] → s.thread ≡ ended → Step s (record s { waiting = false })
    -- `park` returns.
    unparked :
        (r : R)
        → s.thread ≡ parked r
        → s.token ≡ true
        → Step s (record s { thread = running r; token = false })
    spurious : (r : R) → s.thread ≡ parked r → Step s (record s { thread = running r })
    -- The thread decodes and sends, and parks or ends.
    takes_turn : (r : R) → s.thread ≡ running r → Step s (after_turn s (turn r))

  pub data Steps (s : System R M) : ℕ → System R M → Type 0 where
    here : Steps s 0 s
    step : {n : ℕ} {t u : System R M} → Steps s n t → Step t u → Steps s (suc n) u

  -- A thread parks before its first turn.
  abbrev pub spawned : R → System R M
  spawned r = record {
    thread = parked r;
    token = false;
    channel = [];
    waiting = false;
    received = [];
  }

  -- Where the thread goes on after `k` turns in sequence, and what it sends in the next.
  abbrev pub resumed : Option (M × Option R) → Option R
  resumed none = none
  resumed (some (m, later)) = later

  abbrev pub message_of : Option (M × Option R) → Option M
  message_of none = none
  message_of (some (m, later)) = some m

  abbrev pub and_then {ℓ} : {A : Type ℓ} → (R → Option A) → Option R → Option A
  and_then f none = none
  and_then f (some r) = f r

  unfoldable pub after : R → ℕ → Option R
  after r zero = some r
  after r (suc k) = and_then (λ r. resumed (turn r)) (after r k)

  unfoldable pub message : R → ℕ → Option M
  unfolding after
  message r k = and_then (λ r. message_of (turn r)) (after r k)
