-- ===== src/ImageLoader/Worker/Cycles.antt =====
-- The messages of an animation: its frames, over and over.
use Prim.Native.String.{String}
use glycin.Base.{
  ℕ, zero, suc, ◌+◌, ◌*◌, ◌<◌, ◌≤◌, ◌≡◌, ◌≢◌, ◌⊎◌, inl, inr, refl, sym, ap, ◌∙◌, arith, Bool, true,
  false, ltb, List, [], ◌∷◌, length, drop, get_or, Option, some, none, Outcome, ok, err, row_inj,
  lt→ltb,
}
use glycin.Errors.{ProcessError, Cause}
use glycin.Frame.{Frame, FrameDetails}
use glycin.ImageRs.{frame_details}
use glycin.ImageLoader.{
  Codecs, ImageFrame, ImageRsFormat, create, into_frames, with_transparent_background,
}
use glycin.ImageLoader.Worker.{
  Message, sent, failed, Resume, replay, next, animated_get_frame, Turn, send, first_turn,
  frames_turn, details_turn, format_turn, replay_turn, animated_worker,
}
use glycin.ImageLoader.Threads.{after, message, message_of, resumed}

drop_lem {ℓ} :
    {A : Type ℓ} (xs : List A) (i : ℕ) (d : A)
    → i < length xs
    → drop i xs ≡ get_or xs i d ∷ drop (suc i) xs
drop_lem [] i d h = absurd (omega arith)
drop_lem (x ∷ xs) zero d h = refl
drop_lem (x ∷ xs) (suc i) d h = drop_lem xs i d (omega arith)

drop_all {ℓ} : {A : Type ℓ} (xs : List A) → drop (length xs) xs ≡ []
drop_all [] = refl
drop_all (x ∷ xs) = drop_all xs

-- What is sent of a frame that decodes or fails; nothing, if it panics.
unfoldable pub reply : Bool → Outcome ProcessError (Frame FrameDetails × List ℕ) → Option Message
reply looped (ok frame) = some (sent frame looped)
reply looped (err e) = some (failed e)
reply looped Outcome.panic = none

module _ (codecs : Codecs) (to_string : ProcessError → String) (map : ℕ → Outcome Cause (Unit {0}))
    (micros : ℕ → ℕ → ℕ) (file : List ℕ) (mime_type : String)
    (frames : List (Outcome Cause ImageFrame)) where
  -- The frame at an index, as it is sent.
  unfoldable pub nth_frame : ℕ → Outcome ProcessError (Frame FrameDetails × List ℕ)
  unfolding animated_get_frame
  nth_frame i =
      animated_get_frame codecs to_string map micros i (get_or frames i Outcome.panic) none true

  -- A decoder of the file, which has these frames.
  pub record HasFrames (format : ImageRsFormat codecs.Codec) : Type 0 where
    pub details : FrameDetails
    pub has_details :
        frame_details to_string map
          (with_transparent_background codecs to_string format).handler
          (codecs.answers (with_transparent_background codecs to_string format).codec)
        ≡ ok details
    pub has_frames :
        into_frames codecs to_string (with_transparent_background codecs to_string format)
        ≡ ok (some frames)

  -- There are at least two frames, the first decoder and a new one have them, and none panics.
  pub record IsAnimation (format : ImageRsFormat codecs.Codec) : Type 0 where
    pub many : 2 ≤ length frames
    pub first : HasFrames format
    pub again : ImageRsFormat codecs.Codec
    pub is_created : create codecs to_string file mime_type ≡ ok again
    pub later : HasFrames again
    pub settled : (i : ℕ) → i < length frames → nth_frame i ≢ Outcome.panic

  abbrev pub turn : Resume codecs.Codec → Turn codecs to_string map micros
  turn = animated_worker codecs to_string map micros file mime_type

  first_turn_lem :
      (looped : Bool) (details : FrameDetails)
      → 2 ≤ length frames
      → first_turn codecs to_string map micros looped details frames
        ≡ send codecs to_string map micros looped true 0 (drop 1 frames) (nth_frame 0)
  unfolding first_turn nth_frame
  first_turn_lem looped details h = by_frames frames h
    where
      by_frames :
          (fs : List (Outcome Cause ImageFrame))
          → 2 ≤ length fs
          → first_turn codecs to_string map micros looped details fs
            ≡ send codecs to_string map micros looped true 0 (drop 1 fs) (
                animated_get_frame codecs to_string map micros 0
                  (get_or fs 0 Outcome.panic)
                  none
                  true)
      by_frames [] h = absurd (omega arith)
      by_frames (f ∷ []) h = absurd (omega arith)
      by_frames (f ∷ g ∷ fs) h = refl

  at_frame :
      (looped : Bool) (i : ℕ)
      → i < length frames
      → turn (next looped i (drop i frames))
        ≡ send codecs to_string map micros looped true i (drop (suc i) frames) (nth_frame i)
  unfolding animated_worker nth_frame
  at_frame looped i h = rw (drop_lem frames i Outcome.panic h) refl

  format_turn_lem :
      (looped : Bool) (format : ImageRsFormat codecs.Codec)
      → 2 ≤ length frames
      → HasFrames format
      → format_turn codecs to_string map micros looped
          (with_transparent_background codecs to_string format)
        ≡ send codecs to_string map micros looped true 0 (drop 1 frames) (nth_frame 0)
  unfolding format_turn details_turn frames_turn
  format_turn_lem looped format many h =
      rw (h.has_details, h.has_frames) (first_turn_lem looped h.details many)

  send_lem :
      (looped : Bool) (n : ℕ) (rest : List (Outcome Cause ImageFrame))
      (decoded : Outcome ProcessError (Frame FrameDetails × List ℕ))
      → decoded ≢ Outcome.panic
      → (resumed turn (send codecs to_string map micros looped true n rest decoded)
          ≡ some (next looped (suc n) rest))
        × (message_of turn (send codecs to_string map micros looped true n rest decoded)
            ≡ reply looped decoded)
  unfolding send reply
  send_lem looped n rest (ok frame) h = (refl, refl)
  send_lem looped n rest (err e) h = (refl, refl)
  send_lem looped n rest Outcome.panic h = absurd (h refl)

  module _ (format : ImageRsFormat codecs.Codec) (h : IsAnimation format) where
    abbrev pub start : Resume codecs.Codec
    start = replay false (some format)

    -- Before message `k`, the thread is at a frame of some pass over the frames.
    record Position (k : ℕ) (r : Resume codecs.Codec) : Type 0 where
      pass : ℕ
      i : ℕ
      index : k ≡ pass * length frames + i
      inside : i < length frames
      same : turn r ≡ turn (next (ltb 0 pass) i (drop i frames))

    from_beginning :
        (looped : Bool)
        → replay_turn codecs to_string map micros file mime_type looped none
          ≡ turn (next looped 0 (drop 0 frames))
    unfolding replay_turn
    from_beginning looped =
        rw h.is_created (format_turn_lem looped h.again h.many h.later)
        ∙ sym (at_frame looped 0 (let q = h.many in omega arith))

    start-Position : Position 0 start
    unfolding animated_worker replay_turn
    start-Position = record {
      pass = 0;
      i = 0;
      index = omega arith;
      inside = let q = h.many in omega arith;
      same =
          format_turn_lem false format h.many h.first
          ∙ sym (at_frame false 0 (let q = h.many in omega arith));
    }

    next-Position :
        (k pass i : ℕ)
        → k ≡ pass * length frames + i
        → i < length frames
        → Position (suc k) (next (ltb 0 pass) (suc i) (drop (suc i) frames))
    unfolding animated_worker
    next-Position k pass i e inside = elim (more) [
      | inl before ↦ record {
        pass = pass;
        i = suc i;
        index = omega arith;
        inside = before;
        same = refl;
      }
      | inr last ↦ record {
        pass = suc pass;
        i = 0;
        index = grind arith;
        inside = omega arith;
        same =
            ap (λ (fs : List (Outcome Cause ImageFrame)). turn (next (ltb 0 pass) (suc i) fs))
              (ap (λ (n : ℕ). drop n frames) last ∙ drop_all frames)
            ∙ from_beginning true
            ∙ ap (λ (b : Bool). turn (next b 0 frames)) (sym (lt→ltb 0 (suc pass) (omega arith)));
      }
    ]
      where
        more : (suc i < length frames) ⊎ (suc i ≡ length frames)
        more = omega arith

    step-Position :
        (k : ℕ) (r : Resume codecs.Codec)
        → Position k r
        → (r' : Resume codecs.Codec) × (resumed turn (turn r) ≡ some r') × Position (suc k) r'
    step-Position k r p = (
      _,
      rw (p.same, at_frame (ltb 0 p.pass) p.i p.inside)
          (send_lem (ltb 0 p.pass) p.i _ (nth_frame p.i) (h.settled p.i p.inside)).0,
      next-Position k p.pass p.i p.index p.inside,
    )

    positions : (k : ℕ) → (r : Resume codecs.Codec) × (after turn start k ≡ some r) × Position k r
    unfolding after
    positions zero = (start, refl, start-Position)
    positions (suc k) =
        let (r, e, p) = positions k in let (r', e', p') = step-Position k r p in (r', rw e e', p')

    reached_at :
        (k : ℕ) (r : Resume codecs.Codec)
        → after turn start k ≡ some r
        → (p : Position k r) → message turn start k ≡ reply (ltb 0 p.pass) (nth_frame p.i)
    unfolding message
    reached_at k r e p =
        rw (e, p.same, at_frame (ltb 0 p.pass) p.i p.inside)
          (send_lem (ltb 0 p.pass) p.i _ (nth_frame p.i) (h.settled p.i p.inside)).1

    -- For an animation, the message with the index `pass * n + i`, where `n` is the number of frames and `i`
    -- below it, is frame `i`, marked as looped exactly from the second pass on. The thread never ends.
    pub animated_worker-cycles :
        (pass i : ℕ)
        → i < length frames
        → message turn start (pass * length frames + i) ≡ reply (ltb 0 pass) (nth_frame i)
    animated_worker-cycles pass i inside =
        let (r, e, p) = positions (pass * length frames + i) in
        let (same_pass, same_i) =
          row_inj (length frames) pass i p.pass p.i inside p.inside p.index in
        reached_at (pass * length frames + i) r e p
        ∙ ap (λ (q : ℕ). reply (ltb 0 q) (nth_frame p.i)) (sym same_pass)
        ∙ ap (λ (j : ℕ). reply (ltb 0 pass) (nth_frame j)) (sym same_i)
