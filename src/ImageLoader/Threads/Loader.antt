-- ===== src/ImageLoader/Threads/Loader.antt =====
-- The threads of the image-rs loader, and its answers with one turn for each request.
use Prim.Native.String.{String}
use glycin.Base.{
  ℕ, zero, suc, ◌≡◌, refl, sym, ap, subst, ◌∙◌, true, false, List, length, Option, some, none,
  Outcome,
}
use glycin.Errors.{ProcessError, Cause}
use glycin.ImageLoader.{Codecs, ImageRsFormat}
use glycin.ImageLoader.Worker.{Message, Resume, replay, Turn, animated_worker}
use glycin.ImageLoader.Requests.{Animation, turned, turn}
use glycin.ImageLoader.Threads.{
  System, Steps, spawned, after, message, and_then, resumed, message_of,
}
use glycin.ImageLoader.Threads.Answers.{AnswersIn, Steps-AnswersIn}

module _ (codecs : Codecs) (to_string : ProcessError → String) (map : ℕ → Outcome Cause (Unit {0}))
    (micros : ℕ → ℕ → ℕ) (file : List ℕ) (mime_type : String) where
  -- The turns of the thread for a file.
  abbrev pub worker : Resume codecs.Codec → Turn codecs to_string map micros
  worker = animated_worker codecs to_string map micros file mime_type

  -- The loader after `k` requests, each of which has taken one turn.
  abbrev pub rounds : ℕ → Animation codecs.Codec → Animation codecs.Codec
  rounds zero animation = animation
  rounds (suc k) animation = (turn codecs to_string map micros (rounds k animation)).1

  abbrev pub parked_at : Option (Resume codecs.Codec) → Animation codecs.Codec
  parked_at place = record { file = file; mime_type = mime_type; parked = place }

  turned_lem :
      (place : Option (Resume codecs.Codec)) (o : Turn codecs to_string map micros)
      → turned codecs to_string map micros (parked_at place) o
        ≡ (message_of worker o, parked_at (resumed worker o))
  unfolding turned
  turned_lem place none = refl
  turned_lem place (some (m, later)) = refl

  turn_lem :
      (place : Option (Resume codecs.Codec))
      → turn codecs to_string map micros (parked_at place) ≡ (
        and_then worker (λ r. message_of worker (worker r)) place,
        parked_at (and_then worker (λ r. resumed worker (worker r)) place),
      )
  unfolding turn
  turn_lem none = refl
  turn_lem (some r) = turned_lem (some r) (worker r)

  rounds_lem :
      (start : Resume codecs.Codec) (k : ℕ)
      → rounds k (parked_at (some start)) ≡ parked_at (after worker start k)
  unfolding after
  rounds_lem start zero = refl
  rounds_lem start (suc k) =
      ap (λ (a : Animation codecs.Codec). (turn codecs to_string map micros a).1)
        (rounds_lem start k)
      ∙ ap (λ (r : Option Message × Animation codecs.Codec). r.1) (turn_lem (after worker start k))

  message_lem :
      (start : Resume codecs.Codec) (k : ℕ)
      → message worker start k
        ≡ (turn codecs to_string map micros (rounds k (parked_at (some start)))).0
  unfolding message
  message_lem start k = sym (
      ap (λ (a : Animation codecs.Codec). (turn codecs to_string map micros a).0)
        (rounds_lem start k)
      ∙ ap (λ (r : Option Message × Animation codecs.Codec). r.0) (turn_lem (after worker start k)))

  -- In every state that the two threads of an animation come to, with parks that end for no reason or not, a
  -- request that waits is answered: however they go on without further such wake-ups, some step is
  -- possible until the request has been answered, which it is within four steps, by the message
  -- that the loader takes at this request when each takes one turn, or by an error if there is none.
  pub Steps-answers :
      (format : Option (ImageRsFormat codecs.Codec)) (n : ℕ)
      (s : System (Resume codecs.Codec) Message)
      → Steps worker (spawned worker (replay false format)) n s
      → s.waiting ≡ true
      → AnswersIn worker 4 s.received
          (turn codecs to_string map micros
            (rounds (length s.received) (parked_at (some (replay false format))))).0
          s
  Steps-answers format n s steps w =
      subst (λ (o : Option Message). AnswersIn worker 4 s.received o s)
        (message_lem (replay false format) (length s.received))
        (Steps-AnswersIn worker (replay false format) n s steps w)
