-- ===== src/Playback/Queue.antt =====
-- What the calls on a session do to its queue.
pub mod Steps
use smusic.Prelude.Int.{ℤ}
use smusic.Prelude.{String, ◌≡◌, true, false, some, List, [], ◌∷◌, ◌++◌, str_eq}
use smusic.Effect.{Env, pure, ◌>>=◌}
use smusic.Playback.Domain.{SessionState, Stored, World, Playback}
use smusic.Playback.Service
use smusic.Playback.Service.{Deps}

-- A call that changes a session.
pub data Control : Type 0 where
  pauses skips : Control
  plays : String → ℤ → Control
  seeks : ℤ → Control
  enqueues : List String → String → Control

abbrev pub rest_of : List String → List String
rest_of [] = []
rest_of (x ∷ xs) = xs

-- The queue is a list: `next` takes its first track away, `enqueue` puts its tracks in front for the
-- position "next", behind for any other.
abbrev pub queue_after : Control → List String → List String
queue_after pauses queue = queue
queue_after skips queue = rest_of queue
queue_after (plays track_id position_ms) queue = queue
queue_after (seeks position_ms) queue = queue
queue_after (enqueues track_ids position) queue = elim (str_eq position "next") [
  | true ↦ track_ids ++ queue
  | false ↦ queue ++ track_ids
]

module _ (env : Env) (deps : Deps) where
  unfoldable pub perform : String → String → Control → Playback Unit
  perform id user_id pauses = Service.pause env deps id user_id >>= λ _. pure tt
  perform id user_id skips = Service.next env deps id user_id >>= λ _. pure tt
  perform id user_id (plays track_id position_ms) =
      Service.play env deps id user_id track_id position_ms >>= λ _. pure tt
  perform id user_id (seeks position_ms) =
      Service.seek env deps id user_id position_ms >>= λ _. pure tt
  perform id user_id (enqueues track_ids position) =
      Service.enqueue env deps id user_id track_ids position >>= λ _. pure tt

-- The session is stored like this; it is stored with this queue, for the same user.
abbrev pub Stays : String → Stored → World → Type 0
Stays id k w = w.sessions id ≡ some k

abbrev pub HasQueue : String → Stored → List String → World → Type 0
HasQueue id k queue w =
    (k' : Stored) × (w.sessions id ≡ some k')
    × (k'.state.queue ≡ queue)
    × (k'.state.user_id ≡ k.state.user_id)
