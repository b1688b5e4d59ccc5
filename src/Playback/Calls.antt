-- ===== src/Playback/Calls.antt =====
-- The calls that backend/internal/playback/api/handlers.go makes on the service, in any order, each
-- from the state that the one before left. The requester is the user of the access token.
use smusic.Prelude.{String, List, [], ◌∷◌}
use smusic.Prelude.Int.{ℤ}
use smusic.Effect.{Env, State, pure, ◌>>=◌, state_of}
use smusic.Playback.Domain.{World, Playback}
use smusic.Playback.Service
use smusic.Playback.Service.{Deps}

pub data Call : Type 0 where
  creates_session : String → Call
  gets_state pauses skips : String → Call
  plays : String → String → ℤ → Call
  seeks : String → ℤ → Call
  enqueues : String → List String → String → Call

-- A call with the user who makes it.
pub record Request : Type 0 where
  pub user_id : String
  pub call : Call

abbrev pub ignore : {A : Type 0} → Playback A → Playback Unit
ignore m = m >>= λ _. pure tt

module _ (env : Env) (deps : Deps) where
  unfoldable pub serve : String → Call → Playback Unit
  serve user_id (creates_session device_id) =
      ignore (Service.create_session env deps user_id device_id)
  serve user_id (gets_state id) = ignore (Service.get_state env deps id user_id)
  serve user_id (pauses id) = ignore (Service.pause env deps id user_id)
  serve user_id (skips id) = ignore (Service.next env deps id user_id)
  serve user_id (plays id track_id position_ms) =
      ignore (Service.play env deps id user_id track_id position_ms)
  serve user_id (seeks id position_ms) = ignore (Service.seek env deps id user_id position_ms)
  serve user_id (enqueues id track_ids position) =
      ignore (Service.enqueue env deps id user_id track_ids position)

  unfoldable pub run : State World → List Request → State World
  run s [] = s
  run s (r ∷ rs) = run (state_of (serve r.user_id r.call s)) rs
