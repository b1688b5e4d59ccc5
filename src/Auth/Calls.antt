-- ===== src/Auth/Calls.antt =====
-- The calls that backend/internal/auth/handlers.go makes on the service, in any order. A call that
-- fails is answered with an error, and the next one starts from the state that it left.
use smusic.Prelude.{String, Option, List, [], ◌∷◌}
use smusic.Effect.{Env, State, pure, ◌>>=◌, state_of}
use smusic.Auth.Domain.{SignUpInput, LoginInput, DeviceInput, Deps, World, Auth}
use smusic.Auth.Service

pub data Call : Type 0 where
  signs_up : SignUpInput → Call
  logs_in : LoginInput → Call
  logs_in_with_oauth : String → String → String → Option DeviceInput → Call
  refreshes : String → Call
  logs_out : String → Call
  logs_out_everywhere : String → Call
  asks_role : String → String → Call
  asks_me : String → Call

abbrev pub ignore : {A : Type 0} → Auth A → Auth Unit
ignore m = m >>= λ _. pure tt

module _ (env : Env) (deps : Deps) where
  unfoldable pub serve : Call → Auth Unit
  serve (signs_up in_) = ignore (Service.sign_up env deps in_)
  serve (logs_in in_) = ignore (Service.login env deps in_)
  serve (logs_in_with_oauth provider token name device) =
      ignore (Service.login_with_oauth env deps provider token name device)
  serve (refreshes plaintext) = ignore (Service.refresh env deps plaintext)
  serve (logs_out plaintext) = Service.logout env deps plaintext
  serve (logs_out_everywhere user_id) = Service.logout_all env deps user_id
  serve (asks_role user_id role) = ignore (Service.has_role env deps user_id role)
  serve (asks_me user_id) = ignore (Service.me env deps user_id)

  unfoldable pub run : State World → List Call → State World
  run s [] = s
  run s (c ∷ cs) = run (state_of (serve c s)) cs
