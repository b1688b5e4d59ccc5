-- ===== src/Library/Calls.antt =====
-- The calls that backend/internal/library/api/handlers.go makes on the service, in any order, each
-- from the state that the one before left. The requester is the user of the access token.
use smusic.Prelude.{String, List, [], ◌∷◌}
use smusic.Prelude.Int.{ℤ}
use smusic.Effect.{Env, State, pure, ◌>>=◌, state_of}
use smusic.Library.Domain.{CreatePlaylistInput, Deps, World, Library}
use smusic.Library.Service

pub data Call : Type 0 where
  creates_playlist : CreatePlaylistInput → Call
  lists_playlists : Call
  lists_tracks : String → Call
  adds_track : String → String → String → Call
  removes_track : String → String → Call
  saves_track unsaves_track : String → Call
  lists_saved : String → ℤ → Call

-- A call with the user who makes it.
pub record Request : Type 0 where
  pub user_id : String
  pub call : Call

abbrev pub ignore : {A : Type 0} → Library A → Library Unit
ignore m = m >>= λ _. pure tt

module _ (env : Env) (deps : Deps) where
  unfoldable pub serve_call : String → Call → Library Unit
  serve_call user_id (creates_playlist in_) =
      ignore (Service.create_playlist env deps (record in_ { owner_id = user_id }))
  serve_call user_id lists_playlists = ignore (Service.list_playlists env deps user_id)
  serve_call user_id (lists_tracks playlist_id) =
      ignore (Service.list_playlist_tracks env deps playlist_id user_id)
  serve_call user_id (adds_track playlist_id track_id position) =
      ignore (Service.add_track env deps playlist_id user_id track_id position)
  serve_call user_id (removes_track playlist_id track_id) =
      Service.remove_track env deps playlist_id user_id track_id
  serve_call user_id (saves_track track_id) = Service.save_track env deps user_id track_id
  serve_call user_id (unsaves_track track_id) = Service.unsave_track env deps user_id track_id
  serve_call user_id (lists_saved cursor limit) =
      ignore (Service.list_saved_tracks env deps user_id cursor limit)

  unfoldable pub run : State World → List Request → State World
  run s [] = s
  run s (r ∷ rs) = run (state_of (serve_call r.user_id r.call s)) rs
