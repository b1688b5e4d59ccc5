-- ===== src/Catalog/Calls.antt =====
-- The calls that backend/internal/catalog/api/handlers.go makes on the service, in any order, each
-- from the state that the one before left.
use smusic.Prelude.{String, List, [], ◌∷◌}
use smusic.Effect.{Env, State, pure, ◌>>=◌, state_of}
use smusic.Catalog.Domain.{
  CreateArtistInput, CreateAlbumInput, CreateTrackInput, SearchInput, Deps, World, Catalog,
}
use smusic.Catalog.Service

pub data Call : Type 0 where
  creates_artist : CreateArtistInput → Call
  creates_album : CreateAlbumInput → Call
  creates_track : CreateTrackInput → Call
  gets_artist gets_album gets_track asks_track : String → Call
  searches : SearchInput → Call

abbrev pub ignore : {A : Type 0} → Catalog A → Catalog Unit
ignore m = m >>= λ _. pure tt

module _ (env : Env) (deps : Deps) where
  unfoldable pub serve : Call → Catalog Unit
  serve (creates_artist in_) = ignore (Service.create_artist env deps in_)
  serve (creates_album in_) = ignore (Service.create_album env deps in_)
  serve (creates_track in_) = ignore (Service.create_track env deps in_)
  serve (gets_artist id) = ignore (Service.get_artist env deps id)
  serve (gets_album id) = ignore (Service.get_album env deps id)
  serve (gets_track id) = ignore (Service.get_track env deps id)
  serve (asks_track id) = ignore (Service.track_exists env deps id)
  serve (searches in_) = ignore (Service.search env deps in_)

  unfoldable pub run : State World → List Call → State World
  run s [] = s
  run s (c ∷ cs) = run (state_of (serve c s)) cs
