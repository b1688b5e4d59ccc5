-- ===== src/Catalog/Validity/Calls.antt =====
-- The tables of the catalog after any sequence of calls.
use smusic.Prelude.{List}
use smusic.Effect.{Env, State}
use smusic.Catalog.Domain.{World, Deps}
use smusic.Catalog.Calls.{Call, run}
use smusic.Catalog.Frame.{Writes, run-Kept}
use smusic.Catalog.Validity.{IsValid}
use smusic.Catalog.Validity.Steps.{create_artist-Keeps, create_album-Keeps, create_track-Keeps}

module _ (env : Env) (deps : Deps) where
  -- From tables that are valid, any sequence of calls, failing or not, leaves tables that are valid:
  -- names and titles are not empty, an album has an allowed type, a track a positive length below
  -- 2^31 ms and at least one credit, a credit an allowed role, every artist, album or track that a
  -- row refers to is there, and no two artists, albums or tracks have the same id.
  pub run-IsValid :
      (s : State World) (calls : List Call) → IsValid s.world → IsValid (run env deps s calls).world
  run-IsValid s calls h = run-Kept env deps IsValid kept s calls h
    where
      kept : Writes env IsValid
      kept = record {
        artist = create_artist-Keeps env;
        album = create_album-Keeps env;
        track = create_track-Keeps env;
      }
