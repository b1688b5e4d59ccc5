-- ===== src/Catalog/Whole/Served.antt =====
-- The calls of backend/internal/catalog/service.go, with their errors.
use smusic.Prelude.{String, ◌≡◌, refl, sym, ℕ}
use smusic.Effect.{Env, State, Outcome, ok, err}
use smusic.Effect.Keeps.{Keeps, Any, Keeps-guard, Keeps-now, Keeps-new_id}
use smusic.Effect.Leads.{Leads, Leads-bind, Leads-imp, Leads-Keeps, Leads-catch}
use smusic.Catalog.Domain.{
  CreateArtistInput, CreateAlbumInput, CreateTrackInput, World, Deps, Catalog, Error,
}
use smusic.Catalog.Repo
use smusic.Catalog.Service
use smusic.Catalog.Calls.{
  Call, serve, ignore, creates_artist, creates_album, creates_track, gets_artist, gets_album,
  gets_track, asks_track, searches,
}
use smusic.Catalog.Frame.{
  get_artist-Kept, get_album-Kept, get_track-Kept, track_exists-Kept, search-Kept, check_album-Kept,
  check_primary_artist-Kept,
}
use smusic.Catalog.Failure.{serve-world}
use smusic.Catalog.Whole.{HasArtist, HasAlbum, HasTrack, Whole}
use smusic.Catalog.Whole.Statements.{
  reads, written, insert-Exactly, insert_credits-Exactly, insert_assets-Exactly, transaction-Leads,
}

module _ (env : Env) (deps : Deps) (w0 : World) where
  -- A call up to here has only read.
  abbrev Untouched : World → Type 0
  Untouched w = w0 ≡ w

  statements-HasTrack :
      (in_ : CreateTrackInput) (id : String) (time : ℕ)
      → Leads Untouched (HasTrack deps in_ w0) (
          Repo.create_track env
            (record {
              id = id;
              title = deps.trim_space in_.title;
              album_id = in_.album_id;
              duration_ms = in_.duration_ms;
              track_number = in_.track_number;
              isrc = in_.isrc;
              explicit = in_.explicit;
              artists = in_.artists;
              created_at = time;
              updated_at = time;
            })
            in_.assets)
  unfolding Repo.create_track Repo.insert_track
  statements-HasTrack in_ id time = transaction-Leads env _ (
      Leads-bind _ _ (insert-Exactly env w0 _ _) λ _.
        Leads-bind _ _
          (Leads-imp _ (λ w e. sym e) (λ w e. sym e) (insert_credits-Exactly env id in_.artists _))
          λ _.
            Leads-imp _ (λ w e. e) (λ w h. (id, time, h.0, h.1, h.2))
              (insert_assets-Exactly env id in_.assets _))

  create_track-HasTrack :
      (in_ : CreateTrackInput)
      → Leads Untouched (HasTrack deps in_ w0) (Service.create_track env deps in_)
  unfolding Service.create_track
  create_track-HasTrack in_ = reads (Keeps-guard _ _) λ _. reads (Keeps-guard _ _) λ _.
      reads (Keeps-guard _ _) λ _. reads (Keeps-guard _ _) λ _.
        reads (check_album-Kept env deps _ _) λ _. reads (Keeps-now env) λ time.
          reads (Keeps-new_id env)
            λ id. written _ (Leads-catch _ _ (statements-HasTrack in_ id time))

  create_artist-HasArtist :
      (in_ : CreateArtistInput)
      → Leads Untouched (HasArtist deps in_ w0) (Service.create_artist env deps in_)
  unfolding Service.create_artist Repo.create_artist
  create_artist-HasArtist in_ = reads (Keeps-guard _ _) λ _. reads (Keeps-now env) λ time.
      reads (Keeps-new_id env) λ id. written _ (
        Leads-catch _ _ (Leads-imp _ (λ w e. e) (λ w e. (id, time, e)) (insert-Exactly env w0 _ _)))

  create_album-HasAlbum :
      (in_ : CreateAlbumInput)
      → Leads Untouched (HasAlbum deps in_ w0) (Service.create_album env deps in_)
  unfolding Service.create_album Repo.create_album
  create_album-HasAlbum in_ = reads (Keeps-guard _ _) λ _. reads (Keeps-guard _ _) λ _.
      reads (check_primary_artist-Kept env deps _ _) λ _. reads (Keeps-now env) λ time.
        reads (Keeps-new_id env) λ id. written _ (
          Leads-catch _ _
            (Leads-imp _ (λ w e. e) (λ w e. (id, time, e)) (insert-Exactly env w0 _ _)))

-- A call, whatever happens in it: after an error, at any statement, the tables are as they were;
-- after a success the creation of an artist or an album has added its row, with the given values, to
-- its table and nothing else, that of a track has added its row with the given values, all the given
-- credits and all the given assets, in order, with whatever ids the database drew for the assets, and
-- nothing else; a read has changed nothing.
pub serve-Whole :
    (env : Env) (deps : Deps) (c : Call) (s : State World)
    → Whole deps c s.world (serve env deps c s)
unfolding serve
serve-Whole env deps c s = ended c (serve env deps c s) refl
  where
    Result : Call → Outcome World Error Unit → Type 0
    Result c o = Whole deps c s.world o

    finished :
        {A : Type 0} {Q : World → Type 0} (m : Catalog A) (u : Unit) (t : State World)
        → Leads (λ w. s.world ≡ w) Q m
        → ignore m s ≡ ok u t
        → Q t.world
    finished m u t l h = (written _ l).at s t u refl h

    unchanged :
        {A : Type 0} (m : Catalog A) (u : Unit) (t : State World)
        → Keeps (λ w. s.world ≡ w) Any m
        → ignore m s ≡ ok u t
        → s.world ≡ t.world
    unchanged m u t k h = finished m u t (Leads-Keeps _ k) h

    ended : (c : Call) (o : Outcome World Error Unit) → serve env deps c s ≡ o → Result c o
    ended c (err e t) h = serve-world env deps c s t e h
    ended (creates_artist in_) (ok u t) h =
        finished _ u t (create_artist-HasArtist env deps s.world in_) h
    ended (creates_album in_) (ok u t) h =
        finished _ u t (create_album-HasAlbum env deps s.world in_) h
    ended (creates_track in_) (ok u t) h =
        finished _ u t (create_track-HasTrack env deps s.world in_) h
    ended (gets_artist id) (ok u t) h = unchanged _ u t (get_artist-Kept env deps _ id) h
    ended (gets_album id) (ok u t) h = unchanged _ u t (get_album-Kept env deps _ id) h
    ended (gets_track id) (ok u t) h = unchanged _ u t (get_track-Kept env deps _ id) h
    ended (asks_track id) (ok u t) h = unchanged _ u t (track_exists-Kept env deps _ id) h
    ended (searches in_) (ok u t) h = unchanged _ u t (search-Kept env deps _ in_) h
