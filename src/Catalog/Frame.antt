-- ===== src/Catalog/Frame.antt =====
-- What a call of the catalog service does to the tables is what its one writing method does.
use smusic.Catalog.Domain.{
  invalid_input, track_not_found, album_not_found, artist_not_found, failed, CreateArtistInput,
  CreateAlbumInput, CreateTrackInput, SearchInput, Artist, Album, Track, AudioAsset, World, Deps,
  Catalog, Error, context,
}
use smusic.Catalog.Calls.{
  creates_artist, creates_album, creates_track, gets_artist, gets_album, gets_track, asks_track,
  searches, Call, serve, run, ignore,
}
use smusic.Prelude.{ℕ, Option, String, ◌≡◌, true, not, List, [], ◌∷◌, str_eq}
use smusic.Effect.{or_raise, Env, State, state_of, fetch}
use smusic.Effect.Keeps.{
  Keeps, Any, Post-world, Keeps-fetch, Keeps-done, Keeps-raise, Keeps-then, Keeps-catch,
  Keeps-or_raise, frame_rules, Keeps-guarded,
}
use smusic.Catalog.Repo
use smusic.Catalog.Service
use smusic.Catalog.Service.{is_empty}

module _ (env : Env) (deps : Deps) (P : World → Type 0) where
  context-Kept :
      {A : Type 0} (text : String) (m : Catalog A) → Keeps P Any m → Keeps P Any (context text m)
  context-Kept text m k = Keeps-catch m _ k (λ e. Keeps-raise _)

  read-Kept : {A : Type 0} (e : Error) (f : ℕ → World → A) → Keeps P Any (fetch env e f)
  read-Kept e f = Keeps-fetch env e f (λ t w p. tt)

  found-Kept : {A : Type 0} (e : Error) (o : Option A) → Keeps P Any (or_raise {W = World} e o)
  found-Kept e o = Keeps-or_raise e o (λ a h. tt)

  pub get_artist-Kept : (id : String) → Keeps P Any (Service.get_artist env deps id)
  unfolding Service.get_artist Repo.get_artist
  get_artist-Kept id = search (frame_rules, context-Kept, read-Kept, found-Kept) depth 30

  repo_album-Kept : (id : String) → Keeps P Any (Repo.get_album env id)
  unfolding Repo.get_album
  repo_album-Kept id = search (frame_rules, read-Kept, found-Kept) depth 30

  track_artists-Kept : (id : String) → Keeps P Any (Repo.track_artists env deps id)
  unfolding Repo.track_artists
  track_artists-Kept id = read-Kept _ _

  with_artists-Kept : (ts : List Track) → Keeps P Any (Repo.with_artists env deps ts)
  unfolding Repo.with_artists
  with_artists-Kept [] = Keeps-done _
  with_artists-Kept (t ∷ ts) =
      Keeps-then _ _ (track_artists-Kept t.id)
        (λ artists. Keeps-then _ _ (with_artists-Kept ts) (λ rest. Keeps-done _))

  pub get_album-Kept : (id : String) → Keeps P Any (Service.get_album env deps id)
  unfolding Service.get_album Repo.list_by_album
  get_album-Kept id =
      search (frame_rules, context-Kept, read-Kept, repo_album-Kept, with_artists-Kept) depth 30

  pub get_track-Kept : (id : String) → Keeps P Any (Service.get_track env deps id)
  unfolding Service.get_track Repo.get_track Repo.list_audio_assets
  get_track-Kept id =
      search (frame_rules, context-Kept, read-Kept, found-Kept, track_artists-Kept) depth 30

  absent-Kept : (e : Error) → Keeps P Any (Service.absent env deps e)
  absent-Kept track_not_found = Keeps-done _
  absent-Kept (invalid_input text) = Keeps-done _
  absent-Kept album_not_found = Keeps-raise _
  absent-Kept artist_not_found = Keeps-raise _
  absent-Kept (failed text) = Keeps-raise _

  pub track_exists-Kept : (id : String) → Keeps P Any (Service.track_exists env deps id)
  unfolding Service.track_exists
  track_exists-Kept id = search (frame_rules, get_track-Kept, absent-Kept) depth 30

  pub search-Kept : (in_ : SearchInput) → Keeps P Any (Service.search env deps in_)
  unfolding Service.search Service.found_tracks Service.found_albums Service.found_artists
      Repo.search_tracks Repo.search_albums Repo.search_artists Repo.search_page
  search-Kept in_ = search (frame_rules, context-Kept, read-Kept, found-Kept) depth 40

  missing_artist-Kept : (e : Error) → Keeps P Any (Service.missing_artist env deps e)
  missing_artist-Kept artist_not_found = Keeps-raise _
  missing_artist-Kept (invalid_input text) = Keeps-raise _
  missing_artist-Kept album_not_found = Keeps-raise _
  missing_artist-Kept track_not_found = Keeps-raise _
  missing_artist-Kept (failed text) = Keeps-raise _

  missing_album-Kept : (e : Error) → Keeps P Any (Service.missing_album env deps e)
  missing_album-Kept album_not_found = Keeps-raise _
  missing_album-Kept (invalid_input text) = Keeps-raise _
  missing_album-Kept artist_not_found = Keeps-raise _
  missing_album-Kept track_not_found = Keeps-raise _
  missing_album-Kept (failed text) = Keeps-raise _

  pub check_primary_artist-Kept :
      (id : String) → Keeps P Any (Service.check_primary_artist env deps id)
  unfolding Service.check_primary_artist
  check_primary_artist-Kept id = search (frame_rules, get_artist-Kept, missing_artist-Kept) depth 30

  pub check_album-Kept : (id : String) → Keeps P Any (Service.check_album env deps id)
  unfolding Service.check_album
  check_album-Kept id =
      search (frame_rules, context-Kept, repo_album-Kept, missing_album-Kept) depth 30

-- The statements that write keep `P`, of the rows that the service hands them.
pub record Writes (env : Env) (P : World → Type 0) : Type 0 where
  pub artist : (a : Artist) → not (str_eq a.name "") ≡ true → Keeps P Any (Repo.create_artist env a)
  pub album : (a : Album) → not (str_eq a.title "") ≡ true → Keeps P Any (Repo.create_album env a)
  pub track :
      (t : Track) (assets : List AudioAsset)
      → not (str_eq t.title "") ≡ true
      → not (is_empty t.artists) ≡ true
      → Keeps P Any (Repo.create_track env t assets)

module _ (env : Env) (deps : Deps) (P : World → Type 0) (writes : Writes env P) where
  create_artist-Kept : (in_ : CreateArtistInput) → Keeps P Any (Service.create_artist env deps in_)
  unfolding Service.create_artist
  create_artist-Kept in_ =
      Keeps-guarded _ _ _
        (λ named. search (frame_rules, context-Kept env deps P, writes.artist _ named) depth 30)

  create_album-Kept : (in_ : CreateAlbumInput) → Keeps P Any (Service.create_album env deps in_)
  unfolding Service.create_album
  create_album-Kept in_ = Keeps-guarded _ _ _ (λ titled.
      search
        (
          frame_rules,
          context-Kept env deps P,
          check_primary_artist-Kept env deps P,
          writes.album _ titled,
        )
        depth 30)

  create_track-Kept : (in_ : CreateTrackInput) → Keeps P Any (Service.create_track env deps in_)
  unfolding Service.create_track
  create_track-Kept in_ = Keeps-guarded _ _ _ (λ titled. Keeps-guarded _ _ _ (λ lasting.
      Keeps-guarded _ _ _ (λ credited.
        search
          (
            frame_rules,
            context-Kept env deps P,
            check_album-Kept env deps P,
            writes.track _ _ titled credited,
          )
          depth 30)))

  ignore-Kept : {A : Type 0} (m : Catalog A) → Keeps P Any m → Keeps P Any (ignore m)
  ignore-Kept m k = Keeps-then m _ k (λ a. Keeps-done tt)

  serve-Kept : (c : Call) → Keeps P Any (serve env deps c)
  unfolding serve
  serve-Kept (creates_artist in_) = ignore-Kept _ (create_artist-Kept in_)
  serve-Kept (creates_album in_) = ignore-Kept _ (create_album-Kept in_)
  serve-Kept (creates_track in_) = ignore-Kept _ (create_track-Kept in_)
  serve-Kept (gets_artist id) = ignore-Kept _ (get_artist-Kept env deps P id)
  serve-Kept (gets_album id) = ignore-Kept _ (get_album-Kept env deps P id)
  serve-Kept (gets_track id) = ignore-Kept _ (get_track-Kept env deps P id)
  serve-Kept (asks_track id) = ignore-Kept _ (track_exists-Kept env deps P id)
  serve-Kept (searches in_) = ignore-Kept _ (search-Kept env deps P in_)

  pub run-Kept : (s : State World) (cs : List Call) → P s.world → P (run env deps s cs).world
  unfolding run
  run-Kept s [] p = p
  run-Kept s (c ∷ cs) p =
      run-Kept (state_of (serve env deps c s)) cs
        (Post-world P Any (serve env deps c s) ((serve-Kept c).at s p))
