-- ===== src/Catalog/Repo.antt =====
-- backend/internal/catalog/postgres/repo.go: artists, albums and tracks in Postgres.
use smusic.Prelude.{ℕ, suc, String, Bool, List, [], ◌∷◌, ◌++◌, filter, if◌then◌else◌, str_eq}
use smusic.Effect.{Env, Outcome, ok, err, bump, pure, ◌>>=◌, ◌>>◌, or_raise, fetch, new_id}
use smusic.Paging.{Page, start_of, page_after}
use smusic.Catalog.Domain.{
  Artist, Album, Track, TrackArtist, AudioAsset, Credit, World, NameKey, Deps, Error, Catalog,
  failed, artist_not_found, album_not_found, track_not_found,
}
use smusic.Catalog.Tables.{
  artist_key, album_key, track_key, artist_by_id, album_by_id, track_by_id, accepts_artist,
  accepts_album, accepts_track, accepts_credit, accepts_asset, credit_lines,
}

module _ (env : Env) where
  -- INSERT
  unfoldable pub insert : (World → Bool) → (World → World) → Catalog Unit
  insert accepts write s =
      if env.fault s.tick
      then err (failed "exec") (bump s)
      else if accepts s.world
      then ok tt (record { tick = suc s.tick; world = write s.world })
      else err (failed "exec") (bump s)

  -- BEGIN, the statements, and COMMIT; after an error nothing of it is left.
  unfoldable pub settle : World → Outcome World Error Unit → Outcome World Error Unit
  settle before (ok a s) =
      if env.fault s.tick
      then err (failed "commit") (record { tick = suc s.tick; world = before })
      else ok a (bump s)
  settle before (err e s) = err e (record s { world = before })

  unfoldable pub transaction : Catalog Unit → Catalog Unit
  transaction m s =
      if env.fault s.tick then err (failed "begin") (bump s) else settle s.world (m (bump s))

  -- ArtistRepo
  unfoldable pub create_artist : Artist → Catalog Unit
  create_artist a =
      insert (accepts_artist a)
        (λ w. record w { artists = w.artists ++ record a { updated_at = a.created_at } ∷ [] })

  unfoldable pub get_artist : String → Catalog Artist
  get_artist id = do
    row ← fetch env (failed "query row") (λ _ w. artist_by_id id w.artists)
    or_raise artist_not_found row

  -- AlbumRepo
  unfoldable pub create_album : Album → Catalog Unit
  create_album a =
      insert (accepts_album a)
        (λ w. record w { albums = w.albums ++ record a { updated_at = a.created_at } ∷ [] })

  unfoldable pub get_album : String → Catalog Album
  get_album id = do
    row ← fetch env (failed "query row") (λ _ w. album_by_id id w.albums)
    or_raise album_not_found row

  -- TrackRepo.Create, statement by statement
  unfoldable pub insert_track : Track → Catalog Unit
  insert_track t = insert (accepts_track t) (λ w. record w {
    tracks = w.tracks ++ record t { artists = []; updated_at = t.created_at } ∷ [];
  })

  unfoldable pub insert_credit : Credit → Catalog Unit
  insert_credit c = insert (accepts_credit c) (λ w. record w { credits = w.credits ++ c ∷ [] })

  unfoldable pub insert_credits : String → List TrackArtist → Catalog Unit
  insert_credits track_id [] = pure tt
  insert_credits track_id (ta ∷ tas) = do
    insert_credit (record { track_id = track_id; artist_id = ta.artist_id; role = ta.role })
    insert_credits track_id tas

  -- The database draws the id.
  unfoldable pub insert_asset : String → AudioAsset → Catalog Unit
  insert_asset track_id a = do
    id ← new_id env
    let row = record a { id = id; track_id = track_id }
    insert (accepts_asset row) (λ w. record w { assets = w.assets ++ row ∷ [] })

  unfoldable pub insert_assets : String → List AudioAsset → Catalog Unit
  insert_assets track_id [] = pure tt
  insert_assets track_id (a ∷ rest) = do insert_asset track_id a; insert_assets track_id rest

  unfoldable pub create_track : Track → List AudioAsset → Catalog Unit
  create_track t assets =
      transaction (do insert_track t; insert_credits t.id t.artists; insert_assets t.id assets)

module _ (env : Env) (deps : Deps) where
  -- One page of the rows that match: the fetch asks for one row more than the page has.
  unfoldable pub search_page :
      {A : Type 0} → (A → NameKey) → (A → Bool) → (World → List A) → String → ℕ → Catalog (Page A)
  search_page key matches table cursor limit = do
    start ←
        or_raise (failed "invalid cursor") (start_of deps.name_order deps.name_cursor key cursor)
    fetch env (failed "query") (λ _ w.
        page_after deps.name_order deps.name_cursor key start limit (filter matches (table w)))

  unfoldable pub search_artists : String → String → ℕ → Catalog (Page Artist)
  search_artists q cursor limit =
      search_page artist_key (λ a. deps.is_similar a.name q) (λ w. w.artists) cursor limit

  unfoldable pub search_albums : String → String → ℕ → Catalog (Page Album)
  search_albums q cursor limit =
      search_page album_key (λ a. deps.is_similar a.title q) (λ w. w.albums) cursor limit

  unfoldable pub search_tracks : String → String → ℕ → Catalog (Page Track)
  search_tracks q cursor limit =
      search_page track_key (λ t. deps.is_similar t.title q) (λ w. w.tracks) cursor limit

  unfoldable pub list_by_artist : String → Catalog (List Album)
  list_by_artist artist_id =
      fetch env (failed "query")
        (λ _ w. deps.by_release_date (filter (λ a. str_eq a.primary_artist_id artist_id) w.albums))

  unfoldable pub track_artists : String → Catalog (List TrackArtist)
  track_artists track_id =
      fetch env (failed "query")
        (λ _ w. deps.by_role_name (credit_lines track_id w.artists w.credits))

  unfoldable pub get_track : String → Catalog Track
  get_track id = do
    row ← fetch env (failed "query row") (λ _ w. track_by_id id w.tracks)
    t ← or_raise track_not_found row
    artists ← track_artists id
    pure (record t { artists = artists })

  unfoldable pub with_artists : List Track → Catalog (List Track)
  with_artists [] = pure []
  with_artists (t ∷ ts) = do
    artists ← track_artists t.id
    rest ← with_artists ts
    pure (record t { artists = artists } ∷ rest)

  unfoldable pub list_by_album : String → Catalog (List Track)
  list_by_album album_id = do
    tracks ←
        fetch env (failed "query")
          (λ _ w. deps.by_track_number (filter (λ t. str_eq t.album_id album_id) w.tracks))
    with_artists tracks

  unfoldable pub list_audio_assets : String → Catalog (List AudioAsset)
  list_audio_assets track_id =
      fetch env (failed "query")
        (λ _ w. deps.by_bitrate (filter (λ a. str_eq a.track_id track_id) w.assets))
