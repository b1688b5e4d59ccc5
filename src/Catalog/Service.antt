-- ===== src/Catalog/Service.antt =====
-- backend/internal/catalog/service.go. `search_limit` and `check_credits` are parts of Search and of
-- CreateTrack.
use smusic.Prelude.{
  ℕ, String, Bool, true, false, not, ◌&&◌, ◌||◌, List, [], ◌∷◌, if◌then◌else◌, str_eq, ltb, none,
}
use smusic.Prelude.Int.{ℤ, pos, negsuc, is_positive}
use smusic.Effect.{Env, pure, raise, catch, guard, ◌>>=◌, ◌>>◌, now, new_id}
use smusic.Catalog.Domain.{
  Artist, Album, Track, TrackArtist, AudioAsset, Deps, Error, Catalog, context, invalid_input,
  artist_not_found, album_not_found, track_not_found, is_valid_album_type, is_valid_artist_role,
  CreateArtistInput, CreateAlbumInput, CreateTrackInput, SearchInput, SearchOutput,
  album_type_album, search_type_track, search_type_album, search_type_artist,
}
use smusic.Catalog.Repo

abbrev pub default_search_limit : ℕ
default_search_limit = 20

abbrev pub max_search_limit : ℕ
max_search_limit = 100

unfoldable pub search_limit : ℤ → ℕ
search_limit (negsuc n) = default_search_limit
search_limit (pos n) =
    if ltb 0 n
    then (if ltb max_search_limit n then max_search_limit else n)
    else default_search_limit

unfoldable pub valid_credits : List TrackArtist → Bool
valid_credits [] = true
valid_credits (ta ∷ tas) =
    not (str_eq ta.artist_id "" || not (is_valid_artist_role ta.role)) && valid_credits tas

abbrev pub is_empty : {A : Type 0} → List A → Bool
is_empty [] = true
is_empty (x ∷ xs) = false

pub record TrackAssets : Type 0 where
  pub track : Track
  pub assets : List AudioAsset

pub record AlbumTracks : Type 0 where
  pub album : Album
  pub tracks : List Track

module _ (env : Env) (deps : Deps) where
  unfoldable pub create_artist : CreateArtistInput → Catalog Artist
  create_artist in_ = do
    let name = deps.trim_space in_.name
    guard (not (str_eq name "")) (invalid_input "name is required")
    time ← now env
    id ← new_id env
    let a : Artist = record {
      id = id;
      name = name;
      slug = deps.trim_space in_.slug;
      bio = in_.bio;
      image_url = in_.image_url;
      verified = false;
      created_at = time;
      updated_at = time;
    }
    context "catalog: create artist" (Repo.create_artist env a)
    pure a

  unfoldable pub get_artist : String → Catalog Artist
  get_artist id = do
    guard (not (str_eq id "")) (invalid_input "id is required")
    context "catalog: get artist" (Repo.get_artist env id)

  -- CreateAlbum's errors for its artist, and CreateTrack's for its album.
  abbrev pub missing_artist : Error → Catalog Artist
  missing_artist artist_not_found = raise (invalid_input "primary_artist_id does not exist")
  missing_artist e = raise e

  abbrev pub missing_album : Error → Catalog Album
  missing_album album_not_found = raise (invalid_input "album_id does not exist")
  missing_album e = raise e

  unfoldable pub check_primary_artist : String → Catalog Unit
  check_primary_artist id =
      if str_eq id "" then pure tt else (catch (get_artist id) missing_artist >>= λ _. pure tt)

  unfoldable pub create_album : CreateAlbumInput → Catalog Album
  create_album in_ = do
    let title = deps.trim_space in_.title
    guard (not (str_eq title "")) (invalid_input "title is required")
    let album_type = if str_eq in_.album_type "" then album_type_album else in_.album_type
    guard (is_valid_album_type album_type) (invalid_input "invalid album_type")
    check_primary_artist in_.primary_artist_id
    time ← now env
    id ← new_id env
    let a : Album = record {
      id = id;
      title = title;
      primary_artist_id = in_.primary_artist_id;
      release_date = none;
      album_type = album_type;
      cover_url = in_.cover_url;
      created_at = time;
      updated_at = time;
    }
    context "catalog: create album" (Repo.create_album env a)
    pure a

  unfoldable pub get_album : String → Catalog AlbumTracks
  get_album id = do
    guard (not (str_eq id "")) (invalid_input "id is required")
    album ← context "catalog: get album" (Repo.get_album env id)
    tracks ← context "catalog: list album tracks" (Repo.list_by_album env deps id)
    pure (record { album = album; tracks = tracks })

  unfoldable pub check_album : String → Catalog Unit
  check_album id =
      if str_eq id ""
      then pure tt
      else (catch (context "catalog: get album" (Repo.get_album env id)) missing_album >>= λ _.
          pure tt)

  unfoldable pub create_track : CreateTrackInput → Catalog Track
  create_track in_ = do
    let title = deps.trim_space in_.title
    guard (not (str_eq title "")) (invalid_input "title is required")
    guard (is_positive in_.duration_ms) (invalid_input "duration_ms must be positive")
    guard (not (is_empty in_.artists)) (invalid_input "at least one artist credit is required")
    guard (valid_credits in_.artists) (invalid_input "invalid artist credit")
    check_album in_.album_id
    time ← now env
    id ← new_id env
    let t : Track = record {
      id = id;
      title = title;
      album_id = in_.album_id;
      duration_ms = in_.duration_ms;
      track_number = in_.track_number;
      isrc = in_.isrc;
      explicit = in_.explicit;
      artists = in_.artists;
      created_at = time;
      updated_at = time;
    }
    context "catalog: create track" (Repo.create_track env t in_.assets)
    pure t

  unfoldable pub get_track : String → Catalog TrackAssets
  get_track id = do
    guard (not (str_eq id "")) (invalid_input "id is required")
    track ← context "catalog: get track" (Repo.get_track env deps id)
    assets ← context "catalog: list audio assets" (Repo.list_audio_assets env deps id)
    pure (record { track = track; assets = assets })

  abbrev pub absent : Error → Catalog Bool
  absent track_not_found = pure false
  absent (invalid_input text) = pure false
  absent e = raise e

  unfoldable pub track_exists : String → Catalog Bool
  track_exists id = catch (get_track id >>= λ _. pure true) absent

  -- The cases of Search.
  unfoldable pub found_tracks : String → String → ℕ → Catalog SearchOutput
  found_tracks q cursor limit = do
    page ← context "catalog: search tracks" (Repo.search_tracks env deps q cursor limit)
    pure (record { tracks = page.items; albums = []; artists = []; next_cursor = page.next_cursor })

  unfoldable pub found_albums : String → String → ℕ → Catalog SearchOutput
  found_albums q cursor limit = do
    page ← context "catalog: search albums" (Repo.search_albums env deps q cursor limit)
    pure (record { tracks = []; albums = page.items; artists = []; next_cursor = page.next_cursor })

  unfoldable pub found_artists : String → String → ℕ → Catalog SearchOutput
  found_artists q cursor limit = do
    page ← context "catalog: search artists" (Repo.search_artists env deps q cursor limit)
    pure (record { tracks = []; albums = []; artists = page.items; next_cursor = page.next_cursor })

  unfoldable pub search : SearchInput → Catalog SearchOutput
  search in_ = do
    let q = deps.trim_space in_.query
    guard (not (str_eq q "")) (invalid_input "q is required")
    let limit = search_limit in_.limit
    let search_type = if str_eq in_.search_type "" then search_type_track else in_.search_type
    if str_eq search_type search_type_track
        then found_tracks q in_.cursor limit
        else if str_eq search_type search_type_album
        then found_albums q in_.cursor limit
        else if str_eq search_type search_type_artist
        then found_artists q in_.cursor limit
        else raise (invalid_input "unsupported type")
