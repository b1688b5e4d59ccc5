-- ===== src/Catalog/Whole.antt =====
-- What each call of backend/internal/catalog/service.go may leave of the tables.
pub mod Statements
pub mod Served
use smusic.Prelude.{none, false, String, ◌≡◌, ℕ, List, [], ◌∷◌, ◌++◌, map, if◌then◌else◌, str_eq}
use smusic.Effect.{Outcome, ok, err}
use smusic.Catalog.Domain.{
  CreateArtistInput, CreateAlbumInput, CreateTrackInput, TrackArtist, AudioAsset, Credit, World,
  Deps, Error,
}
use smusic.Catalog.Calls.{
  Call, creates_artist, creates_album, creates_track, gets_artist, gets_album, gets_track,
  asks_track, searches,
}

-- The rows of a new track's credits.
abbrev pub credit_of : String → TrackArtist → Credit
credit_of id ta = record { track_id = id; artist_id = ta.artist_id; role = ta.role }

-- An asset that was given for a track, before the database draws its id.
abbrev pub asset_of : String → AudioAsset → AudioAsset
asset_of id a = record a { id = ""; track_id = id }

abbrev pub without_id : AudioAsset → AudioAsset
without_id a = record a { id = "" }

-- `w` is `w0` with the track, all its credits and all its assets, each in the given order.
abbrev pub HasTrack : Deps → CreateTrackInput → World → World → Type 0
HasTrack deps in_ w0 w =
    (id : String) × (time : ℕ) × (rows : List AudioAsset) × (w ≡ record w0 {
      tracks =
          w0.tracks
          ++ record {
            id = id;
            title = deps.trim_space in_.title;
            album_id = in_.album_id;
            duration_ms = in_.duration_ms;
            track_number = in_.track_number;
            isrc = in_.isrc;
            explicit = in_.explicit;
            artists = [];
            created_at = time;
            updated_at = time;
          }
            ∷ [];
      credits = w0.credits ++ map (credit_of id) in_.artists;
      assets = w0.assets ++ rows;
    })
    × (map without_id rows ≡ map (asset_of id) in_.assets)

-- `w` is `w0` with the artist, or with the album, under some identifier and with some time.
abbrev pub HasArtist : Deps → CreateArtistInput → World → World → Type 0
HasArtist deps in_ w0 w =
    (id : String) × (time : ℕ) × (w ≡ record w0 {
      artists =
          w0.artists
          ++ record {
            id = id;
            name = deps.trim_space in_.name;
            slug = deps.trim_space in_.slug;
            bio = in_.bio;
            image_url = in_.image_url;
            verified = false;
            created_at = time;
            updated_at = time;
          }
            ∷ [];
    })

abbrev pub HasAlbum : Deps → CreateAlbumInput → World → World → Type 0
HasAlbum deps in_ w0 w =
    (id : String) × (time : ℕ) × (w ≡ record w0 {
      albums =
          w0.albums
          ++ record {
            id = id;
            title = deps.trim_space in_.title;
            primary_artist_id = in_.primary_artist_id;
            release_date = none;
            album_type = if str_eq in_.album_type "" then "album" else in_.album_type;
            cover_url = in_.cover_url;
            created_at = time;
            updated_at = time;
          }
            ∷ [];
    })

-- What a call may leave of the tables `w`: all that it creates, and nothing after an error.
abbrev pub Whole : Deps → Call → World → Outcome World Error Unit → Type 0
Whole deps c w (err e t) = w ≡ t.world
Whole deps (creates_artist in_) w (ok u t) = HasArtist deps in_ w t.world
Whole deps (creates_album in_) w (ok u t) = HasAlbum deps in_ w t.world
Whole deps (creates_track in_) w (ok u t) = HasTrack deps in_ w t.world
Whole deps (gets_artist id) w (ok u t) = w ≡ t.world
Whole deps (gets_album id) w (ok u t) = w ≡ t.world
Whole deps (gets_track id) w (ok u t) = w ≡ t.world
Whole deps (asks_track id) w (ok u t) = w ≡ t.world
Whole deps (searches in_) w (ok u t) = w ≡ t.world
