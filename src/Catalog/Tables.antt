-- ===== src/Catalog/Tables.antt =====
-- The tables of backend/migrations/0001_init.up.sql that the catalog writes: lookups by id, and what
-- the keys, references and checks accept.
use smusic.Prelude.{
  if◌then◌else◌, String, Bool, true, not, ◌&&◌, ◌||◌, Option, none, some, List, find, any, str_eq,
  [], ◌∷◌,
}
use smusic.Prelude.Int.{ℤ, is_positive, fits}
use smusic.Catalog.Domain.{
  Artist, Album, Track, TrackArtist, AudioAsset, Credit, World, NameKey, is_valid_album_type,
  is_valid_artist_role,
}

-- An artist's, an album's and a track's key in a search.
abbrev pub artist_key : Artist → NameKey
artist_key a = record { name = a.name; id = a.id }

abbrev pub album_key : Album → NameKey
album_key a = record { name = a.title; id = a.id }

abbrev pub track_key : Track → NameKey
track_key t = record { name = t.title; id = t.id }

abbrev pub artist_by_id : String → List Artist → Option Artist
artist_by_id id = find (λ a. str_eq a.id id)

abbrev pub album_by_id : String → List Album → Option Album
album_by_id id = find (λ a. str_eq a.id id)

abbrev pub track_by_id : String → List Track → Option Track
track_by_id id = find (λ t. str_eq t.id id)

abbrev pub has_artist : String → World → Bool
has_artist id w = any (λ a. str_eq a.id id) w.artists

abbrev pub has_album : String → World → Bool
has_album id w = any (λ a. str_eq a.id id) w.albums

abbrev pub has_track : String → World → Bool
has_track id w = any (λ t. str_eq t.id id) w.tracks

-- NULLIF(text, ''): a unique column holds any number of nulls.
abbrev taken : String → String → Bool
taken text other = not (str_eq text "") && str_eq other text

abbrev fits_smallint : Option ℤ → Bool
fits_smallint none = true
fits_smallint (some n) = fits 32768 n

abbrev is_codec : String → Bool
is_codec c = str_eq c "aac" || str_eq c "opus" || str_eq c "flac"

abbrev is_quality_tier : String → Bool
is_quality_tier q = str_eq q "low" || str_eq q "normal" || str_eq q "high" || str_eq q "lossless"

-- Whether the keys and checks of the table accept a row.
abbrev pub accepts_artist : Artist → World → Bool
accepts_artist a w = not (any (λ b. str_eq b.id a.id || taken a.slug b.slug) w.artists)

abbrev pub accepts_album : Album → World → Bool
accepts_album a w =
    not (any (λ b. str_eq b.id a.id) w.albums)
    && (str_eq a.primary_artist_id "" || has_artist a.primary_artist_id w)
    && is_valid_album_type a.album_type

abbrev pub accepts_track : Track → World → Bool
accepts_track t w =
    not (any (λ u. str_eq u.id t.id || taken t.isrc u.isrc) w.tracks)
    && (str_eq t.album_id "" || has_album t.album_id w)
    && (is_positive t.duration_ms && fits 2147483648 t.duration_ms)
    && fits_smallint t.track_number

abbrev same_credit : Credit → Credit → Bool
same_credit c d =
    str_eq d.track_id c.track_id && str_eq d.artist_id c.artist_id && str_eq d.role c.role

abbrev pub accepts_credit : Credit → World → Bool
accepts_credit c w =
    not (any (same_credit c) w.credits)
    && has_track c.track_id w
    && has_artist c.artist_id w
    && is_valid_artist_role c.role

abbrev pub accepts_asset : AudioAsset → World → Bool
accepts_asset a w =
    not (any (λ b. str_eq b.id a.id) w.assets)
    && has_track a.track_id w
    && fits 2147483648 a.bitrate_kbps
    && is_codec a.codec
    && is_quality_tier a.quality_tier

-- The credits of a track, joined with their artists.
abbrev pub credit_line : Credit → Option Artist → List TrackArtist → List TrackArtist
credit_line c none lines = lines
credit_line c (some a) lines =
    record { artist_id = c.artist_id; artist_name = a.name; role = c.role } ∷ lines

abbrev pub credit_lines : String → List Artist → List Credit → List TrackArtist
credit_lines track_id artists [] = []
credit_lines track_id artists (c ∷ cs) =
    let lines = credit_lines track_id artists cs in
    if str_eq c.track_id track_id
    then credit_line c (artist_by_id c.artist_id artists) lines
    else lines
