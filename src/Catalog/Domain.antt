-- ===== src/Catalog/Domain.antt =====
-- backend/internal/catalog/domain.go, the inputs and results of service.go, and what the module takes
-- from outside. `PopularityScore`, which nothing in the repository writes, is left out.
use smusic.Prelude.{ℕ, String, Bool, Option, List, ◌||◌, str_eq}
use smusic.Prelude.Int.{ℤ}
use smusic.Effect.{Act, catch, raise}
use smusic.Paging.{Order, Codec}

pub record Artist : Type 0 where
  pub id : String
  pub name : String
  pub slug : String
  pub bio : String
  pub image_url : String
  pub verified : Bool
  pub created_at : ℕ
  pub updated_at : ℕ

abbrev pub album_type_album : String
album_type_album = "album"

abbrev pub album_type_single : String
album_type_single = "single"

abbrev pub album_type_ep : String
album_type_ep = "ep"

abbrev pub album_type_compilation : String
album_type_compilation = "compilation"

pub record Album : Type 0 where
  pub id : String
  pub title : String
  pub primary_artist_id : String
  pub release_date : Option ℕ
  pub album_type : String
  pub cover_url : String
  pub created_at : ℕ
  pub updated_at : ℕ

abbrev pub artist_role_primary : String
artist_role_primary = "primary"

abbrev pub artist_role_featured : String
artist_role_featured = "featured"

abbrev pub artist_role_producer : String
artist_role_producer = "producer"

abbrev pub artist_role_composer : String
artist_role_composer = "composer"

pub record TrackArtist : Type 0 where
  pub artist_id : String
  pub artist_name : String
  pub role : String

pub record Track : Type 0 where
  pub id : String
  pub title : String
  pub album_id : String
  pub duration_ms : ℤ
  pub track_number : Option ℤ
  pub isrc : String
  pub explicit : Bool
  pub artists : List TrackArtist
  pub created_at : ℕ
  pub updated_at : ℕ

pub record AudioAsset : Type 0 where
  pub id : String
  pub track_id : String
  pub storage_uri : String
  pub bitrate_kbps : ℤ
  pub codec : String
  pub quality_tier : String

-- The sentinel errors, and `failed` for an error of a dependency wrapped with its context.
pub data Error : Type 0 where
  invalid_input : String → Error
  track_not_found album_not_found artist_not_found : Error
  failed : String → Error

abbrev pub search_type_track : String
search_type_track = "track"

abbrev pub search_type_album : String
search_type_album = "album"

abbrev pub search_type_artist : String
search_type_artist = "artist"

-- Inputs and results of the service.
pub record CreateArtistInput : Type 0 where
  pub name : String
  pub slug : String
  pub bio : String
  pub image_url : String

pub record CreateAlbumInput : Type 0 where
  pub title : String
  pub primary_artist_id : String
  pub album_type : String
  pub cover_url : String

pub record CreateTrackInput : Type 0 where
  pub title : String
  pub album_id : String
  pub duration_ms : ℤ
  pub track_number : Option ℤ
  pub isrc : String
  pub explicit : Bool
  pub artists : List TrackArtist
  pub assets : List AudioAsset

pub record SearchInput : Type 0 where
  pub query : String
  pub search_type : String
  pub cursor : String
  pub limit : ℤ

pub record SearchOutput : Type 0 where
  pub tracks : List Track
  pub albums : List Album
  pub artists : List Artist
  pub next_cursor : String

-- A row of track_artists.
pub record Credit : Type 0 where
  pub track_id : String
  pub artist_id : String
  pub role : String

-- The tables. The rows of `tracks` have no credits of their own.
pub record World : Type 0 where
  pub artists : List Artist
  pub albums : List Album
  pub tracks : List Track
  pub credits : List Credit
  pub assets : List AudioAsset

-- A name or title with an id: the key of a search.
pub record NameKey : Type 0 where
  pub name : String
  pub id : String

-- Go's strings, pg_trgm, and how the database sorts. The orders that a single statement asks for are
-- functions on lists, since a statement that names too few columns leaves ties open.
pub record Deps : Type 0 where
  pub trim_space : String → String
  -- similarity(text, query) above the threshold
  pub is_similar : String → String → Bool
  pub name_order : Order NameKey
  pub name_cursor : Codec NameKey
  pub by_role_name : List TrackArtist → List TrackArtist
  pub by_release_date : List Album → List Album
  pub by_track_number : List Track → List Track
  pub by_bitrate : List AudioAsset → List AudioAsset

abbrev pub Catalog : Type 0 → Type 0
Catalog A = Act World Error A

abbrev wrapped : String → Error → Error
wrapped text (failed _) = failed text
wrapped text e = e

-- fmt.Errorf("context: %w", err), as errors.Is sees it.
abbrev pub context : {A : Type 0} → String → Catalog A → Catalog A
context text m = catch m (λ e. raise (wrapped text e))

unfoldable pub is_valid_album_type : String → Bool
is_valid_album_type t =
    str_eq t album_type_album
    || str_eq t album_type_single
    || str_eq t album_type_ep
    || str_eq t album_type_compilation

unfoldable pub is_valid_artist_role : String → Bool
is_valid_artist_role r =
    str_eq r artist_role_primary
    || str_eq r artist_role_featured
    || str_eq r artist_role_producer
    || str_eq r artist_role_composer
