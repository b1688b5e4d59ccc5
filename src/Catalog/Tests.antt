-- ===== src/Catalog/Tests.antt =====
-- Concrete runs of the catalog: an artist, an album and three tracks.
use smusic.Prelude.{
  length, ◌<◌, apart, ℕ, zero, suc, String, str_append, ◌≡◌, refl, true, false, none, some, List,
  [], ◌∷◌, arith,
}
use text.Mathlib.Text.{starts_with}
use smusic.Prelude.Int.{pos}
use smusic.Effect.{Env, State, Outcome, ok, err, ◌>>=◌, state_of, answer_of}
use smusic.Paging.Texts.{Pair, key_order, key_cursor}
use smusic.Paging.Client.{follow}
use smusic.Catalog.Domain.{
  World, Deps, Error, NameKey, Track, CreateArtistInput, CreateTrackInput, failed,
  is_valid_artist_role,
}
use smusic.Catalog.Repo
use smusic.Catalog.Service
use smusic.Catalog.Calls.{Call, creates_artist, creates_track, gets_track, serve, run}
use smusic.Catalog.Validity.{IsValid}
use smusic.Catalog.Validity.Calls.{run-IsValid}
use smusic.Catalog.Whole.{Whole}
use smusic.Catalog.Whole.Served.{serve-Whole}
use smusic.Catalog.Growth.{create_track-track_exists}
use smusic.Catalog.Searching.{
  search-found, track_page, album_page, artist_page, tracks_found, albums_found, artists_found,
}

abbrev name : ℕ → String
name zero = ""
name (suc n) = str_append "i" (name n)

abbrev env : Env
env = record { clock = λ n. n; fault = λ _. false; fresh_id = name }

abbrev to_pair : NameKey → Pair
to_pair k = record { first = k.name; second = k.id }

abbrev of_pair : Pair → NameKey
of_pair p = record { name = p.first; id = p.second }

abbrev deps : Deps
deps = record {
  trim_space = λ t. t;
  is_similar = λ t q. starts_with t q;
  name_order = key_order to_pair of_pair (λ k. refl);
  name_cursor = key_cursor to_pair of_pair (λ k. refl);
  by_role_name = λ xs. xs;
  by_release_date = λ xs. xs;
  by_track_number = λ xs. xs;
  by_bitrate = λ xs. xs;
}

abbrev start : State World
start = record {
  tick = 1;
  world = record { artists = []; albums = []; tracks = []; credits = []; assets = [] };
}

abbrev artist : CreateArtistInput
artist = record { name = "Elza"; slug = ""; bio = ""; image_url = "" }

abbrev with_artist : State World
with_artist = state_of (Service.create_artist env deps artist start)

abbrev song : String → String → CreateTrackInput
song title artist_id = record {
  title = title;
  album_id = "";
  duration_ms = pos 180000;
  track_number = none;
  isrc = "";
  explicit = false;
  artists = record { artist_id = artist_id; artist_name = ""; role = "primary" } ∷ [];
  assets = [];
}

abbrev calls : List Call
calls =
    creates_artist artist
    ∷ creates_track (song "Volta" "ii")
    ∷ creates_track (song "Volta por cima" "ii")
    ∷ creates_track (song "Malandro" "ii")
    ∷ []

start-IsValid : IsValid start.world
start-IsValid = record {
  artists = tt;
  albums = tt;
  tracks = tt;
  credits = tt;
  assets = tt;
  artist_ids = tt;
  album_ids = tt;
  track_ids = tt;
}

run-IsValid_example : IsValid (run env deps start calls).world
run-IsValid_example = run-IsValid env deps start calls start-IsValid

abbrev creating : Outcome World Error Track
creating = Service.create_track env deps (song "Volta" "ii") with_artist

abbrev volta : Track
volta = record {
  id = "iiiii";
  title = "Volta";
  album_id = "";
  duration_ms = pos 180000;
  track_number = none;
  isrc = "";
  explicit = false;
  artists = record { artist_id = "ii"; artist_name = ""; role = "primary" } ∷ [];
  created_at = 4;
  updated_at = 4;
}

creates : creating ≡ ok volta (state_of creating)
unfolding Service.create_artist Service.create_track Service.check_album Service.valid_credits
    Repo.create_artist Repo.create_track Repo.insert Repo.transaction Repo.settle Repo.insert_track
    Repo.insert_credits Repo.insert_credit Repo.insert_assets is_valid_artist_role ◌>>=◌
creates = refl

create_track-track_exists_example :
    answer_of (
      Service.track_exists env deps "iiiii"
        (run env deps (state_of creating) (gets_track "x" ∷ [])))
    ≡ some true
create_track-track_exists_example =
    create_track-track_exists env deps (song "Volta" "ii") with_artist (state_of creating) volta
      creates (apart "iiiii" "" refl) (gets_track "x" ∷ []) (λ n h. refl)

abbrev failing : Outcome World Error Unit
failing = serve env deps (creates_track (song "Volta" "nobody")) with_artist

fails : failing ≡ err (failed "catalog: create track") (state_of failing)
unfolding serve Service.create_artist Service.create_track Service.check_album Service.valid_credits
    Repo.create_artist Repo.create_track Repo.insert Repo.transaction Repo.settle Repo.insert_track
    Repo.insert_credits Repo.insert_credit Repo.insert_assets is_valid_artist_role ◌>>=◌
fails = refl

serve-Whole_example :
    Whole deps
      (creates_track (song "Volta" "ii"))
      with_artist.world
      (serve env deps (creates_track (song "Volta" "ii")) with_artist)
serve-Whole_example = serve-Whole env deps (creates_track (song "Volta" "ii")) with_artist

abbrev full : State World
full = run env deps start calls

short_tracks : length full.world.tracks < 9
unfolding run serve Service.create_artist Service.create_track Service.check_album
    Service.valid_credits Repo.create_artist Repo.create_track Repo.insert Repo.transaction
    Repo.settle Repo.insert_track Repo.insert_credits Repo.insert_credit Repo.insert_assets
    is_valid_artist_role ◌>>=◌
short_tracks = omega arith

short_albums : length full.world.albums < 9
unfolding run serve Service.create_artist Service.create_track Service.check_album
    Service.valid_credits Repo.create_artist Repo.create_track Repo.insert Repo.transaction
    Repo.settle Repo.insert_track Repo.insert_credits Repo.insert_credit Repo.insert_assets
    is_valid_artist_role ◌>>=◌
short_albums = omega arith

short_artists : length full.world.artists < 9
unfolding run serve Service.create_artist Service.create_track Service.check_album
    Service.valid_credits Repo.create_artist Repo.create_track Repo.insert Repo.transaction
    Repo.settle Repo.insert_track Repo.insert_credits Repo.insert_credit Repo.insert_assets
    is_valid_artist_role ◌>>=◌
short_artists = omega arith

search-found_example :
    (answer_of (follow 9 (track_page env deps "Volta" (pos 1)) "" full)
      ≡ some (some (tracks_found env deps "Volta" (pos 1) full.world)))
    × (answer_of (follow 9 (album_page env deps "Volta" (pos 1)) "" full)
        ≡ some (some (albums_found env deps "Volta" (pos 1) full.world)))
    × (answer_of (follow 9 (artist_page env deps "Volta" (pos 1)) "" full)
        ≡ some (some (artists_found env deps "Volta" (pos 1) full.world)))
search-found_example =
    search-found env deps "Volta" (pos 1) full (λ n. refl) refl
      (run-IsValid env deps start calls start-IsValid) 9 short_tracks short_albums short_artists
