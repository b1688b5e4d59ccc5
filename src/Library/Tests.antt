-- ===== src/Library/Tests.antt =====
-- Concrete runs of the library: a private playlist of one user, and what two users save.
use smusic.Prelude.{◌<◌, ◌≡◌, refl, some, List, [], ◌∷◌, apart, arith, length}
use smusic.Prelude.Int.{pos}
use smusic.Effect.{State, Outcome, IsErr, ok, ◌>>=◌, state_of, answer_of}
use smusic.Paging.{sort}
use smusic.Paging.Client.{follow}
use smusic.Library.Domain.{
  World, Error, Playlist, PlaylistTrack, CreatePlaylistInput, is_valid_visibility,
}
use smusic.Library.Repo
use smusic.Library.Repo.{playlist_by_id, entries_of, saved_key}
use smusic.Library.Service
use smusic.Library.Calls.{
  Request, creates_playlist, adds_track, removes_track, saves_track, run, serve_call,
}
use smusic.Library.Ownership.{run-entries_of}
use smusic.Library.Ownership.Private.{list_playlist_tracks-IsErr}
use smusic.Library.Positions.{Placed, InRange, add_track-Placed}
use smusic.Library.Saved.Listing.{list_saved_tracks-rows_of, saved_page, rows_of, NewestFirst}
use smusic.Library.Order.{saved_order}
use smusic.Library.Examples.{env, deps, floats, start}

abbrev mix : CreatePlaylistInput
mix = record { owner_id = ""; title = "Mix"; description = ""; visibility = "" }

abbrev setup : List Request
setup =
    record { user_id = "ana"; call = creates_playlist mix }
    ∷ record { user_id = "ana"; call = adds_track "ii" "t1" "end" }
    ∷ record { user_id = "ana"; call = adds_track "ii" "t2" "end" }
    ∷ []

abbrev ready : State World
ready = run env deps start setup

abbrev playlist : Playlist
playlist = record {
  id = "ii";
  owner_id = "ana";
  title = "Mix";
  description = "";
  visibility = "private";
  cover_url = "";
  created_at = 1;
  updated_at = 1;
}

stored : playlist_by_id "ii" ready.world.playlists ≡ some playlist
unfolding run serve_call Service.create_playlist Service.add_track Service.get_owned_playlist
    Service.get_playlist Service.check_track Service.compute_position Repo.create Repo.insert
    Repo.get_by_id Repo.max_position Repo.add_entry is_valid_visibility ◌>>=◌
stored = refl

abbrev meddling : List Request
meddling =
    record { user_id = "bia"; call = adds_track "ii" "t3" "start" }
    ∷ record { user_id = "bia"; call = removes_track "ii" "t1" }
    ∷ []

run-entries_of_example :
    (playlist_by_id "ii" (run env deps ready meddling).world.playlists ≡ some playlist)
    × (entries_of "ii" (run env deps ready meddling).world ≡ entries_of "ii" ready.world)
run-entries_of_example =
    run-entries_of env deps playlist ready meddling stored
      (apart "bia" "ana" refl, (apart "bia" "ana" refl, tt))

list_playlist_tracks-IsErr_example :
    IsErr (Service.list_playlist_tracks env deps "ii" "bia" (run env deps ready meddling))
list_playlist_tracks-IsErr_example =
    list_playlist_tracks-IsErr env deps playlist ready meddling "bia" stored refl
      (apart "bia" "ana" refl, (apart "bia" "ana" refl, tt)) (apart "bia" "ana" refl)

abbrev adding : Outcome World Error PlaylistTrack
adding = Service.add_track env deps "ii" "ana" "t3" "start" ready

abbrev added : PlaylistTrack
added = record {
  id = "iiiiiiiiiiiiiiiiiii";
  playlist_id = "ii";
  track_id = "t3";
  position = 0x2048000000000000;
  added_by = "ana";
  added_at = 20;
}

adds : adding ≡ ok added (state_of adding)
unfolding run serve_call Service.create_playlist Service.add_track Service.get_owned_playlist
    Service.get_playlist Service.check_track Service.compute_position Repo.create Repo.insert
    Repo.get_by_id Repo.max_position Repo.list_entries Repo.add_entry is_valid_visibility ◌>>=◌
adds = refl

in_range : InRange (entries_of "ii" ready.world)
unfolding run serve_call Service.create_playlist Service.add_track Service.get_owned_playlist
    Service.get_playlist Service.check_track Service.compute_position Repo.create Repo.insert
    Repo.get_by_id Repo.max_position Repo.add_entry is_valid_visibility ◌>>=◌
in_range = ((omega arith, omega arith), ((omega arith, omega arith), tt))

add_track-Placed_example : Placed "start" 0x2048000000000000 (entries_of "ii" ready.world)
add_track-Placed_example =
    add_track-Placed env deps floats "ii" "ana" "t3" "start" ready (state_of adding) added in_range
      adds

abbrev saving : List Request
saving =
    record { user_id = "ana"; call = saves_track "t1" }
    ∷ record { user_id = "bia"; call = saves_track "t1" }
    ∷ record { user_id = "ana"; call = saves_track "t2" }
    ∷ record { user_id = "ana"; call = saves_track "t1" }
    ∷ []

few : length (run env deps start saving).world.saved < 9
unfolding run serve_call Service.save_track Service.check_track Repo.add_saved Repo.insert ◌>>=◌
few = omega arith

list_saved_tracks-rows_of_example :
    (answer_of (follow 9 (saved_page env deps "ana" (pos 1)) "" (run env deps start saving))
      ≡ some (
          some (
            sort
              (saved_order deps)
              deps.saved_cursor
              saved_key
              (rows_of "ana" (run env deps start saving).world.saved))))
    × NewestFirst (
        sort
          (saved_order deps)
          deps.saved_cursor
          saved_key
          (rows_of "ana" (run env deps start saving).world.saved))
list_saved_tracks-rows_of_example =
    list_saved_tracks-rows_of env deps "ana" (pos 1) start saving (λ n. refl) (apart "ana" "" refl)
      tt 9 few
