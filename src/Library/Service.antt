-- ===== src/Library/Service.antt =====
-- backend/internal/library/service.go
use smusic.Effect.{State, Outcome, Env, ok, err, bump, pure, guard, ◌>>=◌, ◌>>◌, now, new_id}
use smusic.Library.Domain.{
  Error, World, Playlist, PlaylistTrack, LibraryTrack, CreatePlaylistInput, Deps, Library, failed,
  context, invalid_input, not_owner, track_not_found, is_valid_visibility, visibility_private,
  position_gap,
}
use smusic.Prelude.{
  Bool, ℕ, String, true, false, not, ◌&&◌, ◌||◌, List, [], ◌∷◌, if◌then◌else◌, str_eq, ltb, Option,
  none, some,
}
use smusic.Prelude.Int.{ℤ, pos, negsuc}
use smusic.Paging.{Page}
use smusic.Library.Repo

abbrev pub default_saved_tracks_limit : ℕ
default_saved_tracks_limit = 50

abbrev pub max_saved_tracks_limit : ℕ
max_saved_tracks_limit = 200

abbrev pub position_start : String
position_start = "start"

unfoldable pub saved_limit : ℤ → ℕ
saved_limit (negsuc n) = default_saved_tracks_limit
saved_limit (pos n) =
    if ltb 0 n
    then (if ltb max_saved_tracks_limit n then max_saved_tracks_limit else n)
    else default_saved_tracks_limit

pub record PlaylistEntries : Type 0 where
  pub playlist : Playlist
  pub entries : List PlaylistTrack

module _ (env : Env) (deps : Deps) where
  unfoldable pub create_playlist : CreatePlaylistInput → Library Playlist
  create_playlist in_ = do
    guard (not (str_eq in_.owner_id "")) (invalid_input "owner is required")
    let title = deps.trim_space in_.title
    guard (not (str_eq title "")) (invalid_input "title is required")
    let visibility = if str_eq in_.visibility "" then visibility_private else in_.visibility
    guard (is_valid_visibility visibility) (invalid_input "invalid visibility")
    time ← now env
    id ← new_id env
    let p : Playlist = record {
      id = id;
      owner_id = in_.owner_id;
      title = title;
      description = in_.description;
      visibility = visibility;
      cover_url = "";
      created_at = time;
      updated_at = time;
    }
    context "library: create playlist" (Repo.create env deps p)
    pure p

  unfoldable pub list_playlists : String → Library (List Playlist)
  list_playlists owner_id = do
    guard (not (str_eq owner_id "")) (invalid_input "owner is required")
    context "library: list playlists" (Repo.list_by_owner env deps owner_id)

  unfoldable pub get_playlist : String → Library Playlist
  get_playlist playlist_id = context "library: get playlist" (Repo.get_by_id env deps playlist_id)

  unfoldable pub get_owned_playlist : String → String → Library Playlist
  get_owned_playlist playlist_id requester_id = do
    guard (not (str_eq playlist_id "" || str_eq requester_id ""))
        (invalid_input "playlist id and requester are required")
    p ← get_playlist playlist_id
    guard (str_eq p.owner_id requester_id) not_owner
    pure p

  unfoldable pub list_playlist_tracks : String → String → Library PlaylistEntries
  list_playlist_tracks playlist_id requester_id = do
    guard (not (str_eq playlist_id "")) (invalid_input "playlist id is required")
    p ← get_playlist playlist_id
    guard (not (str_eq p.visibility visibility_private && not (str_eq p.owner_id requester_id)))
        not_owner
    entries ← context "library: list playlist tracks" (Repo.list_entries env deps playlist_id)
    pure (record { playlist = p; entries = entries })

  -- TrackChecker.TrackExists
  abbrev pub answer_track : State World → Option Bool → Outcome World Error Unit
  answer_track s none = err (failed "library: check track exists") (bump s)
  answer_track s (some true) = ok tt (bump s)
  answer_track s (some false) = err track_not_found (bump s)

  unfoldable pub check_track : String → Library Unit
  check_track track_id s = answer_track s (deps.track_exists s.tick track_id)

  -- Before the first entry, or after the last.
  abbrev pub position_before : List PlaylistTrack → ℕ
  position_before [] = position_gap
  position_before (e ∷ es) = deps.half e.position

  abbrev pub position_after : Option ℕ → ℕ
  position_after none = position_gap
  position_after (some m) = deps.add m position_gap

  unfoldable pub compute_position : String → String → Library ℕ
  compute_position playlist_id position =
      if str_eq position position_start
      then (do
        items ← context "library: list playlist tracks" (Repo.list_entries env deps playlist_id)
        pure (position_before items))
      else (do
        last ← context "library: max position" (Repo.max_position env deps playlist_id)
        pure (position_after last))

  unfoldable pub add_track : String → String → String → String → Library PlaylistTrack
  add_track playlist_id requester_id track_id position = do
    guard (not (str_eq track_id "")) (invalid_input "track id is required")
    playlist ← get_owned_playlist playlist_id requester_id
    check_track track_id
    place ← compute_position playlist_id position
    id ← new_id env
    time ← now env
    let pt : PlaylistTrack = record {
      id = id;
      playlist_id = playlist_id;
      track_id = track_id;
      position = place;
      added_by = requester_id;
      added_at = time;
    }
    context "library: add track" (Repo.add_entry env deps pt)
    pure pt

  unfoldable pub remove_track : String → String → String → Library Unit
  remove_track playlist_id requester_id track_id = do
    guard (not (str_eq track_id "")) (invalid_input "track id is required")
    playlist ← get_owned_playlist playlist_id requester_id
    context "library: remove track" (Repo.remove_entry env deps playlist_id track_id)

  unfoldable pub save_track : String → String → Library Unit
  save_track user_id track_id = do
    guard (not (str_eq user_id "" || str_eq track_id ""))
        (invalid_input "user and track are required")
    check_track track_id
    time ← now env
    context "library: save track" (
        Repo.add_saved env deps
          (record { user_id = user_id; track_id = track_id; added_at = time }))

  unfoldable pub unsave_track : String → String → Library Unit
  unsave_track user_id track_id = do
    guard (not (str_eq user_id "" || str_eq track_id ""))
        (invalid_input "user and track are required")
    context "library: unsave track" (Repo.remove_saved env deps user_id track_id)

  unfoldable pub list_saved_tracks : String → String → ℤ → Library (Page LibraryTrack)
  list_saved_tracks user_id cursor limit = do
    guard (not (str_eq user_id "")) (invalid_input "user is required")
    context "library: list saved tracks"
        (Repo.list_saved env deps user_id cursor (saved_limit limit))
