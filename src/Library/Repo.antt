-- ===== src/Library/Repo.antt =====
-- backend/internal/library/postgres/repo.go: each method is one SQL statement. The keys and references
-- are those of backend/migrations/0001_init.up.sql: a statement that would break one fails.
use smusic.Prelude.{
  ℕ, suc, String, Bool, not, ◌&&◌, ◌||◌, Option, none, some, List, [], ◌∷◌, ◌++◌, find, filter, any,
  max, if◌then◌else◌, str_eq,
}
use smusic.Effect.{Env, ok, err, bump, ◌>>=◌, or_raise, fetch, store}
use smusic.Paging.{Page, start_of, page_after}
use smusic.Library.Order.{saved_order}
use smusic.Library.Domain.{
  Playlist, PlaylistTrack, LibraryTrack, World, SavedKey, Deps, Library, failed, playlist_not_found,
  track_not_in_playlist, is_valid_visibility,
}

abbrev pub playlist_by_id : String → List Playlist → Option Playlist
playlist_by_id id = find (λ p. str_eq p.id id)

abbrev pub in_playlist : String → PlaylistTrack → Bool
in_playlist playlist_id e = str_eq e.playlist_id playlist_id

abbrev pub entries_of : String → World → List PlaylistTrack
entries_of playlist_id w = filter (in_playlist playlist_id) w.entries

abbrev pub is_saved_row : String → String → LibraryTrack → Bool
is_saved_row user_id track_id lt = str_eq lt.user_id user_id && str_eq lt.track_id track_id

abbrev pub saved_key : LibraryTrack → SavedKey
saved_key lt = record { added_at = lt.added_at; track_id = lt.track_id }

-- MAX(position)
abbrev pub max_of : List PlaylistTrack → Option ℕ
max_of [] = none
max_of (e ∷ es) =
    let rest = max_of es in elim rest [ none ↦ some e.position | some m ↦ some (max e.position m) ]

module _ (env : Env) (deps : Deps) where
  -- INSERT
  unfoldable pub insert : (ℕ → World → Bool) → (World → World) → Library Unit
  insert accepts write s =
      if env.fault s.tick
      then err (failed "exec") (bump s)
      else if accepts s.tick s.world
      then ok tt (record { tick = suc s.tick; world = write s.world })
      else err (failed "exec") (bump s)

  -- PlaylistRepo
  unfoldable pub create : Playlist → Library Unit
  create p =
      insert
        (λ _ w.
          not (any (λ q. str_eq q.id p.id) w.playlists)
          && deps.is_user p.owner_id
          && is_valid_visibility p.visibility)
        (λ w. record w { playlists = w.playlists ++ record p { updated_at = p.created_at } ∷ [] })

  unfoldable pub get_by_id : String → Library Playlist
  get_by_id id = do
    row ← fetch env (failed "query row") (λ _ w. playlist_by_id id w.playlists)
    or_raise playlist_not_found row

  unfoldable pub list_by_owner : String → Library (List Playlist)
  list_by_owner owner_id =
      fetch env (failed "query")
        (λ _ w. deps.by_created_at (filter (λ p. str_eq p.owner_id owner_id) w.playlists))

  -- PlaylistTrackRepo
  unfoldable pub add_entry : PlaylistTrack → Library Unit
  add_entry pt =
      insert
        (λ n w.
          not (any (λ e. str_eq e.id pt.id) w.entries)
          && any (λ p. str_eq p.id pt.playlist_id) w.playlists
          && deps.is_track n pt.track_id
          && (str_eq pt.added_by "" || deps.is_user pt.added_by))
        (λ w. record w { entries = w.entries ++ pt ∷ [] })

  -- DELETE, and how many rows it took.
  unfoldable pub remove_entry : String → String → Library Unit
  remove_entry playlist_id track_id s =
      let taken = λ (e : PlaylistTrack). in_playlist playlist_id e && str_eq e.track_id track_id in
      if env.fault s.tick
      then err (failed "exec") (bump s)
      else if any taken s.world.entries
      then ok tt (record {
        tick = suc s.tick;
        world = record s.world { entries = filter (λ e. not (taken e)) s.world.entries };
      })
      else err track_not_in_playlist (bump s)

  unfoldable pub list_entries : String → Library (List PlaylistTrack)
  list_entries playlist_id =
      fetch env (failed "query") (λ _ w. deps.by_position (entries_of playlist_id w))

  unfoldable pub max_position : String → Library (Option ℕ)
  max_position playlist_id =
      fetch env (failed "query row") (λ _ w. max_of (entries_of playlist_id w))

  -- LibraryTrackRepo: INSERT ... ON CONFLICT (user_id, track_id) DO NOTHING
  unfoldable pub add_saved : LibraryTrack → Library Unit
  add_saved lt =
      insert
        (λ n w.
          any (is_saved_row lt.user_id lt.track_id) w.saved
          || (deps.is_user lt.user_id && deps.is_track n lt.track_id))
        (λ w.
          if any (is_saved_row lt.user_id lt.track_id) w.saved
          then w
          else record w { saved = w.saved ++ lt ∷ [] })

  unfoldable pub remove_saved : String → String → Library Unit
  remove_saved user_id track_id =
      store env (failed "exec")
        (λ _ w. record w { saved = filter (λ lt. not (is_saved_row user_id track_id lt)) w.saved })

  unfoldable pub list_saved : String → String → ℕ → Library (Page LibraryTrack)
  list_saved user_id cursor limit = do
    start ←
        or_raise (failed "invalid cursor")
          (start_of (saved_order deps) deps.saved_cursor saved_key cursor)
    fetch env (failed "query") (λ _ w.
        page_after (saved_order deps) deps.saved_cursor saved_key start limit
          (filter (λ lt. str_eq lt.user_id user_id) w.saved))
