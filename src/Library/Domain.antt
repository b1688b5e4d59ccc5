-- ===== src/Library/Domain.antt =====
-- backend/internal/library/domain.go, the inputs and results of service.go, and what the module takes
-- from outside. A position is a float64; none is ever negative here, and the bits of such floats are
-- ordered like numbers, so a position is its bits.
use smusic.Prelude.{true, ℕ, ◌≤◌, String, ◌≡◌, Bool, Option, List, [], ◌∷◌, All, ◌||◌, str_eq}
use smusic.Effect.{Act, catch, raise}
use smusic.Paging.{Order, Codec}

abbrev pub visibility_private : String
visibility_private = "private"

abbrev pub visibility_unlisted : String
visibility_unlisted = "unlisted"

abbrev pub visibility_public : String
visibility_public = "public"

abbrev pub visibility_collaborative : String
visibility_collaborative = "collaborative"

pub record Playlist : Type 0 where
  pub id : String
  pub owner_id : String
  pub title : String
  pub description : String
  pub visibility : String
  pub cover_url : String
  pub created_at : ℕ
  pub updated_at : ℕ

pub record PlaylistTrack : Type 0 where
  pub id : String
  pub playlist_id : String
  pub track_id : String
  pub position : ℕ
  pub added_by : String
  pub added_at : ℕ

pub record LibraryTrack : Type 0 where
  pub user_id : String
  pub track_id : String
  pub added_at : ℕ

-- The sentinel errors, and `failed` for an error of a dependency wrapped with its context.
pub data Error : Type 0 where
  invalid_input : String → Error
  playlist_not_found not_owner track_not_found track_not_in_playlist : Error
  failed : String → Error

pub record CreatePlaylistInput : Type 0 where
  pub owner_id : String
  pub title : String
  pub description : String
  pub visibility : String

-- The tables.
pub record World : Type 0 where
  pub playlists : List Playlist
  pub entries : List PlaylistTrack
  pub saved : List LibraryTrack

-- When a track was saved, and its id: the key of a list of saved tracks.
pub record SavedKey : Type 0 where
  pub added_at : ℕ
  pub track_id : String

-- 1024.0, and the infinity above all finite floats.
abbrev pub position_gap : ℕ
position_gap = 0x4090000000000000

abbrev pub infinity : ℕ
infinity = 0x7FF0000000000000

-- The catalog (`none` is its error), the tables that rows refer to, Go's strings, the arithmetic of
-- float64, and how the database sorts: a statement leaves the order of rows with one position open.
pub record Deps : Type 0 where
  pub track_exists : ℕ → String → Option Bool
  pub is_user : String → Bool
  pub is_track : ℕ → String → Bool
  pub trim_space : String → String
  pub half : ℕ → ℕ
  pub add : ℕ → ℕ → ℕ
  pub by_created_at : List Playlist → List Playlist
  pub by_position : List PlaylistTrack → List PlaylistTrack
  pub by_position-nil : (rows : List PlaylistTrack) → by_position rows ≡ [] → rows ≡ []
  pub by_position-least :
      (rows : List PlaylistTrack) (first : PlaylistTrack) (rest : List PlaylistTrack)
      → by_position rows ≡ first ∷ rest
      → All (λ row. first.position ≤ row.position) rows
  pub by_position-among :
      (rows : List PlaylistTrack) (first : PlaylistTrack) (rest : List PlaylistTrack)
      (test : PlaylistTrack → Bool)
      → by_position rows ≡ first ∷ rest
      → All (λ row. test row ≡ true) rows
      → test first ≡ true
  -- How the database compares identifiers.
  pub track_id_order : Order String
  pub saved_cursor : Codec SavedKey

abbrev pub Library : Type 0 → Type 0
Library A = Act World Error A

abbrev wrapped : String → Error → Error
wrapped text (failed _) = failed text
wrapped text e = e

-- fmt.Errorf("context: %w", err), as errors.Is sees it.
abbrev pub context : {A : Type 0} → String → Library A → Library A
context text m = catch m (λ e. raise (wrapped text e))

unfoldable pub is_valid_visibility : String → Bool
is_valid_visibility v =
    str_eq v visibility_private
    || str_eq v visibility_unlisted
    || str_eq v visibility_public
    || str_eq v visibility_collaborative
