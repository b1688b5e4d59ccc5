-- ===== src/Library/Ownership/Private.antt =====
-- Only its owner reads a private playlist.
use smusic.Prelude.{
  String, ◌≡◌, ◌≢◌, refl, subst, true, not, ◌&&◌, some, List, All, arith, str_eq, eq_iff,
}
use smusic.Effect.{Env, State, Outcome, ok, err, IsErr}
use smusic.Effect.Keeps.{Keeps, Post, Keeps-bind, Keeps-guarded}
use smusic.Library.Domain.{Playlist, PlaylistTrack, World, Deps, visibility_private}
use smusic.Library.Repo.{playlist_by_id, entries_of}
use smusic.Library.Service
use smusic.Library.Calls.{Request, run}
use smusic.Library.Ownership.{Holds, run-Holds, get_playlist-Own}

Post-IsErr : {W E A : Type 0} (P : W → Type 0) (o : Outcome W E A) → Post P (λ _. ⊥) o → IsErr o
Post-IsErr P (ok a s) h = h.1
Post-IsErr P (err e s) h = tt

hidden_from :
    (p : Playlist) (user_id : String)
    → p.visibility ≡ visibility_private
    → user_id ≢ p.owner_id
    → not (str_eq p.visibility visibility_private && not (str_eq p.owner_id user_id)) ≡ true
    → ⊥
hidden_from p user_id hidden other shown =
    ground (
      arith,
      hidden,
      shown,
      other,
      eq_iff p.visibility visibility_private,
      eq_iff p.owner_id user_id,
    )

list_playlist_tracks-Never :
    (env : Env) (deps : Deps) (p : Playlist) (entries : List PlaylistTrack) (user_id : String)
    → p.visibility ≡ visibility_private
    → user_id ≢ p.owner_id
    → Keeps (Holds p entries) (λ _. ⊥) (Service.list_playlist_tracks env deps p.id user_id)
unfolding Service.list_playlist_tracks
list_playlist_tracks-Never env deps p entries user_id hidden other = Keeps-guarded _ _ _ λ named.
    Keeps-bind _ _ (get_playlist-Own env deps p entries p.id) λ q own. Keeps-guarded _ _ _ λ shown.
      absurd (
        hidden_from p user_id hidden other (
          subst
            (λ x.
              not (str_eq x.visibility visibility_private && not (str_eq x.owner_id user_id))
              ≡ true)
            (own refl) shown))

-- A private playlist is listed to nobody but its owner: whatever calls other users have made before,
-- and whatever fails, the call of another user is answered with an error.
pub list_playlist_tracks-IsErr :
    (env : Env) (deps : Deps) (p : Playlist) (s : State World) (requests : List Request)
    (user_id : String)
    → playlist_by_id p.id s.world.playlists ≡ some p
    → p.visibility ≡ visibility_private
    → All (λ r. r.user_id ≢ p.owner_id) requests
    → user_id ≢ p.owner_id
    → IsErr (Service.list_playlist_tracks env deps p.id user_id (run env deps s requests))
list_playlist_tracks-IsErr env deps p s requests user_id stored hidden others other =
    Post-IsErr _ _ (
      (list_playlist_tracks-Never env deps p (entries_of p.id s.world) user_id hidden other).at
        (run env deps s requests)
        (run-Holds env deps p (entries_of p.id s.world) s requests others (stored, refl)))
