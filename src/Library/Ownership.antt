-- ===== src/Library/Ownership.antt =====
-- Only its owner changes a playlist.
pub mod Private
use smusic.Effect.Keeps.{
  Keeps-read, Keeps-found, Keeps, Any, Post, Post-world, Keeps-fetch, Keeps-bind, Keeps-then,
  Keeps-pure, Keeps-done, Keeps-raise, Keeps-or_raise, Keeps-catch, Keeps-guard, Keeps-guarded,
  Keeps-now, Keeps-new_id, Keeps-store, frame_rules,
}
use smusic.Library.Frame.{context-Kept, check_track-Kept}
use smusic.Prelude.{
  find-append, filter-append_none, filter-filter, ℕ, String, ◌≡◌, ◌≢◌, refl, sym, ◌∙◌, ap, subst,
  Bool, true, false, not, ◌&&◌, ◌||◌, Option, none, some, List, [], ◌∷◌, ◌++◌, find, filter, any,
  All, arith, str_eq, if◌then◌else◌, some-inj, eq_iff, Bool-cases, inl, inr,
}
use smusic.Library.Domain.{
  visibility_private, Playlist, PlaylistTrack, LibraryTrack, World, Deps, Library, Error, context,
}
use smusic.Library.Calls.{
  creates_playlist, lists_playlists, lists_tracks, adds_track, removes_track, saves_track,
  unsaves_track, lists_saved, Request, Call, serve_call, run, ignore,
}
use smusic.Effect.{
  Env, State, Outcome, Act, ok, err, bump, IsErr, fetch, or_raise, ◌>>=◌, ◌>>◌, state_of,
}
use smusic.Library.Repo
use smusic.Library.Repo.{playlist_by_id, entries_of, in_playlist}
use smusic.Library.Service

-- The playlist is there, with these entries.
abbrev pub Holds : Playlist → List PlaylistTrack → World → Type 0
Holds p entries w = (playlist_by_id p.id w.playlists ≡ some p) × (entries_of p.id w ≡ entries)

module _ (env : Env) (deps : Deps) (p : Playlist) (entries : List PlaylistTrack) where
  insert-Holds :
      (accepts : ℕ → World → Bool) (write : World → World)
      → ((w : World) → Holds p entries w → Holds p entries (write w))
      → Keeps (Holds p entries) Any (Repo.insert env deps accepts write)
  unfolding Repo.insert ◌>>=◌
  insert-Holds accepts write h = record { at = λ s k. ground (arith, k, h s.world k) }

  create-Holds : (q : Playlist) → Keeps (Holds p entries) Any (Repo.create env deps q)
  unfolding Repo.create
  create-Holds q = insert-Holds _ _ (λ w h. (find-append _ w.playlists _ p h.0, h.1))

  add_entry-Holds :
      (pt : PlaylistTrack)
      → pt.playlist_id ≢ p.id
      → Keeps (Holds p entries) Any (Repo.add_entry env deps pt)
  unfolding Repo.add_entry
  add_entry-Holds pt other = insert-Holds _ _ (λ w h. (
    h.0,
    filter-append_none (in_playlist p.id) w.entries pt
          (ground (arith, other, eq_iff pt.playlist_id p.id))
        ∙ h.1,
  ))

  remove_entry-Holds :
      (playlist_id track_id : String)
      → playlist_id ≢ p.id
      → Keeps (Holds p entries) Any (Repo.remove_entry env deps playlist_id track_id)
  unfolding Repo.remove_entry ◌>>=◌
  remove_entry-Holds playlist_id track_id other = record {
    at = λ s h. ground (
      arith,
      h,
      filter-filter (in_playlist p.id)
          (λ e. not (in_playlist playlist_id e && str_eq e.track_id track_id)) s.world.entries kept,
    );
  }
    where
      kept :
          (e : PlaylistTrack)
          → in_playlist p.id e ≡ true
          → not (in_playlist playlist_id e && str_eq e.track_id track_id) ≡ true
      kept e mine =
          ground (arith, mine, other, eq_iff e.playlist_id playlist_id, eq_iff e.playlist_id p.id)

  add_saved-Holds : (lt : LibraryTrack) → Keeps (Holds p entries) Any (Repo.add_saved env deps lt)
  unfolding Repo.add_saved
  add_saved-Holds lt = insert-Holds _ _ (λ w h. ground (arith, h))

  remove_saved-Holds :
      (user_id track_id : String)
      → Keeps (Holds p entries) Any (Repo.remove_saved env deps user_id track_id)
  unfolding Repo.remove_saved
  remove_saved-Holds user_id track_id = Keeps-store env _ _ (λ t w h. h)

  -- What a lookup answers for the playlist's own id.
  abbrev pub Own : String → Playlist → Type 0
  Own playlist_id q = playlist_id ≡ p.id → q ≡ p

  pub get_playlist-Own :
      (playlist_id : String)
      → Keeps (Holds p entries) (Own playlist_id) (Service.get_playlist env deps playlist_id)
  unfolding Service.get_playlist Repo.get_by_id
  get_playlist-Own playlist_id = context-Kept _ _ (
      Keeps-bind {Q = λ (o : Option Playlist). playlist_id ≡ p.id → o ≡ some p} _ _
        (Keeps-fetch env _ _ (λ t w h same. ap (λ i. playlist_by_id i w.playlists) same ∙ h.0))
        (λ o found. Keeps-or_raise _ o (λ q e same. some-inj (sym e ∙ found same))))

  -- Nobody else gets hold of it.
  get_owned_playlist-Other :
      (playlist_id requester_id : String)
      → requester_id ≢ p.owner_id
      → Keeps
          (Holds p entries)
          (λ q. playlist_id ≢ p.id)
          (Service.get_owned_playlist env deps playlist_id requester_id)
  unfolding Service.get_owned_playlist
  get_owned_playlist-Other playlist_id requester_id other = Keeps-guarded _ _ _ λ named.
      Keeps-bind _ _ (get_playlist-Own playlist_id) λ q own. Keeps-guarded _ _ _ λ owns.
        Keeps-pure q (λ same.
          other (sym ((eq_iff q.owner_id requester_id).0 owns) ∙ ap (λ x. x.owner_id) (own same)))

  compute_position-Holds :
      (playlist_id position : String)
      → Keeps (Holds p entries) Any (Service.compute_position env deps playlist_id position)
  unfolding Service.compute_position Repo.list_entries Repo.max_position
  compute_position-Holds playlist_id position =
      search (frame_rules, context-Kept, Keeps-read) depth 30

  -- The calls of another user.
  module _ (user_id : String) (other : user_id ≢ p.owner_id) where
    add_track-Holds :
        (playlist_id track_id position : String)
        → Keeps
            (Holds p entries)
            Any
            (Service.add_track env deps playlist_id user_id track_id position)
    unfolding Service.add_track
    add_track-Holds playlist_id track_id position = Keeps-then _ _ (Keeps-guard _ _) λ _.
        Keeps-bind _ _ (get_owned_playlist-Other playlist_id user_id other) λ q foreign.
          search
            (
              frame_rules,
              context-Kept,
              check_track-Kept,
              compute_position-Holds,
              add_entry-Holds _ foreign,
            )
            depth 40

    remove_track-Holds :
        (playlist_id track_id : String)
        → Keeps (Holds p entries) Any (Service.remove_track env deps playlist_id user_id track_id)
    unfolding Service.remove_track
    remove_track-Holds playlist_id track_id = Keeps-then _ _ (Keeps-guard _ _) λ _.
        Keeps-bind _ _ (get_owned_playlist-Other playlist_id user_id other)
          λ q foreign. context-Kept _ _ (remove_entry-Holds playlist_id track_id foreign)

    serve_call-Holds : (c : Call) → Keeps (Holds p entries) Any (serve_call env deps user_id c)
    unfolding serve_call Service.create_playlist Service.list_playlists Repo.list_by_owner
        Service.list_playlist_tracks Service.get_playlist Repo.get_by_id Repo.list_entries
        Service.save_track Service.unsave_track Service.list_saved_tracks Repo.list_saved
    serve_call-Holds (creates_playlist in_) =
        search (frame_rules, context-Kept, create-Holds) depth 40
    serve_call-Holds lists_playlists = search (frame_rules, context-Kept, Keeps-read) depth 40
    serve_call-Holds (lists_tracks playlist_id) =
        search (frame_rules, context-Kept, Keeps-read, Keeps-found) depth 40
    serve_call-Holds (adds_track playlist_id track_id position) =
        Keeps-then _ _ (add_track-Holds playlist_id track_id position) (λ _. Keeps-done tt)
    serve_call-Holds (removes_track playlist_id track_id) = remove_track-Holds playlist_id track_id
    serve_call-Holds (saves_track track_id) =
        search (frame_rules, context-Kept, check_track-Kept, add_saved-Holds) depth 40
    serve_call-Holds (unsaves_track track_id) =
        search (frame_rules, context-Kept, remove_saved-Holds) depth 40
    serve_call-Holds (lists_saved cursor limit) =
        search (frame_rules, context-Kept, Keeps-read, Keeps-found) depth 40

pub run-Holds :
    (env : Env) (deps : Deps) (p : Playlist) (entries : List PlaylistTrack) (s : State World)
    (requests : List Request)
    → All (λ r. r.user_id ≢ p.owner_id) requests
    → Holds p entries s.world
    → Holds p entries (run env deps s requests).world
unfolding run
run-Holds env deps p entries s [] others h = h
run-Holds env deps p entries s (r ∷ rs) others h =
    let served = serve_call env deps r.user_id r.call s in
    run-Holds env deps p entries (state_of served) rs others.1 (
      Post-world (Holds p entries) Any served
        ((serve_call-Holds env deps p entries r.user_id others.0 r.call).at s h))

-- Whatever calls other users than the owner make, in any number and order, failing or not: the
-- playlist stays in the table as it was, and so do its entries.
pub run-entries_of :
    (env : Env) (deps : Deps) (p : Playlist) (s : State World) (requests : List Request)
    → playlist_by_id p.id s.world.playlists ≡ some p
    → All (λ r. r.user_id ≢ p.owner_id) requests
    → (playlist_by_id p.id (run env deps s requests).world.playlists ≡ some p)
      × (entries_of p.id (run env deps s requests).world ≡ entries_of p.id s.world)
run-entries_of env deps p s requests stored others =
    run-Holds env deps p (entries_of p.id s.world) s requests others (stored, refl)
