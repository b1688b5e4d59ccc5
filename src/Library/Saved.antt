-- ===== src/Library/Saved.antt =====
-- Each user saves a track once.
pub mod Listing
use smusic.Effect.Keeps.{
  Keeps-read, Keeps-found, Keeps, Any, Post, Post-world, Keeps-fetch, Keeps-raise, Keeps-or_raise,
  Keeps-catch, Keeps-store, frame_rules,
}
use smusic.Library.Frame.{context-Kept, check_track-Kept}
use smusic.Prelude.{
  none, ℕ, String, ◌≡◌, refl, Bool, true, false, Option, some, List, [], ◌∷◌, ◌++◌, any, filter,
  arith, eq_iff, Bool-cases, inl, inr,
}
use smusic.Effect.{Env, State, ◌>>=◌, state_of, fetch, or_raise}
use smusic.Library.Domain.{
  Playlist, PlaylistTrack, LibraryTrack, World, Deps, Library, Error, context,
}
use smusic.Library.Repo
use smusic.Library.Repo.{is_saved_row, saved_key}
use smusic.Library.Service
use smusic.Library.Service.{saved_limit}
use smusic.Library.Calls.{
  Request, Call, serve_call, run, creates_playlist, lists_playlists, lists_tracks, adds_track,
  removes_track, saves_track, unsaves_track, lists_saved,
}

-- No user has saved a track twice.
abbrev pub SavedOnce : List LibraryTrack → Type 0
SavedOnce [] = Unit
SavedOnce (x ∷ xs) = (any (is_saved_row x.user_id x.track_id) xs ≡ false) × SavedOnce xs

any-last_none :
    {A : Type 0} (p : A → Bool) (xs : List A) (x : A)
    → any p xs ≡ false
    → p x ≡ false
    → any p (xs ++ x ∷ []) ≡ false
any-last_none p [] x h e = ground (arith, e)
any-last_none p (y ∷ xs) x h e = ground (arith, h, any-last_none p xs x (ground (arith, h)) e)

any-filter :
    {A : Type 0} (p q : A → Bool) (xs : List A) → any p xs ≡ false → any p (filter q xs) ≡ false
any-filter p q [] h = refl
any-filter p q (x ∷ xs) h = ground (arith, h, any-filter p q xs (ground (arith, h)))

append-SavedOnce :
    (xs : List LibraryTrack) (x : LibraryTrack)
    → SavedOnce xs
    → any (is_saved_row x.user_id x.track_id) xs ≡ false
    → SavedOnce (xs ++ x ∷ [])
append-SavedOnce [] x h fresh = (refl, tt)
append-SavedOnce (y ∷ xs) x h fresh = (
  any-last_none _ xs x h.0 (
      ground (
        arith,
        fresh,
        eq_iff y.user_id x.user_id,
        eq_iff x.user_id y.user_id,
        eq_iff y.track_id x.track_id,
        eq_iff x.track_id y.track_id,
      )),
  append-SavedOnce xs x h.1 (ground (arith, fresh)),
)

pub filter-SavedOnce :
    (q : LibraryTrack → Bool) (xs : List LibraryTrack) → SavedOnce xs → SavedOnce (filter q xs)
filter-SavedOnce q [] h = tt
filter-SavedOnce q (x ∷ xs) h = elim (Bool-cases (q x)) [
  | inl e ↦ rw e (any-filter _ q xs h.0, filter-SavedOnce q xs h.1)
  | inr e ↦ rw e (filter-SavedOnce q xs h.1)
]

module _ (env : Env) (deps : Deps) where
  abbrev Once : World → Type 0
  Once w = SavedOnce w.saved

  insert-Once :
      (accepts : ℕ → World → Bool) (write : World → World)
      → ((w : World) → Once w → Once (write w))
      → Keeps Once Any (Repo.insert env deps accepts write)
  unfolding Repo.insert ◌>>=◌
  insert-Once accepts write h = record { at = λ s k. ground (arith, k, h s.world k) }

  create-Once : (p : Playlist) → Keeps Once Any (Repo.create env deps p)
  unfolding Repo.create
  create-Once p = insert-Once _ _ (λ w h. h)

  add_entry-Once : (pt : PlaylistTrack) → Keeps Once Any (Repo.add_entry env deps pt)
  unfolding Repo.add_entry
  add_entry-Once pt = insert-Once _ _ (λ w h. h)

  remove_entry-Once :
      (playlist_id track_id : String)
      → Keeps Once Any (Repo.remove_entry env deps playlist_id track_id)
  unfolding Repo.remove_entry
  remove_entry-Once playlist_id track_id = record { at = λ s h. ground (arith, h) }

  add_saved-Once : (lt : LibraryTrack) → Keeps Once Any (Repo.add_saved env deps lt)
  unfolding Repo.add_saved
  add_saved-Once lt = insert-Once _ _ λ w h.
      elim (Bool-cases (any (is_saved_row lt.user_id lt.track_id) w.saved)) [
        | inl e ↦ rw e h
        | inr e ↦ rw e (append-SavedOnce w.saved lt h e)
      ]

  remove_saved-Once :
      (user_id track_id : String) → Keeps Once Any (Repo.remove_saved env deps user_id track_id)
  unfolding Repo.remove_saved
  remove_saved-Once user_id track_id = Keeps-store env _ _ (λ t w h. filter-SavedOnce _ w.saved h)

  serve_call-Once : (user_id : String) (c : Call) → Keeps Once Any (serve_call env deps user_id c)
  unfolding serve_call Service.create_playlist Service.list_playlists Repo.list_by_owner
      Service.list_playlist_tracks Service.get_playlist Repo.get_by_id Repo.list_entries
      Service.save_track Service.unsave_track Service.list_saved_tracks Repo.list_saved
      Service.add_track Service.remove_track Service.get_owned_playlist Service.compute_position
      Repo.max_position
  serve_call-Once user_id (creates_playlist in_) =
      search (frame_rules, context-Kept, create-Once) depth 40
  serve_call-Once user_id lists_playlists = search (frame_rules, context-Kept, Keeps-read) depth 40
  serve_call-Once user_id (lists_tracks playlist_id) =
      search (frame_rules, context-Kept, Keeps-read, Keeps-found) depth 40
  serve_call-Once user_id (adds_track playlist_id track_id position) =
      search (frame_rules, context-Kept, Keeps-read, Keeps-found, check_track-Kept, add_entry-Once)
        depth 60
  serve_call-Once user_id (removes_track playlist_id track_id) =
      search (frame_rules, context-Kept, Keeps-read, Keeps-found, remove_entry-Once) depth 60
  serve_call-Once user_id (saves_track track_id) =
      search (frame_rules, context-Kept, check_track-Kept, add_saved-Once) depth 40
  serve_call-Once user_id (unsaves_track track_id) =
      search (frame_rules, context-Kept, remove_saved-Once) depth 40
  serve_call-Once user_id (lists_saved cursor limit) =
      search (frame_rules, context-Kept, Keeps-read, Keeps-found) depth 40

  pub run-SavedOnce :
      (s : State World) (requests : List Request)
      → SavedOnce s.world.saved
      → SavedOnce (run env deps s requests).world.saved
  unfolding run
  run-SavedOnce s [] h = h
  run-SavedOnce s (r ∷ rs) h =
      let served = serve_call env deps r.user_id r.call s in
      run-SavedOnce (state_of served) rs
        (Post-world Once Any served ((serve_call-Once r.user_id r.call).at s h))
