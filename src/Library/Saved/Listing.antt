-- ===== src/Library/Saved/Listing.antt =====
-- A client of ListSavedTracks that follows the cursors.
use smusic.Prelude.{
  ◌∙◌, ℕ, ◌<◌, ◌≤◌, String, ◌≡◌, ◌≢◌, refl, sym, ap, Bool, false, some, List, [], ◌∷◌, All, All-map,
  any, filter, length, str_eq, arith, eq_iff, Bool-cases, inl, inr,
}
use smusic.Prelude.Int.{ℤ, pos, negsuc}
use smusic.Effect.{Env, State, ◌>>=◌, answer_of}
use smusic.Paging.{Page, sort}
use smusic.Paging.Sorted.{IsKeyed, IsSorted, Apart, sort-IsSorted}
use smusic.Paging.Client.{Answers, follow, follow-sort}
use smusic.Library.Domain.{LibraryTrack, World, Deps, Library}
use smusic.Library.Order.{saved_order}
use smusic.Library.Repo
use smusic.Library.Repo.{is_saved_row, saved_key}
use smusic.Library.Service
use smusic.Library.Service.{saved_limit}
use smusic.Library.Calls.{Request, run}
use smusic.Library.Saved.{SavedOnce, filter-SavedOnce, run-SavedOnce}

saved_limit-positive : (limit : ℤ) → 0 < saved_limit limit
unfolding saved_limit
saved_limit-positive (negsuc n) = omega arith
saved_limit-positive (pos n) = ground arith

length-filter : {A : Type 0} (p : A → Bool) (xs : List A) → length (filter p xs) ≤ length xs
length-filter p [] = omega arith
length-filter p (x ∷ xs) = ground (arith, length-filter p xs)

abbrev pub rows_of : String → List LibraryTrack → List LibraryTrack
rows_of user_id = filter (λ lt. str_eq lt.user_id user_id)

rows_of-All :
    (user_id : String) (xs : List LibraryTrack)
    → All (λ x. x.user_id ≡ user_id) (rows_of user_id xs)
rows_of-All user_id [] = tt
rows_of-All user_id (x ∷ xs) = elim (Bool-cases (str_eq x.user_id user_id)) [
  | inl e ↦ rw e ((eq_iff x.user_id user_id).0 e, rows_of-All user_id xs)
  | inr e ↦ rw e (rows_of-All user_id xs)
]

module _ (env : Env) (deps : Deps) (user_id : String) (limit : ℤ) where
  keys-Apart :
      (x : LibraryTrack) (ys : List LibraryTrack)
      → x.user_id ≡ user_id
      → All (λ y. y.user_id ≡ user_id) ys
      → any (is_saved_row x.user_id x.track_id) ys ≡ false
      → All (Apart (saved_order deps) deps.saved_cursor saved_key x) ys
  keys-Apart x [] mine all fresh = tt
  keys-Apart x (y ∷ ys) mine all fresh = (other, keys-Apart x ys mine all.1 (ground (arith, fresh)))
    where
      other : Apart (saved_order deps) deps.saved_cursor saved_key x y
      other same = ground (
        arith,
        fresh,
        (eq_iff y.user_id x.user_id).1 (all.0 ∙ sym mine),
        (eq_iff y.track_id x.track_id).1 (ap (λ k. k.track_id) (sym same)),
      )

  SavedOnce-IsKeyed :
      (xs : List LibraryTrack)
      → SavedOnce xs
      → All (λ x. x.user_id ≡ user_id) xs
      → IsKeyed (saved_order deps) deps.saved_cursor saved_key xs
  SavedOnce-IsKeyed [] h all = tt
  SavedOnce-IsKeyed (x ∷ xs) h all =
      (keys-Apart x xs all.0 all.1 h.0, SavedOnce-IsKeyed xs h.1 all.1)

  abbrev pub saved_page : String → Library (Page LibraryTrack)
  saved_page cursor = Service.list_saved_tracks env deps user_id cursor limit

  saved-Answers :
      ((n : ℕ) → env.fault n ≡ false)
      → str_eq user_id "" ≡ false
      → (w : World)
      → Answers
          (saved_order deps)
          deps.saved_cursor
          saved_key
          saved_page
          (saved_limit limit)
          (rows_of user_id w.saved)
          w
  unfolding Service.list_saved_tracks Repo.list_saved ◌>>=◌
  saved-Answers calm named w cursor k n start = rw (named, start, calm n) refl

-- Nothing comes before what was saved later.
abbrev pub NewestFirst : List LibraryTrack → Type 0
NewestFirst [] = Unit
NewestFirst (x ∷ xs) = All (λ y. y.added_at ≤ x.added_at) xs × NewestFirst xs

IsSorted-NewestFirst :
    (deps : Deps) (xs : List LibraryTrack)
    → IsSorted (saved_order deps) deps.saved_cursor saved_key xs
    → NewestFirst xs
IsSorted-NewestFirst deps [] h = tt
IsSorted-NewestFirst deps (x ∷ xs) h =
    (All-map _ _ (λ y above. ground (arith, above)) xs h.0, IsSorted-NewestFirst deps xs h.1)

-- After any calls of any users, from a table in which nobody has saved a track twice, and if no
-- interaction fails: a client that lists a user's saved tracks, with any limit, and follows the
-- cursors from the empty one until there is none, reads all of that user's rows and no others, each
-- once, in the order of the statement, and that is newest first: no row is followed by one that was
-- saved later. One call more than there are rows is enough.
pub list_saved_tracks-rows_of :
    (env : Env) (deps : Deps) (user_id : String) (limit : ℤ) (s : State World)
    (requests : List Request)
    → ((n : ℕ) → env.fault n ≡ false)
    → user_id ≢ ""
    → SavedOnce s.world.saved
    → (fuel : ℕ) → length (run env deps s requests).world.saved < fuel
    → (answer_of (follow fuel (saved_page env deps user_id limit) "" (run env deps s requests))
        ≡ some (
            some (
              sort
                (saved_order deps)
                deps.saved_cursor
                saved_key
                (rows_of user_id (run env deps s requests).world.saved))))
      × NewestFirst (
          sort
            (saved_order deps)
            deps.saved_cursor
            saved_key
            (rows_of user_id (run env deps s requests).world.saved))
list_saved_tracks-rows_of env deps user_id limit s requests calm named once fuel enough =
    let after = run env deps s requests in
    let rows = rows_of user_id after.world.saved in
    let kept =
      filter-SavedOnce (λ lt. str_eq lt.user_id user_id) after.world.saved
        (run-SavedOnce env deps s requests once) in
    let keyed =
      SavedOnce-IsKeyed env deps user_id limit rows kept (rows_of-All user_id after.world.saved) in
    let (t, e) =
      follow-sort (saved_order deps) deps.saved_cursor saved_key (saved_page env deps user_id limit)
        (saved_limit limit) rows after.world
        (saved-Answers env deps user_id limit calm (ground (arith, named, eq_iff user_id ""))
          after.world)
        keyed (saved_limit-positive limit) fuel after.tick
        (omega (
          arith,
          enough,
          length-filter (λ (lt : LibraryTrack). str_eq lt.user_id user_id) after.world.saved,
        )) in
    (
      ap answer_of e,
      IsSorted-NewestFirst deps _
          (sort-IsSorted (saved_order deps) deps.saved_cursor saved_key rows keyed),
    )
