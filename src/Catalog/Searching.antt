-- ===== src/Catalog/Searching.antt =====
-- A client of Search that follows the cursors.
use smusic.Prelude.{
  eq_iff, sym, ℕ, ◌<◌, ◌≤◌, String, ◌≡◌, refl, ap, Bool, false, some, List, [], ◌∷◌, All, any,
  filter, length, str_eq, arith,
}
use smusic.Prelude.Int.{ℤ, pos, negsuc}
use smusic.Effect.{Env, State, pure, ◌>>=◌, answer_of}
use smusic.Paging.{Page, sort}
use smusic.Paging.Sorted.{IsKeyed, Apart, filter-IsKeyed}
use smusic.Paging.Client.{Answers, follow, follow-sort}
use smusic.Catalog.Domain.{
  Artist, Album, Track, World, NameKey, Deps, Catalog, SearchOutput, search_type_track,
  search_type_album, search_type_artist,
}
use smusic.Catalog.Tables.{artist_key, album_key, track_key}
use smusic.Catalog.Repo
use smusic.Catalog.Service
use smusic.Catalog.Service.{search_limit}
use smusic.Catalog.Validity.{IsValid, AllApart}

search_limit-positive : (limit : ℤ) → 0 < search_limit limit
unfolding search_limit
search_limit-positive (negsuc n) = omega arith
search_limit-positive (pos n) = ground arith

length-filter : {A : Type 0} (p : A → Bool) (xs : List A) → length (filter p xs) ≤ length xs
length-filter p [] = omega arith
length-filter p (x ∷ xs) = ground (arith, length-filter p xs)

module _ {A : Type 0} (deps : Deps) (key : A → NameKey) where
  keys-Apart :
      (x : A) (ys : List A)
      → any (λ y. str_eq (key y).id (key x).id) ys ≡ false
      → All (Apart deps.name_order deps.name_cursor key x) ys
  keys-Apart x [] fresh = tt
  keys-Apart x (y ∷ ys) fresh = (other, keys-Apart x ys (ground (arith, fresh)))
    where
      other : Apart deps.name_order deps.name_cursor key x y
      other same =
          ground (arith, fresh, (eq_iff (key y).id (key x).id).1 (ap (λ k. k.id) (sym same)))

  -- Ids that are different make keys that are different.
  AllApart-IsKeyed :
      (xs : List A)
      → AllApart (λ a. (key a).id) xs
      → IsKeyed deps.name_order deps.name_cursor key xs
  AllApart-IsKeyed [] h = tt
  AllApart-IsKeyed (x ∷ xs) h = (keys-Apart x xs h.0, AllApart-IsKeyed xs h.1)

-- The calls of a client, one for each kind.
module _ (env : Env) (deps : Deps) (query : String) (limit : ℤ) where
  abbrev pub asks : String → String → Catalog SearchOutput
  asks search_type cursor =
      Service.search env deps
        (record { query = query; search_type = search_type; cursor = cursor; limit = limit })

  abbrev pub track_page : String → Catalog (Page Track)
  track_page cursor = asks search_type_track cursor >>= λ out.
      pure (record { items = out.tracks; next_cursor = out.next_cursor })

  abbrev pub album_page : String → Catalog (Page Album)
  album_page cursor = asks search_type_album cursor >>= λ out.
      pure (record { items = out.albums; next_cursor = out.next_cursor })

  abbrev pub artist_page : String → Catalog (Page Artist)
  artist_page cursor = asks search_type_artist cursor >>= λ out.
      pure (record { items = out.artists; next_cursor = out.next_cursor })

  -- What a search is meant to find: the rows that match, sorted by name or title and id.
  abbrev pub tracks_found : World → List Track
  tracks_found w =
      sort deps.name_order deps.name_cursor track_key
        (filter (λ t. deps.is_similar t.title (deps.trim_space query)) w.tracks)

  abbrev pub albums_found : World → List Album
  albums_found w =
      sort deps.name_order deps.name_cursor album_key
        (filter (λ a. deps.is_similar a.title (deps.trim_space query)) w.albums)

  abbrev pub artists_found : World → List Artist
  artists_found w =
      sort deps.name_order deps.name_cursor artist_key
        (filter (λ a. deps.is_similar a.name (deps.trim_space query)) w.artists)

  module _ (calm : (n : ℕ) → env.fault n ≡ false)
      (asked : str_eq (deps.trim_space query) "" ≡ false) where
    repo-Answers :
        {A : Type 0} (key : A → NameKey) (matches : A → Bool) (table : World → List A) (l : ℕ)
        (w : World)
        → Answers deps.name_order deps.name_cursor key
            (λ cursor. Repo.search_page env deps key matches table cursor l)
            l
            (filter matches (table w))
            w
    unfolding Repo.search_page ◌>>=◌
    repo-Answers key matches table l w cursor k n start = rw (start, calm n) refl

    track-Answers :
        (w : World)
        → Answers deps.name_order deps.name_cursor track_key track_page
            (search_limit limit)
            (filter (λ t. deps.is_similar t.title (deps.trim_space query)) w.tracks)
            w
    unfolding Service.search Service.found_tracks Repo.search_tracks ◌>>=◌
    track-Answers w cursor k n start =
        rw (asked, repo-Answers track_key _ (λ v. v.tracks) (search_limit limit) w cursor k n start)
          refl

    album-Answers :
        (w : World)
        → Answers deps.name_order deps.name_cursor album_key album_page
            (search_limit limit)
            (filter (λ t. deps.is_similar t.title (deps.trim_space query)) w.albums)
            w
    unfolding Service.search Service.found_albums Repo.search_albums ◌>>=◌
    album-Answers w cursor k n start =
        rw (asked, repo-Answers album_key _ (λ v. v.albums) (search_limit limit) w cursor k n start)
          refl

    artist-Answers :
        (w : World)
        → Answers deps.name_order deps.name_cursor artist_key artist_page
            (search_limit limit)
            (filter (λ t. deps.is_similar t.name (deps.trim_space query)) w.artists)
            w
    unfolding Service.search Service.found_artists Repo.search_artists ◌>>=◌
    artist-Answers w cursor k n start =
        rw
          (
            asked,
            repo-Answers artist_key _ (λ v. v.artists) (search_limit limit) w cursor k n start,
          )
          refl

    read_all :
        {A : Type 0} (key : A → NameKey) (m : String → Catalog (Page A)) (p : A → Bool)
        (rows : List A) (s : State World)
        → Answers deps.name_order deps.name_cursor key m
            (search_limit limit)
            (filter p rows)
            s.world
        → AllApart (λ a. (key a).id) rows
        → (fuel : ℕ) → length rows < fuel
        → answer_of (follow fuel m "" s)
          ≡ some (some (sort deps.name_order deps.name_cursor key (filter p rows)))
    read_all key m p rows s answers apart fuel enough =
        let keyed =
          filter-IsKeyed deps.name_order deps.name_cursor key p rows
            (AllApart-IsKeyed deps key rows apart) in
        let (t, e) =
          follow-sort deps.name_order deps.name_cursor key m (search_limit limit) (filter p rows)
            s.world answers keyed (search_limit-positive limit) fuel s.tick
            (omega (arith, enough, length-filter p rows)) in
        ap answer_of e

-- In tables that are valid, if no interaction fails: a client that asks Search for a query that is
-- not blank, of any kind and with any limit, and follows the cursors from the empty one until there
-- is none, reads all rows that match, each once, sorted by name or title and then by id; one call
-- more than the table has rows is enough.
pub search-found :
    (env : Env) (deps : Deps) (query : String) (limit : ℤ) (s : State World)
    → ((n : ℕ) → env.fault n ≡ false)
    → str_eq (deps.trim_space query) "" ≡ false
    → IsValid s.world
    → (fuel : ℕ) → length s.world.tracks < fuel
    → length s.world.albums < fuel
    → length s.world.artists < fuel
    → (answer_of (follow fuel (track_page env deps query limit) "" s)
        ≡ some (some (tracks_found env deps query limit s.world)))
      × (answer_of (follow fuel (album_page env deps query limit) "" s)
          ≡ some (some (albums_found env deps query limit s.world)))
      × (answer_of (follow fuel (artist_page env deps query limit) "" s)
          ≡ some (some (artists_found env deps query limit s.world)))
search-found env deps query limit s calm asked h fuel tracks albums artists = (
  read_all env deps query limit calm asked track_key _ _ s.world.tracks s
      (track-Answers env deps query limit calm asked s.world) h.track_ids fuel tracks,
  read_all env deps query limit calm asked album_key _ _ s.world.albums s
      (album-Answers env deps query limit calm asked s.world) h.album_ids fuel albums,
  read_all env deps query limit calm asked artist_key _ _ s.world.artists s
      (artist-Answers env deps query limit calm asked s.world) h.artist_ids fuel artists,
)
