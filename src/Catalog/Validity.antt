-- ===== src/Catalog/Validity.antt =====
-- What every table of the catalog holds after any sequence of calls.
pub mod Rows
pub mod Steps
pub mod Calls
use smusic.Prelude.{subst, sym}
use smusic.Prelude.{All-map, Bool-cases, inl, inr}
use smusic.Prelude.{
  String, ◌≡◌, refl, Bool, true, false, not, ◌&&◌, ◌||◌, List, [], ◌∷◌, ◌++◌, any, All, arith,
  str_eq, eq_iff,
}
use smusic.Prelude.Int.{is_positive, fits}
use smusic.Catalog.Domain.{
  Artist, Album, Track, AudioAsset, Credit, World, is_valid_album_type, is_valid_artist_role,
}
use smusic.Catalog.Tables.{has_artist, has_album, has_track}

-- Whether a track has a credit.
abbrev pub is_credited : String → World → Bool
is_credited id w = any (λ c. str_eq c.track_id id) w.credits

-- The ids of the rows are pairwise different.
abbrev pub AllApart : {A : Type 0} → (A → String) → List A → Type 0
AllApart id [] = Unit
AllApart id (x ∷ xs) = (any (λ y. str_eq (id y) (id x)) xs ≡ false) × AllApart id xs

abbrev pub valid_artist : Artist → Bool
valid_artist a = not (str_eq a.name "")

abbrev pub valid_album : World → Album → Bool
valid_album w a =
    not (str_eq a.title "")
    && is_valid_album_type a.album_type
    && (str_eq a.primary_artist_id "" || has_artist a.primary_artist_id w)

-- `spare` are the tracks that need no credit.
abbrev pub valid_track : (String → Bool) → World → Track → Bool
valid_track spare w t =
    not (str_eq t.title "")
    && (is_positive t.duration_ms && fits 2147483648 t.duration_ms)
    && (str_eq t.album_id "" || has_album t.album_id w)
    && (spare t.id || is_credited t.id w)

abbrev pub valid_credit : World → Credit → Bool
valid_credit w c = is_valid_artist_role c.role && has_artist c.artist_id w && has_track c.track_id w

abbrev pub valid_asset : World → AudioAsset → Bool
valid_asset w a = has_track a.track_id w

pub record ValidBut (spare : String → Bool) (w : World) : Type 0 where
  pub artists : All (λ a. valid_artist a ≡ true) w.artists
  pub albums : All (λ a. valid_album w a ≡ true) w.albums
  pub tracks : All (λ t. valid_track spare w t ≡ true) w.tracks
  pub credits : All (λ c. valid_credit w c ≡ true) w.credits
  pub assets : All (λ a. valid_asset w a ≡ true) w.assets
  pub artist_ids : AllApart (λ a. a.id) w.artists
  pub album_ids : AllApart (λ a. a.id) w.albums
  pub track_ids : AllApart (λ t. t.id) w.tracks

abbrev pub IsValid : World → Type 0
IsValid w = ValidBut (λ _. false) w

-- Appending rows: what was found is still found.
any-append :
    {A : Type 0} (p : A → Bool) (xs ys : List A) → any p xs ≡ true → any p (xs ++ ys) ≡ true
any-append p [] ys h = cc
any-append p (x ∷ xs) ys h = ground (arith, any-append p xs ys)

pub any-last :
    {A : Type 0} (p : A → Bool) (xs : List A) (x : A) → p x ≡ true → any p (xs ++ x ∷ []) ≡ true
any-last p [] x h = ground arith
any-last p (y ∷ xs) x h = ground (arith, any-last p xs x)

any-append_none :
    {A : Type 0} (p : A → Bool) (xs : List A) (x : A)
    → any p xs ≡ false
    → p x ≡ false
    → any p (xs ++ x ∷ []) ≡ false
any-append_none p [] x h e = ground (arith, e)
any-append_none p (y ∷ xs) x h e = ground (arith, h, any-append_none p xs x (ground (arith, h)) e)

append-AllApart :
    {A : Type 0} (id : A → String) (xs : List A) (x : A)
    → AllApart id xs
    → any (λ y. str_eq (id y) (id x)) xs ≡ false
    → AllApart id (xs ++ x ∷ [])
append-AllApart id [] x h fresh = (refl, tt)
append-AllApart id (y ∷ xs) x h fresh = (
  any-append_none (λ z. str_eq (id z) (id y)) xs x h.0
      (ground (arith, fresh, eq_iff (id y) (id x), eq_iff (id x) (id y))),
  append-AllApart id xs x h.1 (ground (arith, fresh)),
)

-- A row that no other row clashes with has an id of its own.
pub any-or_none :
    {A : Type 0} (p q : A → Bool) (xs : List A)
    → any (λ x. p x || q x) xs ≡ false
    → any p xs ≡ false
any-or_none p q [] h = refl
any-or_none p q (x ∷ xs) h = ground (arith, h, any-or_none p q xs (ground (arith, h)))

-- A world that has what another one has, and maybe more.
pub record Grown (w v : World) : Type 0 where
  pub artist : (id : String) → has_artist id w ≡ true → has_artist id v ≡ true
  pub album : (id : String) → has_album id w ≡ true → has_album id v ≡ true
  pub track : (id : String) → has_track id w ≡ true → has_track id v ≡ true
  pub credit : (id : String) → is_credited id w ≡ true → is_credited id v ≡ true

module _ (w v : World) (g : Grown w v) where
  valid_album-Grown : (a : Album) → valid_album w a ≡ true → valid_album v a ≡ true
  valid_album-Grown a h = ground (arith, h, g.artist a.primary_artist_id)

  valid_track-Grown :
      (spare : String → Bool) (t : Track)
      → valid_track spare w t ≡ true
      → valid_track spare v t ≡ true
  valid_track-Grown spare t h = ground (arith, h, g.album t.album_id, g.credit t.id)

  valid_credit-Grown : (c : Credit) → valid_credit w c ≡ true → valid_credit v c ≡ true
  valid_credit-Grown c h = ground (arith, h, g.artist c.artist_id, g.track c.track_id)

  valid_asset-Grown : (a : AudioAsset) → valid_asset w a ≡ true → valid_asset v a ≡ true
  valid_asset-Grown a h = g.track a.track_id h

-- Rows that were valid stay valid when a table grows.
pub ValidBut-Grown :
    (spare : String → Bool) (w v : World)
    → Grown w v
    → ValidBut spare w
    → All (λ a. valid_album v a ≡ true) w.albums
      × All (λ t. valid_track spare v t ≡ true) w.tracks
      × All (λ c. valid_credit v c ≡ true) w.credits
      × All (λ a. valid_asset v a ≡ true) w.assets
ValidBut-Grown spare w v g h = (
  All-map _ _ (valid_album-Grown w v g) w.albums h.albums,
  All-map _ _ (valid_track-Grown w v g spare) w.tracks h.tracks,
  All-map _ _ (valid_credit-Grown w v g) w.credits h.credits,
  All-map _ _ (valid_asset-Grown w v g) w.assets h.assets,
)

-- Once the spared track has a credit, nothing is spared.
pub ValidBut-IsValid :
    (id : String) (w : World) → ValidBut (λ i. str_eq i id) w → is_credited id w ≡ true → IsValid w
ValidBut-IsValid id w h credited = record {
  artists = h.artists;
  albums = h.albums;
  tracks = All-map _ _ settled w.tracks h.tracks;
  credits = h.credits;
  assets = h.assets;
  artist_ids = h.artist_ids;
  album_ids = h.album_ids;
  track_ids = h.track_ids;
}
  where
    settled :
        (t : Track)
        → valid_track (λ i. str_eq i id) w t ≡ true
        → valid_track (λ _. false) w t ≡ true
    settled t e = elim (Bool-cases (str_eq t.id id)) [
      | inl same ↦
          ground
            (arith, e, subst (λ i. is_credited i w ≡ true) (sym ((eq_iff t.id id).0 same)) credited)
      | inr other ↦ ground (arith, e, other)
    ]
