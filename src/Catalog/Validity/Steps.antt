-- ===== src/Catalog/Validity/Steps.antt =====
-- Each statement that writes, and the transaction of a new track.
use smusic.Effect.Keeps.{Keeps-done, Keeps-new_id, Keeps, Any, Post}
use smusic.Effect.Leads.{Leads-bind, Leads-imp, Leads-Keeps, Leads}
use smusic.Catalog.Service.{is_empty}
use smusic.Catalog.Validity.Rows.{
  artist-ValidBut, album-ValidBut, track-ValidBut, credit-ValidBut, asset-ValidBut,
}
use smusic.Catalog.Validity.{
  valid_track, any-or_none, ValidBut, IsValid, is_credited, ValidBut-IsValid, any-last,
}
use smusic.Prelude.{
  All-map, not, eq_refl, subst, String, ◌≡◌, refl, Bool, true, false, ◌&&◌, List, [], ◌∷◌, arith,
  str_eq,
}
use smusic.Effect.{Env, State, Outcome, ok, err, bump, ◌>>=◌}
use smusic.Catalog.Domain.{
  Error, Artist, Album, Track, TrackArtist, AudioAsset, Credit, World, Catalog,
}
use smusic.Catalog.Tables.{accepts_artist, accepts_album, accepts_track, accepts_credit}
use smusic.Catalog.Repo

module _ (env : Env) where
  pub insert-Keeps :
      (P : World → Type 0) (accepts : World → Bool) (write : World → World)
      → ((w : World) → P w → accepts w ≡ true → P (write w))
      → Keeps P Any (Repo.insert env accepts write)
  unfolding Repo.insert ◌>>=◌
  insert-Keeps P accepts write h = record { at = λ s p. ground (arith, p, h s.world p) }

  pub insert-eq-ok :
      (accepts : World → Bool) (write : World → World) (s t : State World) (u : Unit)
      → Repo.insert env accepts write s ≡ ok u t
      → (accepts s.world ≡ true) × (write s.world ≡ t.world)
  unfolding Repo.insert ◌>>=◌
  insert-eq-ok accepts write s t u e = (ground (arith, e), ground (arith, e))

  pub insert-Leads :
      (P Q : World → Type 0) (accepts : World → Bool) (write : World → World)
      → ((w : World) → P w → accepts w ≡ true → Q (write w))
      → Leads P Q (Repo.insert env accepts write)
  insert-Leads P Q accepts write h = record {
    at = λ s t u p e.
        let (fine, same) = insert-eq-ok accepts write s t u e in subst Q same (h s.world p fine);
  }

  settle-Post :
      (P : World → Type 0) (before : World) (o : Outcome World Error Unit)
      → P before
      → ((t : State World) → o ≡ ok tt t → P t.world)
      → Post P Any (Repo.settle env before o)
  unfolding Repo.settle
  settle-Post P before (ok a s) p h = ground (arith, p, h s refl)
  settle-Post P before (err e s) p h = p

  pub transaction-Keeps :
      (P : World → Type 0) (m : Catalog Unit) → Leads P P m → Keeps P Any (Repo.transaction env m)
  unfolding Repo.transaction ◌>>=◌
  transaction-Keeps P m l = record {
    at = λ s p.
        ground (arith, p, settle-Post P s.world (m (bump s)) p (λ t e. l.at (bump s) t tt p e));
  }

not-true : (b : Bool) → not b ≡ true → b ≡ false
not-true b h = ground (arith, h)

-- `IsValid` and with one track, or none, that need not have a credit yet.
abbrev Open : String → World → Type 0
Open id w = ValidBut (λ i. str_eq i id) w

-- The same, once it has one.
abbrev Credited : String → World → Type 0
Credited id w = Open id w × (is_credited id w ≡ true)

IsValid-Open : (id : String) (w : World) → IsValid w → Open id w
IsValid-Open id w h = record {
  artists = h.artists;
  albums = h.albums;
  tracks = All-map _ _ opened w.tracks h.tracks;
  credits = h.credits;
  assets = h.assets;
  artist_ids = h.artist_ids;
  album_ids = h.album_ids;
  track_ids = h.track_ids;
}
  where
    opened :
        (t : Track)
        → valid_track (λ _. false) w t ≡ true
        → valid_track (λ i. str_eq i id) w t ≡ true
    opened t e = ground (arith, e)

module _ (env : Env) where
  pub create_artist-Keeps :
      (a : Artist) → not (str_eq a.name "") ≡ true → Keeps IsValid Any (Repo.create_artist env a)
  unfolding Repo.create_artist
  create_artist-Keeps a named = insert-Keeps env IsValid (accepts_artist a) _ λ w h fine.
      artist-ValidBut (λ _. false) (record a { updated_at = a.created_at }) w h named
        (any-or_none _ _ w.artists (not-true _ fine))

  pub create_album-Keeps :
      (a : Album) → not (str_eq a.title "") ≡ true → Keeps IsValid Any (Repo.create_album env a)
  unfolding Repo.create_album
  create_album-Keeps a titled = insert-Keeps env IsValid (accepts_album a) _ λ w h fine.
      album-ValidBut (λ _. false) (record a { updated_at = a.created_at }) w h
        (ground (arith, fine, titled)) (ground (arith, fine))

  insert_track-Leads :
      (t : Track)
      → not (str_eq t.title "") ≡ true
      → Leads IsValid (Open t.id) (Repo.insert_track env t)
  unfolding Repo.insert_track
  insert_track-Leads t titled = insert-Leads env IsValid (Open t.id) (accepts_track t) _ λ w h fine.
      track-ValidBut (λ i. str_eq i t.id) (record t { artists = []; updated_at = t.created_at }) w
        (IsValid-Open t.id w h) (ground (arith, fine, titled, eq_refl t.id))
        (any-or_none (λ u. str_eq u.id t.id) (λ u. not (str_eq t.isrc "") && str_eq u.isrc t.isrc)
          w.tracks (ground (arith, fine)))

  insert_credit-Leads :
      (c : Credit) → Leads (Open c.track_id) (Credited c.track_id) (Repo.insert_credit env c)
  unfolding Repo.insert_credit
  insert_credit-Leads c = insert-Leads env _ _ (accepts_credit c) _ λ w h fine. (
    credit-ValidBut (λ i. str_eq i c.track_id) c w h (ground (arith, fine)),
    any-last _ w.credits c (eq_refl c.track_id),
  )

  insert_credits-Leads :
      (id : String) (tas : List TrackArtist)
      → Leads (Credited id) (Credited id) (Repo.insert_credits env id tas)
  unfolding Repo.insert_credits ◌>>=◌
  insert_credits-Leads id [] = Leads-Keeps _ (Keeps-done tt)
  insert_credits-Leads id (ta ∷ tas) =
      Leads-bind _ _ (Leads-imp _ (λ w h. h.0) (λ w h. h) (insert_credit-Leads _))
        (λ _. insert_credits-Leads id tas)

  some_credits-Leads :
      (id : String) (tas : List TrackArtist)
      → not (is_empty tas) ≡ true
      → Leads (Open id) (Credited id) (Repo.insert_credits env id tas)
  unfolding Repo.insert_credits ◌>>=◌
  some_credits-Leads id [] h = cc
  some_credits-Leads id (ta ∷ tas) h =
      Leads-bind _ _ (insert_credit-Leads _) (λ _. insert_credits-Leads id tas)

  insert_asset-Leads :
      (id : String) (a : AudioAsset)
      → Leads (Credited id) (Credited id) (Repo.insert_asset env id a)
  unfolding Repo.insert_asset
  insert_asset-Leads id a = Leads-bind _ _ (Leads-Keeps _ (Keeps-new_id env)) λ row.
      insert-Leads env _ _ _ _
        λ w h fine. (asset-ValidBut (λ i. str_eq i id) _ w h.0 (ground (arith, fine)), h.1)

  insert_assets-Leads :
      (id : String) (as_ : List AudioAsset)
      → Leads (Credited id) (Credited id) (Repo.insert_assets env id as_)
  unfolding Repo.insert_assets ◌>>=◌
  insert_assets-Leads id [] = Leads-Keeps _ (Keeps-done tt)
  insert_assets-Leads id (a ∷ rest) =
      Leads-bind _ _ (insert_asset-Leads id a) (λ _. insert_assets-Leads id rest)

  pub create_track-Keeps :
      (t : Track) (assets : List AudioAsset)
      → not (str_eq t.title "") ≡ true
      → not (is_empty t.artists) ≡ true
      → Keeps IsValid Any (Repo.create_track env t assets)
  unfolding Repo.create_track
  create_track-Keeps t assets titled some_credit = transaction-Keeps env IsValid _ (
      Leads-bind _ _ (insert_track-Leads t titled) λ _.
        Leads-bind _ _ (some_credits-Leads t.id t.artists some_credit) λ _.
          Leads-imp _ (λ w h. h) (λ w h. ValidBut-IsValid t.id w h.0 h.1)
            (insert_assets-Leads t.id assets))
