-- ===== src/Catalog/Validity/Rows.antt =====
-- What a new row does to the validity of the tables.
use smusic.Prelude.{String, ◌≡◌, Bool, true, false, [], ◌∷◌, ◌++◌, any, All-append, str_eq}
use smusic.Catalog.Domain.{Artist, Album, Track, AudioAsset, Credit, World}
use smusic.Catalog.Validity.{
  ValidBut, Grown, ValidBut-Grown, append-AllApart, any-append, valid_artist, valid_album,
  valid_track, valid_credit, valid_asset,
}

pub artist-Grown : (a : Artist) (w : World) → Grown w (record w { artists = w.artists ++ a ∷ [] })
artist-Grown a w = record {
  artist = λ id. any-append (λ b. str_eq b.id id) w.artists (a ∷ []);
  album = λ id h. h;
  track = λ id h. h;
  credit = λ id h. h;
}

pub album-Grown : (a : Album) (w : World) → Grown w (record w { albums = w.albums ++ a ∷ [] })
album-Grown a w = record {
  artist = λ id h. h;
  album = λ id. any-append (λ b. str_eq b.id id) w.albums (a ∷ []);
  track = λ id h. h;
  credit = λ id h. h;
}

pub track-Grown : (t : Track) (w : World) → Grown w (record w { tracks = w.tracks ++ t ∷ [] })
track-Grown t w = record {
  artist = λ id h. h;
  album = λ id h. h;
  track = λ id. any-append (λ b. str_eq b.id id) w.tracks (t ∷ []);
  credit = λ id h. h;
}

pub credit-Grown : (c : Credit) (w : World) → Grown w (record w { credits = w.credits ++ c ∷ [] })
credit-Grown c w = record {
  artist = λ id h. h;
  album = λ id h. h;
  track = λ id h. h;
  credit = λ id. any-append (λ b. str_eq b.track_id id) w.credits (c ∷ []);
}

pub asset-Grown : (a : AudioAsset) (w : World) → Grown w (record w { assets = w.assets ++ a ∷ [] })
asset-Grown a w = record {
  artist = λ id h. h;
  album = λ id h. h;
  track = λ id h. h;
  credit = λ id h. h;
}

-- A valid row with an id of its own, added to its table.
pub artist-ValidBut :
    (spare : String → Bool) (a : Artist) (w : World)
    → ValidBut spare w
    → valid_artist a ≡ true
    → any (λ b. str_eq b.id a.id) w.artists ≡ false
    → ValidBut spare (record w { artists = w.artists ++ a ∷ [] })
artist-ValidBut spare a w h fine fresh =
    let (albums', tracks', credits', assets') =
      ValidBut-Grown spare w (record w { artists = w.artists ++ a ∷ [] }) (artist-Grown a w) h in
    record {
      artists = All-append _ w.artists (a ∷ []) h.artists (fine, tt);
      albums = albums';
      tracks = tracks';
      credits = credits';
      assets = assets';
      artist_ids = append-AllApart (λ b. b.id) w.artists a h.artist_ids fresh;
      album_ids = h.album_ids;
      track_ids = h.track_ids;
    }

pub album-ValidBut :
    (spare : String → Bool) (a : Album) (w : World)
    → ValidBut spare w
    → valid_album w a ≡ true
    → any (λ b. str_eq b.id a.id) w.albums ≡ false
    → ValidBut spare (record w { albums = w.albums ++ a ∷ [] })
album-ValidBut spare a w h fine fresh =
    let (albums', tracks', credits', assets') =
      ValidBut-Grown spare w (record w { albums = w.albums ++ a ∷ [] }) (album-Grown a w) h in
    record {
      artists = h.artists;
      albums = All-append _ w.albums (a ∷ []) albums' (fine, tt);
      tracks = tracks';
      credits = credits';
      assets = assets';
      artist_ids = h.artist_ids;
      album_ids = append-AllApart (λ b. b.id) w.albums a h.album_ids fresh;
      track_ids = h.track_ids;
    }

pub track-ValidBut :
    (spare : String → Bool) (a : Track) (w : World)
    → ValidBut spare w
    → valid_track spare w a ≡ true
    → any (λ b. str_eq b.id a.id) w.tracks ≡ false
    → ValidBut spare (record w { tracks = w.tracks ++ a ∷ [] })
track-ValidBut spare a w h fine fresh =
    let (albums', tracks', credits', assets') =
      ValidBut-Grown spare w (record w { tracks = w.tracks ++ a ∷ [] }) (track-Grown a w) h in
    record {
      artists = h.artists;
      albums = albums';
      tracks = All-append _ w.tracks (a ∷ []) tracks' (fine, tt);
      credits = credits';
      assets = assets';
      artist_ids = h.artist_ids;
      album_ids = h.album_ids;
      track_ids = append-AllApart (λ b. b.id) w.tracks a h.track_ids fresh;
    }

pub credit-ValidBut :
    (spare : String → Bool) (a : Credit) (w : World)
    → ValidBut spare w
    → valid_credit w a ≡ true
    → ValidBut spare (record w { credits = w.credits ++ a ∷ [] })
credit-ValidBut spare a w h fine =
    let (albums', tracks', credits', assets') =
      ValidBut-Grown spare w (record w { credits = w.credits ++ a ∷ [] }) (credit-Grown a w) h in
    record {
      artists = h.artists;
      albums = albums';
      tracks = tracks';
      credits = All-append _ w.credits (a ∷ []) credits' (fine, tt);
      assets = assets';
      artist_ids = h.artist_ids;
      album_ids = h.album_ids;
      track_ids = h.track_ids;
    }

pub asset-ValidBut :
    (spare : String → Bool) (a : AudioAsset) (w : World)
    → ValidBut spare w
    → valid_asset w a ≡ true
    → ValidBut spare (record w { assets = w.assets ++ a ∷ [] })
asset-ValidBut spare a w h fine =
    let (albums', tracks', credits', assets') =
      ValidBut-Grown spare w (record w { assets = w.assets ++ a ∷ [] }) (asset-Grown a w) h in
    record {
      artists = h.artists;
      albums = albums';
      tracks = tracks';
      credits = credits';
      assets = All-append _ w.assets (a ∷ []) assets' (fine, tt);
      artist_ids = h.artist_ids;
      album_ids = h.album_ids;
      track_ids = h.track_ids;
    }
