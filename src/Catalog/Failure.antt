-- ===== src/Catalog/Failure.antt =====
-- A creation that fails leaves the catalog as it was.
use smusic.Effect.Undone.{Undone-Reads, Undone, Undone-bind, Undone-last, Undone-catch}
use smusic.Catalog.Calls.{
  Call, serve, creates_artist, creates_album, creates_track, gets_artist, gets_album, gets_track,
  asks_track, searches,
}
use smusic.Catalog.Frame.{
  get_artist-Kept, get_album-Kept, get_track-Kept, track_exists-Kept, search-Kept, check_album-Kept,
  check_primary_artist-Kept,
}
use smusic.Prelude.{◌≡◌, Bool, arith}
use smusic.Effect.{Env, State, Outcome, ok, err, bump}
use smusic.Effect.Keeps.{Keeps-guard, Keeps-now, Keeps-new_id}
use smusic.Catalog.Domain.{
  World, Deps, Catalog, Error, CreateArtistInput, CreateAlbumInput, CreateTrackInput,
}
use smusic.Catalog.Repo
use smusic.Catalog.Service

module _ (env : Env) where
  insert-Undone :
      (accepts : World → Bool) (write : World → World) → Undone (Repo.insert env accepts write)
  unfolding Repo.insert
  insert-Undone accepts write = record { at = λ s t e h. ground (arith, h) }

  settle-err :
      (before : World) (o : Outcome World Error Unit) (t : State World) (e : Error)
      → Repo.settle env before o ≡ err e t
      → before ≡ t.world
  unfolding Repo.settle
  settle-err before (ok a s) t e h = ground (arith, h)
  settle-err before (err x s) t e h = ground (arith, h)

  transaction-Undone : (m : Catalog Unit) → Undone (Repo.transaction env m)
  unfolding Repo.transaction
  transaction-Undone m = record {
    at = λ s t e h. ground (arith, h, settle-err s.world (m (bump s)) t e);
  }

module _ (env : Env) (deps : Deps) where
  create_artist-Undone : (in_ : CreateArtistInput) → Undone (Service.create_artist env deps in_)
  unfolding Service.create_artist Repo.create_artist
  create_artist-Undone in_ =
      Undone-bind _ _ (λ w. Keeps-guard _ _)
        λ _.
          Undone-bind _ _ (λ w. Keeps-now env)
            λ time.
              Undone-bind _ _ (λ w. Keeps-new_id env)
                λ id. Undone-last _ _ (Undone-catch _ _ (insert-Undone env _ _))

  create_album-Undone : (in_ : CreateAlbumInput) → Undone (Service.create_album env deps in_)
  unfolding Service.create_album Repo.create_album
  create_album-Undone in_ =
      Undone-bind _ _ (λ w. Keeps-guard _ _)
        λ _.
          Undone-bind _ _ (λ w. Keeps-guard _ _)
            λ _.
              Undone-bind _ _ (λ w. check_primary_artist-Kept env deps _ _)
                λ _.
                  Undone-bind _ _ (λ w. Keeps-now env)
                    λ time.
                      Undone-bind _ _ (λ w. Keeps-new_id env)
                        λ id. Undone-last _ _ (Undone-catch _ _ (insert-Undone env _ _))

  create_track-Undone : (in_ : CreateTrackInput) → Undone (Service.create_track env deps in_)
  unfolding Service.create_track Repo.create_track
  create_track-Undone in_ =
      Undone-bind _ _ (λ w. Keeps-guard _ _)
        λ _.
          Undone-bind _ _ (λ w. Keeps-guard _ _)
            λ _.
              Undone-bind _ _ (λ w. Keeps-guard _ _)
                λ _.
                  Undone-bind _ _ (λ w. Keeps-guard _ _)
                    λ _.
                      Undone-bind _ _ (λ w. check_album-Kept env deps _ _)
                        λ _.
                          Undone-bind _ _ (λ w. Keeps-now env)
                            λ time.
                              Undone-bind _ _ (λ w. Keeps-new_id env)
                                λ id. Undone-last _ _ (Undone-catch _ _ (transaction-Undone env _))

  serve-Undone : (c : Call) → Undone (serve env deps c)
  unfolding serve
  serve-Undone (creates_artist in_) = Undone-last _ _ (create_artist-Undone in_)
  serve-Undone (creates_album in_) = Undone-last _ _ (create_album-Undone in_)
  serve-Undone (creates_track in_) = Undone-last _ _ (create_track-Undone in_)
  serve-Undone (gets_artist id) =
      Undone-last _ _ (Undone-Reads _ (λ w. get_artist-Kept env deps (λ v. w ≡ v) id))
  serve-Undone (gets_album id) =
      Undone-last _ _ (Undone-Reads _ (λ w. get_album-Kept env deps (λ v. w ≡ v) id))
  serve-Undone (gets_track id) =
      Undone-last _ _ (Undone-Reads _ (λ w. get_track-Kept env deps (λ v. w ≡ v) id))
  serve-Undone (asks_track id) =
      Undone-last _ _ (Undone-Reads _ (λ w. track_exists-Kept env deps (λ v. w ≡ v) id))
  serve-Undone (searches in_) =
      Undone-last _ _ (Undone-Reads _ (λ w. search-Kept env deps (λ v. w ≡ v) in_))

  -- A call that fails, at whatever statement, leaves the tables as they were.
  pub serve-world :
      (c : Call) (s t : State World) (e : Error) → serve env deps c s ≡ err e t → s.world ≡ t.world
  serve-world c s t e h = (serve-Undone c).at s t e h
