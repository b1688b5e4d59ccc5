-- ===== src/Catalog/Growth.antt =====
-- No call of the catalog takes a row away.
use smusic.Prelude.{
  eq_refl, eq_iff, ◌≢◌, ◌∙◌, subst, find, any, none, some, Bool-cases, inl, inr, ◌⊎◌, refl, ◌≤◌,
  ◌&&◌, ℕ, String, ◌≡◌, Bool, true, false, not, List, [], ◌∷◌, str_eq, arith, suc,
}
use smusic.Effect.Keeps.{Post, Keeps, Any, Keeps-then, Keeps-done, Keeps-new_id}
use smusic.Effect.Leads.{Gives, Gives-bind, Gives-last, Leads-catch, Leads-bind, Leads, Leads-Keeps}
use smusic.Catalog.Validity.{any-last, Grown}
use smusic.Catalog.Validity.Steps.{insert-Leads, insert-Keeps, transaction-Keeps}
use smusic.Catalog.Domain.{
  CreateTrackInput, Catalog, Error, Artist, Album, Track, TrackArtist, AudioAsset, World, Deps,
}
use smusic.Effect.{bump, ok, Outcome, ◌>>◌, err, answer_of, Env, State, ◌>>=◌}
use smusic.Catalog.Tables.{has_track}
use smusic.Catalog.Repo
use smusic.Catalog.Service
use smusic.Catalog.Calls.{Call, run}
use smusic.Catalog.Frame.{Writes, run-Kept}
use smusic.Catalog.Validity.Rows.{artist-Grown, album-Grown, track-Grown, credit-Grown, asset-Grown}

Grown-trans : (u v w : World) → Grown u v → Grown v w → Grown u w
Grown-trans u v w g h = record {
  artist = λ id e. h.artist id (g.artist id e);
  album = λ id e. h.album id (g.album id e);
  track = λ id e. h.track id (g.track id e);
  credit = λ id e. h.credit id (g.credit id e);
}

module _ (env : Env) (before : World) where
  create_artist-Grown : (a : Artist) → Keeps (Grown before) Any (Repo.create_artist env a)
  unfolding Repo.create_artist
  create_artist-Grown a =
      insert-Keeps env _ _ _ (λ w g h. Grown-trans before w _ g (artist-Grown _ w))

  create_album-Grown : (a : Album) → Keeps (Grown before) Any (Repo.create_album env a)
  unfolding Repo.create_album
  create_album-Grown a =
      insert-Keeps env _ _ _ (λ w g h. Grown-trans before w _ g (album-Grown _ w))

  insert_track-Grown : (t : Track) → Keeps (Grown before) Any (Repo.insert_track env t)
  unfolding Repo.insert_track
  insert_track-Grown t =
      insert-Keeps env _ _ _ (λ w g h. Grown-trans before w _ g (track-Grown _ w))

  insert_credits-Grown :
      (id : String) (tas : List TrackArtist)
      → Keeps (Grown before) Any (Repo.insert_credits env id tas)
  unfolding Repo.insert_credits Repo.insert_credit
  insert_credits-Grown id [] = Keeps-done tt
  insert_credits-Grown id (ta ∷ tas) =
      Keeps-then _ _ (insert-Keeps env _ _ _ (λ w g h. Grown-trans before w _ g (credit-Grown _ w)))
        (λ _. insert_credits-Grown id tas)

  insert_assets-Grown :
      (id : String) (assets : List AudioAsset)
      → Keeps (Grown before) Any (Repo.insert_assets env id assets)
  unfolding Repo.insert_assets Repo.insert_asset
  insert_assets-Grown id [] = Keeps-done tt
  insert_assets-Grown id (a ∷ rest) =
      Keeps-then _ _
        (Keeps-then _ _ (Keeps-new_id env)
          (λ row. insert-Keeps env _ _ _ (λ w g h. Grown-trans before w _ g (asset-Grown _ w))))
        (λ _. insert_assets-Grown id rest)

  create_track-Grown :
      (t : Track) (assets : List AudioAsset)
      → Keeps (Grown before) Any (Repo.create_track env t assets)
  unfolding Repo.create_track
  create_track-Grown t assets = transaction-Keeps env (Grown before) _ (
      Leads-Keeps _ (
        Keeps-then _ _ (insert_track-Grown t) λ _.
          Keeps-then _ _ (insert_credits-Grown t.id t.artists)
            λ _. insert_assets-Grown t.id assets))

Grown-refl : (w : World) → Grown w w
Grown-refl w = record {
  artist = λ id h. h;
  album = λ id h. h;
  track = λ id h. h;
  credit = λ id h. h;
}

run-Grown :
    (env : Env) (deps : Deps) (s : State World) (calls : List Call)
    → Grown s.world (run env deps s calls).world
run-Grown env deps s calls = run-Kept env deps (Grown s.world) kept s calls (Grown-refl s.world)
  where
    kept : Writes env (Grown s.world)
    kept = record {
      artist = λ a _. create_artist-Grown env s.world a;
      album = λ a _. create_album-Grown env s.world a;
      track = λ t assets _ _. create_track-Grown env s.world t assets;
    }

-- From a state on, no interaction fails.
abbrev pub CalmFrom : {W : Type 0} → Env → State W → Type 0
CalmFrom env s = (n : ℕ) → s.tick ≤ n → env.fault n ≡ false

find-any :
    {A : Type 0} (p : A → Bool) (xs : List A)
    → ((find p xs ≡ none) × (any p xs ≡ false))
      ⊎ ((x : A) × (find p xs ≡ some x) × (any p xs ≡ true))
find-any p [] = inl (refl, refl)
find-any p (x ∷ xs) = elim (Bool-cases (p x)) [
  | inl e ↦ inr (x, ground (arith, e), ground (arith, e))
  | inr e ↦ elim (find-any p xs) [
    | inl h ↦ inl (ground (arith, e, h.0), ground (arith, e, h.1))
    | inr (y, h, k) ↦ inr (y, ground (arith, e, h), ground (arith, e, k))
  ]
]

module _ (env : Env) (deps : Deps) where
  -- The check answers by the table.
  track_exists-has_track :
      (id : String) (s : State World)
      → CalmFrom env s
      → answer_of (Service.track_exists env deps id s)
        ≡ some (not (str_eq id "") && has_track id s.world)
  unfolding Service.track_exists Service.get_track Repo.get_track Repo.track_artists
      Repo.list_audio_assets ◌>>=◌
  track_exists-has_track id s calm = elim (Bool-cases (str_eq id "")) [
    | inl e ↦ ground (arith, e)
    | inr e ↦ elim (find-any (λ t. str_eq t.id id) s.world.tracks) [
      | inl h ↦ ground (arith, e, h.0, h.1, calm s.tick (omega arith))
      | inr (t, h, k) ↦
          rw
            (
              e,
              calm s.tick (omega arith),
              h,
              calm (suc s.tick) (omega arith),
              calm (suc (suc s.tick)) (omega arith),
              k,
            )
            refl
    ]
  ]

module _ (env : Env) where
  pub settle-eq-ok :
      (before : World) (o : Outcome World Error Unit) (t : State World)
      → Repo.settle env before o ≡ ok tt t
      → (u : State World) × (o ≡ ok tt u) × (u.world ≡ t.world)
  unfolding Repo.settle ◌>>=◌
  settle-eq-ok before (ok a s) t h = (s, refl, ground (arith, h))
  settle-eq-ok before (err e s) t h = cc

  insert_track-has_track :
      (t : Track) → Leads (λ _. Unit) (λ w. has_track t.id w ≡ true) (Repo.insert_track env t)
  unfolding Repo.insert_track
  insert_track-has_track t =
      insert-Leads env _ _ _ _ (λ w _ h. any-last (λ u. str_eq u.id t.id) w.tracks _ (eq_refl t.id))

  Leads-Grown :
      (id : String) (m : Catalog Unit)
      → ((w : World) → Keeps (Grown w) Any m)
      → Leads (λ w. has_track id w ≡ true) (λ w. has_track id w ≡ true) m
  Leads-Grown id m k = record {
    at = λ s t a p h.
        (subst (Post (Grown s.world) Any) h ((k s.world).at s (Grown-refl s.world))).0.track id p;
  }

  -- A track that was stored is in the table.
  create_track-has_track :
      (t : Track) (assets : List AudioAsset)
      → Leads (λ _. Unit) (λ w. has_track t.id w ≡ true) (Repo.create_track env t assets)
  unfolding Repo.create_track Repo.transaction
  create_track-has_track t assets = record {
    at = λ s v a p h.
        let (u, e, same) = settle-eq-ok s.world _ v (ground (arith, h)) in
        subst (λ w. has_track t.id w ≡ true) same (stored.at (bump s) u tt tt e);
  }
    where
      rest : Catalog Unit
      rest = Repo.insert_credits env t.id t.artists >> Repo.insert_assets env t.id assets

      stored : Leads (λ _. Unit) (λ w. has_track t.id w ≡ true) (Repo.insert_track env t >> rest)
      stored = Leads-bind _ _ (insert_track-has_track t) (λ _. Leads-Grown t.id rest λ w.
          Keeps-then _ _ (insert_credits-Grown env w t.id t.artists)
            (λ _. insert_assets-Grown env w t.id assets))

module _ (env : Env) (deps : Deps) where
  create_track-Gives :
      (in_ : CreateTrackInput)
      → Gives (λ t w. has_track t.id w ≡ true) (Service.create_track env deps in_)
  unfolding Service.create_track
  create_track-Gives in_ = Gives-bind _ _ λ _. Gives-bind _ _ λ _. Gives-bind _ _ λ _.
      Gives-bind _ _ λ _. Gives-bind _ _ λ _. Gives-bind _ _ λ time.
        Gives-bind _ _ λ id.
          Gives-last _ _ (Leads-catch _ _ (create_track-has_track env _ in_.assets)) (λ w h. h)

  -- Once the creation of a track has succeeded, TrackExists answers yes for its id after any further
  -- calls, if the id is not the empty text and no interaction of that check fails.
  pub create_track-track_exists :
      (in_ : CreateTrackInput) (s u : State World) (t : Track)
      → Service.create_track env deps in_ s ≡ ok t u
      → t.id ≢ ""
      → (calls : List Call) → CalmFrom env (run env deps u calls)
      → answer_of (Service.track_exists env deps t.id (run env deps u calls)) ≡ some true
  create_track-track_exists in_ s u t h named calls calm =
      track_exists-has_track env deps t.id (run env deps u calls) calm
      ∙ ground (
        arith,
        eq_iff t.id "",
        named,
        (run-Grown env deps u calls).track t.id ((create_track-Gives in_).at s u t h),
      )
