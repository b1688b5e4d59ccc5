-- ===== src/Presence/Nearby/Privacy/Reads.antt =====
-- What the reads and counters of a query in backend/internal/presence/nearby_service.go answer, and
-- that they leave what it reads.
use smusic.Presence.Nearby.Privacy.{
  settings_of, SameTables, FromIndex, entries-FromIndex, candidates-All,
}
use smusic.Prelude.{
  any, subst, [], ◌∷◌, List, sym, All, ℕ, String, ◌≡◌, ap, Bool, ◌&&◌, ◌||◌, Option, some, arith,
}
use smusic.Effect.{fetch, Env, ◌>>=◌}
use smusic.Effect.Keeps.{
  Keeps-raise, Keeps-fetch, Keeps-catch, Keeps-bind, Keeps-pure, Keeps-if, Keeps, Any,
}
use smusic.Presence.Domain.{failed, AuditLogEntry, PrivacySettings, Floats, GeoPosition}
use smusic.Presence.World.{World, context}
use smusic.Presence.Repo
use smusic.Presence.GeoIndex
use smusic.Presence.GeoIndex.{
  names_within, search_positions, Members, candidates, entry_of, alive, Details, entries,
  position_of,
}
use smusic.Presence.RateLimit.{allow, hit, arm}
use smusic.Presence.Nearby.{resolve, is_revealed, Candidate, Profiles, settings_or_default}

module _ (env : Env) (fl : Floats) (jitter : ℕ → GeoPosition → Option GeoPosition)
    (profile : ℕ → Profiles) (w0 : World) where
  pub settings_or_default-Keeps :
      (u : String)
      → Keeps
          (SameTables w0)
          (λ s. s ≡ settings_of u (w0.settings u))
          (settings_or_default env fl jitter profile u)
  unfolding settings_or_default Repo.get ◌>>=◌
  settings_or_default-Keeps u = record {
    at = λ s h. ground (arith, ap (λ (f : String → Option PrivacySettings). f u) h.settings);
  }

  pub blocked-Keeps :
      (text a b : String)
      → Keeps
          (SameTables w0)
          (λ v. v ≡ (w0.blocks a b || w0.blocks b a))
          (context text (Repo.is_blocked_either_way env a b))
  unfolding Repo.is_blocked_either_way ◌>>=◌
  blocked-Keeps text a b = record {
    at = λ s h. ground (arith, ap (λ (f : String → String → Bool). f a b || f b a) h.blocks);
  }

  pub follow-Keeps :
      (text a b : String)
      → Keeps
          (SameTables w0)
          (λ v. v ≡ (w0.follows a b && w0.follows b a))
          (context text (Repo.is_mutual_follow env a b))
  unfolding Repo.is_mutual_follow ◌>>=◌
  follow-Keeps text a b = record {
    at = λ s h. ground (arith, ap (λ (f : String → String → Bool). f a b && f b a) h.follows);
  }

  pub allow-Keeps :
      (text key : String) (limit window : ℕ)
      → Keeps (SameTables w0) Any (context text (allow env key limit window))
  unfolding allow hit arm ◌>>=◌
  allow-Keeps text key limit window = record { at = λ s h. ground arith }

  pub append-Keeps :
      (text : String) (e : AuditLogEntry)
      → Keeps (SameTables w0) Any (context text (Repo.append env e))
  unfolding Repo.append ◌>>=◌
  append-Keeps text e = record { at = λ s h. ground arith }

  pub detail-Keeps :
      (text : String) (ids : List String)
      → Keeps (SameTables w0) (FromIndex w0) (context text (GeoIndex.detail env fl ids))
  unfolding GeoIndex.detail
  detail-Keeps text ids = Keeps-catch _ _ (read ids) (λ e. Keeps-raise _)
    where
      from :
          (ids : List String) (time : ℕ) (w : World)
          → SameTables w0 w
          → FromIndex w0 (entries time w.details ids)
      from ids time w h =
          subst (λ table. FromIndex w0 (entries time table ids)) (sym h.details)
            (entries-FromIndex time w0 ids)

      read : (ids : List String) → Keeps (SameTables w0) (FromIndex w0) (GeoIndex.detail env fl ids)
      read [] = Keeps-pure _ (record { entry = λ u e h. cc })
      read (id ∷ ids) = Keeps-catch _ _ (Keeps-fetch env _ _ (from (id ∷ ids))) (λ e. Keeps-raise _)

  pub names_within-Keeps :
      (text : String) (pos : GeoPosition) (radius : ℕ)
      → Keeps
          (SameTables w0)
          Any
          (context text (fetch env (failed "redis") (λ _ w. names_within fl pos radius w.members)))
  names_within-Keeps text pos radius =
      Keeps-catch _ _ (Keeps-fetch env _ _ (λ _ _ _. tt)) (λ e. Keeps-raise _)

  pub search_positions-Keeps :
      (exclude : String) (names : List String)
      → Keeps
          (SameTables w0)
          (All (λ c. position_of c.user_id w0.members ≡ some c.position))
          (search_positions env fl exclude names)
  unfolding search_positions
  search_positions-Keeps exclude [] = Keeps-pure _ tt
  search_positions-Keeps exclude (n ∷ ns) =
      Keeps-catch _ _
        (Keeps-fetch env _ _ λ _ w h.
          subst
            (λ m.
              All (λ c. position_of c.user_id w0.members ≡ some c.position)
                (candidates exclude (n ∷ ns) m))
            (sym h.members) (candidates-All exclude (n ∷ ns) w0.members))
        (λ e. Keeps-raise _)

  pub search-Keeps :
      (text : String) (pos : GeoPosition) (radius : ℕ) (exclude : String)
      → Keeps
          (SameTables w0)
          (All (λ c. position_of c.user_id w0.members ≡ some c.position))
          (context text (GeoIndex.search env fl pos radius exclude))
  unfolding GeoIndex.search
  search-Keeps text pos radius exclude =
      Keeps-catch _ _
        (Keeps-bind _ _ (names_within-Keeps _ pos radius)
          (λ names _. search_positions-Keeps exclude names))
        (λ e. Keeps-raise _)

  pub resolve-Keeps :
      (cs : List Candidate) → Keeps (SameTables w0) Any (resolve env fl jitter profile cs)
  unfolding resolve
  resolve-Keeps cs =
      Keeps-if (any is_revealed cs) _ _ (λ _. Keeps-fetch env _ _ (λ _ _ _. tt))
        (λ _. Keeps-pure _ tt)
