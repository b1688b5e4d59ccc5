-- ===== src/Presence/Nearby/Feed/Others.antt =====
-- The writes of a feed to the index (Upsert, Touch and Remove of
-- backend/internal/presence/redisstore/geoindex.go) leave the entries of other users as they were.
use smusic.Prelude.{
  ℕ, String, ◌≡◌, refl, sym, subst, ◌∙◌, ap, true, false, Option, none, some, [], ◌∷◌, arith,
  str_eq, eq_iff, assign,
}
use smusic.Effect.{Env, State, ok}
use smusic.Effect.Keeps.{
  Keeps, Any, Keeps-bind, Keeps-then, Keeps-pure, Keeps-both, Keeps-catch, Keeps-raise, Keeps-store,
  Keeps-fetch, Keeps-read, Keeps-best_effort, Post,
}
use smusic.Presence.Domain.{PrivacySettings, Floats, GeoPosition, PresenceEntry}
use smusic.Presence.World.{World, Detail, Expiring, Presence, context}
use smusic.Presence.GeoIndex
use smusic.Presence.GeoIndex.{position_of, geo_add, geo_remove, Members}
use smusic.Presence.Nearby.{Profiles, publish, is_hidden}
use smusic.Presence.Nearby.Privacy.{SameOthers}

apart_from : (u v n : String) → str_eq v u ≡ false → str_eq n u ≡ true → str_eq n v ≡ false
apart_from u v n h e = ground (arith, h, e, eq_iff n u, eq_iff v u, eq_iff n v)

position_of-geo_add :
    (u v : String) (p : GeoPosition) (m : Members)
    → str_eq v u ≡ false
    → position_of v (geo_add u p m) ≡ position_of v m
position_of-geo_add u v p [] h = ground (arith, h, eq_iff u v, eq_iff v u)
position_of-geo_add u v p ((n, q) ∷ rest) h =
    ground (arith, h, eq_iff u v, eq_iff v u, apart_from u v n h, position_of-geo_add u v p rest h)

position_of-geo_remove_other :
    (u v : String) (m : Members)
    → str_eq v u ≡ false
    → position_of v (geo_remove u m) ≡ position_of v m
position_of-geo_remove_other u v [] h = refl
position_of-geo_remove_other u v ((n, q) ∷ rest) h =
    ground (arith, h, apart_from u v n h, position_of-geo_remove_other u v rest h)

assign-other :
    {A : Type 0} (table : String → A) (u v : String) (a : A)
    → str_eq v u ≡ false
    → assign table u a v ≡ table v
assign-other table u v a h = ground (arith, h, eq_iff u v, eq_iff v u)

pub SameOthers-refl : (u : String) (w : World) → SameOthers u w w
SameOthers-refl u w = record {
  rows = record { settings = refl; blocks = refl; follows = refl };
  position = λ v h. refl;
  detail = λ v h. refl;
}

module _ (env : Env) (fl : Floats) (u : String) (w0 : World) where
  moved :
      (f : Members → Members)
      → ((v : String) (m : Members) → str_eq v u ≡ false → position_of v (f m) ≡ position_of v m)
      → (w : World) → SameOthers u w0 w
      → SameOthers u w0 (record w { members = f w.members })
  moved f other w h = record {
    rows = record { settings = h.rows.settings; blocks = h.rows.blocks; follows = h.rows.follows };
    position = λ v e. other v w.members e ∙ h.position v e;
    detail = h.detail;
  }

  noted :
      (o : Option Expiring) (w : World)
      → SameOthers u w0 w
      → SameOthers u w0 (record w { details = assign w.details u o })
  noted o w h = record {
    rows = record { settings = h.rows.settings; blocks = h.rows.blocks; follows = h.rows.follows };
    position = h.position;
    detail = λ v e. assign-other w.details u v o e ∙ h.detail v e;
  }

  context-Others :
      {A : Type 0} {Q : A → Type 0} (text : String) (m : Presence A)
      → Keeps (SameOthers u w0) Q m
      → Keeps (SameOthers u w0) Q (context text m)
  context-Others text m k = Keeps-catch m _ k (λ e. Keeps-raise _)

  remove-Others : Keeps (SameOthers u w0) Any (GeoIndex.remove env fl u)
  unfolding GeoIndex.remove
  remove-Others =
      Keeps-then _ _
        (context-Others _ _ (
          Keeps-store env _ _
            (λ t w h. moved (geo_remove u) (λ v m e. position_of-geo_remove_other u v m e) w h)))
        (λ _. context-Others _ _ (Keeps-store env _ _ (λ t w h. noted none w h)))

  upsert-Others :
      (entry : PresenceEntry) (ttl : ℕ)
      → entry.user_id ≡ u
      → Keeps (SameOthers u w0) Any (GeoIndex.upsert env fl entry ttl)
  unfolding GeoIndex.upsert
  upsert-Others entry ttl own = rw own (
      Keeps-then _ _
        (context-Others _ _ (
          Keeps-store env _ _
            (λ t w h. moved (geo_add u _) (λ v m e. position_of-geo_add u v _ m e) w h)))
        (λ _. context-Others _ _ (Keeps-store env _ _ (λ t w h. noted _ w h))))

module _ (env : Env) (fl : Floats) (u : String) (w0 : World) where
  -- Only the expiry of the user's own entry may have changed.
  abbrev Renewed : World → Type 0
  Renewed w = SameOthers u w0 w × (w.members ≡ w0.members)

  -- If there is a position, then that which is stored.
  abbrev pub IsStored : Option GeoPosition → Type 0
  IsStored o = (p : GeoPosition) → o ≡ some p → position_of u w0.members ≡ some p

  context-Renewed :
      {A : Type 0} {Q : A → Type 0} (text : String) (m : Presence A)
      → Keeps Renewed Q m
      → Keeps Renewed Q (context text m)
  context-Renewed text m k = Keeps-catch m _ k (λ e. Keeps-raise _)

  touch_position-Renewed :
      (ttl : ℕ) (o : Option GeoPosition)
      → IsStored o
      → Keeps Renewed IsStored (GeoIndex.touch_position env fl u ttl o)
  unfolding GeoIndex.touch_position
  touch_position-Renewed ttl none stored = Keeps-pure none stored
  touch_position-Renewed ttl (some p) stored =
      Keeps-bind _ _
        (context-Renewed _ _ (Keeps-store env _ _ (λ t w h. (noted env fl u w0 _ w h.0, h.1))))
        (λ _ _. Keeps-pure (some p) stored)

  touch_detail-Renewed :
      (ttl : ℕ) (o : Option Detail) → Keeps Renewed IsStored (GeoIndex.touch_detail env fl u ttl o)
  unfolding GeoIndex.touch_detail
  touch_detail-Renewed ttl none = Keeps-pure none (λ p e. cc)
  touch_detail-Renewed ttl (some d) =
      Keeps-bind {Q = IsStored} _ _
        (context-Renewed _ _ (Keeps-fetch env _ _ (λ t w h p e. sym (ap (position_of u) h.1) ∙ e)))
        (λ o stored. touch_position-Renewed ttl o stored)

  touch-Renewed : (ttl : ℕ) → Keeps Renewed IsStored (GeoIndex.touch env fl u ttl)
  unfolding GeoIndex.touch
  touch-Renewed ttl =
      Keeps-bind _ _ (context-Renewed _ _ (Keeps-read env _ _)) (λ o _. touch_detail-Renewed ttl o)

module _ (env : Env) (fl : Floats) (jitter : ℕ → GeoPosition → Option GeoPosition)
    (profile : ℕ → Profiles) (u : String) where
  publish-Keeps :
      (w0 : World) (mine : PrivacySettings) (pos : GeoPosition) (track_id : String) (ttl time : ℕ)
      → Keeps (SameOthers u w0) Any (publish env fl jitter profile u mine pos track_id ttl time)
  unfolding publish
  publish-Keeps w0 mine pos track_id ttl time =
      Keeps-both (is_hidden mine) _ _ (Keeps-best_effort _ (remove-Others env fl u w0))
        (context-Others env fl u w0 _ _ (upsert-Others env fl u w0 _ ttl refl))

  pub publish-Others :
      (mine : PrivacySettings) (pos : GeoPosition) (track_id : String) (ttl time : ℕ)
      (s t : State World) (done : Unit)
      → publish env fl jitter profile u mine pos track_id ttl time s ≡ ok done t
      → SameOthers u s.world t.world
  publish-Others mine pos track_id ttl time s t done h =
      (subst (Post (SameOthers u s.world) Any) h
        ((publish-Keeps s.world mine pos track_id ttl time).at s (SameOthers-refl u s.world))).0

  pub touch-Others :
      (text : String) (ttl : ℕ) (s t : State World) (o : Option GeoPosition)
      → context text (GeoIndex.touch env fl u ttl) s ≡ ok o t
      → SameOthers u s.world t.world
        × ((p : GeoPosition) → o ≡ some p → position_of u s.world.members ≡ some p)
  touch-Others text ttl s t o h =
      let (same, stored) = subst (Post (Renewed env fl u s.world) (IsStored env fl u s.world)) h (
        (context-Renewed env fl u s.world text _ (touch-Renewed env fl u s.world ttl)).at s
          (SameOthers-refl u s.world, refl)) in
      (same.0, stored)
