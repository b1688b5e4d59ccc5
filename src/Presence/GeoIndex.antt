-- ===== src/Presence/GeoIndex.antt =====
-- backend/internal/presence/redisstore/geoindex.go: the sorted set `presence:geo` and the hashes
-- `presence:detail:{user}`. Each Redis command is an interaction of its own, so a method can fail
-- after its first command took effect. Redis keeps positions on its own grid.
use smusic.Prelude.{
  ℕ, ◌+◌, String, Option, none, some, List, [], ◌∷◌, ltb, if◌then◌else◌, str_eq, assign,
}
use smusic.Effect.{Env, pure, ◌>>=◌, ◌>>◌, fetch, store}
use smusic.Presence.Domain.{GeoPosition, Floats, PresenceEntry, NearbyCandidate, failed}
use smusic.Presence.World.{Presence, Detail, Expiring, context}

abbrev pub Members : Type 0
Members = List (String × GeoPosition)

abbrev pub position_of : String → Members → Option GeoPosition
position_of name [] = none
position_of name ((n, p) ∷ rest) = if str_eq n name then some p else position_of name rest

-- A member has one position.
abbrev pub geo_add : String → GeoPosition → Members → Members
geo_add name pos [] = (name, pos) ∷ []
geo_add name pos ((n, p) ∷ rest) =
    if str_eq n name then (name, pos) ∷ rest else (n, p) ∷ geo_add name pos rest

abbrev pub geo_remove : String → Members → Members
geo_remove name [] = []
geo_remove name ((n, p) ∷ rest) =
    let kept = geo_remove name rest in if str_eq n name then kept else (n, p) ∷ kept

-- A key read at `time`: gone once its expiry is reached.
abbrev pub alive : ℕ → Option Expiring → Option Detail
alive time none = none
alive time (some d) = if ltb time d.expires then some d.value else none

-- EXPIRE at `time`: it does nothing to a key that is gone.
abbrev pub renewed : ℕ → ℕ → Option Expiring → Option Expiring
renewed time ttl none = none
renewed time ttl (some d) =
    if ltb time d.expires then some (record d { expires = time + ttl }) else some d

abbrev pub names_within : Floats → GeoPosition → ℕ → Members → List String
names_within fl pos radius_m [] = []
names_within fl pos radius_m ((n, p) ∷ rest) =
    let others = names_within fl pos radius_m rest in
    if fl.within_search pos radius_m p then n ∷ others else others

-- The loop of Search over the names and their positions.
unfoldable pub candidates : String → List String → Members → List NearbyCandidate
candidates exclude [] members = []
candidates exclude (name ∷ names) members =
    let rest = candidates exclude names members in
    if str_eq name exclude then rest else elim (position_of name members) [
      | none ↦ rest
      | some p ↦ record { user_id = name; position = p } ∷ rest
    ]

-- One value of MGET, read back into an entry.
abbrev pub entry_of : String → Detail → PresenceEntry
entry_of user_id d = record {
  user_id = user_id;
  position = record { lat = 0; lon = 0 };
  track_id = d.track_id;
  share_track = d.share_track;
  visibility = d.visibility;
  updated_at = d.updated_at;
}

abbrev pub Details : Type 0
Details = String → Option PresenceEntry

abbrev pub entries : ℕ → (String → Option Expiring) → List String → Details
entries time details [] = λ _. none
entries time details (id ∷ ids) = λ user_id.
    if str_eq id user_id
    then elim (alive time (details id)) [ none ↦ none | some d ↦ some (entry_of id d) ]
    else entries time details ids user_id

module _ (env : Env) (fl : Floats) where
  unfoldable pub upsert : PresenceEntry → ℕ → Presence Unit
  upsert entry ttl = do
    context "redisstore: geoadd" (
        store env (failed "redis") λ _ w. record w {
          members = geo_add entry.user_id (fl.geohash_cell entry.position) w.members;
        })
    context "redisstore: set detail" (
        store env (failed "redis") λ time w. record w {
          details = assign w.details entry.user_id (
              some (record {
                value = record {
                  track_id = entry.track_id;
                  share_track = entry.share_track;
                  visibility = entry.visibility;
                  updated_at = entry.updated_at;
                };
                expires = time + ttl;
              }));
        })

  -- `none` is the result with ok = false.
  unfoldable pub touch_position : String → ℕ → Option GeoPosition → Presence (Option GeoPosition)
  touch_position user_id ttl none = pure none
  touch_position user_id ttl (some p) = do
    context "redisstore: renew ttl" (
        store env (failed "redis") λ time w. record w {
          details = assign w.details user_id (renewed time ttl (w.details user_id));
        })
    pure (some p)

  unfoldable pub touch_detail : String → ℕ → Option Detail → Presence (Option GeoPosition)
  unfolding touch_position
  touch_detail user_id ttl none = pure none
  touch_detail user_id ttl (some d) = do
    position ←
        context "redisstore: geopos"
          (fetch env (failed "redis") (λ _ w. position_of user_id w.members))
    touch_position user_id ttl position

  unfoldable pub touch : String → ℕ → Presence (Option GeoPosition)
  unfolding touch_detail
  touch user_id ttl = do
    d ←
        context "redisstore: get detail"
          (fetch env (failed "redis") (λ time w. alive time (w.details user_id)))
    touch_detail user_id ttl d

  unfoldable pub remove : String → Presence Unit
  remove user_id = do
    context "redisstore: zrem"
        (store env (failed "redis") (λ _ w. record w { members = geo_remove user_id w.members }))
    context "redisstore: del detail"
        (store env (failed "redis") (λ _ w. record w { details = assign w.details user_id none }))

  unfoldable pub search_positions : String → List String → Presence (List NearbyCandidate)
  search_positions exclude [] = pure []
  search_positions exclude (name ∷ names) =
      context "redisstore: geopos"
        (fetch env (failed "redis") (λ _ w. candidates exclude (name ∷ names) w.members))

  unfoldable pub search : GeoPosition → ℕ → String → Presence (List NearbyCandidate)
  unfolding search_positions candidates
  search pos radius_m exclude_user_id = do
    names ←
        context "redisstore: geosearch"
          (fetch env (failed "redis") (λ _ w. names_within fl pos radius_m w.members))
    search_positions exclude_user_id names

  unfoldable pub detail : List String → Presence Details
  detail [] = pure (λ _. none)
  detail (id ∷ ids) =
      context "redisstore: mget detail"
        (fetch env (failed "redis") (λ time w. entries time w.details (id ∷ ids)))
