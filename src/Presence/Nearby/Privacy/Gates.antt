-- ===== src/Presence/Nearby/Privacy/Gates.antt =====
-- The loops of `query` in backend/internal/presence/nearby_service.go: who passes the gates, and what
-- is shown.
use smusic.Presence.Nearby.Privacy.{
  settings_of, SameTables, Maybe, MaySee, exceeds_le, Maybe-if, All-keep, Permitted, FromIndex,
}
use smusic.Presence.Nearby.Privacy.Reads.{
  settings_or_default-Keeps, blocked-Keeps, follow-Keeps, allow-Keeps, append-Keeps, detail-Keeps,
  search-Keeps, resolve-Keeps,
}
use smusic.Prelude.{
  refl, ◌≢◌, Option-cases, [], ◌∷◌, not, List, min, sym, ◌∙◌, inl, inr, All, ℕ, String, ◌≡◌, Bool,
  true, false, ◌&&◌, ◌||◌, Option, none, some, arith, str_eq,
}
use smusic.Effect.{Env}
use smusic.Effect.Keeps.{Keeps-new_id, Keeps-bind, Keeps-pure, Keeps-if, Keeps}
use smusic.Presence.Domain.{
  bucket_none, DistanceBucket, bucket_for, PresenceEntry, Profile, NearbyResult, NearbyCandidate,
  PrivacySettings, Floats, GeoPosition, has_active_consent, visibility_friends_only,
}
use smusic.Presence.World.{Expiring, World}
use smusic.Presence.GeoIndex.{Details, position_of}
use smusic.Presence.Nearby.{
  screen, query, hydrate, present, present_bucket, shown, results, survivors, judge, judge_target,
  judge_distance, Candidate, is_hidden, Profiles,
}

module _ (env : Env) (fl : Floats) (jitter : ℕ → GeoPosition → Option GeoPosition)
    (profile : ℕ → Profiles) (w0 : World) where
  module _ (requester_id : String) (mine : PrivacySettings) (my_pos : GeoPosition) (time : ℕ) where
    abbrev Judged : Option Candidate → Type 0
    Judged = Maybe (MaySee fl w0 requester_id mine my_pos time)

    judge_distance-Keeps :
        (c : NearbyCandidate) (target : PrivacySettings) (is_mutual : Bool)
        → str_eq c.user_id requester_id ≡ false
        → position_of c.user_id w0.members ≡ some c.position
        → (w0.blocks requester_id c.user_id || w0.blocks c.user_id requester_id) ≡ false
        → target ≡ settings_of c.user_id (w0.settings c.user_id)
        → is_hidden target ≡ false
        → has_active_consent target time ≡ true
        → is_mutual ≡ (w0.follows requester_id c.user_id && w0.follows c.user_id requester_id)
        → (str_eq target.presence_visibility visibility_friends_only ≡ true → is_mutual ≡ true)
        → Keeps
            (SameTables w0)
            Judged
            (judge_distance env fl jitter profile requester_id mine my_pos c target is_mutual)
    unfolding judge_distance
    judge_distance-Keeps c target is_mutual other at_pos unblocked row visible consent follow
          friends =
        Keeps-if
          (fl.exceeds (fl.distance_meters my_pos c.position)
            (min mine.visibility_radius_m target.visibility_radius_m))
          _ _ (λ _. Keeps-pure none tt)
          λ near. Keeps-bind _ _ (allow-Keeps env fl jitter profile w0 _ _ _ _) λ allowed _.
            Keeps-pure _ (
              Maybe-if _ allowed _ (record {
                target = row;
                another = other;
                unblocked = unblocked;
                visible = visible;
                consent = consent;
                follow = follow;
                friends = friends;
                position = (c.position, at_pos, refl);
                my_radius = exceeds_le fl _ _ _ (omega arith) near;
                their_radius = exceeds_le fl _ _ _ (omega arith) near;
              }))

    judge_target-Keeps :
        (c : NearbyCandidate)
        → str_eq c.user_id requester_id ≡ false
        → position_of c.user_id w0.members ≡ some c.position
        → (w0.blocks requester_id c.user_id || w0.blocks c.user_id requester_id) ≡ false
        → Keeps
            (SameTables w0)
            Judged
            (judge_target env fl jitter profile requester_id mine my_pos time c)
    unfolding judge_target
    judge_target-Keeps c other at_pos unblocked =
        Keeps-bind _ _ (settings_or_default-Keeps env fl jitter profile w0 c.user_id) λ target row.
          Keeps-if (is_hidden target || not (has_active_consent target time)) _ _
            (λ _. Keeps-pure none tt)
            λ open_.
              Keeps-bind _ _ (follow-Keeps env fl jitter profile w0 _ _ _) λ is_mutual follow.
                Keeps-if
                  (str_eq target.presence_visibility visibility_friends_only && not is_mutual) _ _
                  (λ _. Keeps-pure none tt)
                  λ friends.
                    judge_distance-Keeps c target is_mutual other at_pos unblocked row
                      (ground arith) (ground arith) follow (ground arith)

    judge-Keeps :
        (c : NearbyCandidate)
        → position_of c.user_id w0.members ≡ some c.position
        → Keeps (SameTables w0) Judged (judge env fl jitter profile requester_id mine my_pos time c)
    unfolding judge
    judge-Keeps c at_pos =
        Keeps-if (str_eq c.user_id requester_id) _ _ (λ _. Keeps-pure none tt)
          λ other. Keeps-bind _ _ (blocked-Keeps env fl jitter profile w0 _ _ _) λ blocked tables.
            Keeps-if blocked _ _ (λ _. Keeps-pure none tt)
              λ unblocked. judge_target-Keeps c other at_pos (sym tables ∙ unblocked)

    abbrev AllSeen : List Candidate → Type 0
    AllSeen = All (MaySee fl w0 requester_id mine my_pos time)

    survivors-Keeps :
        (cs : List NearbyCandidate)
        → All (λ c. position_of c.user_id w0.members ≡ some c.position) cs
        → Keeps
            (SameTables w0)
            AllSeen
            (survivors env fl jitter profile requester_id mine my_pos time cs)
    unfolding survivors
    survivors-Keeps [] h = Keeps-pure [] tt
    survivors-Keeps (c ∷ cs) h = Keeps-bind _ _ (judge-Keeps c h.0) λ verdict hv.
        Keeps-bind _ _ (survivors-Keeps cs h.1)
          λ rest hr. Keeps-pure _ (All-keep _ verdict rest hv hr)

    abbrev IsPermitted : NearbyResult → Type 0
    IsPermitted = Permitted fl w0 requester_id mine my_pos time

    shown-IsPermitted :
        (p : Option Profile) (detail : PresenceEntry) (b : DistanceBucket) (c : Candidate)
        → MaySee fl w0 requester_id mine my_pos time c
        → b ≡ bucket_for fl c.dist
        → b ≢ bucket_none
        → ((d : Expiring) × (w0.details c.user_id ≡ some d)
            × (detail.share_track ≡ d.value.share_track)
            × (detail.track_id ≡ d.value.track_id))
        → IsPermitted (shown p detail b c)
    unfolding shown
    shown-IsPermitted p detail b c seen at_dist some_bucket (d, there, share, track) = record {
      candidate = c;
      may_see = seen;
      user = refl;
      bucket = at_dist;
      in_bucket = some_bucket;
      anonymous = λ hidden. ground arith;
      track = (d, there, ground (arith, share, track));
    }

    present_bucket-Keeps :
        (detail : PresenceEntry) (profiles : Profiles) (c : Candidate) (b : DistanceBucket)
        → MaySee fl w0 requester_id mine my_pos time c
        → b ≡ bucket_for fl c.dist
        → ((d : Expiring) × (w0.details c.user_id ≡ some d)
            × (detail.share_track ≡ d.value.share_track)
            × (detail.track_id ≡ d.value.track_id))
        → Keeps
            (SameTables w0)
            (Maybe IsPermitted)
            (present_bucket env fl jitter profile requester_id time detail profiles c b)
    unfolding present_bucket
    present_bucket-Keeps detail profiles c bucket_none seen at_dist there = Keeps-pure none tt
    present_bucket-Keeps detail profiles c b seen at_dist there =
        Keeps-bind _ _ (Keeps-new_id env) λ id _.
          Keeps-bind _ _ (append-Keeps env fl jitter profile w0 _ _) λ _ _.
            Keeps-pure _
              (shown-IsPermitted (profiles c.user_id) detail _ c seen at_dist (λ e. cc) there)

    present-Keeps :
        (details : Details) (profiles : Profiles) (c : Candidate)
        → FromIndex w0 details
        → MaySee fl w0 requester_id mine my_pos time c
        → Keeps
            (SameTables w0)
            (Maybe IsPermitted)
            (present env fl jitter profile requester_id time details profiles c)
    unfolding present
    present-Keeps details profiles c index seen = elim (Option-cases (details c.user_id)) [
      | inl e ↦ rw (e, present) (Keeps-pure none tt)
      | inr (d, e) ↦
          rw (e, present) (present_bucket-Keeps d profiles c _ seen refl (index.entry _ d e))
    ]

    results-Keeps :
        (details : Details) (profiles : Profiles) (cs : List Candidate)
        → FromIndex w0 details
        → AllSeen cs
        → Keeps
            (SameTables w0)
            (All IsPermitted)
            (results env fl jitter profile requester_id time details profiles cs)
    unfolding results
    results-Keeps details profiles [] index h = Keeps-pure [] tt
    results-Keeps details profiles (c ∷ cs) index h =
        Keeps-bind _ _ (present-Keeps details profiles c index h.0) λ r hr.
          Keeps-bind _ _ (results-Keeps details profiles cs index h.1)
            λ rest hs. Keeps-pure _ (All-keep _ r rest hr hs)

    hydrate-Keeps :
        (cs : List Candidate)
        → AllSeen cs
        → Keeps
            (SameTables w0)
            (All IsPermitted)
            (hydrate env fl jitter profile requester_id time cs)
    unfolding hydrate
    hydrate-Keeps [] h = Keeps-pure [] tt
    hydrate-Keeps (c ∷ cs) h =
        Keeps-bind _ _ (detail-Keeps env fl jitter profile w0 _ _) λ details index.
          Keeps-bind _ _ (resolve-Keeps env fl jitter profile w0 (c ∷ cs))
            λ profiles _. results-Keeps details profiles (c ∷ cs) index h

    screen-Keeps :
        (cs : List NearbyCandidate)
        → All (λ c. position_of c.user_id w0.members ≡ some c.position) cs
        → Keeps
            (SameTables w0)
            (All IsPermitted)
            (screen env fl jitter profile requester_id mine my_pos time cs)
    unfolding screen
    screen-Keeps [] h = Keeps-pure [] tt
    screen-Keeps (c ∷ cs) h =
        Keeps-bind _ _ (allow-Keeps env fl jitter profile w0 _ _ _ _) λ allowed _.
          Keeps-if allowed _ _
            (λ _. Keeps-bind _ _ (survivors-Keeps (c ∷ cs) h) λ passed hp. hydrate-Keeps passed hp)
            (λ _. Keeps-pure [] tt)

    pub query-Keeps :
        Keeps
          (SameTables w0)
          (All IsPermitted)
          (query env fl jitter profile requester_id mine my_pos time)
    unfolding query
    query-Keeps =
        Keeps-bind _ _ (search-Keeps env fl jitter profile w0 _ _ _ _) (λ raw h. screen-Keeps raw h)
