-- ===== src/Presence/Nearby/Privacy.antt =====
-- Who may appear in a nearby list, and with what: the filters of `query` in
-- backend/internal/presence/nearby_service.go against the tables at the time of the query.
pub mod Reads
pub mod Gates
use smusic.Prelude.{
  any, subst, refl, ◌⊎◌, ◌≢◌, eq_iff, Option-cases, [], ◌∷◌, not, if◌then◌else◌, List, min, sym,
  ◌∙◌, ◌≤◌, Bool-cases, inl, inr, All, ℕ, String, ◌≡◌, ap, Bool, true, false, ◌&&◌, ◌||◌, Option,
  none, some, arith, str_eq,
}
use smusic.Effect.{fetch, Env, ◌>>=◌}
use smusic.Effect.Keeps.{
  Keeps-raise, Keeps-fetch, Keeps-catch, Keeps-new_id, Keeps-bind, Keeps-pure, Keeps-if, Keeps, Any,
}
use smusic.Presence.Domain.{
  failed, bucket_none, DistanceBucket, bucket_for, PresenceEntry, Profile, NearbyResult,
  AuditLogEntry, Float64, NearbyCandidate, PrivacySettings, Floats, GeoPosition,
  default_privacy_settings, has_active_consent, visibility_friends_only,
}
use smusic.Presence.World.{Expiring, World, context}
use smusic.Presence.Repo
use smusic.Presence.GeoIndex
use smusic.Presence.GeoIndex.{
  names_within, search_positions, Members, candidates, entry_of, alive, Details, entries,
  position_of,
}
use smusic.Presence.RateLimit.{allow, hit, arm}
use smusic.Presence.Nearby.{
  screen, query, hydrate, resolve, is_revealed, present, present_bucket, shown, results, keep,
  survivors, judge, judge_target, judge_distance, Candidate, is_hidden, Profiles,
  settings_or_default,
}

-- A user's row, or the safe default where there is none.
abbrev pub settings_of : String → Option PrivacySettings → PrivacySettings
settings_of user_id none = default_privacy_settings user_id
settings_of user_id (some s) = s

-- What a query reads and must not change.
pub record SameTables (w0 w : World) : Type 0 where
  pub settings : w.settings ≡ w0.settings
  pub blocks : w.blocks ≡ w0.blocks
  pub follows : w.follows ≡ w0.follows
  pub members : w.members ≡ w0.members
  pub details : w.details ≡ w0.details

abbrev pub Maybe {ℓ} : {A : Type ℓ} → (A → Type 0) → Option A → Type 0
Maybe P none = Unit
Maybe P (some a) = P a

-- A survivor of the filters: nobody blocked, hidden, without consent, outside the circle of friends
-- that the target asks for, or outside either radius.
pub record MaySee (fl : Floats) (w : World) (requester_id : String) (mine : PrivacySettings)
    (my_pos : GeoPosition) (time : ℕ) (c : Candidate) : Type 0 where
  pub target : c.target ≡ settings_of c.user_id (w.settings c.user_id)
  pub another : str_eq c.user_id requester_id ≡ false
  pub unblocked : (w.blocks requester_id c.user_id || w.blocks c.user_id requester_id) ≡ false
  pub visible : is_hidden c.target ≡ false
  pub consent : has_active_consent c.target time ≡ true
  pub follow : c.is_mutual ≡ (w.follows requester_id c.user_id && w.follows c.user_id requester_id)
  pub friends :
      str_eq c.target.presence_visibility visibility_friends_only ≡ true → c.is_mutual ≡ true
  pub position :
      (p : GeoPosition) × (position_of c.user_id w.members ≡ some p)
      × (c.dist ≡ fl.distance_meters my_pos p)
  pub my_radius : fl.exceeds c.dist mine.visibility_radius_m ≡ false
  pub their_radius : fl.exceeds c.dist c.target.visibility_radius_m ≡ false

pub exceeds_le :
    (fl : Floats) (d : Float64) (m n : ℕ) → m ≤ n → fl.exceeds d m ≡ false → fl.exceeds d n ≡ false
exceeds_le fl d m n le h = elim (Bool-cases (fl.exceeds d n)) [
  | inl over ↦ cc (fl.exceeds_mono d m n le over)
  | inr e ↦ e
]

module _ {A : Type 0} (P : A → Type 0) where
  pub Maybe-if : (b : Bool) (a : A) → P a → Maybe P (if b then some a else none)
  Maybe-if true a h = h
  Maybe-if false a h = tt

  pub All-keep : (o : Option A) (xs : List A) → Maybe P o → All P xs → All P (keep o xs)
  All-keep none xs h hs = hs
  All-keep (some x) xs h hs = (h, hs)

-- A result about a survivor: its bucket is that of the distance and never none, its name and avatar
-- are shown only to a mutual follow or under open discovery, and its track is that of the entry in
-- the index if the entry says that the owner shares it, and empty otherwise.
pub record Permitted (fl : Floats) (w : World) (requester_id : String) (mine : PrivacySettings)
    (my_pos : GeoPosition) (time : ℕ) (r : NearbyResult) : Type 0 where
  pub candidate : Candidate
  pub may_see : MaySee fl w requester_id mine my_pos time candidate
  pub user : r.user_id ≡ candidate.user_id
  pub bucket : r.bucket ≡ bucket_for fl candidate.dist
  pub in_bucket : r.bucket ≢ bucket_none
  pub anonymous : is_revealed candidate ≡ false → (r.display_name ≡ "") × (r.avatar_url ≡ "")
  pub track :
      (d : Expiring) × (w.details candidate.user_id ≡ some d)
      × (r.track_id ≡ (if d.value.share_track then d.value.track_id else ""))

-- The durable tables, which the feed reads and never writes.
pub record SameRows (w0 w : World) : Type 0 where
  pub settings : w.settings ≡ w0.settings
  pub blocks : w.blocks ≡ w0.blocks
  pub follows : w.follows ≡ w0.follows

-- What the feed of `u` reads of the other users: besides the tables, their entries in the index.
pub record SameOthers (u : String) (w0 w : World) : Type 0 where
  pub rows : SameRows w0 w
  pub position :
      (v : String) → str_eq v u ≡ false → position_of v w.members ≡ position_of v w0.members
  pub detail : (v : String) → str_eq v u ≡ false → w.details v ≡ w0.details v

module _ (fl : Floats) (w0 w : World) (requester_id : String) (mine : PrivacySettings)
    (my_pos : GeoPosition) (time : ℕ) (same : SameOthers requester_id w0 w) where
  MaySee-others :
      (c : Candidate)
      → MaySee fl w requester_id mine my_pos time c
      → MaySee fl w0 requester_id mine my_pos time c
  MaySee-others c m = record {
    target =
        m.target
        ∙ ap (λ (f : String → Option PrivacySettings). settings_of c.user_id (f c.user_id))
            same.rows.settings;
    another = m.another;
    unblocked =
        sym (
          ap (λ (f : String → String → Bool). f requester_id c.user_id || f c.user_id requester_id)
            same.rows.blocks)
        ∙ m.unblocked;
    visible = m.visible;
    consent = m.consent;
    follow =
        m.follow
        ∙ ap (λ (f : String → String → Bool). f requester_id c.user_id && f c.user_id requester_id)
            same.rows.follows;
    friends = m.friends;
    position =
        let (p, there, far) = m.position in
        (p, sym (same.position c.user_id m.another) ∙ there, far);
    my_radius = m.my_radius;
    their_radius = m.their_radius;
  }

  -- What is permitted after the requester's own entry has changed was so before.
  pub Permitted-others :
      (r : NearbyResult)
      → Permitted fl w requester_id mine my_pos time r
      → Permitted fl w0 requester_id mine my_pos time r
  Permitted-others r p = record {
    candidate = p.candidate;
    may_see = MaySee-others p.candidate p.may_see;
    user = p.user;
    bucket = p.bucket;
    in_bucket = p.in_bucket;
    anonymous = p.anonymous;
    track =
        let (d, there, shown_as) = p.track in
        (d, sym (same.detail p.candidate.user_id p.may_see.another) ∙ there, shown_as);
  }

-- Entries that MGET read from the hashes of `w`.
pub record FromIndex (w : World) (details : Details) : Type 0 where
  pub entry :
      (u : String) (e : PresenceEntry)
      → details u ≡ some e
      → (d : Expiring) × (w.details u ≡ some d)
        × (e.share_track ≡ d.value.share_track)
        × (e.track_id ≡ d.value.track_id)

pub entry_of-alive :
    (time : ℕ) (id u : String) (o : Option Expiring) (e : PresenceEntry)
    → elim (alive time o) [ none ↦ none | some d ↦ some (entry_of id d) ] ≡ some e
    → (d : Expiring) × (o ≡ some d)
      × (e.share_track ≡ d.value.share_track)
      × (e.track_id ≡ d.value.track_id)
entry_of-alive time id u none e h = cc
entry_of-alive time id u (some d) e h = (d, refl, ground arith, ground arith)

pub entries-FromIndex :
    (time : ℕ) (w : World) (ids : List String) → FromIndex w (entries time w.details ids)
entries-FromIndex time w [] = record { entry = λ u e h. cc }
entries-FromIndex time w (id ∷ ids) = record {
  entry = λ u e h. elim (Bool-cases (str_eq id u)) [
    | inl same ↦
        rw (← (eq_iff id u).0 same) (entry_of-alive time id u (w.details id) e (rw same at h))
    | inr other ↦ (entries-FromIndex time w ids).entry u e (rw other at h)
  ];
}

pub candidates-All :
    (exclude : String) (names : List String) (m : Members)
    → All (λ c. position_of c.user_id m ≡ some c.position) (candidates exclude names m)
unfolding candidates
candidates-All exclude [] m = tt
candidates-All exclude (n ∷ ns) m = ground (arith, candidates-All exclude ns m)
