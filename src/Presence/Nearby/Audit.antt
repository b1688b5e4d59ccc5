-- ===== src/Presence/Nearby/Audit.antt =====
-- The access log of a query (Append in nearby_service.go).
use smusic.Prelude.{
  refl, none, some, inr, inl, Option-cases, ℕ, String, ◌≡◌, Option, List, [], ◌∷◌, ◌++◌, map, arith,
}
use mathlib.Core.List.{append_assoc, append-nil, map-append}
use smusic.Effect.{pure-eq-ok, Env, State, ok, ◌>>=◌, >>=-eq-ok}
use smusic.Presence.Domain.{
  AuditLogEntry, Floats, GeoPosition, NearbyResult, DistanceBucket, bucket_none, PresenceEntry,
}
use smusic.Presence.World.{World}
use smusic.Presence.Repo
use smusic.Presence.Nearby.{
  Details, results, present, context, Profiles, Candidate, keep, shown, present_bucket,
}

-- Who saw whom, when and how near.
abbrev pub Access : Type 0
Access = String × String × ℕ × DistanceBucket

abbrev pub of_entry : AuditLogEntry → Access
of_entry e = (e.requester_id, e.target_id, e.occurred_at, e.bucket)

abbrev pub of_result : String → ℕ → NearbyResult → Access
of_result requester_id time r = (requester_id, r.user_id, time, r.bucket)

abbrev of_option : String → ℕ → Option NearbyResult → List Access
of_option requester_id time o = map (of_result requester_id time) (keep o [])

module _ (env : Env) (fl : Floats) (jitter : ℕ → GeoPosition → Option GeoPosition)
    (profile : ℕ → Profiles) (requester_id : String) (time : ℕ) where
  audit-append :
      (text : String) (e : AuditLogEntry) (s t : State World)
      → context text (Repo.append env e) s ≡ ok tt t
      → map of_entry t.world.audit ≡ map of_entry s.world.audit ++ of_entry e ∷ []
  unfolding Repo.append ◌>>=◌
  audit-append text e s t h = ground (arith, map-append of_entry s.world.audit (e ∷ []))

  audit-present_bucket :
      (detail : PresenceEntry) (profiles : Profiles) (c : Candidate) (b : DistanceBucket)
      (s t : State World) (o : Option NearbyResult)
      → present_bucket env fl jitter profile requester_id time detail profiles c b s ≡ ok o t
      → map of_entry t.world.audit ≡ map of_entry s.world.audit ++ of_option requester_id time o
  unfolding present_bucket
  audit-present_bucket detail profiles c bucket_none s t o h =
      unfold ◌>>=◌ in ground (arith, append-nil (map of_entry s.world.audit))
  audit-present_bucket detail profiles c b s t o h =
      let (id, s1, e1, h1) = >>=-eq-ok _ _ s h in
      let (u, s2, e2, h2) = >>=-eq-ok _ _ s1 h1 in
      let logged = audit-append _ _ s1 s2 e2 in unfold ◌>>=◌ shown in ground (arith, logged)

  audit-present :
      (details : Details) (profiles : Profiles) (c : Candidate) (s t : State World)
      (o : Option NearbyResult)
      → present env fl jitter profile requester_id time details profiles c s ≡ ok o t
      → map of_entry t.world.audit ≡ map of_entry s.world.audit ++ of_option requester_id time o
  unfolding present
  audit-present details profiles c s t o h = elim (Option-cases (details c.user_id)) [
    | inl e ↦ unfold ◌>>=◌ in ground (arith, append-nil (map of_entry s.world.audit))
    | inr (d, e) ↦ audit-present_bucket d profiles c _ s t o (rw (e, present) at h)
  ]

  map-keep :
      (o : Option NearbyResult) (rs : List NearbyResult)
      → map (of_result requester_id time) (keep o rs)
        ≡ of_option requester_id time o ++ map (of_result requester_id time) rs
  map-keep none rs = refl
  map-keep (some r) rs = refl

  -- The loop that builds the results logs each of them, in order, and nothing else.
  pub audit-results :
      (details : Details) (profiles : Profiles) (cs : List Candidate) (s t : State World)
      (rs : List NearbyResult)
      → results env fl jitter profile requester_id time details profiles cs s ≡ ok rs t
      → map of_entry t.world.audit
        ≡ map of_entry s.world.audit ++ map (of_result requester_id time) rs
  unfolding results
  audit-results details profiles [] s t rs h =
      ground (arith, append-nil (map of_entry s.world.audit), pure-eq-ok _ _ h)
  audit-results details profiles (c ∷ cs) s t rs h =
      let (o, s1, e1, h1) = >>=-eq-ok _ _ s h in
      let (rest, s2, e2, h2) = >>=-eq-ok _ _ s1 h1 in
      ground (
        arith,
        audit-present details profiles c s s1 o e1,
        audit-results details profiles cs s1 s2 rest e2,
        pure-eq-ok _ _ h2,
        map-keep o rest,
        append_assoc (map of_entry s.world.audit) (of_option requester_id time o)
            (map (of_result requester_id time) rest),
      )
