-- ===== src/Playback/Ownership.antt =====
-- Only its owner changes a session.
use smusic.Playback.Domain.{Error, SessionState, Stored, World, save, load}
use smusic.Effect.Keeps.{
  Keeps-forget, Keeps, Any, Post-world, Keeps-fetch, Keeps-bind, Keeps-then, Keeps-pure, Keeps-done,
  Keeps-raise, Keeps-or_raise, Keeps-guard, Keeps-guarded, Keeps-now, Keeps-new_id, Keeps-store,
}
use smusic.Effect.{new_id, Env, State, state_of}
use smusic.Prelude.{
  ℕ, ◌+◌, String, ◌≡◌, ◌≢◌, sym, ◌∙◌, ap, Option, some, List, [], ◌∷◌, All, arith, str_eq, eq_iff,
  Bool-cases, inl, inr, assign, some-inj,
}
use smusic.Playback.Service
use smusic.Playback.Service.{Deps}
use smusic.Playback.Calls.{
  Call, Request, serve, run, creates_session, gets_state, pauses, skips, plays, seeks, enqueues,
}
use smusic.Playback.Frame.{live-eq-some, context-Kept, load_track-Kept, check_tracks-Kept}

-- Every session is stored under its own id.
abbrev pub IsKeyed : World → Type 0
IsKeyed w = (id : String) (k : Stored) → w.sessions id ≡ some k → k.state.session_id ≡ id

-- The session is stored like this.
abbrev pub Holds : String → Stored → World → Type 0
Holds id k w = (w.sessions id ≡ some k) × IsKeyed w

assign-IsKeyed :
    (state : SessionState) (expires_at : ℕ) (w : World)
    → IsKeyed w
    → IsKeyed (record w {
      sessions =
          assign w.sessions state.session_id
            (some (record { state = state; expires_at = expires_at }));
    })
assign-IsKeyed state expires_at w keyed id k h = elim (Bool-cases (str_eq state.session_id id)) [
  | inl e ↦
      let same : record { state = state; expires_at = expires_at } ≡ k =
        some-inj (ground (arith, h, e)) in
      ap (λ (x : Stored). x.state.session_id) (sym same) ∙ (eq_iff state.session_id id).0 e
  | inr e ↦ keyed id k (ground (arith, h, e))
]

module _ (env : Env) (deps : Deps) (id : String) (k : Stored) where
  save-Holds :
      (state : SessionState)
      → state.session_id ≢ id
      → Keeps (Holds id k) Any (save env state deps.session_ttl)
  unfolding save
  save-Holds state other = Keeps-store env _ _ λ t w h. (
    ground (arith, h, other, eq_iff state.session_id id),
    assign-IsKeyed state (t + deps.session_ttl) w h.1,
  )

  -- What is loaded carries the id that it was asked by, and is the session if that is its id.
  abbrev Loaded : String → SessionState → Type 0
  Loaded session_id q = (q.session_id ≡ session_id) × (session_id ≡ id → q ≡ k.state)

  load-Loaded : (session_id : String) → Keeps (Holds id k) (Loaded session_id) (load env session_id)
  unfolding load
  load-Loaded session_id =
      Keeps-bind
        {Q = λ (o : Option SessionState). (q : SessionState) → o ≡ some q → Loaded session_id q} _ _
        (Keeps-fetch env _ _ (λ t w h q e.
          let (stored, there, same) = live-eq-some t (w.sessions session_id) q e in
          (
            ap (λ x. x.session_id) (sym same) ∙ h.1 session_id stored there,
            λ mine. sym same ∙ ap (λ x. x.state) (some-inj (sym there ∙ ap w.sessions mine ∙ h.0)),
          )))
        (λ o found. Keeps-or_raise _ o found)

  get_owned_session-Other :
      (session_id requester_id : String)
      → requester_id ≢ k.state.user_id
      → Keeps
          (Holds id k)
          (λ q. q.session_id ≢ id)
          (Service.get_owned_session env deps session_id requester_id)
  unfolding Service.get_owned_session
  get_owned_session-Other session_id requester_id other = Keeps-guarded _ _ _ λ named.
      Keeps-bind _ _ (context-Kept _ _ (load-Loaded session_id)) λ q loaded.
        Keeps-guarded _ _ _ λ owns. Keeps-pure q (λ mine. other (
          sym ((eq_iff q.user_id requester_id).0 owns)
          ∙ ap (λ x. x.user_id) (loaded.1 (sym loaded.0 ∙ mine))))

  save_and_record-Holds :
      (state : SessionState) (track_id : String)
      → state.session_id ≢ id
      → Keeps (Holds id k) Any (Service.save_and_record env deps state track_id)
  unfolding Service.save_and_record
  save_and_record-Holds state track_id other =
      Keeps-then _ _ (context-Kept _ _ (save-Holds state other))
        λ _. Keeps-then _ _ (Keeps-new_id env) λ _. Keeps-store env _ _ (λ t w h. h)

  advance-Holds :
      (state : SessionState) (queue : List String)
      → state.session_id ≢ id
      → Keeps (Holds id k) Any (Service.advance env deps state queue)
  unfolding Service.advance
  advance-Holds state [] other = Keeps-raise _
  advance-Holds state (track_id ∷ rest) other =
      Keeps-then _ _ (load_track-Kept env deps track_id) λ r.
        Keeps-then _ _ (Keeps-now env)
          λ time. Keeps-then _ _ (save_and_record-Holds _ track_id other) λ _. Keeps-done _

  module _ (user_id : String) (other : user_id ≢ k.state.user_id)
      (fresh : (n : ℕ) → env.fresh_id n ≢ id) where
    new_id-Fresh : Keeps {E = Error} (Holds id k) (λ new. new ≢ id) (new_id env)
    unfolding new_id
    new_id-Fresh = record { at = λ s h. (h, fresh s.tick) }

    create_session-Holds :
        (device_id : String)
        → Keeps (Holds id k) Any (Service.create_session env deps user_id device_id)
    unfolding Service.create_session
    create_session-Holds device_id = Keeps-then _ _ (Keeps-guard _ _) λ _.
        Keeps-bind _ _ new_id-Fresh λ new apart_.
          Keeps-then _ _ (Keeps-now env)
            λ time. Keeps-then _ _ (context-Kept _ _ (save-Holds _ apart_)) λ _. Keeps-done _

    serve-Holds : (c : Call) → Keeps (Holds id k) Any (serve env deps user_id c)
    unfolding serve Service.get_state Service.pause Service.seek Service.play Service.next
        Service.enqueue
    serve-Holds (creates_session device_id) =
        Keeps-then _ _ (create_session-Holds device_id) λ _. Keeps-done tt
    serve-Holds (gets_state sid) =
        Keeps-then _ _ (Keeps-forget _ (get_owned_session-Other sid user_id other))
          λ _. Keeps-done tt
    serve-Holds (pauses sid) =
        Keeps-then _ _
          (Keeps-bind _ _ (get_owned_session-Other sid user_id other) λ q foreign.
            Keeps-then _ _ (Keeps-now env)
              λ time. Keeps-then _ _ (context-Kept _ _ (save-Holds _ foreign)) λ _. Keeps-done _)
          λ _. Keeps-done tt
    serve-Holds (seeks sid position_ms) =
        Keeps-then _ _
          (Keeps-then _ _ (Keeps-guard _ _) λ _.
            Keeps-bind _ _ (get_owned_session-Other sid user_id other) λ q foreign.
              Keeps-then _ _ (Keeps-now env)
                λ time. Keeps-then _ _ (context-Kept _ _ (save-Holds _ foreign)) λ _. Keeps-done _)
          λ _. Keeps-done tt
    serve-Holds (skips sid) =
        Keeps-then _ _
          (Keeps-bind _ _ (get_owned_session-Other sid user_id other)
            λ q foreign. advance-Holds q q.queue foreign)
          λ _. Keeps-done tt
    serve-Holds (plays sid track_id position_ms) =
        Keeps-then _ _
          (Keeps-then _ _ (Keeps-guard _ _) λ _. Keeps-then _ _ (Keeps-guard _ _) λ _.
            Keeps-bind _ _ (get_owned_session-Other sid user_id other) λ q foreign.
              Keeps-then _ _ (load_track-Kept env deps track_id) λ r.
                Keeps-then _ _ (Keeps-now env) λ time.
                  Keeps-then _ _ (save_and_record-Holds _ track_id foreign) λ _. Keeps-done _)
          λ _. Keeps-done tt
    serve-Holds (enqueues sid track_ids position) =
        Keeps-then _ _
          (Keeps-then _ _ (Keeps-guard _ _) λ _. Keeps-then _ _ (Keeps-guard _ _) λ _.
            Keeps-bind _ _ (get_owned_session-Other sid user_id other) λ q foreign.
              Keeps-then _ _ (check_tracks-Kept env deps track_ids) λ _.
                Keeps-then _ _ (Keeps-now env) λ time.
                  Keeps-then _ _ (context-Kept _ _ (save-Holds _ foreign)) λ _. Keeps-done _)
          λ _. Keeps-done tt

run-Holds :
    (env : Env) (deps : Deps) (id : String) (k : Stored)
    → ((n : ℕ) → env.fresh_id n ≢ id)
    → (s : State World) (requests : List Request) → All (λ r. r.user_id ≢ k.state.user_id) requests
    → Holds id k s.world
    → Holds id k (run env deps s requests).world
unfolding run
run-Holds env deps id k fresh s [] others h = h
run-Holds env deps id k fresh s (r ∷ rs) others h =
    let served = serve env deps r.user_id r.call s in
    run-Holds env deps id k fresh (state_of served) rs others.1 (
      Post-world (Holds id k) Any served
        ((serve-Holds env deps id k r.user_id others.0 fresh r.call).at s h))

-- Whatever calls other users than its owner make, in any number and order, failing or not: a session
-- stays stored as it was, with its expiry, if every session is stored under its own id and no new
-- identifier repeats that of the session.
pub run-sessions :
    (env : Env) (deps : Deps) (id : String) (k : Stored) (s : State World) (requests : List Request)
    → ((n : ℕ) → env.fresh_id n ≢ id)
    → IsKeyed s.world
    → s.world.sessions id ≡ some k
    → All (λ r. r.user_id ≢ k.state.user_id) requests
    → (run env deps s requests).world.sessions id ≡ some k
run-sessions env deps id k s requests fresh keyed stored others =
    (run-Holds env deps id k fresh s requests others (stored, keyed)).0
