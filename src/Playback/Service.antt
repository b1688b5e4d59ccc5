-- ===== src/Playback/Service.antt =====
-- backend/internal/playback/service.go. The catalog, the resolver and the clock answer by interaction.
use smusic.Prelude.{
  ℕ, String, Bool, true, false, not, ◌||◌, List, [], ◌∷◌, ◌++◌, if◌then◌else◌, str_eq, any, Option,
  none, some,
}
use smusic.Prelude.Int.{ℤ, pos, is_negative}
use smusic.Effect.{
  Env, State, Outcome, ok, err, bump, pure, raise, guard, store, ◌>>=◌, ◌>>◌, now, new_id,
}
use smusic.Playback.Domain.{
  SessionState, World, Error, Playback, context, invalid_input, forbidden, track_not_found,
  empty_queue, failed, save, load,
}
use smusic.Playback.Resolver.{Resolved}

abbrev pub enqueue_position_next : String
enqueue_position_next = "next"

-- The catalog and the resolver (`none` is their error), and the life of a session.
pub record Deps : Type 0 where
  pub track_exists : ℕ → String → Option Bool
  pub resolve : ℕ → String → Option Resolved
  pub session_ttl : ℕ

pub record PlayResult : Type 0 where
  pub track_id : String
  pub stream_url : String
  pub expires_at : ℕ
  pub state : SessionState

module _ (env : Env) (deps : Deps) where
  unfoldable pub create_session : String → String → Playback SessionState
  create_session user_id device_id = do
    guard (not (str_eq user_id "")) (invalid_input "user id is required")
    id ← new_id env
    time ← now env
    let state : SessionState = record {
      session_id = id;
      user_id = user_id;
      device_id = device_id;
      track_id = "";
      position_ms = pos 0;
      is_playing = false;
      queue = [];
      updated_at = time;
    }
    context "playback: create session" (save env state deps.session_ttl)
    pure state

  unfoldable pub get_owned_session : String → String → Playback SessionState
  get_owned_session session_id requester_id = do
    guard (not (str_eq session_id "" || str_eq requester_id ""))
        (invalid_input "session id and requester are required")
    state ← context "playback: load session" (load env session_id)
    guard (str_eq state.user_id requester_id) forbidden
    pure state

  unfoldable pub get_state : String → String → Playback SessionState
  get_state session_id requester_id = get_owned_session session_id requester_id

  abbrev pub answer_track : State World → Option Bool → Outcome World Error Unit
  answer_track s none = err (failed "playback: check track exists") (bump s)
  answer_track s (some true) = ok tt (bump s)
  answer_track s (some false) = err track_not_found (bump s)

  unfoldable pub check_track : String → Playback Unit
  check_track track_id s = answer_track s (deps.track_exists s.tick track_id)

  abbrev pub answer_url : State World → Option Resolved → Outcome World Error Resolved
  answer_url s none = err (failed "playback: resolve media url") (bump s)
  answer_url s (some r) = ok r (bump s)

  unfoldable pub load_track : String → Playback Resolved
  load_track track_id = check_track track_id >> λ s. answer_url s (deps.resolve s.tick track_id)

  unfoldable pub save_and_record : SessionState → String → Playback Unit
  save_and_record state track_id = do
    context "playback: save session" (save env state deps.session_ttl)
    id ← new_id env
    store env (failed "playback: record play event") (λ _ w. record w {
      events =
          w.events
          ++ record {
            id = id;
            user_id = state.user_id;
            track_id = track_id;
            device_id = state.device_id;
            played_at = state.updated_at;
            context_type = "playlist";
          }
            ∷ [];
    })

  -- A track begins, in the state that the session then has.
  abbrev pub result : String → Resolved → SessionState → PlayResult
  result track_id r state = record {
    track_id = track_id;
    stream_url = r.url;
    expires_at = r.expires_at;
    state = state;
  }

  unfoldable pub play : String → String → String → ℤ → Playback PlayResult
  play session_id requester_id track_id position_ms = do
    guard (not (str_eq track_id "")) (invalid_input "track id is required")
    guard (not (is_negative position_ms)) (invalid_input "position_ms must not be negative")
    state ← get_owned_session session_id requester_id
    r ← load_track track_id
    time ← now env
    let playing : SessionState = record state {
      track_id = track_id;
      position_ms = position_ms;
      is_playing = true;
      updated_at = time;
    }
    save_and_record playing track_id
    pure (result track_id r playing)

  unfoldable pub pause : String → String → Playback SessionState
  pause session_id requester_id = do
    state ← get_owned_session session_id requester_id
    time ← now env
    let paused : SessionState = record state { is_playing = false; updated_at = time }
    context "playback: pause" (save env paused deps.session_ttl)
    pure paused

  unfoldable pub seek : String → String → ℤ → Playback SessionState
  seek session_id requester_id position_ms = do
    guard (not (is_negative position_ms)) (invalid_input "position_ms must not be negative")
    state ← get_owned_session session_id requester_id
    time ← now env
    let moved : SessionState = record state { position_ms = position_ms; updated_at = time }
    context "playback: seek" (save env moved deps.session_ttl)
    pure moved

  -- Next, by the queue of the session.
  unfoldable pub advance : SessionState → List String → Playback PlayResult
  advance state [] = raise empty_queue
  advance state (track_id ∷ rest) = do
    r ← load_track track_id
    time ← now env
    let playing : SessionState = record state {
      track_id = track_id;
      position_ms = pos 0;
      is_playing = true;
      queue = rest;
      updated_at = time;
    }
    save_and_record playing track_id
    pure (result track_id r playing)

  unfoldable pub next : String → String → Playback PlayResult
  next session_id requester_id = do
    state ← get_owned_session session_id requester_id
    advance state state.queue

  unfoldable pub check_tracks : List String → Playback Unit
  check_tracks [] = pure tt
  check_tracks (id ∷ ids) = do check_track id; check_tracks ids

  -- `next` puts the tracks in front, anything else behind.
  abbrev pub enqueued : String → List String → List String → List String
  enqueued position track_ids queue =
      if str_eq position enqueue_position_next then track_ids ++ queue else queue ++ track_ids

  abbrev pub is_empty : List String → Bool
  is_empty [] = true
  is_empty (id ∷ ids) = false

  unfoldable pub enqueue : String → String → List String → String → Playback SessionState
  enqueue session_id requester_id track_ids position = do
    guard (not (is_empty track_ids)) (invalid_input "at least one track id is required")
    guard (not (any (λ id. str_eq id "") track_ids)) (invalid_input "track ids must not be empty")
    state ← get_owned_session session_id requester_id
    check_tracks track_ids
    time ← now env
    let longer : SessionState = record state {
      queue = enqueued position track_ids state.queue;
      updated_at = time;
    }
    context "playback: enqueue" (save env longer deps.session_ttl)
    pure longer
