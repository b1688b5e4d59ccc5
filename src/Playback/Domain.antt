-- ===== src/Playback/Domain.antt =====
-- backend/internal/playback/domain.go, repo.go and redisstore/store.go.
use smusic.Prelude.{ℕ, ◌+◌, String, Bool, Option, none, some, List, if◌then◌else◌, ltb, assign}
use smusic.Prelude.Int.{ℤ}
use smusic.Effect.{Env, Act, catch, raise, ◌>>=◌, fetch, store, or_raise}

pub record SessionState : Type 0 where
  pub session_id : String
  pub user_id : String
  pub device_id : String
  pub track_id : String
  pub position_ms : ℤ
  pub is_playing : Bool
  pub queue : List String
  pub updated_at : ℕ

-- The sentinel errors, and `failed` for an error of a dependency wrapped with its context.
pub data Error : Type 0 where
  invalid_input : String → Error
  session_not_found forbidden track_not_found empty_queue : Error
  failed : String → Error

pub record PlayEvent : Type 0 where
  pub id : String
  pub user_id : String
  pub track_id : String
  pub device_id : String
  pub played_at : ℕ
  pub context_type : String

-- A key of Redis: the state, and when it expires.
pub record Stored : Type 0 where
  pub state : SessionState
  pub expires_at : ℕ

pub record World : Type 0 where
  pub sessions : String → Option Stored
  pub events : List PlayEvent

abbrev pub Playback : Type 0 → Type 0
Playback A = Act World Error A

abbrev wrapped : String → Error → Error
wrapped text (failed _) = failed text
wrapped text e = e

-- fmt.Errorf("context: %w", err), as errors.Is sees it.
abbrev pub context : {A : Type 0} → String → Playback A → Playback A
context text m = catch m (λ e. raise (wrapped text e))

-- What a key answers at a time.
abbrev pub live : ℕ → Option Stored → Option SessionState
live time none = none
live time (some k) = if ltb time k.expires_at then some k.state else none

-- The session behind an id, at a time.
abbrev pub session_at : String → ℕ → World → Option SessionState
session_at id time w = live time (w.sessions id)

module _ (env : Env) where
  -- SET key value EX ttl
  unfoldable pub save : SessionState → ℕ → Playback Unit
  save state ttl = store env (failed "redisstore: save") (λ time w. record w {
    sessions =
        assign w.sessions state.session_id
          (some (record { state = state; expires_at = time + ttl }));
  })

  -- GET key
  unfoldable pub load : String → Playback SessionState
  load session_id = do
    found ← fetch env (failed "redisstore: load") (λ time w. session_at session_id time w)
    or_raise session_not_found found

  -- DEL key
  unfoldable pub delete : String → Playback Unit
  delete session_id =
      store env (failed "redisstore: delete")
        (λ time w. record w { sessions = assign w.sessions session_id none })
