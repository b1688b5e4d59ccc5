-- ===== src/Playback/Frame.antt =====
-- What the calls of the playback service do besides writing a session.
use smusic.Prelude.{
  ℕ, String, ◌≡◌, refl, Bool, true, false, Option, none, some, List, [], ◌∷◌, ltb, arith,
  Bool-cases, inl, inr,
}
use smusic.Effect.{Env, State}
use smusic.Effect.Keeps.{Keeps, Any, Post, Keeps-catch, Keeps-raise, Keeps-then, Keeps-done}
use smusic.Playback.Domain.{SessionState, Stored, World, Playback, context, live}
use smusic.Playback.Resolver.{Resolved}
use smusic.Playback.Service
use smusic.Playback.Service.{Deps}

-- What is read is what was stored.
pub live-eq-some :
    (time : ℕ) (o : Option Stored) (q : SessionState)
    → live time o ≡ some q
    → (k : Stored) × (o ≡ some k) × (k.state ≡ q)
live-eq-some time none q h = cc
live-eq-some time (some k) q h = (
  k,
  refl,
  elim (Bool-cases (ltb time k.expires_at)) [
    | inl e ↦ ground (arith, h, e)
    | inr e ↦ absurd (ground (arith, h, e))
  ],
)

answer_track-Post :
    (P : World → Type 0) (env : Env) (deps : Deps) (s : State World) (o : Option Bool)
    → P s.world
    → Post P Any (Service.answer_track env deps s o)
answer_track-Post P env deps s none h = h
answer_track-Post P env deps s (some true) h = (h, tt)
answer_track-Post P env deps s (some false) h = h

answer_url-Post :
    (P : World → Type 0) (env : Env) (deps : Deps) (s : State World) (o : Option Resolved)
    → P s.world
    → Post P Any (Service.answer_url env deps s o)
answer_url-Post P env deps s none h = h
answer_url-Post P env deps s (some r) h = (h, tt)

module _ {P : World → Type 0} where
  pub context-Kept :
      {A : Type 0} {Q : A → Type 0} (text : String) (m : Playback A)
      → Keeps P Q m
      → Keeps P Q (context text m)
  context-Kept text m k = Keeps-catch m _ k (λ e. Keeps-raise _)

  pub check_track-Kept :
      (env : Env) (deps : Deps) (track_id : String)
      → Keeps P Any (Service.check_track env deps track_id)
  unfolding Service.check_track
  check_track-Kept env deps track_id = record {
    at = λ s h. answer_track-Post P env deps s (deps.track_exists s.tick track_id) h;
  }

  pub load_track-Kept :
      (env : Env) (deps : Deps) (track_id : String)
      → Keeps P Any (Service.load_track env deps track_id)
  unfolding Service.load_track
  load_track-Kept env deps track_id =
      Keeps-then _ _ (check_track-Kept env deps track_id)
        λ _. record { at = λ s h. answer_url-Post P env deps s (deps.resolve s.tick track_id) h }

  pub check_tracks-Kept :
      (env : Env) (deps : Deps) (ids : List String)
      → Keeps P Any (Service.check_tracks env deps ids)
  unfolding Service.check_tracks
  check_tracks-Kept env deps [] = Keeps-done tt
  check_tracks-Kept env deps (id ∷ ids) =
      Keeps-then _ _ (check_track-Kept env deps id) (λ _. check_tracks-Kept env deps ids)
