-- ===== src/Library/Frame.antt =====
-- Calls of the library that do not write.
use smusic.Prelude.{String, Option, none, some, Bool, true, false}
use smusic.Effect.{Env, State}
use smusic.Effect.Keeps.{Keeps, Any, Post, Keeps-catch, Keeps-raise}
use smusic.Library.Domain.{World, Deps, Library, context}
use smusic.Library.Service

answer_track-Post :
    (Q : World → Type 0) (env : Env) (deps : Deps) (s : State World) (o : Option Bool)
    → Q s.world
    → Post Q Any (Service.answer_track env deps s o)
answer_track-Post Q env deps s none h = h
answer_track-Post Q env deps s (some true) h = (h, tt)
answer_track-Post Q env deps s (some false) h = h

module _ {P : World → Type 0} where
  pub context-Kept :
      {A : Type 0} {Q : A → Type 0} (text : String) (m : Library A)
      → Keeps P Q m
      → Keeps P Q (context text m)
  context-Kept text m k = Keeps-catch m _ k (λ e. Keeps-raise _)

  pub check_track-Kept :
      (env : Env) (deps : Deps) (track_id : String)
      → Keeps P Any (Service.check_track env deps track_id)
  unfolding Service.check_track
  check_track-Kept env deps track_id = record {
    at = λ s h. answer_track-Post P env deps s (deps.track_exists s.tick track_id) h;
  }
